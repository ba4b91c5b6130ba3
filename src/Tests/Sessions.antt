-- ===== src/Tests/Sessions.antt =====
-- The theorems on the file system along a session: a new disk, the files "a" and "b", one write to
-- each, and the growth of "a" into "b".
use mathlib.Core.Path.{subst}
use mathlib.Core.Option.{some-injective}
use opperating_system_practi.Base.{
  ℕ, ◌<◌, ◌≡◌, ◌≢◌, refl, Option, some, none, bytes, length, replicate, arith, find_index, str_eq,
}
use opperating_system_practi.Base.Int.{pos}
use opperating_system_practi.FreeList.{allocate}
use opperating_system_practi.Blocks.{allocate_blocks}
use opperating_system_practi.Disk.{fwrite}
use opperating_system_practi.Types.{Fs, max_files}
use opperating_system_practi.Boot.{
  fs_init, fs_close, fs_format, absent, present, at_start, zero_disk,
}
use opperating_system_practi.Files.{
  fs_create, fs_open, fs_delete, find_file_index, descriptor, o_creat, file_at,
}
use opperating_system_practi.Data.{fs_read, fs_write, fs_shrink}
use opperating_system_practi.Data.ReadBack.{read-write}
use opperating_system_practi.Data.Isolation.{read-write_other}
use opperating_system_practi.Invariant.{own, IsConsistent}
use opperating_system_practi.Invariant.Start.{
  get_or-replicate, fs_init-IsConsistent, fs_format-IsConsistent,
}
use opperating_system_practi.Invariant.Create.{fs_create-IsConsistent, fs_open-IsConsistent}
use opperating_system_practi.Invariant.Delete.{fs_delete-IsConsistent, HasBlocks}
use opperating_system_practi.Invariant.Shrink.{fs_shrink-IsConsistent}
use opperating_system_practi.Invariant.Write.{fs_write-IsConsistent, HasRoom}
use opperating_system_practi.Invariant.Grow.{fs_write-overlaps}
use opperating_system_practi.Invariant.Reload.{reload}

abbrev or_start : Option Fs → Fs
or_start none = at_start zero_disk
or_start (some s) = s

abbrev fresh : Fs
unfolding fs_init
fresh = or_start (fs_init absent)

fs_init-IsConsistent_example : IsConsistent fresh
unfolding fs_init
fs_init-IsConsistent_example = fs_init-IsConsistent fresh refl

fs_create-IsConsistent_example : IsConsistent (fs_create (bytes "a") 0o644 1 1 fresh).0
unfolding fs_init
fs_create-IsConsistent_example =
    fs_create-IsConsistent (bytes "a") 0o644 1 1 fresh (fs_init-IsConsistent fresh refl)

abbrev with_a : Fs
unfolding fs_init fs_open find_index str_eq
with_a = (fs_open (bytes "a") o_creat 1 1 fresh).0

fs_open-IsConsistent_example : IsConsistent with_a
unfolding fs_init fs_open find_index str_eq
fs_open-IsConsistent_example =
    fs_open-IsConsistent (bytes "a") o_creat 1 1 fresh (fs_init-IsConsistent fresh refl)

-- "a" on descriptor 0 and "b" on descriptor 1
abbrev with_both : Fs
unfolding fs_init fs_open find_index str_eq
with_both = (fs_open (bytes "b") o_creat 2 2 with_a).0

with_both-IsConsistent : IsConsistent with_both
unfolding fs_init fs_open find_index str_eq
with_both-IsConsistent =
    fs_open-IsConsistent (bytes "b") o_creat 2 2 with_a
      (fs_open-IsConsistent (bytes "a") o_creat 1 1 fresh (fs_init-IsConsistent fresh refl))

with_both-descriptors :
    (descriptor with_both (pos 0) ≡ some 0) × (descriptor with_both (pos 1) ≡ some 1)
unfolding fs_init fs_open find_index str_eq descriptor
with_both-descriptors = (refl, refl)

-- The first write to each file takes one block: 29 and 30.
abbrev a_written : Fs
unfolding fs_init fs_open find_index str_eq fs_write descriptor allocate_blocks allocate
a_written = (fs_write (pos 0) 0 (bytes "hello") 3 with_both).0

abbrev both_written : Fs
unfolding fs_init fs_open find_index str_eq fs_write descriptor allocate_blocks allocate
both_written = (fs_write (pos 1) 0 (bytes "world") 4 a_written).0

both_written-blocks :
    ((file_at both_written 0).start_block ≡ some 29)
    × ((file_at both_written 1).start_block ≡ some 30)
    × (both_written.super_block.used_blocks ≡ 31)
unfolding fs_init fs_open find_index str_eq fs_write descriptor allocate_blocks allocate
both_written-blocks = (refl, refl, refl)

fs_write-IsConsistent_example : IsConsistent a_written
unfolding fs_init fs_open find_index str_eq fs_write descriptor allocate_blocks allocate
fs_write-IsConsistent_example =
    fs_write-IsConsistent (pos 0) 0 (bytes "hello") 3 with_both with_both-IsConsistent (λ i e.
      subst (λ k. HasRoom (file_at with_both k).start_block (file_at with_both k).block_count 5)
        (some-injective 0 i e) (omega arith))

both_written-IsConsistent : IsConsistent both_written
unfolding fs_init fs_open find_index str_eq fs_write descriptor allocate_blocks allocate
both_written-IsConsistent =
    fs_write-IsConsistent (pos 1) 0 (bytes "world") 4 a_written
      (fs_write-IsConsistent (pos 0) 0 (bytes "hello") 3 with_both with_both-IsConsistent (λ i e.
        subst (λ k. HasRoom (file_at with_both k).start_block (file_at with_both k).block_count 5)
          (some-injective 0 i e) (omega arith)))
      (λ i e.
        subst (λ k. HasRoom (file_at a_written k).start_block (file_at a_written k).block_count 5)
          (some-injective 1 i e) (omega arith))

read-write_example :
    (5 ≡ length (bytes "hello"))
    × (fs_read (pos 0) 0 5 (fs_write (pos 0) 0 (bytes "hello") 3 with_both).0
        ≡ some (bytes "hello"))
unfolding fs_init fs_open find_index str_eq fs_write descriptor allocate_blocks allocate
read-write_example =
    read-write (pos 0) 0 (bytes "hello") 3 5 with_both
      (λ i e. subst (λ k. k < length with_both.file_table) (some-injective 0 i e) (omega arith))
      (omega arith) refl

-- Writing "b" leaves the bytes of "a".
read-write_other_example : fs_read (pos 0) 1 9 both_written ≡ fs_read (pos 0) 1 9 a_written
unfolding fs_init fs_open find_index str_eq fs_write descriptor allocate_blocks allocate fwrite
read-write_other_example =
    read-write_other (pos 1) (pos 0) 0 1 9 0 (bytes "world") 4 a_written
      (fs_write-IsConsistent (pos 0) 0 (bytes "hello") 3 with_both with_both-IsConsistent (λ i e.
        subst (λ k. HasRoom (file_at with_both k).start_block (file_at with_both k).block_count 5)
          (some-injective 0 i e) (omega arith)))
      (λ i e.
        subst
          (λ k.
            (k ≢ 0) × HasRoom (file_at a_written k).start_block (file_at a_written k).block_count 5)
          (some-injective 1 i e) (omega arith))
      (omega arith) refl

-- "a" grows to 600 bytes, beyond its block 29; block 30 belongs to "b".
fs_write-overlaps_example :
    (own 30 (file_at (fs_write (pos 0) 0 (replicate 600 b'x') 5 both_written).0 0) ≡ 1)
    × (own 30 (file_at (fs_write (pos 0) 0 (replicate 600 b'x') 5 both_written).0 1) ≡ 1)
    × (¬ IsConsistent (fs_write (pos 0) 0 (replicate 600 b'x') 5 both_written).0)
unfolding fs_init fs_open find_index str_eq fs_write descriptor allocate_blocks allocate
fs_write-overlaps_example =
    fs_write-overlaps (pos 0) 0 1 0 29 (replicate 600 b'x') 5 both_written both_written-IsConsistent
      refl (omega arith) refl (omega arith) refl (λ p. cc)

fs_shrink-IsConsistent_example : IsConsistent (fs_shrink (pos 0) 2 6 both_written).0
unfolding fs_init fs_open find_index str_eq fs_write descriptor allocate_blocks allocate
fs_shrink-IsConsistent_example =
    fs_shrink-IsConsistent (pos 0) 2 6 both_written both_written-IsConsistent

fs_delete-IsConsistent_example : IsConsistent (fs_delete (bytes "a") both_written).0
unfolding fs_init fs_open find_index str_eq fs_write descriptor allocate_blocks allocate
    find_file_index
fs_delete-IsConsistent_example =
    fs_delete-IsConsistent (bytes "a") both_written both_written-IsConsistent (λ i e.
      subst (λ k. HasBlocks (file_at both_written k)) (some-injective 0 i e) (λ p. omega arith))

reload_example :
    fs_init (present (fs_close both_written))
    ≡ some (record both_written {
      open_files = replicate max_files none;
      current_uid = 0;
      disk = fs_close both_written;
    })
unfolding fs_init fs_open find_index str_eq fs_write descriptor allocate_blocks allocate
reload_example = reload both_written both_written-IsConsistent refl

fs_format-IsConsistent_example : IsConsistent (fs_format fresh)
unfolding fs_init
fs_format-IsConsistent_example =
    fs_format-IsConsistent fresh refl
      (λ fd i. rw (get_or-replicate {A = Option ℕ} max_files fd none) (λ p. cc))
