-- ===== src/Invariant/Grow.antt =====
-- `fs_write` breaks consistency where it grows a file into a block that belongs to another one.
use opperating_system_practi.Base.{
  ℕ, ◌+◌, ◌<◌, true, ◌≡◌, ◌≢◌, refl, sym, Option, none, some, List, length, get_or, set, ltb, arith,
  get_or-set, get_or-set_self, get_or-set_ne, length-set,
}
use opperating_system_practi.Base.Int.{ℤ}
use opperating_system_practi.FreeList.{FreeList}
use opperating_system_practi.Types.{Fs, FileEntry, zero_file}
use opperating_system_practi.Disk.{save_metadata}
use opperating_system_practi.Blocks.{allocate_blocks, take_blocks, blocks_for}
use opperating_system_practi.Files.{file_at, descriptor}
use opperating_system_practi.Data.{
  fs_write, write_found, write_file, store, reserve, reserve_in, reserve_more,
}
use opperating_system_practi.Invariant.{Consistent, IsConsistent, own}
use opperating_system_practi.Invariant.Sums.{add-le-sum_of, used_in_range}
use opperating_system_practi.Invariant.Shrink.{descriptor-live}

-- No consistent table has two files in use that claim one block.
pub shared_block :
    {files : List FileEntry} {rs : FreeList} {used count : ℕ} {opens : List (Option ℕ)} (i j b : ℕ)
    → i ≢ j
    → own b (get_or files i zero_file) ≡ 1
    → own b (get_or files j zero_file) ≡ 1
    → ¬ Consistent files rs used count opens
shared_block {files} i j b ne hi hj c =
    ground (arith, c.partition b, add-le-sum_of (own b) files i j refl ne)

-- Both files claim the block.
abbrev pub Claimed : ℕ → ℕ → ℕ → List FileEntry → Type 0
Claimed i j b files =
    (own b (get_or files i zero_file) ≡ 1) × (own b (get_or files j zero_file) ≡ 1)

-- An entry that has been written twice: once for its blocks, once for its size.
twice_shared :
    (files : List FileEntry) (i j b : ℕ) (f g : FileEntry)
    → i < length files
    → i ≢ j
    → own b g ≡ 1
    → own b (get_or files j zero_file) ≡ 1
    → Claimed i j b (set (set files i f) i g)
twice_shared files i j b f g within ne hi hj = (
  rw (get_or-set (set files i f) i i g zero_file (omega (arith, length-set files i f)))
      (ground arith),
  rw (get_or-set_ne (set files i f) i j g zero_file ne, get_or-set_ne files i j f zero_file ne) hj,
)

grow_found :
    (found : Option (ℕ × FreeList)) (i j position a n : ℕ) (buffer : List ℕ) (now : ℕ) (s : Fs)
    → i ≢ j
    → (file_at s i).is_used ≡ true
    → (file_at s i).start_block ≡ some a
    → (file_at s i).block_count < blocks_for (position + length buffer)
    → own (a + (file_at s i).block_count) (file_at s j) ≡ 1
    → let r = store i position buffer now (
        reserve_more i
          (blocks_for (position + length buffer))
          (file_at s i)
          a
          (take_blocks n s found)) in
      r.1 ≢ none → Claimed i j (a + (file_at s i).block_count) r.0.file_table
unfolding store reserve_more take_blocks save_metadata
grow_found none i j position a n buffer now s ne u e h o succeeds = absurd (succeeds refl)
grow_found (some (a', rs')) i j position a n buffer now s ne u e h o succeeds =
    twice_shared s.file_table i j (a + (file_at s i).block_count)
      (record (file_at s i) { block_count = blocks_for (position + length buffer) }) _
      (used_in_range s.file_table i u) ne
      (rw
        (get_or-set_self s.file_table i
          (record (file_at s i) { block_count = blocks_for (position + length buffer) }) zero_file
          (used_in_range s.file_table i u))
        (ground arith))
      o

grow_in :
    (o : Option ℕ) (i j position a : ℕ) (buffer : List ℕ) (now : ℕ) (s : Fs)
    → i ≢ j
    → (file_at s i).is_used ≡ true
    → (file_at s i).start_block ≡ o
    → o ≡ some a
    → (file_at s i).block_count < blocks_for (position + length buffer)
    → own (a + (file_at s i).block_count) (file_at s j) ≡ 1
    → let r =
        store i position buffer now
          (reserve_in o i (blocks_for (position + length buffer)) (file_at s i) s) in
      r.1 ≢ none → Claimed i j (a + (file_at s i).block_count) r.0.file_table
unfolding reserve_in allocate_blocks
grow_in none i j position a buffer now s ne u e p h o = cc
grow_in (some a') i j position a buffer now s ne u e p h o =
    let grows : ltb (file_at s i).block_count (blocks_for (position + length buffer)) ≡ true =
      ground arith in
    let q : a' ≡ a = ground arith in
    rw (grows, sym q) (grow_found _ i j position a' _ buffer now s ne u e h (rw q o))

-- The growth of a file does not look where the new blocks are: where the block behind the file `i`
-- belongs to another file `j`, a successful `fs_write` beyond the blocks of `i` leaves both files
-- claiming that block, and the file system is no longer consistent.
pub fs_write-overlaps :
    (fd : ℤ) (i j position a : ℕ) (buffer : List ℕ) (now : ℕ) (s : Fs)
    → IsConsistent s
    → descriptor s fd ≡ some i
    → i ≢ j
    → (file_at s i).start_block ≡ some a
    → (file_at s i).block_count < blocks_for (position + length buffer)
    → own (a + (file_at s i).block_count) (file_at s j) ≡ 1
    → (fs_write fd position buffer now s).1 ≢ none
    → (own (a + (file_at s i).block_count) (file_at (fs_write fd position buffer now s).0 i) ≡ 1)
      × (own (a + (file_at s i).block_count) (file_at (fs_write fd position buffer now s).0 j) ≡ 1)
      × (¬ IsConsistent (fs_write fd position buffer now s).0)
unfolding fs_write write_found write_file reserve
fs_write-overlaps fd i j position a buffer now s c d ne e h o succeeds =
    let b : ℕ = a + (file_at s i).block_count in
    let claims_both : (fs_write fd position buffer now s).1 ≢ none
        → Claimed i j b (fs_write fd position buffer now s).0.file_table =
      rw d (
        grow_in (file_at s i).start_block i j position a buffer now s ne
          (descriptor-live s fd i c d) refl e h o) in
    let (hi, hj) = claims_both succeeds in (hi, hj, shared_block i j b ne hi hj)
