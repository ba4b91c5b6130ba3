-- ===== src/Invariant/Write.antt =====
-- `fs_write` keeps the file system consistent where it needs no second range of blocks.
use opperating_system_practi.Base.{
  ℕ, ◌+◌, ◌*◌, ◌≤◌, ◌<◌, true, false, ◌≡◌, refl, Option, none, some, List, length, get_or, set, ltb,
  if◌then◌else◌, arith, get_or-set,
}
use opperating_system_practi.Base.Int.{ℤ}
use opperating_system_practi.FreeList.{FreeList, allocate}
use opperating_system_practi.FreeList.Allocate.{Takes, allocate-Takes}
use opperating_system_practi.Types.{Fs, FileEntry, zero_file, block_size}
use opperating_system_practi.Disk.{save_metadata, get_meta_blocks}
use opperating_system_practi.Blocks.{allocate_blocks, take_blocks, blocks_for}
use opperating_system_practi.Files.{file_at, descriptor}
use opperating_system_practi.Data.{
  fs_write, write_found, write_file, store, reserve, reserve_in, reserve_first,
}
use opperating_system_practi.Invariant.{Consistent, IsConsistent, Fits}
use opperating_system_practi.Invariant.Sums.{replace, used_in_range}
use opperating_system_practi.Invariant.Shrink.{descriptor-live, resize}

-- The file can take bytes up to `reach` without a second range: it has no first block yet, or
-- enough blocks.
abbrev pub HasRoom : Option ℕ → ℕ → ℕ → Type 0
HasRoom none count reach = 0 < reach
HasRoom (some start) count reach = blocks_for reach ≤ count

-- The table where a file without blocks has got the `n` blocks from `a` on.
extend :
    {files : List FileEntry} {rs : FreeList} {used count : ℕ} {opens : List (Option ℕ)}
    (c : Consistent files rs used count opens) (i a n : ℕ) (rs' : FreeList)
    → (get_or files i zero_file).is_used ≡ true
    → (get_or files i zero_file).start_block ≡ none
    → Takes get_meta_blocks n rs a rs'
    → Consistent
        (set files i (record (get_or files i zero_file) { start_block = some a; block_count = n }))
        rs'
        (used + n)
        count
        opens
extend {files} {rs} {used} {count} {opens} c i a n rs' u e t =
    replace c i _ (used_in_range files i u) rs' (used + n) count opens t.coalesced
      (λ b. ground (arith, t.left b, t.was_free b)) (ground arith) refl (ground (arith, c.sound i))
      refl
      (λ fd j h. ground (
        arith,
        c.live fd j h,
        get_or-set files i j
            (record (get_or files i zero_file) { start_block = some a; block_count = n }) zero_file
            (used_in_range files i u),
      ))

-- What the first part of `fs_write` leaves to the second one.
pub record Ready (i reach : ℕ) (t : Fs) (o : Option ℕ) : Type 0 where
  pub consistent : IsConsistent t
  pub ready :
      (a : ℕ)
      → o ≡ some a
      → ((file_at t i).is_used ≡ true)
        × ((file_at t i).start_block ≡ some a)
        × (reach ≤ (file_at t i).block_count * block_size)

first-Ready :
    (found : Option (ℕ × FreeList)) (i reach : ℕ) (s : Fs)
    → IsConsistent s
    → (file_at s i).is_used ≡ true
    → (file_at s i).start_block ≡ none
    → 0 < reach
    → allocate (blocks_for reach) s.free_list ≡ found
    → let r =
        reserve_first i (blocks_for reach) (file_at s i) (take_blocks (blocks_for reach) s found) in
      Ready i reach r.0 r.1
unfolding reserve_first take_blocks
first-Ready none i reach s c u e h k = record { consistent = c; ready = λ a p. cc }
first-Ready (some (a, rs')) i reach s c u e h k = record {
  consistent = extend c i a (blocks_for reach) rs' u e (
      allocate-Takes get_meta_blocks (blocks_for reach) s.free_list a rs' c.coalesced (omega arith)
        k);
  ready = λ a' p. ground (
    arith,
    get_or-set s.file_table i i
        (record (file_at s i) { start_block = some a; block_count = blocks_for reach }) zero_file
        (used_in_range s.file_table i u),
  );
}

pub reserve-Ready :
    (o : Option ℕ) (i reach : ℕ) (s : Fs)
    → IsConsistent s
    → (file_at s i).is_used ≡ true
    → (file_at s i).start_block ≡ o
    → HasRoom o (file_at s i).block_count reach
    → let r = reserve_in o i (blocks_for reach) (file_at s i) s in Ready i reach r.0 r.1
unfolding reserve_in allocate_blocks
reserve-Ready none i reach s c u e h = first-Ready _ i reach s c u e h refl
reserve-Ready (some a) i reach s c u e h =
    let enough : ltb (file_at s i).block_count (blocks_for reach) ≡ false = ground arith in
    rw enough (record { consistent = c; ready = λ a' p. (u, ground arith, omega arith) })

Fits-larger :
    (o : Option ℕ) (n size reach a : ℕ)
    → o ≡ some a
    → reach ≤ n * block_size
    → Fits o n size
    → Fits o n (if ltb size reach then reach else size)
Fits-larger none n size reach a e h f = cc
Fits-larger (some a') n size reach a e h f = ground arith

store-IsConsistent :
    (i position : ℕ) (buffer : List ℕ) (now : ℕ) (t : Fs) (o : Option ℕ)
    → Ready i (position + length buffer) t o
    → IsConsistent (store i position buffer now (t, o)).0
unfolding store save_metadata
store-IsConsistent i position buffer now t none r = r.consistent
store-IsConsistent i position buffer now t (some a) r =
    let (u, e, fits) = r.ready a refl in
    resize t r.consistent i
      (if ltb (file_at t i).size (position + length buffer)
        then position + length buffer
        else (file_at t i).size)
      now u
      (Fits-larger (file_at t i).start_block _ (file_at t i).size (position + length buffer) a e
        fits (r.consistent.sound i u))

write_found-IsConsistent :
    (o : Option ℕ) (position : ℕ) (buffer : List ℕ) (now : ℕ) (s : Fs)
    → IsConsistent s
    → ((i : ℕ)
        → o ≡ some i
        → ((file_at s i).is_used ≡ true)
          × HasRoom (file_at s i).start_block (file_at s i).block_count (position + length buffer))
    → IsConsistent (write_found o position buffer now s).0
unfolding write_found write_file reserve
write_found-IsConsistent none position buffer now s c h = c
write_found-IsConsistent (some i) position buffer now s c h =
    store-IsConsistent i position buffer now _ _ (
      reserve-Ready (file_at s i).start_block i (position + length buffer) s c (h i refl).0 refl
        (h i refl).1)

-- `fs_write` keeps the file system consistent, if the file of the descriptor has no block yet and
-- the write ends behind byte 0, or if the write ends within the blocks of the file.
pub fs_write-IsConsistent :
    (fd : ℤ) (position : ℕ) (buffer : List ℕ) (now : ℕ) (s : Fs)
    → IsConsistent s
    → ((i : ℕ)
        → descriptor s fd ≡ some i
        → HasRoom (file_at s i).start_block (file_at s i).block_count (position + length buffer))
    → IsConsistent (fs_write fd position buffer now s).0
unfolding fs_write
fs_write-IsConsistent fd position buffer now s c h =
    write_found-IsConsistent (descriptor s fd) position buffer now s c
      (λ i e. (descriptor-live s fd i c e, h i e))
