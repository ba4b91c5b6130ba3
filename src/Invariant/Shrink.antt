-- ===== src/Invariant/Shrink.antt =====
-- `fs_shrink` gives the last blocks of a file back, and keeps the file system consistent.
use opperating_system_practi.Invariant.Delete.{shorten}
use opperating_system_practi.Base.{
  ℕ, ◌-◌, ◌<◌, true, ◌≡◌, refl, inl, inr, Option, none, some, leb, ltb, arith, get_or-set,
  Bool-cases,
}
use opperating_system_practi.Base.Int.{ℤ}
use opperating_system_practi.Types.{Fs, zero_file}
use opperating_system_practi.Disk.{save_metadata}
use opperating_system_practi.Blocks.{free_blocks, blocks_for}
use opperating_system_practi.Files.{file_at, descriptor}
use opperating_system_practi.Data.{fs_shrink, shrink_file, shrink_found, put_file, block_after}
use opperating_system_practi.Invariant.{IsConsistent, Fits}
use opperating_system_practi.Invariant.Sums.{replace, used_in_range}

-- The table where an entry changes in its size and its time only.
pub resize :
    (s : Fs) (c : IsConsistent s) (i size' now : ℕ)
    → (file_at s i).is_used ≡ true
    → Fits (file_at s i).start_block (file_at s i).block_count size'
    → IsConsistent (put_file i (record (file_at s i) { size = size'; modify_time = now }) s)
resize s c i size' now u fits =
    replace c i _ (used_in_range s.file_table i u) s.free_list _ _ s.open_files c.coalesced
      (λ b. refl) refl refl (λ p. fits) refl
      (λ fd j h. ground (
        arith,
        c.live fd j h,
        get_or-set s.file_table i j (record (file_at s i) { size = size'; modify_time = now })
            zero_file (used_in_range s.file_table i u),
      ))

Fits-mono : (o : Option ℕ) (n size size' : ℕ) → size' < size → Fits o n size → Fits o n size'
Fits-mono none n size size' h f = absurd (omega arith)
Fits-mono (some a) n size size' h f = omega arith

shrink_blocks :
    (o : Option ℕ) (n i new_size now : ℕ) (s : Fs)
    → IsConsistent s
    → (file_at s i).is_used ≡ true
    → (file_at s i).start_block ≡ o
    → (file_at s i).block_count ≡ n
    → Fits o n (file_at s i).size
    → blocks_for new_size < n
    → IsConsistent (
        put_file i
          (record (file_at s i) {
            block_count = blocks_for new_size;
            size = new_size;
            modify_time = now;
          })
          (free_blocks (block_after o (blocks_for new_size)) (n - blocks_for new_size) s))
unfolding free_blocks
shrink_blocks none n i new_size now s c u e k f h = absurd (omega arith)
shrink_blocks (some a) n i new_size now s c u e k f h =
    shorten c i a n u e k (blocks_for new_size) new_size now h (omega arith)

shrink_file-IsConsistent :
    (i new_size now : ℕ) (s : Fs)
    → IsConsistent s
    → (file_at s i).is_used ≡ true
    → IsConsistent (shrink_file i new_size now s).0
unfolding shrink_file save_metadata
shrink_file-IsConsistent i new_size now s c u =
    elim (Bool-cases (leb (file_at s i).size new_size)) [
      | inl larger ↦ rw larger c
      | inr smaller ↦ elim (Bool-cases (ltb (blocks_for new_size) (file_at s i).block_count)) [
        | inl frees ↦
            rw (smaller, frees)
              (shrink_blocks (file_at s i).start_block (file_at s i).block_count i new_size now s c
                u refl refl (c.sound i u) (ground arith))
        | inr stays ↦
            rw (smaller, stays)
              (resize s c i new_size now u (
                Fits-mono (file_at s i).start_block _ (file_at s i).size new_size (ground arith)
                  (c.sound i u)))
      ]
    ]

-- The file of an open descriptor is in use.
pub descriptor-live :
    (s : Fs) (fd : ℤ) (i : ℕ)
    → IsConsistent s
    → descriptor s fd ≡ some i
    → (file_at s i).is_used ≡ true
unfolding descriptor
descriptor-live s (ℤ.negsuc n) i c h = cc
descriptor-live s (ℤ.pos n) i c h = ground (arith, c.live n i)

shrink_found-IsConsistent :
    (o : Option ℕ) (new_size now : ℕ) (s : Fs)
    → IsConsistent s
    → ((i : ℕ) → o ≡ some i → (file_at s i).is_used ≡ true)
    → IsConsistent (shrink_found o new_size now s).0
unfolding shrink_found
shrink_found-IsConsistent none new_size now s c h = c
shrink_found-IsConsistent (some i) new_size now s c h =
    shrink_file-IsConsistent i new_size now s c (h i refl)

-- `fs_shrink` keeps the file system consistent, whatever the descriptor and the size.
pub fs_shrink-IsConsistent :
    (fd : ℤ) (new_size now : ℕ) (s : Fs)
    → IsConsistent s
    → IsConsistent (fs_shrink fd new_size now s).0
unfolding fs_shrink
fs_shrink-IsConsistent fd new_size now s c =
    shrink_found-IsConsistent (descriptor s fd) new_size now s c (λ i. descriptor-live s fd i c)
