-- ===== src/Invariant/Reload.antt =====
-- `load_metadata` rebuilds the free list and `used_blocks` that the session had.
use opperating_system_practi.Base.{
  ℕ, ◌+◌, ◌-◌, ◌<◌, true, ◌&&◌, ◌≡◌, refl, ap₂, suc, inl, inr, Option, none, some, List, [], ◌∷◌,
  get_or, ltb, ◌==◌, arith, replicate, Bool-cases, ==_iff,
}
use opperating_system_practi.FreeList.{FreeList, region}
use opperating_system_practi.FreeList.Blocks.{is_free, Coalesced}
use opperating_system_practi.FreeList.Remove.{remove_range-Loses}
use opperating_system_practi.FreeList.Canonical.{canonical}
use opperating_system_practi.Types.{Fs, FileEntry, zero_file, magic_number, max_files}
use opperating_system_practi.Disk.{get_meta_blocks}
use opperating_system_practi.Boot.{load_file, load_files, fs_init, fs_close, present, total_blocks}
use opperating_system_practi.Invariant.Delete.{owned_block}
use opperating_system_practi.Invariant.{IsConsistent, own, blocks_of, sum_of}

-- Every first block that the table holds is behind block 0, as all data blocks are.
abbrev Starts : Option ℕ → ℕ → Type 0
Starts none n = Unit {0}
Starts (some a) n = 0 < n → 0 < a

abbrev AllStart : List FileEntry → Type 0
AllStart [] = Unit {0}
AllStart (f ∷ fs) = (f.is_used ≡ true → Starts f.start_block f.block_count) × AllStart fs

-- What a round of the loop does to the blocks and to the counter.
record Loads (m : ℕ → ℕ) (n used used' : ℕ) (rs rs' : FreeList) : Type 0 where
  coalesced : Coalesced get_meta_blocks rs'
  left : (b : ℕ) → is_free rs' b ≡ is_free rs b && (m b == 0)
  counted : used' ≡ used + n

load_file-Loads :
    (o : Option ℕ) (f : FileEntry) (used : ℕ) (rs : FreeList)
    → Coalesced get_meta_blocks rs
    → f.start_block ≡ o
    → (f.is_used ≡ true → Starts o f.block_count)
    → let r = load_file f (used, rs) in Loads (λ b. own b f) (blocks_of f) used r.0 rs r.1
unfolding load_file
load_file-Loads none f used rs w e h =
    rw e (record { coalesced = w; left = λ b. ground arith; counted = ground arith })
load_file-Loads (some a) f used rs w e h = elim (Bool-cases (f.is_used && ltb 0 f.block_count)) [
  | inl takes ↦
      let l =
        remove_range-Loses get_meta_blocks a f.block_count rs w (ground arith) (ground arith) in
      rw (e, takes)
        (record {
          coalesced = l.coalesced;
          left = λ b. ground (arith, l.left b);
          counted = ground arith;
        })
  | inr skips ↦
      rw (e, skips) (record { coalesced = w; left = λ b. ground arith; counted = ground arith })
]

load_files-Loads :
    (fs : List FileEntry) (used : ℕ) (rs : FreeList)
    → Coalesced get_meta_blocks rs
    → AllStart fs
    → let r = load_files fs (used, rs) in
      Loads (λ b. sum_of (own b) fs) (sum_of blocks_of fs) used r.0 rs r.1
unfolding load_files
load_files-Loads [] used rs w h = record {
  coalesced = w;
  left = λ b. ground arith;
  counted = omega arith;
}
load_files-Loads (f ∷ fs) used rs w h =
    let one = load_file-Loads f.start_block f used rs w refl h.0 in
    let r = load_file f (used, rs) in
    let rest = load_files-Loads fs r.0 r.1 one.coalesced h.1 in
    record {
      coalesced = rest.coalesced;
      left = λ b. ground (arith, one.left b, rest.left b);
      counted = omega (arith, one.counted, rest.counted);
    }

AllStart-intro :
    (fs : List FileEntry)
    → ((i : ℕ)
        → (get_or fs i zero_file).is_used ≡ true
        → Starts (get_or fs i zero_file).start_block (get_or fs i zero_file).block_count)
    → AllStart fs
AllStart-intro [] h = tt
AllStart-intro (f ∷ fs) h = (h 0, AllStart-intro fs (λ i. h (suc i)))

module _ (s : Fs) (c : IsConsistent s) where
  starts :
      (i : ℕ) (o : Option ℕ)
      → (get_or s.file_table i zero_file).is_used ≡ true
      → (get_or s.file_table i zero_file).start_block ≡ o
      → Starts o (get_or s.file_table i zero_file).block_count
  starts i none u e = tt
  starts i (some a) u e = λ h. ground (arith, owned_block c i a _ u e refl a)

  -- the list that `init_free_list` makes
  abbrev whole : FreeList
  whole = region get_meta_blocks (total_blocks - 1) ∷ []

  loaded :
      Loads
        (λ b. sum_of (own b) s.file_table)
        (sum_of blocks_of s.file_table)
        get_meta_blocks
        (load_files s.file_table (get_meta_blocks, whole)).0
        whole
        (load_files s.file_table (get_meta_blocks, whole)).1
  loaded =
      load_files-Loads s.file_table get_meta_blocks whole (omega arith)
        (AllStart-intro s.file_table (λ i u. starts i _ u refl))

  -- The loop of `load_metadata` gives the free list and the count of used blocks of the session.
  pub load_files-eq :
      load_files s.file_table (get_meta_blocks, whole) ≡ (s.super_block.used_blocks, s.free_list)
  load_files-eq =
      ap₂ (λ (u : ℕ) (l : FreeList). (u, l)) (omega (arith, loaded.counted, c.used_lem))
        (canonical get_meta_blocks get_meta_blocks _ s.free_list loaded.coalesced c.coalesced
          (λ b. unfold is_free in ground (arith, loaded.left b, c.partition b)))

  -- Closing and opening again gives back every static variable but the descriptors, which are all
  -- free, and the current user, who is root; the free list is rebuilt from the file table alone.
  pub reload :
      s.super_block.magic ≡ magic_number
      → fs_init (present (fs_close s))
        ≡ some
            (record s { open_files = replicate max_files none; current_uid = 0; disk = fs_close s })
  unfolding fs_init fs_close
  reload m = rw (load_files-eq, (==_iff s.super_block.magic magic_number).1 m)
