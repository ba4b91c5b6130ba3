-- ===== src/Invariant.antt =====
-- The consistency of the file table, the free list, the counters of the superblock and the
-- descriptors of File-System/filesystem.c.
pub mod Sums
pub mod Create
pub mod Delete
pub mod Shrink
pub mod Write
pub mod Grow
pub mod Reload
pub mod Start
use opperating_system_practi.Base.{
  ℕ, ◌+◌, ◌*◌, ◌≤◌, ◌<◌, Bool, true, false, ◌&&◌, ◌≡◌, Option, none, some, List, [], ◌∷◌, leb, ltb,
  if◌then◌else◌, length, get_or,
}
use opperating_system_practi.FreeList.{FreeList}
use opperating_system_practi.FreeList.Blocks.{in_run, is_free, Coalesced}
use opperating_system_practi.Types.{Fs, FileEntry, zero_file, block_size, max_files}
use opperating_system_practi.Disk.{get_meta_blocks}
use opperating_system_practi.Boot.{total_blocks}

abbrev pub indicator : Bool → ℕ
indicator true = 1
indicator false = 0

-- 1 for the blocks behind the metadata, 0 for others
abbrev pub in_data : ℕ → ℕ
in_data b = indicator (leb get_meta_blocks b && ltb b total_blocks)

abbrev pub claims : Option ℕ → ℕ → ℕ → ℕ
claims none count b = 0
claims (some start) count b = indicator (in_run start count b)

-- 1 if the block belongs to the file
abbrev pub own : ℕ → FileEntry → ℕ
own b f = if f.is_used then claims f.start_block f.block_count b else 0

abbrev held : Option ℕ → ℕ → ℕ
held none count = 0
held (some start) count = count

abbrev pub blocks_of : FileEntry → ℕ
blocks_of f = if f.is_used then held f.start_block f.block_count else 0

abbrev pub used_one : FileEntry → ℕ
used_one f = indicator f.is_used

abbrev pub sum_of : (FileEntry → ℕ) → List FileEntry → ℕ
sum_of m [] = 0
sum_of m (f ∷ fs) = m f + sum_of m fs

abbrev pub Fits : Option ℕ → ℕ → ℕ → Type 0
Fits none count size = (count ≡ 0) × (size ≡ 0)
Fits (some start) count size = size ≤ count * block_size

-- A file in use that has no first block has no block and no byte; any other has room for its bytes.
abbrev pub IsSound : FileEntry → Type 0
IsSound f = f.is_used ≡ true → Fits f.start_block f.block_count f.size

pub record Consistent (files : List FileEntry) (rs : FreeList) (used count : ℕ)
    (opens : List (Option ℕ)) : Type 0 where
  pub coalesced : Coalesced get_meta_blocks rs
  -- A data block is free or belongs to one file, never both and never to two; no other block is
  -- free or belongs to a file.
  pub partition : (b : ℕ) → sum_of (own b) files + indicator (is_free rs b) ≡ in_data b
  pub used_lem : used ≡ get_meta_blocks + sum_of blocks_of files
  pub count_lem : count ≡ sum_of used_one files
  pub sound : (i : ℕ) → IsSound (get_or files i zero_file)
  pub slots : length files ≡ max_files
  pub descriptors : length opens ≡ max_files
  -- An open descriptor stands for a file in use.
  pub live : (fd i : ℕ) → get_or opens fd none ≡ some i → (get_or files i zero_file).is_used ≡ true

abbrev pub IsConsistent : Fs → Type 0
IsConsistent s =
    Consistent s.file_table s.free_list s.super_block.used_blocks s.super_block.file_count
      s.open_files
