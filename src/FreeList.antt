-- ===== src/FreeList.antt =====
-- The free-space list of File-System/filesystem.c: the `FreeBlockNode` chain as a list of regions,
-- and the list surgery of `allocate_blocks`, `fs_alloc`, `free_blocks`, `fs_free` and
-- `remove_range_from_freelist`. A `next` pointer is the tail of the list, and `prev` is the region
-- that a recursion has just passed. The counter `used_blocks` is updated by the callers, in
-- `FileSystem.Blocks`. Block numbers are below 2^31, and `end_block + 1` is at least `start_block`
-- in every list that these functions build.
pub mod Blocks
pub mod Allocate
pub mod Release
pub mod Remove
pub mod Canonical
pub mod Roundtrip
pub mod Count
use opperating_system_practi.Base.{
  ℕ, ◌+◌, ◌-◌, Bool, false, ◌&&◌, Option, none, some, List, [], ◌∷◌, leb, ltb, ◌==◌, if◌then◌else◌,
}

-- `FreeBlockNode`: both ends belong to the region.
pub record Region : Type 0 where
  pub start_block : ℕ
  pub end_block : ℕ

abbrev pub FreeList : Type 0
FreeList = List Region

abbrev pub region : ℕ → ℕ → Region
region s e = record { start_block = s; end_block = e }

-- `get_block_count`
abbrev pub get_block_count : Region → ℕ
get_block_count node = node.end_block + 1 - node.start_block

abbrev pub keep : Region → Option (ℕ × FreeList) → Option (ℕ × FreeList)
keep r none = none
keep r (some (a, rs)) = some (a, r ∷ rs)

-- The loop of `allocate_blocks` and of `fs_alloc`: the first region that is large enough gives its
-- first `count` blocks; the result is their first block and the list that is left.
unfoldable pub allocate : ℕ → FreeList → Option (ℕ × FreeList)
allocate count [] = none
allocate count (curr ∷ rest) =
    if leb count (get_block_count curr)
    then (if get_block_count curr == count
        then some (curr.start_block, rest)
        else some (curr.start_block, region (curr.start_block + count) curr.end_block ∷ rest))
    else keep curr (allocate count rest)

-- `curr && curr->start_block < start`, the test of the search loop of `free_blocks`
abbrev pub starts_below : ℕ → FreeList → Bool
starts_below start [] = false
starts_below start (curr ∷ rest) = ltb curr.start_block start

-- The merge step of `free_blocks` where `prev` is NULL; the list begins at `curr`.
insert_first : ℕ → ℕ → FreeList → FreeList
insert_first start end [] = region start end ∷ []
insert_first start end (curr ∷ rest) =
    if end + 1 == curr.start_block
    then region start curr.end_block ∷ rest
    else region start end ∷ curr ∷ rest

-- The merge step of `free_blocks` behind `prev`; the list begins at `curr`.
insert_after : Region → ℕ → ℕ → FreeList → FreeList
insert_after prev start end [] =
    if prev.end_block + 1 == start
    then region prev.start_block end ∷ []
    else prev ∷ region start end ∷ []
insert_after prev start end (curr ∷ rest) =
    if end + 1 == curr.start_block
    then (if prev.end_block + 1 == start
        then region prev.start_block curr.end_block ∷ rest
        else prev ∷ region start curr.end_block ∷ rest)
    else if prev.end_block + 1 == start
    then region prev.start_block end ∷ curr ∷ rest
    else prev ∷ region start end ∷ curr ∷ rest

-- `free_blocks` and `fs_free` from the search loop on: the blocks `start` to `end` come back.
insert_range : ℕ → ℕ → FreeList → FreeList
insert_range start end [] = insert_first start end []
insert_range start end (curr ∷ rest) =
    let further = curr ∷ insert_range start end rest in
    if ltb curr.start_block start
    then (if starts_below start rest then further else insert_after curr start end rest)
    else insert_first start end (curr ∷ rest)

-- `end = start + count - 1`
unfoldable pub release : ℕ → ℕ → FreeList → FreeList
unfolding insert_range insert_first insert_after
release start count rs = insert_range start (start + count - 1) rs

-- One round of `remove_range_from_freelist`: what is left of the region `curr`.
cut : ℕ → ℕ → Region → FreeList → FreeList
cut start end curr rest =
    if leb start curr.end_block && leb curr.start_block end
    then (if leb start curr.start_block && leb curr.end_block end
        then rest
        else if leb start curr.start_block
        then region (end + 1) curr.end_block ∷ rest
        else if leb curr.end_block end
        then region curr.start_block (start - 1) ∷ rest
        else region curr.start_block (start - 1) ∷ region (end + 1) curr.end_block ∷ rest)
    else curr ∷ rest

cut_all : ℕ → ℕ → FreeList → FreeList
cut_all start end [] = []
cut_all start end (curr ∷ rest) = cut start end curr (cut_all start end rest)

-- `remove_range_from_freelist`
unfoldable pub remove_range : ℕ → ℕ → FreeList → FreeList
unfolding cut_all cut
remove_range start count rs = cut_all start (start + count - 1) rs

-- the regions of a list together, as `fs_visualize_free_list` counts them
unfoldable pub total_free : FreeList → ℕ
total_free [] = 0
total_free (curr ∷ rest) = get_block_count curr + total_free rest
