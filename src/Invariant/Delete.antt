-- ===== src/Invariant/Delete.antt =====
-- `fs_delete` gives the blocks of a file back, and keeps the file system consistent.
use opperating_system_practi.Base.{
  ℕ, zero, suc, ◌+◌, ◌-◌, ◌*◌, ◌≤◌, ◌<◌, true, false, ◌≡◌, ◌≢◌, refl, ap, Option, none, some, List,
  [], ◌∷◌, map, length, get_or, set, arith, get_or-set, find_index-some, str_eq_sound, CString,
}
use opperating_system_practi.FreeList.{FreeList, release}
use opperating_system_practi.FreeList.Blocks.{in_run, is_free}
use opperating_system_practi.FreeList.Release.{Gives, release-Gives}
use opperating_system_practi.Types.{Fs, FileEntry, zero_file, block_size}
use opperating_system_practi.Disk.{save_metadata, get_meta_blocks}
use opperating_system_practi.Blocks.{free_blocks}
use opperating_system_practi.Files.{
  fs_delete, delete_at, release_file, close_file, find_file_index, has_name, file_at,
}
use opperating_system_practi.Invariant.{Consistent, IsConsistent, own, blocks_of, used_one}
use opperating_system_practi.Invariant.Sums.{replace, le-sum_of, used_in_range}

module _ {files : List FileEntry} {rs : FreeList} {used count : ℕ} {opens : List (Option ℕ)}
    (c : Consistent files rs used count opens) (i a n : ℕ)
    (is_used : (get_or files i zero_file).is_used ≡ true)
    (starts : (get_or files i zero_file).start_block ≡ some a)
    (counts : (get_or files i zero_file).block_count ≡ n) where
  -- A block of a file is a data block, and is not free.
  pub owned_block : (b : ℕ) → in_run a n b ≡ true → (get_meta_blocks ≤ b) × (is_free rs b ≡ false)
  owned_block b h = ground (arith, c.partition b, le-sum_of (own b) files i refl)

  pub blocks-le-used : n ≤ used
  blocks-le-used = ground (arith, c.used_lem, le-sum_of blocks_of files i refl)

  -- The last blocks of a file, given back.
  pub give_back :
      (k : ℕ)
      → k < n
      → Gives get_meta_blocks (a + k) (a + k + (n - k) - 1) rs (release (a + k) (n - k) rs)
  give_back k h =
      release-Gives get_meta_blocks (a + k) (n - k) rs c.coalesced
        (owned_block (a + k) (ground arith)).0 (omega arith)
        (λ b p q. (owned_block b (ground arith)).1)

  -- The table where the file keeps its first `k` blocks.
  pub shorten :
      (k size' now : ℕ)
      → k < n
      → size' ≤ k * block_size
      → Consistent
          (set files i (record (get_or files i zero_file) {
            block_count = k;
            size = size';
            modify_time = now;
          }))
          (release (a + k) (n - k) rs)
          (used - (n - k))
          count
          opens
  shorten k size' now h fits =
      let g = give_back k h in
      replace c i _ (used_in_range files i is_used) (release (a + k) (n - k) rs) (used - (n - k))
        count opens g.coalesced (λ b. ground (arith, g.joined b, owned_block b))
        (ground (arith, blocks-le-used)) refl (ground arith) refl
        (λ fd j open_j. ground (
          arith,
          c.live fd j open_j,
          get_or-set files i j
              (record (get_or files i zero_file) {
                block_count = k;
                size = size';
                modify_time = now;
              })
              zero_file (used_in_range files i is_used),
        ))

-- What a file is when its blocks can be given back as one range: no first block, or some blocks.
abbrev pub HasBlocks : FileEntry → Type 0
HasBlocks f = f.start_block ≢ none → 0 < f.block_count

pub get_or-map_close :
    (idx : ℕ) (opens : List (Option ℕ)) (fd : ℕ)
    → get_or (map (close_file idx) opens) fd none ≡ close_file idx (get_or opens fd none)
get_or-map_close idx [] fd = refl
get_or-map_close idx (o ∷ os) zero = refl
get_or-map_close idx (o ∷ os) (suc fd) = get_or-map_close idx os fd

pub length-map_close :
    (idx : ℕ) (opens : List (Option ℕ)) → length (map (close_file idx) opens) ≡ length opens
length-map_close idx [] = refl
length-map_close idx (o ∷ os) = ap suc (length-map_close idx os)

module _ {files : List FileEntry} {rs : FreeList} {used count : ℕ} {opens : List (Option ℕ)}
    (c : Consistent files rs used count opens) (i : ℕ)
    (is_used : (get_or files i zero_file).is_used ≡ true) where
  drop_live :
      (fd j : ℕ)
      → get_or (map (close_file i) opens) fd none ≡ some j
      → (get_or
          (set files i (record (get_or files i zero_file) { is_used = false }))
          j
          zero_file).is_used
        ≡ true
  drop_live fd j h = ground (
    arith,
    get_or-map_close i opens fd,
    c.live fd j,
    get_or-set files i j (record (get_or files i zero_file) { is_used = false }) zero_file
        (used_in_range files i is_used),
  )

  -- The table without the file, where it had no block.
  drop_empty :
      (get_or files i zero_file).start_block ≡ none
      → Consistent
          (set files i (record (get_or files i zero_file) { is_used = false }))
          rs
          used
          (count - 1)
          (map (close_file i) opens)
  drop_empty e =
      replace c i _ (used_in_range files i is_used) rs used (count - 1) (map (close_file i) opens)
        c.coalesced (λ b. ground arith) (ground arith)
        (ground (arith, c.count_lem, le-sum_of used_one files i refl)) (λ u. cc)
        (length-map_close i opens) drop_live

  drop_blocks :
      (a n : ℕ)
      → (get_or files i zero_file).start_block ≡ some a
      → (get_or files i zero_file).block_count ≡ n
      → 0 < n
      → Consistent
          (set files i (record (get_or files i zero_file) { is_used = false }))
          (release a n rs)
          (used - n)
          (count - 1)
          (map (close_file i) opens)
  drop_blocks a n e k pos =
      let g : Gives get_meta_blocks a (a + n - 1) rs (release a n rs) =
        release-Gives get_meta_blocks a n rs c.coalesced
          (owned_block c i a n is_used e k a (ground arith)).0 pos
          (λ b p q. (owned_block c i a n is_used e k b (ground arith)).1) in
      replace c i _ (used_in_range files i is_used) (release a n rs) (used - n) (count - 1)
        (map (close_file i) opens) g.coalesced
        (λ b. ground (arith, g.joined b, owned_block c i a n is_used e k b))
        (ground (arith, blocks-le-used c i a n is_used e k))
        (ground (arith, c.count_lem, le-sum_of used_one files i refl)) (λ u. cc)
        (length-map_close i opens) drop_live

delete_file-IsConsistent :
    (o : Option ℕ) (n i : ℕ) (s : Fs)
    → IsConsistent s
    → (file_at s i).is_used ≡ true
    → (file_at s i).start_block ≡ o
    → (file_at s i).block_count ≡ n
    → (o ≢ none → 0 < n)
    → Consistent
        (set (release_file o n s).file_table i (record (file_at s i) { is_used = false }))
        (release_file o n s).free_list
        (release_file o n s).super_block.used_blocks
        ((release_file o n s).super_block.file_count - 1)
        (map (close_file i) (release_file o n s).open_files)
unfolding release_file free_blocks
delete_file-IsConsistent none n i s c u e k h = drop_empty c i u e
delete_file-IsConsistent (some a) n i s c u e k h = drop_blocks c i u a n e k (h (λ p. cc))

delete_at-IsConsistent :
    (o : Option ℕ) (s : Fs)
    → IsConsistent s
    → ((i : ℕ) → o ≡ some i → ((file_at s i).is_used ≡ true) × HasBlocks (file_at s i))
    → IsConsistent (delete_at o s).0
unfolding delete_at save_metadata
delete_at-IsConsistent none s c h = c
delete_at-IsConsistent (some i) s c h =
    delete_file-IsConsistent (file_at s i).start_block (file_at s i).block_count i s c (h i refl).0
      refl refl (h i refl).1

-- The file that a path names is in use and has the path as its name.
pub find_file-named :
    (path : CString) (s : Fs) (i : ℕ)
    → find_file_index path s ≡ some i
    → ((file_at s i).is_used ≡ true) × ((file_at s i).name ≡ path)
unfolding find_file_index
find_file-named path s i h =
    let (within, found) = find_index-some (has_name path) s.file_table i zero_file h in
    (ground arith, str_eq_sound (file_at s i).name path (ground arith))

-- `fs_delete` keeps the file system consistent, if the file that it deletes has no first block or
-- at least one block.
pub fs_delete-IsConsistent :
    (path : CString) (s : Fs)
    → IsConsistent s
    → ((i : ℕ) → find_file_index path s ≡ some i → HasBlocks (file_at s i))
    → IsConsistent (fs_delete path s).0
unfolding fs_delete
fs_delete-IsConsistent path s c h =
    delete_at-IsConsistent (find_file_index path s) s c
      (λ i e. ((find_file-named path s i e).0, h i e))
