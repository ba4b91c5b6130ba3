-- ===== src/Data/ReadBack.antt =====
-- What `fs_read` returns after a successful `fs_write` at the same place.
use opperating_system_practi.Base.{
  ℕ, ◌+◌, ◌*◌, ◌≤◌, ◌<◌, false, ◌≡◌, refl, ap, ◌∙◌, inl, inr, Option, none, some, List, length, ltb,
  leb, if◌then◌else◌, arith, Bool-cases, get_or-set_self, length-set,
}
use opperating_system_practi.Base.Int.{ℤ}
use opperating_system_practi.FreeList.{FreeList}
use opperating_system_practi.Types.{Fs, FileEntry, zero_file, block_size}
use opperating_system_practi.Disk.{save_metadata, fread, fwrite}
use opperating_system_practi.Disk.Image.{fread-fwrite, fread-saved}
use opperating_system_practi.Blocks.{allocate_blocks, take_blocks, blocks_for}
use opperating_system_practi.Files.{file_at, descriptor}
use opperating_system_practi.Data.{
  fs_read, fs_write, read_extent, read_file, read_found, write_found, write_file, store, reserve,
  reserve_in, reserve_first, reserve_more,
}

-- What the first part of `fs_write` keeps, and where it says that the file begins.
record Placed (i : ℕ) (s t : Fs) (o : Option ℕ) : Type 0 where
  opens : t.open_files ≡ s.open_files
  slots : length t.file_table ≡ length s.file_table
  start : (a : ℕ) → o ≡ some a → (file_at t i).start_block ≡ some a

module _ (i needed n : ℕ) (s : Fs) (within : i < length s.file_table) where
  first-Placed :
      (found : Option (ℕ × FreeList))
      → let r = reserve_first i needed (file_at s i) (take_blocks n s found) in Placed i s r.0 r.1
  unfolding reserve_first take_blocks
  first-Placed none = record { opens = refl; slots = refl; start = λ a p. cc }
  first-Placed (some (a, rs)) = record {
    opens = refl;
    slots = length-set s.file_table i _;
    start = λ a' p.
        rw
          (get_or-set_self s.file_table i
            (record (file_at s i) { start_block = some a; block_count = needed }) zero_file within)
          p;
  }

  more-Placed :
      (a : ℕ) (found : Option (ℕ × FreeList))
      → (file_at s i).start_block ≡ some a
      → let r = reserve_more i needed (file_at s i) a (take_blocks n s found) in Placed i s r.0 r.1
  unfolding reserve_more take_blocks
  more-Placed a none e = record { opens = refl; slots = refl; start = λ a p. cc }
  more-Placed a (some (a', rs)) e = record {
    opens = refl;
    slots = length-set s.file_table i _;
    start = λ k p.
        rw
          (
            get_or-set_self s.file_table i (record (file_at s i) { block_count = needed }) zero_file
                within,
            e,
          )
          p;
  }

reserve-Placed :
    (o : Option ℕ) (i needed : ℕ) (s : Fs)
    → i < length s.file_table
    → (file_at s i).start_block ≡ o
    → let r = reserve_in o i needed (file_at s i) s in Placed i s r.0 r.1
unfolding reserve_in allocate_blocks
reserve-Placed none i needed s h e = first-Placed i needed needed s h _
reserve-Placed (some a) i needed s h e = elim (Bool-cases (ltb (file_at s i).block_count needed)) [
  | inl grows ↦ rw grows (more-Placed i needed _ s h a _ e)
  | inr stays ↦ rw stays (record { opens = refl; slots = refl; start = λ k p. rw e p })
]

-- the entry that `store` writes
abbrev grown : Fs → ℕ → ℕ → List ℕ → ℕ → FileEntry
grown t i position buffer now = record (file_at t i) {
  size =
      if ltb (file_at t i).size (position + length buffer)
      then position + length buffer
      else (file_at t i).size;
  modify_time = now;
}

-- A read that ends within the file is a read of the disk.
pub read_within :
    (f : FileEntry) (position n a : ℕ) (u : Fs)
    → f.start_block ≡ some a
    → 0 < n
    → position + n ≤ f.size
    → read_file f position n u ≡ some (fread u.disk (a * block_size + position) n)
unfolding read_file read_extent
read_within f position n a u e h k =
    let t : leb f.size position ≡ false = ground arith in
    let t' : ltb f.size (position + n) ≡ false = ground arith in rw (t, t', e)

-- `read_file` at the place where the bytes were stored
store-read :
    (i position : ℕ) (buffer : List ℕ) (now : ℕ) (s t : Fs) (o : Option ℕ) (k : ℕ)
    → i < length s.file_table
    → 0 < length buffer
    → Placed i s t o
    → (store i position buffer now (t, o)).1 ≡ some k
    → let u = (store i position buffer now (t, o)).0 in
      (k ≡ length buffer)
      × (u.open_files ≡ s.open_files)
      × (read_file (file_at u i) position (length buffer) u ≡ some buffer)
unfolding store save_metadata
store-read i position buffer now s t none k h pos p e = cc
store-read i position buffer now s t (some a) k h pos p e = (
  ground arith,
  p.opens,
  rw
      (get_or-set_self t.file_table i (grown t i position buffer now) zero_file
        (omega (arith, p.slots)))
      (read_within (grown t i position buffer now) position (length buffer) a _ (p.start a refl) pos
          (ground arith)
        ∙ ap some (
            fread-saved (fwrite t.disk (a * block_size + position) buffer) _ _ _
            ∙ fread-fwrite t.disk (a * block_size + position) buffer)),
)

read_back_found :
    (o : Option ℕ) (position : ℕ) (buffer : List ℕ) (now k : ℕ) (s : Fs)
    → ((i : ℕ) → o ≡ some i → i < length s.file_table)
    → 0 < length buffer
    → (write_found o position buffer now s).1 ≡ some k
    → let u = (write_found o position buffer now s).0 in
      (k ≡ length buffer)
      × (u.open_files ≡ s.open_files)
      × (read_found o position (length buffer) u ≡ some buffer)
unfolding write_found write_file reserve read_found
read_back_found none position buffer now k s h pos e = cc
read_back_found (some i) position buffer now k s h pos e =
    store-read i position buffer now s _ _ k (h i refl) pos
      (reserve-Placed (file_at s i).start_block i (blocks_for (position + length buffer)) s
        (h i refl) refl)
      e

pub descriptor-eq :
    (s t : Fs) (fd : ℤ) → t.open_files ≡ s.open_files → descriptor t fd ≡ descriptor s fd
unfolding descriptor
descriptor-eq s t (ℤ.negsuc n) e = refl
descriptor-eq s t (ℤ.pos n) e = rw e

-- After a successful `fs_write` of at least one byte, on a descriptor whose entry lies in the file
-- table, all bytes were written, and `fs_read` with the same descriptor, position and count returns
-- exactly them. This holds on each of the three paths, also where the file was grown.
pub read-write :
    (fd : ℤ) (position : ℕ) (buffer : List ℕ) (now k : ℕ) (s : Fs)
    → ((i : ℕ) → descriptor s fd ≡ some i → i < length s.file_table)
    → 0 < length buffer
    → (fs_write fd position buffer now s).1 ≡ some k
    → (k ≡ length buffer)
      × (fs_read fd position (length buffer) (fs_write fd position buffer now s).0 ≡ some buffer)
unfolding fs_write fs_read
read-write fd position buffer now k s h pos e =
    let (count, opens, bytes) = read_back_found (descriptor s fd) position buffer now k s h pos e in
    (
      count,
      rw (descriptor-eq s (write_found (descriptor s fd) position buffer now s).0 fd opens) bytes,
    )
