-- ===== src/Data/Isolation.antt =====
-- What `fs_write` on one file does to the contents of another one.
use opperating_system_practi.Base.{
  ℕ, zero, suc, ◌+◌, ◌-◌, ◌*◌, ◌/◌, ◌≤◌, ◌<◌, true, false, ◌≡◌, ◌≢◌, refl, ap, ◌∙◌, ◌⊎◌, inl, inr,
  Option, none, some, List, length, ltb, leb, if◌then◌else◌, arith, Bool-cases, get_or-set_ne,
}
use opperating_system_practi.Base.Int.{ℤ}
use opperating_system_practi.FreeList.{FreeList}
use opperating_system_practi.Types.{Fs, FileEntry, zero_file, block_size, disk_size}
use opperating_system_practi.Disk.{save_metadata, fwrite}
use opperating_system_practi.Disk.Image.{fread-fwrite_apart, fread-saved}
use opperating_system_practi.Blocks.{allocate_blocks, take_blocks, blocks_for}
use opperating_system_practi.Files.{file_at, descriptor}
use opperating_system_practi.Data.{
  fs_read, fs_write, read_extent, read_file, read_found, write_found, write_file, store, reserve,
  reserve_in, reserve_first,
}
use opperating_system_practi.Data.ReadBack.{descriptor-eq}
use opperating_system_practi.Invariant.{IsConsistent, own}
use opperating_system_practi.Invariant.Sums.{le-sum_of}
use opperating_system_practi.Invariant.Grow.{shared_block}
use opperating_system_practi.Invariant.Shrink.{descriptor-live}
use opperating_system_practi.Invariant.Write.{Ready, reserve-Ready, HasRoom}

module _ (t : Fs) (c : IsConsistent t) (j a' : ℕ) (used' : (file_at t j).is_used ≡ true)
    (starts' : (file_at t j).start_block ≡ some a') (o : ℕ) (from : a' * block_size ≤ o)
    (to : o < a' * block_size + (file_at t j).block_count * block_size) where
  -- A byte of a file lies on the disk.
  byte_on_disk : o < disk_size
  byte_on_disk =
      ground
        (arith, c.partition (o / block_size), le-sum_of (own (o / block_size)) t.file_table j refl)

  -- A byte of one file is no byte of another.
  bytes_apart :
      (i a reach : ℕ)
      → i ≢ j
      → (file_at t i).is_used ≡ true
      → (file_at t i).start_block ≡ some a
      → reach ≤ (file_at t i).block_count * block_size
      → a * block_size ≤ o
      → o < a * block_size + reach
      → ⊥
  bytes_apart i a reach ne u e h p q =
      shared_block i j (o / block_size) ne (ground arith) (ground arith) c

-- The end of a read within a file lies on the disk.
read_on_disk :
    (t : Fs) (c : IsConsistent t) (j a' position n : ℕ)
    → (file_at t j).is_used ≡ true
    → (file_at t j).start_block ≡ some a'
    → position < (file_at t j).size
    → position + n ≤ (file_at t j).size
    → a' * block_size + position + n ≤ disk_size
read_on_disk t c j a' position zero u e h k =
    let fits : (file_at t j).size ≤ (file_at t j).block_count * block_size =
      ground (arith, c.sound j) in
    omega
      (arith, byte_on_disk t c j a' u e (a' * block_size + position) (omega arith) (omega arith))
read_on_disk t c j a' position (suc n) u e h k =
    let fits : (file_at t j).size ≤ (file_at t j).block_count * block_size =
      ground (arith, c.sound j) in
    omega (
      arith,
      byte_on_disk t c j a' u e (a' * block_size + position + n) (omega arith) (omega arith),
    )

module _ (t : Fs) (c : IsConsistent t) (full : disk_size ≤ t.disk.length) (i j a position : ℕ)
    (buffer : List ℕ) (now : ℕ) (ne : i ≢ j) (u : (file_at t i).is_used ≡ true)
    (e : (file_at t i).start_block ≡ some a)
    (h : position + length buffer ≤ (file_at t i).block_count * block_size)
    (u' : (file_at t j).is_used ≡ true) where
  extent_apart :
      (o : Option ℕ) (p n : ℕ)
      → (file_at t j).start_block ≡ o
      → p < (file_at t j).size
      → p + n ≤ (file_at t j).size
      → read_extent o p n (store i position buffer now (t, some a)).0 ≡ read_extent o p n t
  unfolding read_extent store save_metadata
  extent_apart none p n e' k l = refl
  extent_apart (some a') p n e' k l =
      let fits : (file_at t j).size ≤ (file_at t j).block_count * block_size =
        ground (arith, c.sound j) in
      ap some (
        fread-saved (fwrite t.disk (a * block_size + position) buffer) _ _ _
        ∙ fread-fwrite_apart t.disk (a * block_size + position) buffer (a' * block_size + p) n
            (omega (arith, read_on_disk t c j a' p n u' e' k l))
            (λ o q r. outside o (λ q' r'.
              bytes_apart t c j a' u' e' o (omega arith) (omega arith) i a
                (position + length buffer) ne u e h (omega arith) (omega arith))))
    where
      outside :
          (o : ℕ)
          → (a * block_size + position ≤ o → o < a * block_size + position + length buffer → ⊥)
          → (o < a * block_size + position) ⊎ (a * block_size + position + length buffer ≤ o)
      outside o no_overlap = ground arith

  store_apart :
      (p n : ℕ)
      → read_file (file_at t j) p n (store i position buffer now (t, some a)).0
        ≡ read_file (file_at t j) p n t
  unfolding read_file
  store_apart p n = elim (Bool-cases (leb (file_at t j).size p)) [
    | inl past ↦ rw past
    | inr before ↦ elim (Bool-cases (ltb (file_at t j).size (p + n))) [
      | inl clipped ↦
          rw (before, clipped)
            (extent_apart (file_at t j).start_block p ((file_at t j).size - p) refl (ground arith)
              (ground arith))
      | inr whole ↦
          rw (before, whole)
            (extent_apart (file_at t j).start_block p n refl (ground arith) (ground arith))
    ]
  ]

-- What the first part of `fs_write` on the entry `i` leaves as it was.
record Keeps (i : ℕ) (s t : Fs) : Type 0 where
  opens : t.open_files ≡ s.open_files
  disk : t.disk ≡ s.disk
  others : (j : ℕ) → i ≢ j → file_at t j ≡ file_at s j

first-Keeps :
    (i needed n : ℕ) (s : Fs) (found : Option (ℕ × FreeList))
    → Keeps i s (reserve_first i needed (file_at s i) (take_blocks n s found)).0
unfolding reserve_first take_blocks
first-Keeps i needed n s none = record { opens = refl; disk = refl; others = λ j ne. refl }
first-Keeps i needed n s (some (a, rs)) = record {
  opens = refl;
  disk = refl;
  others = λ j ne. get_or-set_ne s.file_table i j _ zero_file ne;
}

reserve-Keeps :
    (o : Option ℕ) (i reach : ℕ) (s : Fs)
    → HasRoom o (file_at s i).block_count reach
    → Keeps i s (reserve_in o i (blocks_for reach) (file_at s i) s).0
unfolding reserve_in allocate_blocks
reserve-Keeps none i reach s h = first-Keeps i (blocks_for reach) (blocks_for reach) s _
reserve-Keeps (some a) i reach s h =
    let enough : ltb (file_at s i).block_count (blocks_for reach) ≡ false = ground arith in
    rw enough (record { opens = refl; disk = refl; others = λ j ne. refl })

-- the file of the entry `j` after the second part of `fs_write` on the entry `i`
record Same (j : ℕ) (s u : Fs) : Type 0 where
  opens : u.open_files ≡ s.open_files
  contents : (p n : ℕ) → read_file (file_at u j) p n u ≡ read_file (file_at s j) p n s

read_extent-disk :
    (o : Option ℕ) (p n : ℕ) (s t : Fs)
    → t.disk ≡ s.disk
    → read_extent o p n t ≡ read_extent o p n s
unfolding read_extent
read_extent-disk none p n s t e = refl
read_extent-disk (some a) p n s t e = rw e

read_file-disk :
    (f : FileEntry) (p n : ℕ) (s t : Fs) → t.disk ≡ s.disk → read_file f p n t ≡ read_file f p n s
unfolding read_file
read_file-disk f p n s t e =
    rw (read_extent-disk f.start_block p (if ltb f.size (p + n) then f.size - p else n) s t e)

store-Same :
    (i j position : ℕ) (buffer : List ℕ) (now : ℕ) (s t : Fs) (o : Option ℕ)
    → i ≢ j
    → disk_size ≤ s.disk.length
    → (file_at s j).is_used ≡ true
    → Keeps i s t
    → Ready i (position + length buffer) t o
    → Same j s (store i position buffer now (t, o)).0
unfolding store save_metadata
store-Same i j position buffer now s t none ne full u k r = record {
  opens = k.opens;
  contents = λ p n. rw (k.others j ne) (read_file-disk (file_at s j) p n s t k.disk);
}
store-Same i j position buffer now s t (some a) ne full u k r =
    let (u', e, h) = r.ready a refl in
    record {
      opens = k.opens;
      contents = λ p n.
          rw
            (get_or-set_ne t.file_table i j
              (record (file_at t i) {
                size =
                    if ltb (file_at t i).size (position + length buffer)
                    then position + length buffer
                    else (file_at t i).size;
                modify_time = now;
              })
              zero_file ne)
            (store_apart t r.consistent (rw k.disk full) i j a position buffer now ne u' e h
                (rw (k.others j ne) u) p n
              ∙ rw (k.others j ne) (read_file-disk (file_at s j) p n s t k.disk));
    }

write_found-Same :
    (o : Option ℕ) (j position : ℕ) (buffer : List ℕ) (now : ℕ) (s : Fs)
    → IsConsistent s
    → ((i : ℕ)
        → o ≡ some i
        → (i ≢ j)
          × ((file_at s i).is_used ≡ true)
          × HasRoom (file_at s i).start_block (file_at s i).block_count (position + length buffer))
    → disk_size ≤ s.disk.length
    → (file_at s j).is_used ≡ true
    → Same j s (write_found o position buffer now s).0
unfolding write_found write_file reserve
write_found-Same none j position buffer now s c h full u = record {
  opens = refl;
  contents = λ p n. refl;
}
write_found-Same (some i) j position buffer now s c h full u =
    let (ne, v, room) = h i refl in
    store-Same i j position buffer now s _ _ ne full u
      (reserve-Keeps (file_at s i).start_block i (position + length buffer) s room)
      (reserve-Ready (file_at s i).start_block i (position + length buffer) s c v refl room)

-- In a consistent file system on a disk file of full size, an `fs_write` that needs no second range
-- of blocks, and ends behind byte 0 if its file has no block yet, does not change what `fs_read`
-- returns through a descriptor of any other file, at any position and for any count.
pub read-write_other :
    (fd fd' : ℤ) (position p n j : ℕ) (buffer : List ℕ) (now : ℕ) (s : Fs)
    → IsConsistent s
    → ((i : ℕ)
        → descriptor s fd ≡ some i
        → (i ≢ j)
          × HasRoom (file_at s i).start_block (file_at s i).block_count (position + length buffer))
    → disk_size ≤ s.disk.length
    → descriptor s fd' ≡ some j
    → fs_read fd' p n (fs_write fd position buffer now s).0 ≡ fs_read fd' p n s
unfolding fs_read fs_write read_found
read-write_other fd fd' position p n j buffer now s c h full d =
    let r =
      write_found-Same (descriptor s fd) j position buffer now s c
        (λ i e. ((h i e).0, descriptor-live s fd i c e, (h i e).1)) full
        (descriptor-live s fd' j c d) in
    rw (descriptor-eq s (write_found (descriptor s fd) position buffer now s).0 fd' r.opens, d)
      (r.contents p n)
