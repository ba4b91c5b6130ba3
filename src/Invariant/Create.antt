-- ===== src/Invariant/Create.antt =====
-- `fs_create`, `fs_open` and `fs_close_file` keep the file system consistent.
use opperating_system_practi.Base.{
  ℕ, Bool-cases, ◌+◌, ◌<◌, true, not, ◌≡◌, refl, inl, inr, Option, none, some, List, length, get_or,
  set, ◌==◌, arith, get_or-set, length-set, find_index, find_index-some, CString,
}
use Prim.Native.Nat.{bit_and}
use opperating_system_practi.Base.Int.{ℤ, pos, negsuc}
use opperating_system_practi.FreeList.{FreeList}
use opperating_system_practi.Types.{Fs, FileEntry, zero_file}
use opperating_system_practi.Disk.{save_metadata}
use opperating_system_practi.Files.{
  fs_create, fs_open, fs_close_file, find_file_index, new_file, create_at, create_unless,
  take_descriptor, open_at, open_found, close_found, file_at, has_name, descriptor, is_closed,
  o_creat,
}
use opperating_system_practi.Invariant.{Consistent, IsConsistent}
use opperating_system_practi.Invariant.Sums.{replace}

-- A new entry without blocks in a slot that is not in use.
create_slot :
    {files : List FileEntry} {rs : FreeList} {used count : ℕ} {opens : List (Option ℕ)}
    (c : Consistent files rs used count opens) (i : ℕ) (f : FileEntry)
    → i < length files
    → not (get_or files i zero_file).is_used ≡ true
    → f.is_used ≡ true
    → f.start_block ≡ none
    → f.block_count ≡ 0
    → f.size ≡ 0
    → Consistent (set files i f) rs used (count + 1) opens
create_slot {files} {rs} {used} {count} {opens} c i f h free u e k z =
    replace c i f h rs used (count + 1) opens c.coalesced (λ b. ground arith) (ground arith)
      (ground arith) (ground arith) refl
      (λ fd j open_j. ground (arith, c.live fd j open_j, get_or-set files i j f zero_file))

create_at-IsConsistent :
    (o : Option ℕ) (name : CString) (permissions created modified : ℕ) (s : Fs)
    → IsConsistent s
    → find_index (λ f. not f.is_used) s.file_table ≡ o
    → IsConsistent (create_at o name permissions created modified s).0
unfolding create_at save_metadata
create_at-IsConsistent none name p t t' s c e = c
create_at-IsConsistent (some i) name p t t' s c e =
    let (h, free) = find_index-some (λ f. not f.is_used) s.file_table i zero_file e in
    create_slot c i (new_file name p t t' s) h free refl refl refl refl

create_unless-IsConsistent :
    (o : Option ℕ) (name : CString) (permissions created modified : ℕ) (s : Fs)
    → IsConsistent s
    → IsConsistent (create_unless o name permissions created modified s).0
unfolding create_unless
create_unless-IsConsistent none name p t t' s c = create_at-IsConsistent _ name p t t' s c refl
create_unless-IsConsistent (some i) name p t t' s c = c

-- `fs_create` keeps the file system consistent, whether it succeeds or not.
pub fs_create-IsConsistent :
    (name : CString) (permissions created modified : ℕ) (s : Fs)
    → IsConsistent s
    → IsConsistent (fs_create name permissions created modified s).0
unfolding fs_create
fs_create-IsConsistent name p t t' s =
    create_unless-IsConsistent (find_file_index name s) name p t t' s

create_at-is_used :
    (o : Option ℕ) (name : CString) (p t t' : ℕ) (s : Fs) (i : ℕ)
    → find_index (λ f. not f.is_used) s.file_table ≡ o
    → (create_at o name p t t' s).1 ≡ some i
    → (file_at (create_at o name p t t' s).0 i).is_used ≡ true
unfolding create_at save_metadata
create_at-is_used none name p t t' s i e h = cc
create_at-is_used (some k) name p t t' s i e h =
    let (within, free) = find_index-some (λ f. not f.is_used) s.file_table k zero_file e in
    ground (arith, get_or-set s.file_table k i (new_file name p t t' s) zero_file)

-- The entry that `fs_create` returns is in use.
create-is_used :
    (o : Option ℕ) (name : CString) (p t t' : ℕ) (s : Fs) (i : ℕ)
    → (create_unless o name p t t' s).1 ≡ some i
    → (file_at (create_unless o name p t t' s).0 i).is_used ≡ true
unfolding create_unless
create-is_used none name p t t' s i h = create_at-is_used _ name p t t' s i refl h
create-is_used (some k) name p t t' s i h = cc

take_descriptor-IsConsistent :
    (idx : ℕ) (o : Option ℕ) (s : Fs)
    → IsConsistent s
    → (file_at s idx).is_used ≡ true
    → find_index is_closed s.open_files ≡ o
    → IsConsistent (take_descriptor idx o s).0
unfolding take_descriptor
take_descriptor-IsConsistent idx none s c u e = c
take_descriptor-IsConsistent idx (some fd) s c u e =
    let (h, closed) = find_index-some is_closed s.open_files fd none e in
    record {
      coalesced = c.coalesced;
      partition = c.partition;
      used_lem = c.used_lem;
      count_lem = c.count_lem;
      sound = c.sound;
      slots = c.slots;
      descriptors = omega (arith, length-set s.open_files fd (some idx), c.descriptors);
      live = λ k i open_k. ground (arith, get_or-set s.open_files fd k (some idx) none, c.live k i);
    }

open_at-IsConsistent :
    (s : Fs) (o : Option ℕ)
    → IsConsistent s
    → ((i : ℕ) → o ≡ some i → (file_at s i).is_used ≡ true)
    → IsConsistent (open_at (s, o)).0
unfolding open_at
open_at-IsConsistent s none c u = c
open_at-IsConsistent s (some i) c u = take_descriptor-IsConsistent i _ s c (u i refl) refl

open_found-IsConsistent :
    (o : Option ℕ) (name : CString) (flags created modified : ℕ) (s : Fs)
    → IsConsistent s
    → find_file_index name s ≡ o
    → IsConsistent (open_found o name flags created modified s).0
unfolding open_found
open_found-IsConsistent (some i) name flags t t' s c e = open_at-IsConsistent s (some i) c (λ k h.
    unfold find_file_index in
    ground (arith, find_index-some (has_name name) s.file_table i zero_file e))
open_found-IsConsistent none name flags t t' s c e =
    elim (Bool-cases (bit_and flags o_creat == 0)) [
      | inl plain ↦ rw plain c
      | inr creat ↦ rw creat (
          open_at-IsConsistent _ _ (fs_create-IsConsistent name 0o644 t t' s c)
            (λ k. unfold fs_create in create-is_used (find_file_index name s) name 0o644 t t' s k))
    ]

-- `fs_open` keeps the file system consistent, whether it creates the file, fails, or finds it.
pub fs_open-IsConsistent :
    (name : CString) (flags created modified : ℕ) (s : Fs)
    → IsConsistent s
    → IsConsistent (fs_open name flags created modified s).0
unfolding fs_open
fs_open-IsConsistent name flags t t' s c =
    open_found-IsConsistent (find_file_index name s) name flags t t' s c refl

close_found-IsConsistent :
    (o : Option ℕ) (fd : ℤ) (s : Fs)
    → IsConsistent s
    → descriptor s fd ≡ o
    → IsConsistent (close_found o fd s)
unfolding close_found descriptor
close_found-IsConsistent none fd s c e = c
close_found-IsConsistent (some i) (negsuc n) s c e = c
close_found-IsConsistent (some i) (pos n) s c e =
    let within : n < length s.open_files = ground (arith, c.descriptors) in
    record {
      coalesced = c.coalesced;
      partition = c.partition;
      used_lem = c.used_lem;
      count_lem = c.count_lem;
      sound = c.sound;
      slots = c.slots;
      descriptors = omega (arith, length-set s.open_files n none, c.descriptors);
      live = λ k j open_k. ground (arith, get_or-set s.open_files n k none none, c.live k j);
    }

-- `fs_close_file` keeps the file system consistent.
pub fs_close_file-IsConsistent :
    (fd : ℤ) (s : Fs) → IsConsistent s → IsConsistent (fs_close_file fd s)
unfolding fs_close_file
fs_close_file-IsConsistent fd s c = close_found-IsConsistent (descriptor s fd) fd s c refl
