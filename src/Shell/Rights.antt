-- ===== src/Shell/Rights.antt =====
-- The owner, the group and the mode of a file against the operations, for a user other than root.
pub mod Operations
pub mod Commands
use opperating_system_practi.Base.{
  ℕ, zero, suc, Bool, true, false, not, ◌&&◌, ◌≡◌, ◌≢◌, refl, sym, ap, ◌∙◌, inl, inr, ◌⊎◌, Option,
  none, some, List, [], ◌∷◌, ◌==◌, arith, get_or, set, replicate, find_index, find_index-some, leb,
  ltb, Bool-cases, if-both, CString, if◌then◌else◌, length,
}
use Prim.Native.Nat.{bit_and}
use opperating_system_practi.Base.Int.{ℤ}
use opperating_system_practi.Types.{Fs, FileEntry, zero_file, max_files}
use opperating_system_practi.Disk.{save_metadata}
use opperating_system_practi.FreeList.{allocate}
use opperating_system_practi.Blocks.{allocate_blocks, take_blocks, free_blocks, blocks_for}
use opperating_system_practi.Boot.{fs_format}
use opperating_system_practi.Files.{
  fs_create, create_unless, create_at, new_file, find_file_index, descriptor, file_at, fs_delete,
  delete_at, release_file, fs_open, open_found, open_at, take_descriptor, is_closed, o_creat,
}
use opperating_system_practi.Data.{
  fs_write, write_found, write_file, store, reserve, reserve_in, reserve_first, reserve_more,
  fs_shrink, shrink_found, shrink_file,
}
use opperating_system_practi.Access.{fs_chmod, fs_chgrp, chmod_at, chgrp_at, not_owner}
use opperating_system_practi.Accounts.{fs_get_gid}
use opperating_system_practi.Invariant.Start.{get_or-replicate}

-- If `f` is in use, then either it is no longer so as `g`, or its owner is the same, and its mode and
-- its group are, unless the user `uid` owns it.
abbrev pub Guarded : ℕ → FileEntry → FileEntry → Type 0
Guarded uid f g =
    f.is_used ≡ true
    → (g.is_used ≡ false)
      ⊎ ((g.owner_uid ≡ f.owner_uid)
          × (f.owner_uid ≢ uid → (g.permissions ≡ f.permissions) × (g.group_gid ≡ f.group_gid)))

-- Every file of `s` is guarded from the user who is logged in there.
abbrev pub AllGuarded : Fs → Fs → Type 0
AllGuarded s t = (j : ℕ) → Guarded s.current_uid (file_at s j) (file_at t j)

pub Guarded-refl : (uid : ℕ) (f : FileEntry) → Guarded uid f f
Guarded-refl uid f u = inr (refl, λ ne. (refl, refl))

pub same_guarded : (s : Fs) → AllGuarded s s
same_guarded s j = Guarded-refl s.current_uid (file_at s j)

-- What is compared.
abbrev pub rights : FileEntry → Bool × ℕ × ℕ × ℕ
rights f = (f.is_used, f.owner_uid, f.permissions, f.group_gid)

abbrev pub SameRights : FileEntry → FileEntry → Type 0
SameRights f g = rights g ≡ rights f

pub rights-Guarded : (uid : ℕ) (f g : FileEntry) → SameRights f g → Guarded uid f g
rights-Guarded uid f g e u = inr (ap (λ r. r.1) e, λ ne. (ap (λ r. r.2) e, ap (λ r. r.3) e))

-- One entry is written, and the others stay.
set-each :
    (R : FileEntry → FileEntry → Type 0) (files : List FileEntry) (i j : ℕ) (g : FileEntry)
    → ((f : FileEntry) → R f f)
    → R (get_or files i zero_file) g
    → R (get_or files j zero_file) (get_or (set files i g) j zero_file)
set-each R [] i j g r h = r zero_file
set-each R (f ∷ files) zero zero g r h = h
set-each R (f ∷ files) zero (suc j) g r h = r (get_or files j zero_file)
set-each R (f ∷ files) (suc i) zero g r h = r f
set-each R (f ∷ files) (suc i) (suc j) g r h = set-each R files i j g r h

pub set-Guarded :
    (uid : ℕ) (files : List FileEntry) (i j : ℕ) (g : FileEntry)
    → Guarded uid (get_or files i zero_file) g
    → Guarded uid (get_or files j zero_file) (get_or (set files i g) j zero_file)
set-Guarded uid files i j g h = set-each (Guarded uid) files i j g (Guarded-refl uid) h

pub set-SameRights :
    (files : List FileEntry) (i j : ℕ) (g : FileEntry)
    → SameRights (get_or files i zero_file) g
    → SameRights (get_or files j zero_file) (get_or (set files i g) j zero_file)
set-SameRights files i j g h = set-each SameRights files i j g (λ f. refl) h

create_at-AllGuarded :
    (o : Option ℕ) (name : CString) (perm c m : ℕ) (s : Fs)
    → find_index (λ f. not f.is_used) s.file_table ≡ o
    → AllGuarded s (create_at o name perm c m s).0
unfolding create_at save_metadata
create_at-AllGuarded none name perm c m s e j = same_guarded s j
create_at-AllGuarded (some i) name perm c m s e j =
    let (within, free) = find_index-some (λ f. not f.is_used) s.file_table i zero_file e in
    set-Guarded s.current_uid s.file_table i j (new_file name perm c m s)
      (λ u. absurd (clash (file_at s i).is_used free u))
  where
    clash : (b : Bool) → not b ≡ true → b ≡ true → ⊥
    clash b p q = ground arith

create_unless-AllGuarded :
    (o : Option ℕ) (name : CString) (perm c m : ℕ) (s : Fs)
    → AllGuarded s (create_unless o name perm c m s).0
unfolding create_unless
create_unless-AllGuarded (some i) name perm c m s = same_guarded s
create_unless-AllGuarded none name perm c m s =
    create_at-AllGuarded (find_index (λ f. not f.is_used) s.file_table) name perm c m s refl

pub fs_create-AllGuarded :
    (name : CString) (perm c m : ℕ) (s : Fs) → AllGuarded s (fs_create name perm c m s).0
unfolding fs_create
fs_create-AllGuarded name perm c m s =
    create_unless-AllGuarded (find_file_index name s) name perm c m s

open_at-AllGuarded : (s : Fs) (r : Fs × Option ℕ) → AllGuarded s r.0 → AllGuarded s (open_at r).0
unfolding open_at take_descriptor
open_at-AllGuarded s (t, none) h = h
open_at-AllGuarded s (t, some idx) h = taken (find_index is_closed t.open_files)
  where
    taken : (o : Option ℕ) → AllGuarded s (take_descriptor idx o t).0
    taken none = h
    taken (some fd) = h

open_found-AllGuarded :
    (o : Option ℕ) (name : CString) (flags c m : ℕ) (s : Fs)
    → AllGuarded s (open_found o name flags c m s).0
unfolding open_found
open_found-AllGuarded (some idx) name flags c m s =
    open_at-AllGuarded s (s, some idx) (same_guarded s)
open_found-AllGuarded none name flags c m s = elim (Bool-cases (bit_and flags o_creat == 0)) [
  | inl without ↦ rw without (same_guarded s)
  | inr creating ↦
      rw creating
        (open_at-AllGuarded s (fs_create name 0o644 c m s) (fs_create-AllGuarded name 0o644 c m s))
]

pub fs_open-AllGuarded :
    (name : CString) (flags c m : ℕ) (s : Fs) → AllGuarded s (fs_open name flags c m s).0
unfolding fs_open
fs_open-AllGuarded name flags c m s =
    open_found-AllGuarded (find_file_index name s) name flags c m s

-- No file is in use behind it, whatever the state `t` is in which it is called.
pub fs_format-AllGuarded : (s t : Fs) → AllGuarded s (fs_format t)
unfolding fs_format save_metadata
fs_format-AllGuarded s t j u = inl (ap (λ f. f.is_used) (get_or-replicate max_files j zero_file))

release_file-files :
    (o : Option ℕ) (n : ℕ) (s : Fs) → (release_file o n s).file_table ≡ s.file_table
unfolding release_file free_blocks
release_file-files none n s = refl
release_file-files (some a) n s = refl

delete_at-AllGuarded : (o : Option ℕ) (s : Fs) → AllGuarded s (delete_at o s).0
unfolding delete_at save_metadata
delete_at-AllGuarded none s j = same_guarded s j
delete_at-AllGuarded (some i) s j =
    rw (release_file-files (file_at s i).start_block (file_at s i).block_count s) (
      set-Guarded s.current_uid s.file_table i j (record (file_at s i) { is_used = false })
        (λ u. inl refl))

pub fs_delete-AllGuarded : (name : CString) (s : Fs) → AllGuarded s (fs_delete name s).0
unfolding fs_delete
fs_delete-AllGuarded name s = delete_at-AllGuarded (find_file_index name s) s
