-- ===== src/Shell/Tables.antt =====
-- The operations on files leave the tables of accounts as they are.
use opperating_system_practi.Base.{
  ℕ, ◌≡◌, refl, ◌∙◌, inl, inr, Option, none, some, find_index, ◌==◌, Bool-cases, Option-cases,
  CString,
}
use Prim.Native.Nat.{bit_and}
use opperating_system_practi.Base.Int.{pos}
use opperating_system_practi.Types.{Fs}
use opperating_system_practi.Disk.{save_metadata}
use opperating_system_practi.Blocks.{free_blocks}
use opperating_system_practi.Files.{
  fs_create, fs_open, open_found, open_at, take_descriptor, fs_delete, delete_at, release_file,
  fs_close_file, close_found, descriptor, find_file_index, file_at, is_closed, o_creat,
}
use opperating_system_practi.Accounts.{fs_switch_user, fs_get_uid}
use opperating_system_practi.Shell.{Shell}
use opperating_system_practi.Shell.FileCommands.{close_current}
use opperating_system_practi.Shell.Frame.{SameBoth, fs_create-SameBoth}

-- The tables of users and groups are the same.
abbrev pub SameTables : Fs → Fs → Type 0
SameTables s t = (t.user_table ≡ s.user_table) × (t.group_table ≡ s.group_table)

pub same_tables : (s : Fs) → SameTables s s
same_tables s = (refl, refl)

pub tables_trans : (s t u : Fs) → SameTables s t → SameTables t u → SameTables s u
tables_trans s t u (a, b) (c, d) = (c ∙ a, d ∙ b)

pub tables_of : (s t : Fs) → SameBoth s t → SameTables s t
tables_of s t (e, p) = (p.0, p.1)

open_at-SameTables : (s : Fs) (r : Fs × Option ℕ) → SameTables s r.0 → SameTables s (open_at r).0
unfolding open_at take_descriptor
open_at-SameTables s (t, none) h = h
open_at-SameTables s (t, some idx) h = taken (find_index is_closed t.open_files)
  where
    taken : (o : Option ℕ) → SameTables s (take_descriptor idx o t).0
    taken none = h
    taken (some fd) = h

open_found-SameTables :
    (o : Option ℕ) (name : CString) (flags c m : ℕ) (s : Fs)
    → SameTables s (open_found o name flags c m s).0
unfolding open_found
open_found-SameTables (some idx) name flags c m s =
    open_at-SameTables s (s, some idx) (same_tables s)
open_found-SameTables none name flags c m s = elim (Bool-cases (bit_and flags o_creat == 0)) [
  | inl without ↦ rw without (same_tables s)
  | inr creating ↦ rw creating (
      open_at-SameTables s (fs_create name 0o644 c m s)
        (tables_of s (fs_create name 0o644 c m s).0 (fs_create-SameBoth name 0o644 c m s)))
]

pub fs_open-SameTables :
    (name : CString) (flags c m : ℕ) (s : Fs) → SameTables s (fs_open name flags c m s).0
unfolding fs_open
fs_open-SameTables name flags c m s =
    open_found-SameTables (find_file_index name s) name flags c m s

close_found-SameTables : (o : Option ℕ) (fd : ℕ) (s : Fs) → SameTables s (close_found o (pos fd) s)
unfolding close_found
close_found-SameTables none fd s = same_tables s
close_found-SameTables (some idx) fd s = same_tables s

pub close_current-SameTables :
    (o : Option ℕ) (sh : Shell) → SameTables sh.fs (close_current o sh).fs
unfolding fs_close_file
close_current-SameTables none sh = same_tables sh.fs
close_current-SameTables (some fd) sh = close_found-SameTables (descriptor sh.fs (pos fd)) fd sh.fs

release_file-SameTables : (o : Option ℕ) (n : ℕ) (s : Fs) → SameTables s (release_file o n s)
unfolding release_file free_blocks
release_file-SameTables none n s = same_tables s
release_file-SameTables (some start) n s = same_tables s

delete_at-SameTables : (o : Option ℕ) (s : Fs) → SameTables s (delete_at o s).0
unfolding delete_at save_metadata
delete_at-SameTables none s = same_tables s
delete_at-SameTables (some idx) s =
    release_file-SameTables (file_at s idx).start_block (file_at s idx).block_count s

pub fs_delete-SameTables : (name : CString) (s : Fs) → SameTables s (fs_delete name s).0
unfolding fs_delete
fs_delete-SameTables name s = delete_at-SameTables (find_file_index name s) s

pub fs_switch_user-SameTables : (name : CString) (s : Fs) → SameTables s (fs_switch_user name s)
unfolding fs_switch_user
fs_switch_user-SameTables name s = elim (Option-cases (fs_get_uid name s)) [
  | inl absent ↦ rw (fs_switch_user, absent) (same_tables s)
  | inr (uid, found) ↦ rw (fs_switch_user, found) (same_tables s)
]
