-- ===== src/Access.antt =====
-- Permissions: `fs_chmod`, `fs_chown`, `fs_chgrp`, `fs_getfacl` and `fs_check_permission`.
-- `x >> 6`, `x >> 3` and `x & 0x7` are written as `x / 64`, `x / 8` and `x % 8`.
use Prim.Native.Nat.{bit_and}
pub mod Checks
use opperating_system_practi.Base.{
  ℕ, ◌/◌, ◌%◌, Bool, true, false, not, ◌&&◌, Option, none, some, [], ◌∷◌, ◌==◌, if◌then◌else◌, set,
  CString,
}
use opperating_system_practi.Types.{Fs, FileEntry, perm_read, perm_write, perm_exec}
use opperating_system_practi.Disk.{save_metadata}
use opperating_system_practi.Files.{find_file_index, file_at}
use opperating_system_practi.Accounts.{
  fs_get_uid, fs_get_gid, fs_user_in_group, fs_get_username, fs_get_groupname,
}

-- `current_uid != 0 && file_table[idx].owner_uid != current_uid`
abbrev pub not_owner : Fs → ℕ → Bool
not_owner s idx = not (s.current_uid == 0) && not ((file_at s idx).owner_uid == s.current_uid)

unfoldable pub chmod_at : Option ℕ → ℕ → Fs → Fs × Option ℕ
chmod_at none mode s = (s, none)
chmod_at (some idx) mode s = if not_owner s idx then (s, none) else (
  save_metadata (record s {
    file_table = set s.file_table idx (record (file_at s idx) { permissions = mode });
  }),
  some 0,
)

unfoldable pub fs_chmod : CString → ℕ → Fs → Fs × Option ℕ
unfolding chmod_at save_metadata
fs_chmod path mode s = chmod_at (find_file_index path s) mode s

-- The second option is the uid of the new owner.
unfoldable pub chown_at : Option ℕ → Option ℕ → Fs → Fs × Option ℕ
chown_at none found s = (s, none)
chown_at (some idx) none s = (s, none)
chown_at (some idx) (some uid) s = (
  save_metadata
      (record s { file_table = set s.file_table idx (record (file_at s idx) { owner_uid = uid }) }),
  some 0,
)

unfoldable pub fs_chown : CString → CString → Fs → Fs × Option ℕ
unfolding chown_at save_metadata
fs_chown path username s =
    if not (s.current_uid == 0)
    then (s, none)
    else chown_at (find_file_index path s) (fs_get_uid username s) s

-- The second option is the gid of the new group.
unfoldable pub chgrp_at : Option ℕ → Option ℕ → Fs → Fs × Option ℕ
chgrp_at none found s = (s, none)
chgrp_at (some idx) none s = (s, none)
chgrp_at (some idx) (some gid) s = if not_owner s idx then (s, none) else (
  save_metadata
      (record s { file_table = set s.file_table idx (record (file_at s idx) { group_gid = gid }) }),
  some 0,
)

unfoldable pub fs_chgrp : CString → CString → Fs → Fs × Option ℕ
unfolding chgrp_at save_metadata
fs_chgrp path groupname s = chgrp_at (find_file_index path s) (fs_get_gid groupname s) s

-- `(perm & bit) ? letter : '-'`
abbrev pub letter : ℕ → ℕ → ℕ → ℕ
letter perm bit c = if bit_and perm bit == 0 then b'-' else c

unfoldable pub permission_to_string : ℕ → CString
permission_to_string perm =
    letter perm perm_read b'r' ∷ letter perm perm_write b'w' ∷ letter perm perm_exec b'x' ∷ []

abbrev pub owner_bits : ℕ → ℕ
owner_bits perm = perm / 64 % 8

abbrev pub group_bits : ℕ → ℕ
group_bits perm = perm / 8 % 8

abbrev pub other_bits : ℕ → ℕ
other_bits perm = perm % 8

-- What `fs_getfacl` prints.
pub record Acl : Type 0 where
  pub owner_name : Option CString
  pub owner_uid : ℕ
  pub group_name : Option CString
  pub group_gid : ℕ
  pub mode : ℕ
  pub owner_perm : CString
  pub group_perm : CString
  pub other_perm : CString

abbrev pub acl_of : FileEntry → Fs → Acl
acl_of file s = record {
  owner_name = fs_get_username file.owner_uid s;
  owner_uid = file.owner_uid;
  group_name = fs_get_groupname file.group_gid s;
  group_gid = file.group_gid;
  mode = file.permissions;
  owner_perm = permission_to_string (owner_bits file.permissions);
  group_perm = permission_to_string (group_bits file.permissions);
  other_perm = permission_to_string (other_bits file.permissions);
}

unfoldable pub acl_at : Option ℕ → Fs → Option Acl
acl_at none s = none
acl_at (some idx) s = some (acl_of (file_at s idx) s)

unfoldable pub fs_getfacl : CString → Fs → Option Acl
unfolding acl_at
fs_getfacl path s = acl_at (find_file_index path s) s

-- `effective_perm`
unfoldable pub effective_perm : FileEntry → Fs → ℕ
effective_perm file s =
    if file.owner_uid == s.current_uid
    then owner_bits file.permissions
    else if fs_user_in_group s.current_uid file.group_gid s
    then group_bits file.permissions
    else other_bits file.permissions

unfoldable pub check_at : Option ℕ → ℕ → Fs → Bool
check_at none required s = false
check_at (some idx) required s =
    if s.current_uid == 0
    then true
    else bit_and (effective_perm (file_at s idx) s) required == required

unfoldable pub fs_check_permission : CString → ℕ → Fs → Bool
unfolding check_at effective_perm
fs_check_permission path required s = check_at (find_file_index path s) required s
