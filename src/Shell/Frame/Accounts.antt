-- ===== src/Shell/Frame/Accounts.antt =====
-- The account and permission operations do not touch the files, the blocks and the descriptors; the latter change no account.
use opperating_system_practi.Base.{
  ℕ, not, Option-cases, inl, inr, Option, none, some, leb, ◌==◌, Bool-cases, CString, find_index,
  bytes, str_eq,
}
use opperating_system_practi.Types.{Fs, max_groups_per_user}
use opperating_system_practi.Disk.{save_metadata}
use opperating_system_practi.Files.{find_file_index}
use opperating_system_practi.Accounts.{
  fs_useradd, add_user_unless, add_user_at, fs_groupadd, add_group_unless, add_group_at, fs_userdel,
  delete_user, fs_groupdel, delete_group, fs_usermod_add_group, join_found, join_group, has_group,
  fs_switch_user, fs_get_uid, fs_get_gid, active_user, active_group, user_at, next_uid,
}
use opperating_system_practi.Access.{
  fs_chmod, fs_chown, fs_chgrp, chmod_at, chown_at, chgrp_at, not_owner,
}
use opperating_system_practi.Shell.Frame.{SameStore, same_store, SameBoth, same_both}

add_group_at-SameStore :
    (o : Option ℕ) (name : CString) (s : Fs) → SameStore s (add_group_at o name s).0
unfolding add_group_at save_metadata
add_group_at-SameStore none name s = same_store s
add_group_at-SameStore (some i) name s = same_store s

add_group_unless-SameStore :
    (o : Option ℕ) (name : CString) (s : Fs) → SameStore s (add_group_unless o name s).0
unfolding add_group_unless
add_group_unless-SameStore (some i) name s = same_store s
add_group_unless-SameStore none name s =
    add_group_at-SameStore (find_index (λ g. not g.is_active) s.group_table) name s

pub fs_groupadd-SameStore : (name : CString) (s : Fs) → SameStore s (fs_groupadd name s).0
unfolding fs_groupadd
fs_groupadd-SameStore name s = elim (Bool-cases (not (s.current_uid == 0))) [
  | inl other ↦ rw other (same_store s)
  | inr root ↦
      rw root (add_group_unless-SameStore (find_index (active_group name) s.group_table) name s)
]

add_user_at-SameStore :
    (idx uid : ℕ) (name : CString) (s : Fs) (r : Fs × Option ℕ)
    → SameStore s r.0
    → SameStore s (add_user_at idx uid name r).0
unfolding add_user_at save_metadata
add_user_at-SameStore idx uid name s (t, none) h = h
add_user_at-SameStore idx uid name s (t, some gid) h = h

add_user_unless-SameStore :
    (o slot : Option ℕ) (name : CString) (s : Fs) → SameStore s (add_user_unless o slot name s).0
unfolding add_user_unless
add_user_unless-SameStore (some i) slot name s = same_store s
add_user_unless-SameStore none none name s = same_store s
add_user_unless-SameStore none (some idx) name s =
    add_user_at-SameStore idx (next_uid 1 s.user_table) name s (fs_groupadd name s)
      (fs_groupadd-SameStore name s)

pub fs_useradd-SameStore : (name : CString) (s : Fs) → SameStore s (fs_useradd name s).0
unfolding fs_useradd
fs_useradd-SameStore name s = elim (Bool-cases (not (s.current_uid == 0))) [
  | inl other ↦ rw other (same_store s)
  | inr root ↦ rw root (
      add_user_unless-SameStore (find_index (active_user name) s.user_table)
        (find_index (λ u. not u.is_active) s.user_table) name s)
]

delete_user-SameStore : (o : Option ℕ) (s : Fs) → SameStore s (delete_user o s).0
unfolding delete_user save_metadata
delete_user-SameStore none s = same_store s
delete_user-SameStore (some i) s = same_store s

pub fs_userdel-SameStore : (name : CString) (s : Fs) → SameStore s (fs_userdel name s).0
unfolding fs_userdel
fs_userdel-SameStore name s = elim (Bool-cases (not (s.current_uid == 0))) [
  | inl other ↦ rw other (same_store s)
  | inr root ↦ elim (Bool-cases (str_eq name (bytes "root"))) [
    | inl is_root ↦ rw (root, is_root) (same_store s)
    | inr plain ↦
        rw (root, plain) (delete_user-SameStore (find_index (active_user name) s.user_table) s)
  ]
]

delete_group-SameStore : (o : Option ℕ) (s : Fs) → SameStore s (delete_group o s).0
unfolding delete_group save_metadata
delete_group-SameStore none s = same_store s
delete_group-SameStore (some i) s = same_store s

pub fs_groupdel-SameStore : (name : CString) (s : Fs) → SameStore s (fs_groupdel name s).0
unfolding fs_groupdel
fs_groupdel-SameStore name s = elim (Bool-cases (not (s.current_uid == 0))) [
  | inl other ↦ rw other (same_store s)
  | inr root ↦ elim (Bool-cases (str_eq name (bytes "root"))) [
    | inl is_root ↦ rw (root, is_root) (same_store s)
    | inr plain ↦
        rw (root, plain) (delete_group-SameStore (find_index (active_group name) s.group_table) s)
  ]
]

join_group-SameStore : (gid i : ℕ) (s : Fs) → SameStore s (join_group gid i s).0
unfolding join_group save_metadata
join_group-SameStore gid i s =
    elim (Bool-cases (has_group (user_at s i).groups (user_at s i).group_count gid)) [
      | inl already ↦ rw already (same_store s)
      | inr absent ↦ elim (Bool-cases ((user_at s i).primary_gid == gid)) [
        | inl primary ↦ rw (absent, primary) (same_store s)
        | inr secondary ↦ elim (Bool-cases (leb max_groups_per_user (user_at s i).group_count)) [
          | inl full ↦ rw (absent, secondary, full) (same_store s)
          | inr room ↦ rw (absent, secondary, room) (same_store s)
        ]
      ]
    ]

join_found-SameStore : (g o : Option ℕ) (s : Fs) → SameStore s (join_found g o s).0
unfolding join_found
join_found-SameStore none o s = same_store s
join_found-SameStore (some gid) none s = same_store s
join_found-SameStore (some gid) (some i) s = join_group-SameStore gid i s

pub usermod-SameStore :
    (user group : CString) (s : Fs) → SameStore s (fs_usermod_add_group user group s).0
unfolding fs_usermod_add_group
usermod-SameStore user group s = elim (Bool-cases (not (s.current_uid == 0))) [
  | inl other ↦ rw other (same_store s)
  | inr root ↦
      rw root
        (join_found-SameStore (fs_get_gid group s) (find_index (active_user user) s.user_table) s)
]

pub fs_switch_user-SameStore : (name : CString) (s : Fs) → SameStore s (fs_switch_user name s)
unfolding fs_switch_user
fs_switch_user-SameStore name s = elim (Option-cases (fs_get_uid name s)) [
  | inl absent ↦ rw (fs_switch_user, absent) (same_store s)
  | inr (uid, found) ↦ rw (fs_switch_user, found) (same_store s)
]

chmod_at-SameBoth : (o : Option ℕ) (mode : ℕ) (s : Fs) → SameBoth s (chmod_at o mode s).0
unfolding chmod_at save_metadata
chmod_at-SameBoth none mode s = same_both s
chmod_at-SameBoth (some idx) mode s = elim (Bool-cases (not_owner s idx)) [
  | inl refused ↦ rw refused (same_both s)
  | inr granted ↦ rw granted (same_both s)
]

pub fs_chmod-SameBoth : (path : CString) (mode : ℕ) (s : Fs) → SameBoth s (fs_chmod path mode s).0
unfolding fs_chmod
fs_chmod-SameBoth path mode s = chmod_at-SameBoth (find_file_index path s) mode s

chown_at-SameBoth : (o found : Option ℕ) (s : Fs) → SameBoth s (chown_at o found s).0
unfolding chown_at save_metadata
chown_at-SameBoth none found s = same_both s
chown_at-SameBoth (some idx) none s = same_both s
chown_at-SameBoth (some idx) (some uid) s = same_both s

pub fs_chown-SameBoth : (path name : CString) (s : Fs) → SameBoth s (fs_chown path name s).0
unfolding fs_chown
fs_chown-SameBoth path name s = elim (Bool-cases (not (s.current_uid == 0))) [
  | inl other ↦ rw other (same_both s)
  | inr root ↦ rw root (chown_at-SameBoth (find_file_index path s) (fs_get_uid name s) s)
]

chgrp_at-SameBoth : (o found : Option ℕ) (s : Fs) → SameBoth s (chgrp_at o found s).0
unfolding chgrp_at save_metadata
chgrp_at-SameBoth none found s = same_both s
chgrp_at-SameBoth (some idx) none s = same_both s
chgrp_at-SameBoth (some idx) (some gid) s = elim (Bool-cases (not_owner s idx)) [
  | inl refused ↦ rw refused (same_both s)
  | inr granted ↦ rw granted (same_both s)
]

pub fs_chgrp-SameBoth : (path name : CString) (s : Fs) → SameBoth s (fs_chgrp path name s).0
unfolding fs_chgrp
fs_chgrp-SameBoth path name s = chgrp_at-SameBoth (find_file_index path s) (fs_get_gid name s) s
