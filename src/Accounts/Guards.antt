-- ===== src/Accounts/Guards.antt =====
-- What the account operations refuse.
use opperating_system_practi.Base.{
  ℕ, ◌<◌, true, false, not, ◌≡◌, ◌≢◌, refl, sym, inl, inr, Option, none, some, length, set, ◌==◌,
  arith, find_index, find_index-some, find_index-set_same, get_or-set, str_eq, str_eq_sound,
  CString, Bool-cases, bytes,
}
use opperating_system_practi.Types.{Fs, User, zero_user}
use opperating_system_practi.Disk.{save_metadata}
use opperating_system_practi.Accounts.{
  fs_useradd, fs_groupadd, fs_userdel, fs_groupdel, fs_usermod_add_group, fs_get_uid, uid_at,
  delete_user, active_user, user_at,
}

-- For a user other than root, the five operations that change accounts fail, and leave the state as
-- it was.
pub only_root :
    (name group : CString) (s : Fs)
    → s.current_uid ≢ 0
    → (fs_useradd name s ≡ (s, none))
      × (fs_userdel name s ≡ (s, none))
      × (fs_groupadd name s ≡ (s, none))
      × (fs_groupdel name s ≡ (s, none))
      × (fs_usermod_add_group name group s ≡ (s, none))
unfolding fs_useradd fs_userdel fs_groupadd fs_groupdel fs_usermod_add_group
only_root name group s h =
    let e : not (s.current_uid == 0) ≡ true = ground arith in (rw e, rw e, rw e, rw e, rw e)

str_eq-false : (a b c : CString) → a ≡ b → str_eq b c ≡ false → str_eq a c ≡ false
str_eq-false a b c e h = rw e h

-- An account that is no longer active keeps its uid in the table.
uid_at-deactivate :
    (o : Option ℕ) (k : ℕ) (s t : Fs)
    → k < length s.user_table
    → t.user_table ≡ set s.user_table k (record (user_at s k) { is_active = false })
    → uid_at o t ≡ uid_at o s
unfolding uid_at
uid_at-deactivate none k s t h e = refl
uid_at-deactivate (some j) k s t h e =
    rw (e, get_or-set s.user_table k j (record (user_at s k) { is_active = false }) zero_user h)
      (ground arith)

-- The name `kept` is found as before when the account of another name is deleted.
delete_user-get_uid :
    (o : Option ℕ) (name kept : CString) (s : Fs)
    → str_eq name kept ≡ false
    → find_index (active_user name) s.user_table ≡ o
    → fs_get_uid kept (delete_user o s).0 ≡ fs_get_uid kept s
unfolding delete_user save_metadata fs_get_uid
delete_user-get_uid none name kept s ne e = refl
delete_user-get_uid (some i) name kept s ne e =
    let u : User = user_at s i in
    let (within, hit) = find_index-some (active_user name) s.user_table i zero_user e in
    let miss : active_user kept u ≡ false =
      ground (
        arith,
        str_eq-false u.username name kept (str_eq_sound u.username name (ground arith)) ne,
      ) in
    rw
      (find_index-set_same (active_user kept) s.user_table i (record u { is_active = false })
        zero_user within (sym miss))
      (uid_at-deactivate (find_index (active_user kept) s.user_table) i s _ within refl)

-- `fs_userdel` never changes the uid under which a name other than the deleted one is found.
pub userdel-get_uid :
    (name kept : CString) (s : Fs)
    → str_eq name kept ≡ false
    → fs_get_uid kept (fs_userdel name s).0 ≡ fs_get_uid kept s
unfolding fs_userdel
userdel-get_uid name kept s ne = elim (Bool-cases (not (s.current_uid == 0))) [
  | inl other ↦ rw other
  | inr root ↦ elim (Bool-cases (str_eq name (bytes "root"))) [
    | inl is_root ↦ rw (root, is_root)
    | inr plain ↦ rw (root, plain) (delete_user-get_uid _ name kept s ne refl)
  ]
]

-- Whatever name `fs_userdel` is given, the account "root" keeps its uid.
pub userdel-root :
    (name : CString) (s : Fs)
    → fs_get_uid (bytes "root") (fs_userdel name s).0 ≡ fs_get_uid (bytes "root") s
userdel-root name s = elim (Bool-cases (str_eq name (bytes "root"))) [
  | inl is_root ↦ unfold fs_userdel in ground (arith, is_root)
  | inr plain ↦ userdel-get_uid name (bytes "root") s plain
]
