-- ===== src/Accounts/Added.antt =====
-- `fs_useradd`: the new account is found under its name, and its uid is above all active ones.
use opperating_system_practi.Base.{
  ℕ, ◌-◌, ◌<◌, true, not, ◌≡◌, refl, inl, inr, Option, none, some, length, ◌==◌, arith, find_index,
  find_index-some, find_index-set_new, get_or-set_self, str_eq_refl, take_all, CString, Bool-cases,
}
use opperating_system_practi.Types.{Fs, User, zero_user, max_username}
use opperating_system_practi.Disk.{save_metadata}
use opperating_system_practi.Accounts.{
  fs_useradd, fs_groupadd, fs_get_uid, uid_at, next_uid, add_user_at, add_user_unless, add_group_at,
  add_group_unless, new_user, active_user, active_group, user_at,
}
use opperating_system_practi.Accounts.Ids.{uid-lt-next_uid}

-- A group is added without a change to the users.
add_group-users :
    (o : Option ℕ) (name : CString) (s : Fs)
    → (add_group_unless o name s).0.user_table ≡ s.user_table
unfolding add_group_unless add_group_at save_metadata
add_group-users (some i) name s = refl
add_group-users none name s = ground arith

groupadd-users : (name : CString) (s : Fs) → (fs_groupadd name s).0.user_table ≡ s.user_table
unfolding fs_groupadd
groupadd-users name s = elim (Bool-cases (not (s.current_uid == 0))) [
  | inl other ↦ rw other
  | inr root ↦ rw root (add_group-users (find_index (active_group name) s.group_table) name s)
]

-- What a successful `fs_useradd` has done.
pub record Added (name : CString) (s t : Fs) (uid : ℕ) : Type 0 where
  pub found : fs_get_uid name t ≡ some uid
  -- The uid is above that of every account that was active.
  pub fresh : (i : ℕ) → (user_at s i).is_active ≡ true → (user_at s i).uid < uid
  pub current : t.current_uid ≡ s.current_uid

add_user_at-Added :
    (idx : ℕ) (name : CString) (s t : Fs) (o : Option ℕ) (uid : ℕ)
    → length name < max_username
    → t.user_table ≡ s.user_table
    → t.current_uid ≡ s.current_uid
    → idx < length s.user_table
    → find_index (active_user name) s.user_table ≡ none
    → (add_user_at idx (next_uid 1 s.user_table) name (t, o)).1 ≡ some uid
    → Added name s (add_user_at idx (next_uid 1 s.user_table) name (t, o)).0 uid
unfolding add_user_at save_metadata fs_get_uid
add_user_at-Added idx name s t none uid short same cur h absent e = cc
add_user_at-Added idx name s t (some gid) uid short same cur h absent e =
    let u : User = new_user name (next_uid 1 s.user_table) gid in
    let within : idx < length t.user_table = rw same h in
    let hit : active_user name u ≡ true =
      rw (take_all (max_username - 1) name (omega arith)) (str_eq_refl name) in
    record {
      found =
          rw
            (
              find_index-set_new (active_user name) t.user_table idx u within (rw same absent) hit,
              uid_at,
              get_or-set_self t.user_table idx u zero_user within,
            )
            e;
      fresh = λ i a. ground (arith, uid-lt-next_uid 1 s.user_table i a);
      current = cur;
    }

groupadd-current : (name : CString) (s : Fs) → (fs_groupadd name s).0.current_uid ≡ s.current_uid
unfolding fs_groupadd
groupadd-current name s = ground arith

add_user_unless-Added :
    (o slot : Option ℕ) (name : CString) (s : Fs) (uid : ℕ)
    → length name < max_username
    → find_index (active_user name) s.user_table ≡ o
    → find_index (λ u. not u.is_active) s.user_table ≡ slot
    → (add_user_unless o slot name s).1 ≡ some uid
    → Added name s (add_user_unless o slot name s).0 uid
unfolding add_user_unless
add_user_unless-Added (some i) slot name s uid short e e' h = cc
add_user_unless-Added none none name s uid short e e' h = cc
add_user_unless-Added none (some idx) name s uid short e e' h =
    add_user_at-Added idx name s _ _ uid short (groupadd-users name s) (groupadd-current name s)
      (find_index-some (λ u. not u.is_active) s.user_table idx zero_user e').0 e h

-- A successful `fs_useradd` with a name of at most 31 bytes: `fs_get_uid` then finds the account
-- under that name with the uid that was returned, that uid is above the uid of every account that
-- was active before, and the current user is the same.
pub useradd-Added :
    (name : CString) (s : Fs) (uid : ℕ)
    → length name < max_username
    → (fs_useradd name s).1 ≡ some uid
    → Added name s (fs_useradd name s).0 uid
unfolding fs_useradd
useradd-Added name s uid short h = elim (Bool-cases (not (s.current_uid == 0))) [
  | inl other ↦ absurd (refused (rw other at h))
  | inr root ↦ rw root (add_user_unless-Added _ _ name s uid short refl refl (rw root at h))
]
  where
    refused : ◌≡◌ {A = Option ℕ} none (some uid) → ⊥
    refused p = cc
