-- ===== src/Accounts/Members.antt =====
-- Membership of groups after `fs_usermod_add_group`.
use opperating_system_practi.Base.{
  ℕ, zero, suc, ◌+◌, ◌<◌, true, not, ◌≡◌, refl, ◌∙◌, inl, inr, Option, none, some, List, [], ◌∷◌,
  length, set, leb, ◌==◌, if◌then◌else◌, arith, find_index, find_index-some, find_index-set_same,
  find_index-only, get_or-set_self, CString, Bool-cases,
}
use opperating_system_practi.Types.{Fs, User, zero_user, max_groups_per_user}
use opperating_system_practi.Disk.{save_metadata}
use opperating_system_practi.Accounts.{
  fs_usermod_add_group, fs_user_in_group, fs_get_uid, fs_get_gid, uid_at, join_found, join_group,
  is_member, has_group, with_group, active_user, user_with, user_at,
}

-- No two active users have one uid.
abbrev pub UniqueUids : Fs → Type 0
UniqueUids s =
    (i j : ℕ)
    → (user_at s i).is_active ≡ true
    → (user_at s j).is_active ≡ true
    → (user_at s i).uid ≡ (user_at s j).uid
    → i ≡ j

-- A group that has been added at the end of the groups in use is found.
has_group-set :
    (gs : List (Option ℕ)) (n gid : ℕ)
    → n < length gs
    → has_group (set gs n (some gid)) (suc n) gid ≡ true
unfolding has_group
has_group-set [] n gid h = absurd (omega arith)
has_group-set (g ∷ gs) zero gid h = ground arith
has_group-set (none ∷ gs) (suc n) gid h = has_group-set gs n gid (omega arith)
has_group-set (some g ∷ gs) (suc n) gid h = ground (arith, has_group-set gs n gid (omega arith))

-- The user at index `i` is a member by the test that `fs_user_in_group` makes.
abbrev IsMember : Fs → ℕ → ℕ → Type 0
IsMember s i gid = is_member (some i) gid s ≡ true

added :
    (u : User) (gid : ℕ) (v : User)
    → v ≡ with_group gid u
    → has_group (set u.groups u.group_count (some gid)) (suc u.group_count) gid ≡ true
    → (if v.primary_gid == gid then true else has_group v.groups v.group_count gid) ≡ true
added u gid v e h =
    let k : u.group_count + 1 ≡ suc u.group_count = omega arith in rw (e, k, h) (ground arith)

join_group-IsMember :
    (gid i : ℕ) (s : Fs)
    → i < length s.user_table
    → length (user_at s i).groups ≡ max_groups_per_user
    → (join_group gid i s).1 ≡ some 0
    → IsMember (join_group gid i s).0 i gid
unfolding join_group save_metadata is_member
join_group-IsMember gid i s h size e =
    let u : User = user_at s i in
    elim (Bool-cases (has_group u.groups u.group_count gid)) [
      | inl already ↦ rw already (ground (arith, already))
      | inr absent ↦ elim (Bool-cases (u.primary_gid == gid)) [
        | inl primary ↦ rw (absent, primary) (ground (arith, primary))
        | inr secondary ↦ elim (Bool-cases (leb max_groups_per_user u.group_count)) [
          | inl full ↦ ground (arith, absent, secondary, full)
          | inr room ↦
              rw (absent, secondary, room)
                (added (user_at s i) gid _
                  (get_or-set_self s.user_table i (with_group gid (user_at s i)) zero_user h)
                  (has_group-set u.groups u.group_count gid (ground arith)))
        ]
      ]
    ]

-- Joining a group does not change which entry has a uid.
find-join_group :
    (uid gid i : ℕ) (s : Fs)
    → i < length s.user_table
    → find_index (user_with uid) (join_group gid i s).0.user_table
      ≡ find_index (user_with uid) s.user_table
unfolding join_group save_metadata
find-join_group uid gid i s h = ground (
  arith,
  find_index-set_same (user_with uid) s.user_table i (with_group gid (user_at s i)) zero_user h
      refl,
)

-- The entry that has a uid is the one that is found for it.
find-user_with :
    (s : Fs) (i uid : ℕ)
    → UniqueUids s
    → i < length s.user_table
    → (user_at s i).is_active ≡ true
    → (user_at s i).uid ≡ uid
    → find_index (user_with uid) s.user_table ≡ some i
find-user_with s i uid unique h a e =
    find_index-only (user_with uid) s.user_table i zero_user h (ground arith)
      (λ j k. unique j i (ground arith) a (ground arith))

join_found-member :
    (g o : Option ℕ) (username : CString) (s : Fs) (uid gid : ℕ)
    → UniqueUids s
    → ((i : ℕ) → length (user_at s i).groups ≡ max_groups_per_user)
    → g ≡ some gid
    → find_index (active_user username) s.user_table ≡ o
    → uid_at o s ≡ some uid
    → (join_found g o s).1 ≡ some 0
    → fs_user_in_group uid gid (join_found g o s).0 ≡ true
unfolding join_found uid_at
join_found-member none o username s uid gid unique size e f k h = cc
join_found-member (some g) none username s uid gid unique size e f k h = cc
join_found-member (some g) (some i) username s uid gid unique size e f k h =
    let (within, hit) = find_index-some (active_user username) s.user_table i zero_user f in
    let p : g ≡ gid = ground arith in
    let found : find_index (user_with uid) (join_group gid i s).0.user_table ≡ some i =
      find-join_group uid gid i s within
      ∙ find-user_with s i uid unique within (ground arith) (ground arith) in
    rw p (
      unfold fs_user_in_group in rw found (join_group-IsMember gid i s within (size i) (rw p at h)))

-- After a successful `fs_usermod_add_group`, `fs_user_in_group` says of the uid of that user and of
-- the gid of that group that the user is a member, if no two active users have one uid and every
-- entry has room for the secondary groups.
pub usermod-member :
    (username groupname : CString) (s : Fs) (uid gid : ℕ)
    → UniqueUids s
    → ((i : ℕ) → length (user_at s i).groups ≡ max_groups_per_user)
    → fs_get_uid username s ≡ some uid
    → fs_get_gid groupname s ≡ some gid
    → (fs_usermod_add_group username groupname s).1 ≡ some 0
    → fs_user_in_group uid gid (fs_usermod_add_group username groupname s).0 ≡ true
unfolding fs_usermod_add_group fs_get_uid
usermod-member username groupname s uid gid unique size e k h =
    elim (Bool-cases (not (s.current_uid == 0))) [
      | inl other ↦ absurd (refused (rw other at h))
      | inr root ↦
          rw root (join_found-member _ _ username s uid gid unique size k refl e (rw root at h))
    ]
  where
    refused : ◌≡◌ {A = Option ℕ} none (some 0) → ⊥
    refused p = cc
