-- ===== src/Accounts.antt =====
-- Users and groups: `fs_useradd` to `fs_switch_user`. A result of `none` is -1, or NULL for a name.
pub mod Ids
pub mod Added
pub mod Guards
pub mod Members
use opperating_system_practi.Base.{
  ℕ, zero, suc, ◌+◌, ◌-◌, Bool, true, false, not, ◌&&◌, ◌||◌, Option, none, some, List, [], ◌∷◌,
  leb, ◌==◌, if◌then◌else◌, set, get_or, take, replicate, find_index, str_eq, bytes, CString,
}
use opperating_system_practi.Types.{
  Fs, User, Group, zero_user, zero_group, max_username, max_groupname, max_groups_per_user,
}
use opperating_system_practi.Disk.{save_metadata}

abbrev pub active_user : CString → User → Bool
active_user name u = u.is_active && str_eq u.username name

abbrev pub active_group : CString → Group → Bool
active_group name g = g.is_active && str_eq g.groupname name

abbrev pub user_at : Fs → ℕ → User
user_at s i = get_or s.user_table i zero_user

abbrev pub group_at : Fs → ℕ → Group
group_at s i = get_or s.group_table i zero_group

-- The loops that raise `new_uid` and `new_gid` above every active id.
unfoldable pub next_uid : ℕ → List User → ℕ
next_uid n [] = n
next_uid n (u ∷ us) = next_uid (if u.is_active && leb n u.uid then u.uid + 1 else n) us

unfoldable pub next_gid : ℕ → List Group → ℕ
next_gid n [] = n
next_gid n (g ∷ gs) = next_gid (if g.is_active && leb n g.gid then g.gid + 1 else n) gs

abbrev pub new_group : CString → Fs → Group
new_group name s = record {
  gid = next_gid 1 s.group_table;
  groupname = take (max_groupname - 1) name;
  is_active = true;
}

unfoldable pub add_group_at : Option ℕ → CString → Fs → Fs × Option ℕ
add_group_at none name s = (s, none)
add_group_at (some idx) name s = (
  save_metadata (record s { group_table = set s.group_table idx (new_group name s) }),
  some (next_gid 1 s.group_table),
)

unfoldable pub add_group_unless : Option ℕ → CString → Fs → Fs × Option ℕ
add_group_unless (some i) name s = (s, none)
add_group_unless none name s = add_group_at (find_index (λ g. not g.is_active) s.group_table) name s

unfoldable pub fs_groupadd : CString → Fs → Fs × Option ℕ
unfolding add_group_unless add_group_at save_metadata
fs_groupadd name s =
    if not (s.current_uid == 0)
    then (s, none)
    else add_group_unless (find_index (active_group name) s.group_table) name s

abbrev pub new_user : CString → ℕ → ℕ → User
new_user name uid gid = record {
  uid = uid;
  username = take (max_username - 1) name;
  primary_gid = gid;
  groups = replicate max_groups_per_user none;
  group_count = 0;
  is_active = true;
}

-- the end of `fs_useradd`, from what `fs_groupadd` returns
unfoldable pub add_user_at : ℕ → ℕ → CString → Fs × Option ℕ → Fs × Option ℕ
add_user_at idx uid name (s, none) = (s, none)
add_user_at idx uid name (s, some gid) = (
  save_metadata (record s { user_table = set s.user_table idx (new_user name uid gid) }),
  some uid,
)

-- The two options are the account of that name and the first free slot.
unfoldable pub add_user_unless : Option ℕ → Option ℕ → CString → Fs → Fs × Option ℕ
add_user_unless (some i) slot name s = (s, none)
add_user_unless none none name s = (s, none)
add_user_unless none (some idx) name s =
    add_user_at idx (next_uid 1 s.user_table) name (fs_groupadd name s)

unfoldable pub fs_useradd : CString → Fs → Fs × Option ℕ
unfolding add_user_unless add_user_at fs_groupadd
fs_useradd name s =
    if not (s.current_uid == 0)
    then (s, none)
    else add_user_unless (find_index (active_user name) s.user_table)
        (find_index (λ u. not u.is_active) s.user_table) name s

unfoldable pub delete_user : Option ℕ → Fs → Fs × Option ℕ
delete_user none s = (s, none)
delete_user (some i) s = (
  save_metadata
      (record s { user_table = set s.user_table i (record (user_at s i) { is_active = false }) }),
  some 0,
)

unfoldable pub fs_userdel : CString → Fs → Fs × Option ℕ
unfolding delete_user save_metadata
fs_userdel name s =
    if not (s.current_uid == 0)
    then (s, none)
    else if str_eq name (bytes "root")
    then (s, none)
    else delete_user (find_index (active_user name) s.user_table) s

unfoldable pub delete_group : Option ℕ → Fs → Fs × Option ℕ
delete_group none s = (s, none)
delete_group (some i) s = (
  save_metadata (record s {
    group_table = set s.group_table i (record (group_at s i) { is_active = false });
  }),
  some 0,
)

unfoldable pub fs_groupdel : CString → Fs → Fs × Option ℕ
unfolding delete_group save_metadata
fs_groupdel name s =
    if not (s.current_uid == 0)
    then (s, none)
    else if str_eq name (bytes "root")
    then (s, none)
    else delete_group (find_index (active_group name) s.group_table) s

unfoldable pub uid_at : Option ℕ → Fs → Option ℕ
uid_at none s = none
uid_at (some i) s = some (user_at s i).uid

unfoldable pub fs_get_uid : CString → Fs → Option ℕ
unfolding uid_at
fs_get_uid name s = uid_at (find_index (active_user name) s.user_table) s

unfoldable pub gid_at : Option ℕ → Fs → Option ℕ
gid_at none s = none
gid_at (some i) s = some (group_at s i).gid

unfoldable pub fs_get_gid : CString → Fs → Option ℕ
unfolding gid_at
fs_get_gid name s = gid_at (find_index (active_group name) s.group_table) s

abbrev pub user_with : ℕ → User → Bool
user_with uid u = u.is_active && u.uid == uid

abbrev pub group_with : ℕ → Group → Bool
group_with gid g = g.is_active && g.gid == gid

unfoldable pub fs_get_username : ℕ → Fs → Option CString
fs_get_username uid s = elim (find_index (user_with uid) s.user_table) [
  | none ↦ none
  | some i ↦ some (user_at s i).username
]

unfoldable pub fs_get_groupname : ℕ → Fs → Option CString
fs_get_groupname gid s = elim (find_index (group_with gid) s.group_table) [
  | none ↦ none
  | some i ↦ some (group_at s i).groupname
]

-- `>= 0`
abbrev is_found : Option ℕ → Bool
is_found none = false
is_found (some n) = true

unfoldable pub fs_user_exists : CString → Fs → Bool
unfolding fs_get_uid
fs_user_exists name s = is_found (fs_get_uid name s)

unfoldable pub fs_group_exists : CString → Fs → Bool
unfolding fs_get_gid
fs_group_exists name s = is_found (fs_get_gid name s)

-- The loop over the first `group_count` secondary groups.
unfoldable pub has_group : List (Option ℕ) → ℕ → ℕ → Bool
has_group gs zero gid = false
has_group [] (suc n) gid = false
has_group (none ∷ gs) (suc n) gid = has_group gs n gid
has_group (some g ∷ gs) (suc n) gid = g == gid || has_group gs n gid

abbrev pub with_group : ℕ → User → User
with_group gid u = record u {
  groups = set u.groups u.group_count (some gid);
  group_count = u.group_count + 1;
}

unfoldable pub join_group : ℕ → ℕ → Fs → Fs × Option ℕ
join_group gid i s =
    let u = user_at s i in
    if has_group u.groups u.group_count gid
    then (s, some 0)
    else if u.primary_gid == gid
    then (s, some 0)
    else if leb max_groups_per_user u.group_count
    then (s, none)
    else (save_metadata (record s { user_table = set s.user_table i (with_group gid u) }), some 0)

unfoldable pub join_found : Option ℕ → Option ℕ → Fs → Fs × Option ℕ
join_found none found s = (s, none)
join_found (some gid) none s = (s, none)
join_found (some gid) (some i) s = join_group gid i s

-- The group is looked up first, then the user.
unfoldable pub fs_usermod_add_group : CString → CString → Fs → Fs × Option ℕ
unfolding join_found join_group save_metadata
fs_usermod_add_group username groupname s =
    if not (s.current_uid == 0)
    then (s, none)
    else join_found (fs_get_gid groupname s) (find_index (active_user username) s.user_table) s

unfoldable pub is_member : Option ℕ → ℕ → Fs → Bool
is_member none gid s = false
is_member (some i) gid s =
    let u = user_at s i in
    if u.primary_gid == gid then true else has_group u.groups u.group_count gid

unfoldable pub fs_user_in_group : ℕ → ℕ → Fs → Bool
unfolding is_member has_group
fs_user_in_group uid gid s = is_member (find_index (user_with uid) s.user_table) gid s

unfoldable pub fs_set_current_user : ℕ → Fs → Fs
fs_set_current_user uid s = record s { current_uid = uid }

abbrev pub fs_get_current_user : Fs → ℕ
fs_get_current_user s = s.current_uid

unfoldable pub fs_switch_user : CString → Fs → Fs
unfolding fs_get_uid
fs_switch_user name s = elim (fs_get_uid name s) [
  | none ↦ s
  | some uid ↦ record s { current_uid = uid }
]

-- The rows that `fs_list_users` and `fs_list_groups` print.
list_user_rows : List User → List (ℕ × CString × ℕ)
list_user_rows [] = []
list_user_rows (u ∷ us) =
    let rest = list_user_rows us in
    if u.is_active then (u.uid, u.username, u.primary_gid) ∷ rest else rest

unfoldable pub fs_list_users : Fs → List (ℕ × CString × ℕ)
unfolding list_user_rows
fs_list_users s = list_user_rows s.user_table

list_group_rows : List Group → List (ℕ × CString)
list_group_rows [] = []
list_group_rows (g ∷ gs) =
    let rest = list_group_rows gs in if g.is_active then (g.gid, g.groupname) ∷ rest else rest

unfoldable pub fs_list_groups : Fs → List (ℕ × CString)
unfolding list_group_rows
fs_list_groups s = list_group_rows s.group_table
