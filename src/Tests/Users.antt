-- ===== src/Tests/Users.antt =====
-- The theorems on accounts and permissions: root adds alice, creates a file, and logs in as alice.
use opperating_system_practi.Base.{
  ℕ, false, zero, suc, ap, ◌≡◌, ◌≢◌, refl, Option, some, none, true, bytes, length, arith,
  find_index, str_eq,
}
use opperating_system_practi.Types.{Fs, zero_user, User, max_groups_per_user}
use opperating_system_practi.Invariant.Start.{get_or-replicate}
use opperating_system_practi.Boot.{fs_init, absent, at_start, zero_disk}
use opperating_system_practi.Files.{fs_create, find_file_index, file_at}
use opperating_system_practi.Accounts.{
  fs_useradd, fs_usermod_add_group, fs_get_uid, fs_get_gid, fs_user_in_group, has_group,
  fs_switch_user, next_uid, next_gid, user_at,
}
use opperating_system_practi.Accounts.Added.{Added, useradd-Added}
use opperating_system_practi.Accounts.Members.{usermod-member, UniqueUids}
use opperating_system_practi.Access.{fs_getfacl, acl_of, permission_to_string}
use opperating_system_practi.Access.Checks.{check-getfacl, Grants}

abbrev or_start : Option Fs → Fs
or_start none = at_start zero_disk
or_start (some s) = s

abbrev pub fresh : Fs
unfolding fs_init
fresh = or_start (fs_init absent)

abbrev with_alice : Fs
unfolding fs_init find_index str_eq fs_useradd next_uid next_gid
with_alice = (fs_useradd (bytes "alice") fresh).0

useradd-Added_example : Added (bytes "alice") fresh with_alice 1
unfolding fs_init find_index str_eq fs_useradd next_uid next_gid
useradd-Added_example = useradd-Added (bytes "alice") fresh 1 (omega arith) refl

-- alice is logged in, and root's file "f" has mode 640
abbrev pub as_alice : Fs
unfolding fs_init find_index str_eq fs_useradd next_uid next_gid fs_create fs_switch_user
as_alice = fs_switch_user (bytes "alice") (fs_create (bytes "f") 0o640 1 1 with_alice).0

-- alice has none of the others' bits of mode 640.
check-getfacl_example : Grants (bytes "f") (bytes "---") as_alice
unfolding fs_init find_index str_eq fs_useradd next_uid next_gid fs_create fs_switch_user fs_getfacl
    find_file_index fs_user_in_group permission_to_string
check-getfacl_example =
    check-getfacl (bytes "f") as_alice (acl_of (file_at as_alice 0) as_alice) (omega arith) refl

-- Behind root and alice, the user table is empty.
no_others : (i : ℕ) → user_at with_alice (suc (suc i)) ≡ zero_user
unfolding fs_init find_index str_eq fs_useradd next_uid next_gid
no_others i = get_or-replicate 48 i zero_user

inactive : (u : User) → u ≡ zero_user → u.is_active ≢ true
inactive u p a = let e : u.is_active ≡ false = ap (λ v. v.is_active) p in cc

with_alice-UniqueUids : UniqueUids with_alice
unfolding fs_init find_index str_eq fs_useradd next_uid next_gid
with_alice-UniqueUids zero zero a b e = refl
with_alice-UniqueUids zero (suc zero) a b e = absurd (omega arith)
with_alice-UniqueUids zero (suc (suc j)) a b e = absurd (inactive _ (no_others j) b)
with_alice-UniqueUids (suc zero) zero a b e = absurd (omega arith)
with_alice-UniqueUids (suc zero) (suc zero) a b e = refl
with_alice-UniqueUids (suc zero) (suc (suc j)) a b e = absurd (inactive _ (no_others j) b)
with_alice-UniqueUids (suc (suc i)) j a b e = absurd (inactive _ (no_others i) a)

groups_size : (i : ℕ) → length (user_at with_alice i).groups ≡ max_groups_per_user
unfolding fs_init find_index str_eq fs_useradd next_uid next_gid
groups_size zero = refl
groups_size (suc zero) = refl
groups_size (suc (suc i)) = ap (λ u. length u.groups) (no_others i)

-- root's group is the secondary group of alice
usermod-member_example :
    fs_user_in_group 1 0 (fs_usermod_add_group (bytes "alice") (bytes "root") with_alice).0 ≡ true
unfolding fs_init find_index str_eq fs_useradd next_uid next_gid fs_usermod_add_group fs_get_uid
    fs_get_gid has_group
usermod-member_example =
    usermod-member (bytes "alice") (bytes "root") with_alice 1 0 with_alice-UniqueUids groups_size
      refl refl refl
