-- ===== src/Access/Checks.antt =====
-- What `fs_check_permission` decides, and who may change the permissions of a file.
use Prim.Native.Nat.{bit_and}
use mathlib.Core.Path.{subst}
use mathlib.Core.Option.{some-injective}
use opperating_system_practi.Base.{
  ℕ, zero, suc, ◌<◌, Bool, true, false, not, ◌||◌, ◌≡◌, ◌≢◌, refl, inl, inr, Option, none, some, [],
  ◌∷◌, ◌==◌, if◌then◌else◌, arith, CString, Bool-cases,
}
use opperating_system_practi.Types.{Fs, FileEntry, perm_read, perm_write, perm_exec}
use opperating_system_practi.Files.{find_file_index, file_at}
use opperating_system_practi.Accounts.{fs_user_in_group, fs_get_gid}
use opperating_system_practi.Access.{
  Acl, fs_chmod, fs_chown, fs_chgrp, chmod_at, chgrp_at, not_owner, fs_check_permission, check_at,
  effective_perm, fs_getfacl, acl_at, acl_of, permission_to_string,
}

refused_group :
    (idx : ℕ) (o : Option ℕ) (s : Fs) → not_owner s idx ≡ true → chgrp_at (some idx) o s ≡ (s, none)
unfolding chgrp_at
refused_group idx none s h = refl
refused_group idx (some gid) s h = rw h

-- For a user who is neither root nor the owner of a file, the operations on its mode, its group and its
-- owner fail, and leave the state as it was.
pub only_owner :
    (path name : CString) (mode idx : ℕ) (s : Fs)
    → s.current_uid ≢ 0
    → find_file_index path s ≡ some idx
    → (file_at s idx).owner_uid ≢ s.current_uid
    → (fs_chmod path mode s ≡ (s, none))
      × (fs_chgrp path name s ≡ (s, none))
      × (fs_chown path name s ≡ (s, none))
unfolding fs_chmod fs_chgrp fs_chown
only_owner path name mode idx s h e ne =
    let t : not_owner s idx ≡ true = ground arith in
    let u : not (s.current_uid == 0) ≡ true = ground arith in
    (rw (e, chmod_at, t), rw e (refused_group idx (fs_get_gid name s) s t), rw u)

-- The string of a class of users in what `fs_getfacl` prints.
abbrev pub class_string : Acl → ℕ → Bool → CString
class_string acl uid member =
    if acl.owner_uid == uid
    then acl.owner_perm
    else if member
    then acl.group_perm
    else acl.other_perm

abbrev pub shows : ℕ → CString → Bool
shows c [] = false
shows c (d ∷ s) = d == c || shows c s

-- The test of each bit agrees with the letter that is printed for it.
abbrev Agrees : ℕ → Type 0
Agrees e =
    ((bit_and e perm_read == perm_read) ≡ shows b'r' (permission_to_string e))
    × ((bit_and e perm_write == perm_write) ≡ shows b'w' (permission_to_string e))
    × ((bit_and e perm_exec == perm_exec) ≡ shows b'x' (permission_to_string e))

bits-Agrees : (e : ℕ) → e < 8 → Agrees e
unfolding permission_to_string
bits-Agrees zero h = (refl, refl, refl)
bits-Agrees (suc zero) h = (refl, refl, refl)
bits-Agrees (suc (suc zero)) h = (refl, refl, refl)
bits-Agrees (suc (suc (suc zero))) h = (refl, refl, refl)
bits-Agrees (suc (suc (suc (suc zero)))) h = (refl, refl, refl)
bits-Agrees (suc (suc (suc (suc (suc zero))))) h = (refl, refl, refl)
bits-Agrees (suc (suc (suc (suc (suc (suc zero)))))) h = (refl, refl, refl)
bits-Agrees (suc (suc (suc (suc (suc (suc (suc zero))))))) h = (refl, refl, refl)
bits-Agrees (suc (suc (suc (suc (suc (suc (suc (suc e)))))))) h = absurd (omega arith)

class_string-eq :
    (file : FileEntry) (s : Fs)
    → class_string (acl_of file s) s.current_uid (fs_user_in_group s.current_uid file.group_gid s)
      ≡ permission_to_string (effective_perm file s)
unfolding effective_perm
class_string-eq file s = elim (Bool-cases (file.owner_uid == s.current_uid)) [
  | inl owner ↦ rw owner
  | inr other ↦ elim (Bool-cases (fs_user_in_group s.current_uid file.group_gid s)) [
    | inl member ↦ rw (other, member)
    | inr stranger ↦ rw (other, stranger)
  ]
]

effective_perm-lt : (file : FileEntry) (s : Fs) → effective_perm file s < 8
unfolding effective_perm
effective_perm-lt file s = ground arith

-- What the string says of the three permissions.
abbrev pub Grants : CString → CString → Fs → Type 0
Grants path cls s =
    (fs_check_permission path perm_read s ≡ shows b'r' cls)
    × (fs_check_permission path perm_write s ≡ shows b'w' cls)
    × (fs_check_permission path perm_exec s ≡ shows b'x' cls)

check_at-Grants :
    (o : Option ℕ) (path : CString) (s : Fs) (acl : Acl)
    → s.current_uid ≢ 0
    → find_file_index path s ≡ o
    → acl_at o s ≡ some acl
    → Grants path
        (class_string acl s.current_uid (fs_user_in_group s.current_uid acl.group_gid s))
        s
unfolding fs_check_permission acl_at check_at
check_at-Grants none path s acl h e k = cc
check_at-Grants (some idx) path s acl h e k =
    let file : FileEntry = file_at s idx in
    let u : s.current_uid == 0 ≡ false = ground arith in
    let bits = bits-Agrees (effective_perm file s) (effective_perm-lt file s) in
    subst
      (λ a.
        Grants path (class_string a s.current_uid (fs_user_in_group s.current_uid a.group_gid s)) s)
      (some-injective (acl_of file s) acl k) (rw (class_string-eq file s, e, check_at, u) bits)

-- For a user other than root, `fs_check_permission` grants reading, writing or executing an
-- existing file exactly if the string that `fs_getfacl` prints for the class of the user shows `r`,
-- `w` or `x`: the owner's string for the owner, else the group's for a member of the file's group,
-- else the others'.
pub check-getfacl :
    (path : CString) (s : Fs) (acl : Acl)
    → s.current_uid ≢ 0
    → fs_getfacl path s ≡ some acl
    → Grants path
        (class_string acl s.current_uid (fs_user_in_group s.current_uid acl.group_gid s))
        s
unfolding fs_getfacl
check-getfacl path s acl h = check_at-Grants (find_file_index path s) path s acl h refl
