-- ===== src/Shell/Rights/Operations.antt =====
-- The operations that change a file entry of its own, and the ones on its rights.
use mathlib.Core.Path.{subst}
use opperating_system_practi.Access.{fs_chown}
use opperating_system_practi.Shell.AccountCommands.{
  chown_parts, chown_unless_empty, chgrp_unless_empty,
}
use opperating_system_practi.Shell.Rights.{
  AllGuarded, same_guarded, SameRights, rights, rights-Guarded, set-Guarded, set-SameRights,
}
use opperating_system_practi.Base.{
  ℕ, ◌+◌, ◌-◌, true, false, not, ◌≡◌, ◌≢◌, refl, sym, ap, ◌∙◌, inl, inr, Option, none, some, List,
  [], ◌∷◌, ◌==◌, arith, get_or, leb, ltb, Bool-cases, if-both, CString, length,
}
use opperating_system_practi.Base.Int.{ℤ}
use opperating_system_practi.Types.{Fs, zero_file}
use opperating_system_practi.Disk.{save_metadata}
use opperating_system_practi.FreeList.{FreeList, allocate}
use opperating_system_practi.Blocks.{allocate_blocks, take_blocks, free_blocks, blocks_for}
use opperating_system_practi.Files.{find_file_index, descriptor, file_at}
use opperating_system_practi.Data.{
  fs_write, write_found, write_file, store, reserve, reserve_in, reserve_first, reserve_more,
  fs_shrink, shrink_found, shrink_file,
}
use opperating_system_practi.Access.{fs_chmod, fs_chgrp, chmod_at, chgrp_at, not_owner}
use opperating_system_practi.Accounts.{fs_get_gid}

-- Every file keeps what is compared.
abbrev AllSame : Fs → Fs → Type 0
AllSame s t = (j : ℕ) → SameRights (file_at s j) (file_at t j)

all_same : (s t : Fs) → t.file_table ≡ s.file_table → AllSame s t
all_same s t e j = ap (λ files. rights (get_or files j zero_file)) e

AllSame-AllGuarded : (s t : Fs) → AllSame s t → AllGuarded s t
AllSame-AllGuarded s t h j = rights-Guarded s.current_uid (file_at s j) (file_at t j) (h j)

take_blocks-files :
    (n : ℕ) (s : Fs) (o : Option (ℕ × FreeList)) → (take_blocks n s o).0.file_table ≡ s.file_table
unfolding take_blocks
take_blocks-files n s none = refl
take_blocks-files n s (some (a, rs)) = refl

-- An entry that is written with the rights that it has.
module _ (s : Fs) (i : ℕ) where
  reserve_first-AllSame :
      (needed : ℕ) (r : Fs × Option ℕ)
      → r.0.file_table ≡ s.file_table
      → AllSame s (reserve_first i needed (file_at s i) r).0
  unfolding reserve_first
  reserve_first-AllSame needed (t, none) e j = all_same s t e j
  reserve_first-AllSame needed (t, some a) e j = rw e (set-SameRights s.file_table i j _ refl)

  reserve_more-AllSame :
      (needed a : ℕ) (r : Fs × Option ℕ)
      → r.0.file_table ≡ s.file_table
      → AllSame s (reserve_more i needed (file_at s i) a r).0
  unfolding reserve_more
  reserve_more-AllSame needed a (t, none) e j = all_same s t e j
  reserve_more-AllSame needed a (t, some b) e j = rw e (set-SameRights s.file_table i j _ refl)

  reserve_in-AllSame :
      (o : Option ℕ) (needed : ℕ) → AllSame s (reserve_in o i needed (file_at s i) s).0
  unfolding reserve_in allocate_blocks
  reserve_in-AllSame none needed =
      reserve_first-AllSame needed (allocate_blocks needed s)
        (take_blocks-files needed s (allocate needed s.free_list))
  reserve_in-AllSame (some a) needed =
      if-both (λ (r : Fs × Option ℕ). AllSame s r.0) (ltb (file_at s i).block_count needed) _ _
        (reserve_more-AllSame needed a (allocate_blocks (needed - (file_at s i).block_count) s) (
          take_blocks-files (needed - (file_at s i).block_count) s
            (allocate (needed - (file_at s i).block_count) s.free_list)))
        (all_same s s refl)

  store-AllSame :
      (position : ℕ) (buffer : List ℕ) (now : ℕ) (r : Fs × Option ℕ)
      → AllSame s r.0
      → AllSame s (store i position buffer now r).0
  unfolding store save_metadata
  store-AllSame position buffer now (t, none) h j = h j
  store-AllSame position buffer now (t, some a) h j = set-SameRights t.file_table i j _ refl ∙ h j

  write_file-AllSame :
      (position : ℕ) (buffer : List ℕ) (now : ℕ) → AllSame s (write_file i position buffer now s).0
  unfolding write_file reserve
  write_file-AllSame position buffer now =
      store-AllSame position buffer now
        (reserve i (blocks_for (position + length buffer)) (file_at s i) s)
        (reserve_in-AllSame (file_at s i).start_block (blocks_for (position + length buffer)))

  shrink_file-AllSame : (n now : ℕ) → AllSame s (shrink_file i n now s).0
  unfolding shrink_file save_metadata free_blocks
  shrink_file-AllSame n now =
      if-both (λ (r : Fs × Option ℕ). AllSame s r.0) (leb (file_at s i).size n) _ _
        (all_same s s refl)
        (if-both (λ (r : Fs × Option ℕ). AllSame s r.0)
          (ltb (blocks_for n) (file_at s i).block_count) _ _
          (λ j. set-SameRights s.file_table i j _ refl)
          (λ j. set-SameRights s.file_table i j _ refl))

write_found-AllSame :
    (o : Option ℕ) (position : ℕ) (buffer : List ℕ) (now : ℕ) (s : Fs)
    → AllSame s (write_found o position buffer now s).0
unfolding write_found
write_found-AllSame none position buffer now s = all_same s s refl
write_found-AllSame (some i) position buffer now s = write_file-AllSame s i position buffer now

shrink_found-AllSame : (o : Option ℕ) (n now : ℕ) (s : Fs) → AllSame s (shrink_found o n now s).0
unfolding shrink_found
shrink_found-AllSame none n now s = all_same s s refl
shrink_found-AllSame (some i) n now s = shrink_file-AllSame s i n now

pub fs_write-AllGuarded :
    (fd : ℤ) (position : ℕ) (buffer : List ℕ) (now : ℕ) (s : Fs)
    → AllGuarded s (fs_write fd position buffer now s).0
unfolding fs_write
fs_write-AllGuarded fd position buffer now s =
    AllSame-AllGuarded s (fs_write fd position buffer now s).0
      (write_found-AllSame (descriptor s fd) position buffer now s)

pub fs_shrink-AllGuarded : (fd : ℤ) (n now : ℕ) (s : Fs) → AllGuarded s (fs_shrink fd n now s).0
unfolding fs_shrink
fs_shrink-AllGuarded fd n now s =
    AllSame-AllGuarded s (fs_shrink fd n now s).0 (shrink_found-AllSame (descriptor s fd) n now s)

pub files-AllGuarded : (s t : Fs) → t.file_table ≡ s.file_table → AllGuarded s t
files-AllGuarded s t e = AllSame-AllGuarded s t (all_same s t e)

-- the operations on the rights, for a user other than root
module _ (s : Fs) (h : s.current_uid ≢ 0) where
  owner_of : (i : ℕ) → not_owner s i ≡ false → (file_at s i).owner_uid ≡ s.current_uid
  owner_of i f = ground arith

  chmod_at-AllGuarded : (o : Option ℕ) (mode : ℕ) → AllGuarded s (chmod_at o mode s).0
  unfolding chmod_at save_metadata
  chmod_at-AllGuarded none mode = same_guarded s
  chmod_at-AllGuarded (some i) mode = elim (Bool-cases (not_owner s i)) [
    | inl t ↦ rw t (same_guarded s)
    | inr f ↦ rw f (λ j.
        set-Guarded s.current_uid s.file_table i j _
          (λ u. inr (refl, λ ne. absurd (ne (owner_of i f)))))
  ]

  chgrp_at-AllGuarded : (o found : Option ℕ) → AllGuarded s (chgrp_at o found s).0
  unfolding chgrp_at save_metadata
  chgrp_at-AllGuarded none found = same_guarded s
  chgrp_at-AllGuarded (some i) none = same_guarded s
  chgrp_at-AllGuarded (some i) (some gid) = elim (Bool-cases (not_owner s i)) [
    | inl t ↦ rw t (same_guarded s)
    | inr f ↦ rw f (λ j.
        set-Guarded s.current_uid s.file_table i j _
          (λ u. inr (refl, λ ne. absurd (ne (owner_of i f)))))
  ]

  pub fs_chmod-AllGuarded : (path : CString) (mode : ℕ) → AllGuarded s (fs_chmod path mode s).0
  unfolding fs_chmod
  fs_chmod-AllGuarded path mode = chmod_at-AllGuarded (find_file_index path s) mode

  pub fs_chgrp-AllGuarded : (path name : CString) → AllGuarded s (fs_chgrp path name s).0
  unfolding fs_chgrp
  fs_chgrp-AllGuarded path name = chgrp_at-AllGuarded (find_file_index path s) (fs_get_gid name s)

  -- `fs_chown` changes nothing.
  fs_chown-refused : (path name : CString) → (fs_chown path name s).0 ≡ s
  unfolding fs_chown
  fs_chown-refused path name = let t : not (s.current_uid == 0) ≡ true = ground arith in rw t refl

  chown_unless_empty-refused : (file user : CString) → chown_unless_empty file user s ≡ s
  chown_unless_empty-refused file [] = refl
  chown_unless_empty-refused file (c ∷ user) = fs_chown-refused file (c ∷ user)

  chgrp_unless_empty-AllGuarded :
      (file group : CString) → AllGuarded s (chgrp_unless_empty file group s)
  chgrp_unless_empty-AllGuarded file [] = same_guarded s
  chgrp_unless_empty-AllGuarded file (c ∷ group) = fs_chgrp-AllGuarded file (c ∷ group)

  pub chown_parts-AllGuarded :
      (file : CString) (p : CString × Option CString) → AllGuarded s (chown_parts file p s)
  chown_parts-AllGuarded file (user, none) = rw (fs_chown-refused file user) (same_guarded s)
  chown_parts-AllGuarded file (user, some group) =
      subst (λ t. AllGuarded s (chgrp_unless_empty file group t))
        (sym (chown_unless_empty-refused file user)) (chgrp_unless_empty-AllGuarded file group)
