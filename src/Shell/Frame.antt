-- ===== src/Shell/Frame.antt =====
-- What the operations of the file system leave alone: the descriptors, the accounts, the current user.
pub mod Accounts
pub mod Descriptors
use opperating_system_practi.Base.{
  ℕ, zero, suc, ◌-◌, Bool, true, false, not, ◌≡◌, ◌≢◌, ◌∙◌, refl, ap, inl, inr, Option, none, some,
  List, [], ◌∷◌, if◌then◌else◌, leb, ltb, ◌==◌, arith, Bool-cases, CString, find_index, bytes,
  str_eq,
}
use opperating_system_practi.Base.Int.{ℤ}
use opperating_system_practi.Types.{Fs, FileEntry}
use opperating_system_practi.Disk.{save_metadata}
use opperating_system_practi.FreeList.{FreeList, allocate}
use opperating_system_practi.Blocks.{allocate_blocks, take_blocks, free_blocks, blocks_for}
use opperating_system_practi.Boot.{fs_format, init_free_list}
use opperating_system_practi.Files.{
  fs_create, create_unless, create_at, find_file_index, descriptor, file_at, fs_delete, delete_at,
  release_file, close_file, fs_open, open_found, open_at, take_descriptor, fs_close_file,
  close_found,
}
use opperating_system_practi.Data.{
  fs_write, write_found, write_file, store, reserve, reserve_in, reserve_first, reserve_more,
  fs_shrink, shrink_found, shrink_file,
}
use opperating_system_practi.Accounts.{
  fs_useradd, add_user_unless, add_user_at, fs_groupadd, add_group_unless, add_group_at, fs_userdel,
  delete_user, fs_groupdel, delete_group, fs_usermod_add_group, join_found, join_group,
  fs_switch_user, fs_get_uid, fs_get_gid,
}
use opperating_system_practi.Access.{fs_chmod, fs_chown, fs_chgrp, chmod_at, chown_at, chgrp_at}

-- The accounts are the same, and who is logged in.
abbrev pub SameAccounts : Fs → Fs → Type 0
SameAccounts s t =
    (t.user_table ≡ s.user_table)
    × (t.group_table ≡ s.group_table)
    × (t.current_uid ≡ s.current_uid)

abbrev pub SameOpen : Fs → Fs → Type 0
SameOpen s t = t.open_files ≡ s.open_files

-- The files, the blocks and the descriptors are the same.
abbrev pub SameStore : Fs → Fs → Type 0
SameStore s t =
    (t.open_files ≡ s.open_files)
    × (t.file_table ≡ s.file_table)
    × (t.free_list ≡ s.free_list)
    × (t.super_block ≡ s.super_block)

abbrev pub same_store : (s : Fs) → SameStore s s
same_store s = (refl, refl, refl, refl)

abbrev pub SameBoth : Fs → Fs → Type 0
SameBoth s t = SameOpen s t × SameAccounts s t

abbrev pub same_accounts : (s : Fs) → SameAccounts s s
same_accounts s = (refl, refl, refl)

abbrev pub same_both : (s : Fs) → SameBoth s s
same_both s = (refl, same_accounts s)

create_at-SameBoth :
    (o : Option ℕ) (name : CString) (perm created modified : ℕ) (s : Fs)
    → SameBoth s (create_at o name perm created modified s).0
unfolding create_at save_metadata
create_at-SameBoth none name perm created modified s = same_both s
create_at-SameBoth (some i) name perm created modified s = same_both s

create_unless-SameBoth :
    (o : Option ℕ) (name : CString) (perm created modified : ℕ) (s : Fs)
    → SameBoth s (create_unless o name perm created modified s).0
unfolding create_unless
create_unless-SameBoth (some i) name perm created modified s = same_both s
create_unless-SameBoth none name perm created modified s =
    create_at-SameBoth (find_index (λ f. not f.is_used) s.file_table) name perm created modified s

pub fs_create-SameBoth :
    (name : CString) (perm created modified : ℕ) (s : Fs)
    → SameBoth s (fs_create name perm created modified s).0
unfolding fs_create
fs_create-SameBoth name perm created modified s =
    create_unless-SameBoth (find_file_index name s) name perm created modified s

take_blocks-SameBoth :
    (n : ℕ) (s : Fs) (o : Option (ℕ × FreeList)) → SameBoth s (take_blocks n s o).0
unfolding take_blocks
take_blocks-SameBoth n s none = same_both s
take_blocks-SameBoth n s (some (a, rs)) = same_both s

reserve_first-SameBoth :
    (idx n : ℕ) (file : FileEntry) (s : Fs) (r : Fs × Option ℕ)
    → SameBoth s r.0
    → SameBoth s (reserve_first idx n file r).0
unfolding reserve_first
reserve_first-SameBoth idx n file s (t, none) h = h
reserve_first-SameBoth idx n file s (t, some a) (e, p) = (e, p)

reserve_more-SameBoth :
    (idx n : ℕ) (file : FileEntry) (start : ℕ) (s : Fs) (r : Fs × Option ℕ)
    → SameBoth s r.0
    → SameBoth s (reserve_more idx n file start r).0
unfolding reserve_more
reserve_more-SameBoth idx n file start s (t, none) h = h
reserve_more-SameBoth idx n file start s (t, some a) (e, p) = (e, p)

reserve_in-SameBoth :
    (o : Option ℕ) (idx n : ℕ) (file : FileEntry) (s : Fs)
    → SameBoth s (reserve_in o idx n file s).0
unfolding reserve_in allocate_blocks
reserve_in-SameBoth none idx n file s =
    reserve_first-SameBoth idx n file s _ (take_blocks-SameBoth n s (allocate n s.free_list))
reserve_in-SameBoth (some start) idx n file s = elim (Bool-cases (ltb file.block_count n)) [
  | inl more ↦ rw more (
      reserve_more-SameBoth idx n file start s _ (
        take_blocks-SameBoth (n - file.block_count) s
          (allocate (n - file.block_count) s.free_list)))
  | inr enough ↦ rw enough (same_both s)
]

store-SameBoth :
    (idx position : ℕ) (buffer : List ℕ) (now : ℕ) (s : Fs) (r : Fs × Option ℕ)
    → SameBoth s r.0
    → SameBoth s (store idx position buffer now r).0
unfolding store save_metadata
store-SameBoth idx position buffer now s (t, none) h = h
store-SameBoth idx position buffer now s (t, some a) (e, p) = (e, p)

write_found-SameBoth :
    (o : Option ℕ) (position : ℕ) (buffer : List ℕ) (now : ℕ) (s : Fs)
    → SameBoth s (write_found o position buffer now s).0
unfolding write_found write_file reserve
write_found-SameBoth none position buffer now s = same_both s
write_found-SameBoth (some idx) position buffer now s =
    store-SameBoth idx position buffer now s _
      (reserve_in-SameBoth (file_at s idx).start_block idx _ (file_at s idx) s)

pub fs_write-SameBoth :
    (fd : ℤ) (position : ℕ) (buffer : List ℕ) (now : ℕ) (s : Fs)
    → SameBoth s (fs_write fd position buffer now s).0
unfolding fs_write
fs_write-SameBoth fd position buffer now s =
    write_found-SameBoth (descriptor s fd) position buffer now s

shrink_found-SameBoth :
    (o : Option ℕ) (size now : ℕ) (s : Fs) → SameBoth s (shrink_found o size now s).0
unfolding shrink_found shrink_file save_metadata free_blocks
shrink_found-SameBoth none size now s = same_both s
shrink_found-SameBoth (some idx) size now s = elim (Bool-cases (leb (file_at s idx).size size)) [
  | inl keep ↦ rw keep (same_both s)
  | inr less ↦ elim (Bool-cases (ltb (blocks_for size) (file_at s idx).block_count)) [
    | inl fewer ↦ rw (less, fewer) (same_both s)
    | inr same ↦ rw (less, same) (same_both s)
  ]
]

pub fs_shrink-SameBoth : (fd : ℤ) (size now : ℕ) (s : Fs) → SameBoth s (fs_shrink fd size now s).0
unfolding fs_shrink
fs_shrink-SameBoth fd size now s = shrink_found-SameBoth (descriptor s fd) size now s

pub fs_format-SameBoth : (s : Fs) → SameBoth s (fs_format s)
unfolding fs_format init_free_list save_metadata
fs_format-SameBoth s = same_both s
