-- ===== src/Shell/Consistency.antt =====
-- The operations that a command calls, against the invariant of the file system.
use opperating_system_practi.Base.{
  ℕ, not, ◌≡◌, ◌<◌, refl, Option, none, some, List, length, set, get_or-set, arith, find_index-some,
  ◌==◌, if-both, CString,
}
use opperating_system_practi.Types.{Fs, FileEntry, SuperBlock, zero_file}
use opperating_system_practi.FreeList.{FreeList}
use opperating_system_practi.Disk.{save_metadata}
use opperating_system_practi.Files.{find_file_index, file_at, has_name}
use opperating_system_practi.Accounts.{fs_get_uid, fs_get_gid}
use opperating_system_practi.Access.{
  fs_chmod, fs_chown, fs_chgrp, chmod_at, chown_at, chgrp_at, not_owner,
}
use opperating_system_practi.Invariant.{IsConsistent, Consistent}
use opperating_system_practi.Invariant.Sums.{replace}
use opperating_system_practi.Shell.Frame.{SameStore}

Consistent-same :
    {files files' : List FileEntry} {rs rs' : FreeList} {b b' : SuperBlock}
    {opens opens' : List (Option ℕ)}
    → opens' ≡ opens
    → files' ≡ files
    → rs' ≡ rs
    → b' ≡ b
    → Consistent files rs b.used_blocks b.file_count opens
    → Consistent files' rs' b'.used_blocks b'.file_count opens'
Consistent-same e f g k c = rw (e, f, g, k) c

pub SameStore-IsConsistent : (s t : Fs) → SameStore s t → IsConsistent s → IsConsistent t
SameStore-IsConsistent s t (e, f, g, k) c = Consistent-same e f g k c

-- Two entries that differ in their owner, group and mode only.
abbrev SameBlocks : FileEntry → FileEntry → Type 0
SameBlocks f g =
    (g.is_used ≡ f.is_used)
    × (g.start_block ≡ f.start_block)
    × (g.block_count ≡ f.block_count)
    × (g.size ≡ f.size)

module _ (s : Fs) (i : ℕ) (g : FileEntry) (c : IsConsistent s) (within : i < length s.file_table)
    (u : g.is_used ≡ (file_at s i).is_used) (b : g.start_block ≡ (file_at s i).start_block)
    (n : g.block_count ≡ (file_at s i).block_count) (z : g.size ≡ (file_at s i).size) where
  pub entry-IsConsistent :
      Consistent
        (set s.file_table i g)
        s.free_list
        s.super_block.used_blocks
        s.super_block.file_count
        s.open_files
  entry-IsConsistent =
      replace c i g within s.free_list s.super_block.used_blocks s.super_block.file_count
        s.open_files c.coalesced (λ k. rw (u, b, n)) (rw (u, b, n)) (rw u)
        (rw (u, b, n, z) (c.sound i)) refl
        (λ fd j e. ground (arith, get_or-set s.file_table i j g zero_file within, c.live fd j e))

found-within :
    (path : CString) (s : Fs) (i : ℕ) → find_file_index path s ≡ some i → i < length s.file_table
unfolding find_file_index
found-within path s i e = (find_index-some (has_name path) s.file_table i zero_file e).0

chmod_at-IsConsistent :
    (o : Option ℕ) (mode : ℕ) (s : Fs)
    → IsConsistent s
    → ((i : ℕ) → o ≡ some i → i < length s.file_table)
    → IsConsistent (chmod_at o mode s).0
unfolding chmod_at save_metadata
chmod_at-IsConsistent none mode s c h = c
chmod_at-IsConsistent (some i) mode s c h =
    if-both (λ (r : Fs × Option ℕ). IsConsistent r.0) (not_owner s i) _ _ c
      (entry-IsConsistent s i (record (file_at s i) { permissions = mode }) c (h i refl) refl refl
        refl refl)

pub fs_chmod-IsConsistent :
    (path : CString) (mode : ℕ) (s : Fs) → IsConsistent s → IsConsistent (fs_chmod path mode s).0
unfolding fs_chmod
fs_chmod-IsConsistent path mode s c =
    chmod_at-IsConsistent (find_file_index path s) mode s c (found-within path s)

chown_at-IsConsistent :
    (o found : Option ℕ) (s : Fs)
    → IsConsistent s
    → ((i : ℕ) → o ≡ some i → i < length s.file_table)
    → IsConsistent (chown_at o found s).0
unfolding chown_at save_metadata
chown_at-IsConsistent none found s c h = c
chown_at-IsConsistent (some i) none s c h = c
chown_at-IsConsistent (some i) (some uid) s c h =
    entry-IsConsistent s i (record (file_at s i) { owner_uid = uid }) c (h i refl) refl refl refl
      refl

pub fs_chown-IsConsistent :
    (path name : CString) (s : Fs) → IsConsistent s → IsConsistent (fs_chown path name s).0
unfolding fs_chown
fs_chown-IsConsistent path name s c =
    if-both (λ (r : Fs × Option ℕ). IsConsistent r.0) (not (s.current_uid == 0)) _ _ c
      (chown_at-IsConsistent (find_file_index path s) (fs_get_uid name s) s c (found-within path s))

chgrp_at-IsConsistent :
    (o found : Option ℕ) (s : Fs)
    → IsConsistent s
    → ((i : ℕ) → o ≡ some i → i < length s.file_table)
    → IsConsistent (chgrp_at o found s).0
unfolding chgrp_at save_metadata
chgrp_at-IsConsistent none found s c h = c
chgrp_at-IsConsistent (some i) none s c h = c
chgrp_at-IsConsistent (some i) (some gid) s c h =
    if-both (λ (r : Fs × Option ℕ). IsConsistent r.0) (not_owner s i) _ _ c
      (entry-IsConsistent s i (record (file_at s i) { group_gid = gid }) c (h i refl) refl refl refl
        refl)

pub fs_chgrp-IsConsistent :
    (path name : CString) (s : Fs) → IsConsistent s → IsConsistent (fs_chgrp path name s).0
unfolding fs_chgrp
fs_chgrp-IsConsistent path name s c =
    chgrp_at-IsConsistent (find_file_index path s) (fs_get_gid name s) s c (found-within path s)
