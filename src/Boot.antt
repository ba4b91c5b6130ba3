-- ===== src/Boot.antt =====
-- Start and end of a session: `init_users_and_groups`, `init_free_list`, `load_metadata`, `fs_init`,
-- `fs_close` and `fs_format`.
use opperating_system_practi.Base.{
  ℕ, ◌+◌, ◌-◌, ◌/◌, true, ◌&&◌, Option, none, some, List, [], ◌∷◌, ltb, ◌==◌, if◌then◌else◌, set,
  replicate, bytes,
}
use opperating_system_practi.FreeList.{FreeList, region, remove_range}
use opperating_system_practi.Types.{
  Fs, Disk, FileEntry, User, Group, zero_user, zero_group, zero_file, zero_super_block, disk_size,
  block_size, max_files, max_users, max_groups, max_groups_per_user, magic_number,
}
use opperating_system_practi.Disk.{get_meta_blocks, save_metadata}

abbrev pub total_blocks : ℕ
total_blocks = disk_size / block_size

abbrev pub root_group : Group
root_group = record { gid = 0; groupname = bytes "root"; is_active = true }

abbrev pub root_user : User
root_user = record {
  uid = 0;
  username = bytes "root";
  primary_gid = 0;
  groups = replicate max_groups_per_user none;
  group_count = 0;
  is_active = true;
}

unfoldable pub init_users_and_groups : Fs → Fs
init_users_and_groups s = record s {
  user_table = set (replicate max_users zero_user) 0 root_user;
  group_table = set (replicate max_groups zero_group) 0 root_group;
  current_uid = 0;
}

unfoldable pub init_free_list : Fs → Fs
init_free_list s = record s { free_list = region get_meta_blocks (total_blocks - 1) ∷ [] }

-- One round of the loop of `load_metadata`, on `used_blocks` and the free list.
unfoldable pub load_file : FileEntry → ℕ × FreeList → ℕ × FreeList
load_file f (used, rs) = elim f.start_block [
  | none ↦ (used, rs)
  | some start ↦
      if f.is_used && ltb 0 f.block_count
      then (used + f.block_count, remove_range start f.block_count rs)
      else (used, rs)
]

unfoldable pub load_files : List FileEntry → ℕ × FreeList → ℕ × FreeList
load_files [] acc = acc
load_files (f ∷ fs) acc = load_files fs (load_file f acc)

unfoldable pub load_metadata : Fs → Fs
unfolding init_free_list
load_metadata s =
    let m = s.disk.saved in
    let t = init_free_list s in
    let (used, rs) = load_files m.file_table (get_meta_blocks, t.free_list) in
    record s {
      super_block = record m.super_block { used_blocks = used };
      file_table = m.file_table;
      user_table = m.user_table;
      group_table = m.group_table;
      free_list = rs;
    }

-- What `fopen` finds at the path of the disk: a file, nothing, or nothing where none can be created.
pub data Host : Type 0 where
  present : Disk → Host
  absent : Host
  unwritable : Host

-- The static variables when the program starts, with the disk file that `fopen` has opened.
abbrev pub at_start : Disk → Fs
at_start d = record {
  super_block = zero_super_block;
  file_table = replicate max_files zero_file;
  user_table = replicate max_users zero_user;
  group_table = replicate max_groups zero_group;
  free_list = [];
  open_files = replicate max_files (some 0);
  current_uid = 0;
  disk = d;
}

-- The loop that fills the new file with zero bytes.
abbrev pub zero_disk : Disk
zero_disk = record {
  saved = record {
    super_block = zero_super_block;
    file_table = replicate max_files zero_file;
    user_table = replicate max_users zero_user;
    group_table = replicate max_groups zero_group;
  };
  bytes_at = λ o. 0;
  length = disk_size;
}

abbrev pub close_all : Fs → Fs
close_all s = record s { open_files = replicate max_files none }

-- `none` is the result -1.
unfoldable pub fs_init : Host → Option Fs
unfolding init_users_and_groups init_free_list load_metadata save_metadata
fs_init unwritable = none
fs_init absent =
    let s = record (at_start zero_disk) {
      super_block = record zero_super_block {
        magic = magic_number;
        version = 1;
        file_count = 0;
        total_blocks = total_blocks;
        used_blocks = get_meta_blocks;
      };
    } in
    some (close_all (save_metadata (init_free_list (init_users_and_groups s))))
fs_init (present d) =
    let s = load_metadata (at_start d) in
    if s.super_block.magic == magic_number then some (close_all s) else none

-- The disk file that is left behind.
unfoldable pub fs_close : Fs → Disk
unfolding save_metadata
fs_close s = (save_metadata s).disk

unfoldable pub fs_format : Fs → Fs
unfolding init_free_list save_metadata
fs_format s = save_metadata (
    init_free_list (record s {
      file_table = replicate max_files zero_file;
      super_block = record s.super_block { file_count = 0; used_blocks = get_meta_blocks };
    }))
