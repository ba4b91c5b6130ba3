-- ===== src/Types.antt =====
-- The structures of File-System/filesystem.h and the static variables of File-System/filesystem.c.
-- An `int32_t` that the code keeps at 0 or above is a number, one for which -1 means "nothing" is an
-- option, and a flag that is only set to 0 or 1 and tested is a Boolean. A fixed `char` array is the
-- string in it: every write of one copies at most its size less one byte and leaves the last byte 0.
use opperating_system_practi.Base.{ℕ, ◌*◌, Bool, false, Option, some, List, [], CString, replicate}
use opperating_system_practi.FreeList.{FreeList}

abbrev pub disk_size : ℕ
disk_size = 10 * 1024 * 1024

abbrev pub block_size : ℕ
block_size = 512

abbrev pub max_filename : ℕ
max_filename = 32

abbrev pub max_files : ℕ
max_files = 100

abbrev pub max_users : ℕ
max_users = 50

abbrev pub max_groups : ℕ
max_groups = 50

abbrev pub max_username : ℕ
max_username = 32

abbrev pub max_groupname : ℕ
max_groupname = 32

abbrev pub max_groups_per_user : ℕ
max_groups_per_user = 10

abbrev pub magic_number : ℕ
magic_number = 0xDEADBEEF

abbrev pub perm_read : ℕ
perm_read = 4

abbrev pub perm_write : ℕ
perm_write = 2

abbrev pub perm_exec : ℕ
perm_exec = 1

-- `User`: a secondary group of -1 is `none`.
pub record User : Type 0 where
  pub uid : ℕ
  pub username : CString
  pub primary_gid : ℕ
  pub groups : List (Option ℕ)
  pub group_count : ℕ
  pub is_active : Bool

-- `Group`
pub record Group : Type 0 where
  pub gid : ℕ
  pub groupname : CString
  pub is_active : Bool

-- `SuperBlock`
pub record SuperBlock : Type 0 where
  pub magic : ℕ
  pub version : ℕ
  pub file_count : ℕ
  pub total_blocks : ℕ
  pub used_blocks : ℕ
  pub first_free_block : ℕ

-- `FileEntry`: a `start_block` of -1 is `none`.
pub record FileEntry : Type 0 where
  pub name : CString
  pub size : ℕ
  pub start_block : Option ℕ
  pub block_count : ℕ
  pub permissions : ℕ
  pub owner_uid : ℕ
  pub group_gid : ℕ
  pub create_time : ℕ
  pub modify_time : ℕ
  pub is_used : Bool

-- What `save_metadata` writes at the start of the disk file.
pub record Metadata : Type 0 where
  pub super_block : SuperBlock
  pub file_table : List FileEntry
  pub user_table : List User
  pub group_table : List Group

-- The disk file: the metadata that was saved last, the bytes behind them by their offset in the
-- file, and the file's length.
pub record Disk : Type 0 where
  pub saved : Metadata
  pub bytes_at : ℕ → ℕ
  pub length : ℕ

-- The static variables. A value of -1 in `open_files` is `none`.
pub record Fs : Type 0 where
  pub super_block : SuperBlock
  pub file_table : List FileEntry
  pub user_table : List User
  pub group_table : List Group
  pub free_list : FreeList
  pub open_files : List (Option ℕ)
  pub current_uid : ℕ
  pub disk : Disk

-- All fields zero, as `memset` and static storage leave them.
abbrev pub zero_user : User
zero_user = record {
  uid = 0;
  username = [];
  primary_gid = 0;
  groups = replicate max_groups_per_user (some 0);
  group_count = 0;
  is_active = false;
}

abbrev pub zero_group : Group
zero_group = record { gid = 0; groupname = []; is_active = false }

abbrev pub zero_super_block : SuperBlock
zero_super_block = record {
  magic = 0;
  version = 0;
  file_count = 0;
  total_blocks = 0;
  used_blocks = 0;
  first_free_block = 0;
}

abbrev pub zero_file : FileEntry
zero_file = record {
  name = [];
  size = 0;
  start_block = some 0;
  block_count = 0;
  permissions = 0;
  owner_uid = 0;
  group_gid = 0;
  create_time = 0;
  modify_time = 0;
  is_used = false;
}
