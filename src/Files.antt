-- ===== src/Files.antt =====
-- Files and descriptors: `fs_create`, `fs_open`, `fs_delete`, `fs_close_file`, `fs_get_file_size`,
-- `fs_get_stats`, `fs_list_files` and `find_file_index`. A result of `none` is the -1 of the source;
-- messages are left out. `time(NULL)` is an argument.
use Prim.Native.Nat.{bit_and}
use opperating_system_practi.Base.{
  ℕ, zero, suc, ◌+◌, ◌-◌, ◌*◌, Bool, true, false, not, ◌&&◌, Option, none, some, List, [], ◌∷◌, ltb,
  ◌==◌, if◌then◌else◌, set, get_or, take, map, find_index, str_eq, CString,
}
use opperating_system_practi.Base.Int.{ℤ, pos, negsuc}
use opperating_system_practi.Types.{
  Fs, FileEntry, zero_user, zero_file, max_files, max_filename, block_size,
}
use opperating_system_practi.Disk.{save_metadata}
use opperating_system_practi.Blocks.{free_blocks}

-- `O_CREAT` of fcntl.h on Linux
abbrev pub o_creat : ℕ
o_creat = 0o100

-- `file_table[i].is_used && strcmp(file_table[i].name, name) == 0`
abbrev pub has_name : CString → FileEntry → Bool
has_name name f = f.is_used && str_eq f.name name

unfoldable pub find_file_index : CString → Fs → Option ℕ
find_file_index path s = find_index (has_name path) s.file_table

abbrev pub file_at : Fs → ℕ → FileEntry
file_at s i = get_or s.file_table i zero_file

-- The entry that `fs_create` writes. `user_table` is indexed by the uid, as in the source; the
-- reading beyond the table that a uid of `MAX_USERS` or more causes there gives a zeroed user here.
abbrev pub new_file : CString → ℕ → ℕ → ℕ → Fs → FileEntry
new_file name permissions created modified s = record {
  name = take (max_filename - 1) name;
  size = 0;
  start_block = none;
  block_count = 0;
  permissions = permissions;
  owner_uid = s.current_uid;
  group_gid = (get_or s.user_table s.current_uid zero_user).primary_gid;
  create_time = created;
  modify_time = modified;
  is_used = true;
}

unfoldable pub create_at : Option ℕ → CString → ℕ → ℕ → ℕ → Fs → Fs × Option ℕ
create_at none name permissions created modified s = (s, none)
create_at (some idx) name permissions created modified s = (
  save_metadata (record s {
    file_table = set s.file_table idx (new_file name permissions created modified s);
    super_block = record s.super_block { file_count = s.super_block.file_count + 1 };
  }),
  some idx,
)

unfoldable pub create_unless : Option ℕ → CString → ℕ → ℕ → ℕ → Fs → Fs × Option ℕ
create_unless (some i) name permissions created modified s = (s, none)
create_unless none name permissions created modified s =
    create_at (find_index (λ f. not f.is_used) s.file_table) name permissions created modified s

-- The two times are what the two calls of `time` return.
unfoldable pub fs_create : CString → ℕ → ℕ → ℕ → Fs → Fs × Option ℕ
unfolding create_unless create_at save_metadata find_file_index
fs_create name permissions created modified s =
    create_unless (find_file_index name s) name permissions created modified s

abbrev pub is_closed : Option ℕ → Bool
is_closed none = true
is_closed (some i) = false

-- the search for a free descriptor, and the end of `fs_open`
unfoldable pub take_descriptor : ℕ → Option ℕ → Fs → Fs × Option ℕ
take_descriptor idx none s = (s, none)
take_descriptor idx (some fd) s =
    (record s { open_files = set s.open_files fd (some idx) }, some fd)

unfoldable pub open_at : Fs × Option ℕ → Fs × Option ℕ
open_at (s, none) = (s, none)
open_at (s, some idx) = take_descriptor idx (find_index is_closed s.open_files) s

unfoldable pub open_found : Option ℕ → CString → ℕ → ℕ → ℕ → Fs → Fs × Option ℕ
open_found (some idx) name flags created modified s = open_at (s, some idx)
open_found none name flags created modified s =
    if bit_and flags o_creat == 0
    then (s, none)
    else open_at (fs_create name 0o644 created modified s)

unfoldable pub fs_open : CString → ℕ → ℕ → ℕ → Fs → Fs × Option ℕ
unfolding open_found open_at take_descriptor fs_create
fs_open name flags created modified s =
    open_found (find_file_index name s) name flags created modified s

-- `open_files[fd]` where `fd < 0 || fd >= MAX_FILES || open_files[fd] == -1` does not hold
unfoldable pub descriptor : Fs → ℤ → Option ℕ
descriptor s (negsuc n) = none
descriptor s (pos n) = if ltb n max_files then get_or s.open_files n none else none

abbrev pub close_file : ℕ → Option ℕ → Option ℕ
close_file idx none = none
close_file idx (some i) = if i == idx then none else some i

unfoldable pub release_file : Option ℕ → ℕ → Fs → Fs
release_file none count s = s
release_file (some start) count s = free_blocks start count s

unfoldable pub delete_at : Option ℕ → Fs → Fs × Option ℕ
delete_at none s = (s, none)
delete_at (some idx) s =
    let t = release_file (file_at s idx).start_block (file_at s idx).block_count s in
    (
      save_metadata (record t {
        file_table = set t.file_table idx (record (file_at s idx) { is_used = false });
        super_block = record t.super_block { file_count = t.super_block.file_count - 1 };
        open_files = map (close_file idx) t.open_files;
      }),
      some 0,
    )

unfoldable pub fs_delete : CString → Fs → Fs × Option ℕ
unfolding delete_at release_file free_blocks save_metadata find_file_index
fs_delete name s = delete_at (find_file_index name s) s

unfoldable pub close_found : Option ℕ → ℤ → Fs → Fs
close_found none fd s = s
close_found (some idx) (negsuc n) s = s
close_found (some idx) (pos n) s = record s { open_files = set s.open_files n none }

unfoldable pub fs_close_file : ℤ → Fs → Fs
unfolding close_found descriptor
fs_close_file fd s = close_found (descriptor s fd) fd s

unfoldable pub fs_get_file_size : ℤ → Fs → Option ℕ
unfolding descriptor
fs_get_file_size fd s = elim (descriptor s fd) [
  | none ↦ none
  | some idx ↦ some (file_at s idx).size
]

-- total, used and free bytes, and the number of files
unfoldable pub fs_get_stats : Fs → ℕ × ℕ × ℕ × ℕ
fs_get_stats s =
    let total = s.super_block.total_blocks * block_size in
    let used = s.super_block.used_blocks * block_size in
    (total, used, total - used, s.super_block.file_count)

list_names : List FileEntry → ℕ → List CString
list_names [] room = []
list_names (f ∷ fs) zero = []
list_names (f ∷ fs) (suc room) = elim f.is_used [
  | true ↦ f.name ∷ list_names fs room
  | false ↦ list_names fs (suc room)
]

-- The names that are copied to `files`; their number is the result.
unfoldable pub fs_list_files : ℕ → Fs → List CString
unfolding list_names
fs_list_files max_count s = list_names s.file_table max_count
