-- ===== src/Shell/FileCommands.antt =====
-- The commands on files in File-System/cli.c, `cmd_create` to `cmd_format`. Times are what the calls
-- of `time` return during the command.
use Prim.Native.Nat.{bit_and}
use opperating_system_practi.Base.{
  ℕ, ◌+◌, ◌-◌, Bool, false, not, ◌&&◌, ◌||◌, Option, none, some, List, [], ◌∷◌, ◌==◌, if◌then◌else◌,
  take, map, leb, length, str_eq, bytes, CString,
}
use opperating_system_practi.Base.Int.{pos}
use opperating_system_practi.Types.{Fs, max_filename, max_files, perm_read, perm_write}
use opperating_system_practi.Boot.{fs_format}
use opperating_system_practi.Files.{
  fs_create, fs_open, fs_delete, fs_close_file, fs_get_file_size, fs_get_stats, fs_list_files,
  o_creat,
}
use opperating_system_practi.Data.{fs_read, fs_write, fs_shrink}
use opperating_system_practi.Access.{fs_check_permission}
use opperating_system_practi.Shell.{
  Shell, Reply, silent, outside, content, size_of, file_list, stats, with_fs,
}
use opperating_system_practi.Shell.Words.{join}
use opperating_system_practi.Shell.Numbers.{
  atoi, parse_permissions, parse_open_flags, o_rdonly, o_wronly, o_rdwr,
}

unfoldable pub cmd_create : List CString → ℕ → ℕ → Shell → Shell × Reply
cmd_create [] created modified sh = (sh, silent)
cmd_create (name ∷ []) created modified sh =
    with_fs sh (fs_create name 0o644 created modified sh.fs).0
cmd_create (name ∷ perm_str ∷ rest) created modified sh =
    with_fs sh (fs_create name (parse_permissions perm_str) created modified sh.fs).0

-- `flags & bit`
abbrev pub has_flag : ℕ → ℕ → Bool
has_flag flags bit = not (bit_and flags bit == 0)

abbrev pub required_perm : ℕ → ℕ
required_perm flags =
    if has_flag flags o_wronly || has_flag flags o_rdwr then perm_read + perm_write else perm_read

abbrev pub opened : CString → Shell → Fs × Option ℕ → Shell
opened name sh (s, none) = record sh { fs = s; current_fd = none }
opened name sh (s, some fd) = record {
  fs = s;
  current_fd = some fd;
  current_filename = take (max_filename - 1) name;
}

-- the end of `cmd_open`, where no file is open and the flags are known
unfoldable pub open_with : CString → ℕ → ℕ → ℕ → Shell → Shell × Reply
open_with name flags created modified sh =
    if not (has_flag flags o_creat) && not (fs_check_permission name (required_perm flags) sh.fs)
    then (sh, silent)
    else (opened name sh (fs_open name flags created modified sh.fs), silent)

abbrev pub open_flags : List CString → ℕ
open_flags [] = o_rdonly
open_flags (flag_str ∷ rest) = parse_open_flags flag_str

abbrev pub open_unless : Option ℕ → CString → ℕ → ℕ → ℕ → Shell → Shell × Reply
open_unless (some fd) name flags created modified sh = (sh, silent)
open_unless none name flags created modified sh = open_with name flags created modified sh

unfoldable pub cmd_open : List CString → ℕ → ℕ → Shell → Shell × Reply
unfolding open_with
cmd_open [] created modified sh = (sh, silent)
cmd_open (name ∷ rest) created modified sh =
    open_unless sh.current_fd name (open_flags rest) created modified sh

abbrev pub shown : Option (List ℕ) → Reply
shown none = silent
shown (some buffer) = content buffer

abbrev pub read_at : ℕ → Option ℕ → Option ℕ → Shell → Shell × Reply
read_at fd none n sh = (sh, outside)
read_at fd (some position) none sh = (sh, outside)
read_at fd (some position) (some n) sh = (sh, shown (fs_read (pos fd) position n sh.fs))

abbrev pub read_args : ℕ → List CString → Shell → Shell × Reply
read_args fd [] sh = read_at fd (some 0) (some 1024) sh
read_args fd (p ∷ []) sh = read_at fd (atoi p) (some 1024) sh
read_args fd (p ∷ n ∷ rest) sh = read_at fd (atoi p) (atoi n) sh

-- Both `cmd_read` and `cmd_write` check the permission of `current_filename` again.
abbrev pub permitted : Option ℕ → ℕ → Shell → Option ℕ
permitted none perm sh = none
permitted (some fd) perm sh =
    if fs_check_permission sh.current_filename perm sh.fs then some fd else none

abbrev pub read_permitted : Option ℕ → List CString → Shell → Shell × Reply
read_permitted none args sh = (sh, silent)
read_permitted (some fd) args sh = read_args fd args sh

unfoldable pub cmd_read : List CString → Shell → Shell × Reply
cmd_read args sh = read_permitted (permitted sh.current_fd perm_read sh) args sh

abbrev pub write_at : ℕ → Option ℕ → CString → ℕ → Shell → Shell × Reply
write_at fd none text now sh = (sh, outside)
write_at fd (some position) text now sh = with_fs sh (fs_write (pos fd) position text now sh.fs).0

abbrev pub write_permitted : Option ℕ → List CString → ℕ → Shell → Shell × Reply
write_permitted none args now sh = (sh, silent)
write_permitted (some fd) [] now sh = (sh, silent)
write_permitted (some fd) (p ∷ []) now sh = (sh, silent)
write_permitted (some fd) (p ∷ w ∷ ws) now sh = write_at fd (atoi p) (join (w ∷ ws)) now sh

unfoldable pub cmd_write : List CString → ℕ → Shell → Shell × Reply
unfolding join
cmd_write args now sh = write_permitted (permitted sh.current_fd perm_write sh) args now sh

abbrev pub shrink_to : ℕ → Option ℕ → ℕ → Shell → Shell × Reply
shrink_to fd none now sh = (sh, outside)
shrink_to fd (some new_size) now sh = with_fs sh (fs_shrink (pos fd) new_size now sh.fs).0

abbrev pub shrink_open : Option ℕ → List CString → ℕ → Shell → Shell × Reply
shrink_open none args now sh = (sh, silent)
shrink_open (some fd) [] now sh = (sh, silent)
shrink_open (some fd) (p ∷ rest) now sh = shrink_to fd (atoi p) now sh

unfoldable pub cmd_shrink : List CString → ℕ → Shell → Shell × Reply
cmd_shrink args now sh = shrink_open sh.current_fd args now sh

abbrev pub size_open : Option ℕ → Shell → Reply
size_open none sh = silent
size_open (some fd) sh = size_of (fs_get_file_size (pos fd) sh.fs)

unfoldable pub cmd_size : Shell → Shell × Reply
cmd_size sh = (sh, size_open sh.current_fd sh)

-- `fs_close_file(current_fd)` and the reset of the two variables, if a file is open
abbrev pub close_current : Option ℕ → Shell → Shell
close_current none sh = sh
close_current (some fd) sh = record {
  fs = fs_close_file (pos fd) sh.fs;
  current_fd = none;
  current_filename = [];
}

unfoldable pub cmd_close : Shell → Shell × Reply
cmd_close sh = (close_current sh.current_fd sh, silent)

abbrev pub is_current : Option ℕ → CString → Shell → Bool
is_current none name sh = false
is_current (some fd) name sh = str_eq sh.current_filename name

unfoldable pub cmd_rm : List CString → Shell → Shell × Reply
cmd_rm [] sh = (sh, silent)
cmd_rm (name ∷ rest) sh =
    if is_current sh.current_fd name sh
    then (sh, silent)
    else if not (fs_check_permission name perm_write sh.fs)
    then (sh, silent)
    else with_fs sh (fs_delete name sh.fs).0

-- Each name with the mark "[open]".
unfoldable pub cmd_ls : Shell → Shell × Reply
cmd_ls sh = (
  sh,
  file_list
      (map (λ name. (name, is_current sh.current_fd name sh)) (fs_list_files max_files sh.fs)),
)

unfoldable pub cmd_stat : Shell → Shell × Reply
cmd_stat sh = (sh, stats (fs_get_stats sh.fs))

-- The size of `confirm`.
abbrev pub confirm_size : ℕ
confirm_size = 10

-- `confirm` is the word that is typed at the question.
unfoldable pub cmd_format : CString → Shell → Shell × Reply
cmd_format confirm sh =
    if leb confirm_size (length confirm)
    then (sh, outside)
    else if str_eq confirm (bytes "yes")
    then (let closed = close_current sh.current_fd sh in with_fs closed (fs_format closed.fs))
    else (sh, silent)
