-- ===== src/Tests/Shells.antt =====
-- The theorems on the command line, for a short session on a new disk.
use opperating_system_practi.Base.{
  true, ℕ, find_index, str_eq, ◌≡◌, refl, Option, none, some, List, [], ◌∷◌, ◌++◌, bytes, arith,
  get_or, CString,
}
use opperating_system_practi.Types.{max_files}
use opperating_system_practi.Boot.{fs_init, fs_format, absent}
use opperating_system_practi.Files.{fs_create}
use opperating_system_practi.Invariant.Start.{get_or-replicate}
use opperating_system_practi.Files.{fs_open, find_file_index, descriptor}
use opperating_system_practi.Shell.{Shell}
use opperating_system_practi.Shell.FileCommands.{cmd_open, cmd_write, cmd_rm, cmd_read, cmd_format}
use opperating_system_practi.Shell.AccountCommands.{cmd_chmod}
use opperating_system_practi.FreeList.{allocate}
use opperating_system_practi.Blocks.{allocate_blocks}
use opperating_system_practi.Data.{fs_read, fs_write}
use opperating_system_practi.Access.{fs_chmod, fs_check_permission}
use opperating_system_practi.Shell.Words.{parse_command, join, words, split, cut_newline}
use opperating_system_practi.Shell.Words.Join.{all_words, is_plain, parse_command-join}
use opperating_system_practi.Shell.Numbers.{strtol_octal, atoi, parse_open_flags}
use opperating_system_practi.Shell.Loop.{
  Turn, run_command, run_shell, started, at_exit, run_turn, account_command,
}
use opperating_system_practi.Shell.Frame.Descriptors.{OnlyOpen}
use opperating_system_practi.Shell.Descriptors.{IsWired}
use opperating_system_practi.Shell.Session.{all_inside, EndsIn, run_shell-IsWired, run_shell-closed}
use opperating_system_practi.Shell.Tables.{SameTables}
use opperating_system_practi.Shell.Rights.{AllGuarded}
use opperating_system_practi.Shell.Rights.Commands.{run_command-AllGuarded}
use opperating_system_practi.Shell.Guards.{run_command-SameTables}
use opperating_system_practi.Accounts.{fs_useradd, next_uid, next_gid, fs_switch_user}
use opperating_system_practi.Tests.Users.{fresh, as_alice}

-- several spaces count as one
spaces :
    parse_command (bytes " write  0 a b\n")
    ≡ some (bytes "write", bytes "0" ∷ bytes "a" ∷ bytes "b" ∷ [])
unfolding parse_command words split cut_newline
spaces = refl

octal : strtol_octal (bytes "644") ≡ 0o644
unfolding strtol_octal
octal = refl

number : atoi (bytes "12x") ≡ some 12
unfolding atoi
number = refl

negative : atoi (bytes "-3") ≡ none
unfolding atoi
negative = refl

parse_command-join_example :
    parse_command
      (join (bytes "usermod" ∷ bytes "-aG" ∷ bytes "alice" ∷ bytes "staff" ∷ []) ++ (b'\n' ∷ []))
    ≡ some (bytes "usermod", bytes "-aG" ∷ bytes "alice" ∷ bytes "staff" ∷ [])
unfolding all_words is_plain
parse_command-join_example =
    parse_command-join (bytes "usermod") (bytes "-aG" ∷ bytes "alice" ∷ bytes "staff" ∷ []) refl
      (omega arith)

abbrev turn : CString → Turn
turn line = record { line = line; confirm = bytes "yes"; created = 1; modified = 2 }

abbrev lines : List Turn
lines =
    turn (bytes "open f c\n")
    ∷ turn (bytes "write 0 hello\n")
    ∷ turn (bytes "rm f\n")
    ∷ turn (bytes "read\n")
    ∷ turn (bytes "format\n")
    ∷ turn (bytes "open g c\n")
    ∷ []

fresh-OnlyOpen : OnlyOpen none fresh.open_files
unfolding fs_init
fresh-OnlyOpen = record {
  slots = refl;
  only = λ fd i. rw (get_or-replicate {A = Option ℕ} max_files fd none) (λ p. cc);
}

lines_inside : all_inside lines (started fresh) ≡ true
unfolding all_inside fs_init run_turn parse_command words split cut_newline find_index str_eq
    run_command account_command cmd_open cmd_write cmd_rm cmd_read cmd_format cmd_chmod
    parse_open_flags fs_open fs_create fs_check_permission fs_format fs_read fs_write fs_chmod
    find_file_index atoi strtol_octal join descriptor allocate_blocks allocate
lines_inside = refl

run_shell-IsWired_example : EndsIn IsWired (run_shell lines (started fresh))
run_shell-IsWired_example = run_shell-IsWired lines (started fresh) fresh-OnlyOpen lines_inside

run_shell-closed_example :
    EndsIn (λ end. get_or (at_exit end).open_files 0 none ≡ none) (run_shell lines (started fresh))
unfolding fs_init
run_shell-closed_example = run_shell-closed absent lines fresh 0 refl lines_inside

-- alice tries to add bob
run_command-SameTables_example :
    SameTables as_alice
      (run_command (bytes "useradd") (bytes "bob" ∷ []) (turn []) (started as_alice)).0.fs
unfolding fs_init find_index str_eq fs_useradd next_uid next_gid fs_create fs_switch_user
run_command-SameTables_example =
    run_command-SameTables (bytes "useradd") (bytes "bob" ∷ []) (turn []) (started as_alice)
      (omega arith)

-- alice tries to open root's file to all
run_command-AllGuarded_example :
    AllGuarded as_alice
      (run_command (bytes "chmod") (bytes "777" ∷ bytes "f" ∷ []) (turn []) (started as_alice)).0.fs
unfolding fs_init find_index str_eq fs_useradd next_uid next_gid fs_create fs_switch_user
run_command-AllGuarded_example =
    run_command-AllGuarded (bytes "chmod") (bytes "777" ∷ bytes "f" ∷ []) (turn [])
      (started as_alice) (omega arith)

-- A file that was just made is open.
abbrev just_opened : Shell
just_opened = record {
  fs = (fs_open (bytes "f") 0o102 1 2 fresh).0;
  current_fd = some 0;
  current_filename = bytes "f";
}

abbrev edits : List Turn
edits = turn (bytes "write 0 hello\n") ∷ turn (bytes "chmod 600 f\n") ∷ turn (bytes "format\n") ∷ []
