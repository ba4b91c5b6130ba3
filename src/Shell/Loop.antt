-- ===== src/Shell/Loop.antt =====
-- `run_shell` and `main` of File-System/cli.c: the dispatch of a command, the loop over the lines, and
-- the whole session.
use opperating_system_practi.Base.{
  ℕ, true, false, ◌||◌, Option, none, some, List, [], ◌∷◌, if◌then◌else◌, leb, length, str_eq,
  bytes, CString,
}
use opperating_system_practi.Types.{Fs, Disk}
use opperating_system_practi.FreeList.{total_free}
use opperating_system_practi.Boot.{Host, fs_init, fs_close}
use opperating_system_practi.Accounts.{fs_list_users, fs_list_groups}
use opperating_system_practi.Shell.{
  Shell, Reply, silent, outside, is_inside, free_blocks_total, user_list, group_list,
}
use opperating_system_practi.Shell.Words.{parse_command}
use opperating_system_practi.Shell.FileCommands.{
  cmd_create, cmd_open, cmd_read, cmd_write, cmd_shrink, cmd_size, cmd_close, cmd_rm, cmd_ls,
  cmd_stat, cmd_format, close_current,
}
use opperating_system_practi.Shell.AccountCommands.{
  cmd_useradd, cmd_userdel, cmd_groupadd, cmd_groupdel, cmd_usermod, cmd_su, cmd_whoami, cmd_chmod,
  cmd_chown, cmd_chgrp, cmd_getfacl,
}

-- What the surroundings give in one round of the loop: the line that `fgets` reads, the word that
-- `scanf` reads if the command asks for one, and the two results of `time`.
pub record Turn : Type 0 where
  pub line : CString
  pub confirm : CString
  pub created : ℕ
  pub modified : ℕ

-- the second half of the chain of comparisons
unfoldable pub account_command : CString → List CString → Shell → Shell × Reply
account_command cmd args sh =
    if str_eq cmd (bytes "useradd")
    then cmd_useradd args sh
    else if str_eq cmd (bytes "userdel")
    then cmd_userdel args sh
    else if str_eq cmd (bytes "users")
    then (sh, user_list (fs_list_users sh.fs))
    else if str_eq cmd (bytes "groupadd")
    then cmd_groupadd args sh
    else if str_eq cmd (bytes "groupdel")
    then cmd_groupdel args sh
    else if str_eq cmd (bytes "groups")
    then (sh, group_list (fs_list_groups sh.fs))
    else if str_eq cmd (bytes "usermod")
    then cmd_usermod args sh
    else if str_eq cmd (bytes "su")
    then cmd_su args sh
    else if str_eq cmd (bytes "whoami")
    then cmd_whoami sh
    else if str_eq cmd (bytes "chmod")
    then cmd_chmod args sh
    else if str_eq cmd (bytes "chown")
    then cmd_chown args sh
    else if str_eq cmd (bytes "chgrp")
    then cmd_chgrp args sh
    else if str_eq cmd (bytes "getfacl")
    then cmd_getfacl args sh
    else (sh, silent)

-- "help" and "clear" print only; so does a word that is no command.
unfoldable pub run_command : CString → List CString → Turn → Shell → Shell × Reply
run_command cmd args turn sh =
    if str_eq cmd (bytes "create")
    then cmd_create args turn.created turn.modified sh
    else if str_eq cmd (bytes "open")
    then cmd_open args turn.created turn.modified sh
    else if str_eq cmd (bytes "read")
    then cmd_read args sh
    else if str_eq cmd (bytes "write")
    then cmd_write args turn.modified sh
    else if str_eq cmd (bytes "shrink")
    then cmd_shrink args turn.modified sh
    else if str_eq cmd (bytes "size")
    then cmd_size sh
    else if str_eq cmd (bytes "close")
    then cmd_close sh
    else if str_eq cmd (bytes "rm")
    then cmd_rm args sh
    else if str_eq cmd (bytes "ls")
    then cmd_ls sh
    else if str_eq cmd (bytes "stat")
    then cmd_stat sh
    else if str_eq cmd (bytes "viz")
    then (sh, free_blocks_total (total_free sh.fs.free_list))
    else if str_eq cmd (bytes "format")
    then cmd_format turn.confirm sh
    else if str_eq cmd (bytes "clear")
    then (sh, silent)
    else account_command cmd args sh

-- The size of `cmd` in `run_shell`.
abbrev pub cmd_size_limit : ℕ
cmd_size_limit = 50

-- `none` ends the loop.
abbrev pub run_parsed : Option (CString × List CString) → Turn → Shell → Option (Shell × Reply)
run_parsed none turn sh = some (sh, silent)
run_parsed (some (cmd, args)) turn sh =
    if leb cmd_size_limit (length cmd)
    then some (sh, outside)
    else if str_eq cmd (bytes "exit") || str_eq cmd (bytes "quit")
    then none
    else some (run_command cmd args turn sh)

-- One round of the loop of `run_shell`.
unfoldable pub run_turn : Turn → Shell → Option (Shell × Reply)
unfolding parse_command run_command
run_turn turn sh = run_parsed (parse_command turn.line) turn sh

abbrev pub add_reply : Reply → Option (Shell × List Reply) → Option (Shell × List Reply)
add_reply reply none = none
add_reply reply (some (end, replies)) = some (end, reply ∷ replies)

-- The loop, until the input ends or a command ends it. The result is the state, and the replies in
-- the order in which they are shown; `none` where a line is outside the model.
unfoldable pub run_shell : List Turn → Shell → Option (Shell × List Reply)
unfolding run_turn
run_shell [] sh = some (sh, [])
run_shell (turn ∷ turns) sh = elim (run_turn turn sh) [
  | none ↦ some (sh, [])
  | some (next, reply) ↦ elim (is_inside reply) [
    | false ↦ none
    | true ↦ add_reply reply (run_shell turns next)
  ]
]

abbrev pub started : Fs → Shell
started s = record { fs = s; current_fd = none; current_filename = [] }

-- `fs_close_file` at the end of `main`, if a file is open
abbrev pub at_exit : Shell → Fs
at_exit end = (close_current end.current_fd end).fs

-- What `main` does after `fs_init`: the loop, `fs_close_file` if a file is open, and `fs_close`.
unfoldable pub session : List Turn → Fs → Option (Disk × List Reply)
unfolding run_shell fs_close
session turns s = elim (run_shell turns (started s)) [
  | none ↦ none
  | some (end, replies) ↦ some (fs_close (at_exit end), replies)
]

-- The outer `none` is the exit code 1, where the disk file stays as it was; the inner one is a session
-- with a line outside the model.
unfoldable pub main : Host → List Turn → Option (Option (Disk × List Reply))
unfolding session fs_init
main host turns = elim (fs_init host) [ none ↦ none | some s ↦ some (session turns s) ]
