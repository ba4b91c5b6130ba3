-- ===== src/Shell/Each.antt =====
-- A property of every command is a property of `run_command`.
use opperating_system_practi.Base.{
  if◌then◌else◌, if-both, Bool, true, false, ◌≡◌, refl, ℕ, [], ◌∷◌, Option, none, some, List,
  str_eq, bytes, CString,
}
use opperating_system_practi.FreeList.{total_free}
use opperating_system_practi.Accounts.{fs_list_users, fs_list_groups}
use opperating_system_practi.Shell.{
  Shell, Reply, silent, outside, free_blocks_total, user_list, group_list,
}
use opperating_system_practi.Shell.FileCommands.{
  cmd_create, cmd_open, cmd_read, cmd_write, cmd_shrink, cmd_size, cmd_close, cmd_rm, cmd_ls,
  cmd_stat, cmd_format, read_at, read_permitted, permitted,
}
use opperating_system_practi.Shell.AccountCommands.{
  cmd_useradd, cmd_userdel, cmd_groupadd, cmd_groupdel, cmd_usermod, cmd_su, cmd_whoami, cmd_chmod,
  cmd_chown, cmd_chgrp, cmd_getfacl,
}
use opperating_system_practi.Types.{perm_read}
use opperating_system_practi.Shell.Numbers.{atoi}
use opperating_system_practi.Shell.Loop.{Turn, run_command, account_command}

-- The property holds of each command that is run; `on_show` is for those that leave the state alone.
pub record EachCommand (P : Shell × Reply → Type 0) (cmd : CString) (args : List CString)
    (turn : Turn) (sh : Shell) : Type 0 where
  pub on_show : (reply : Reply) → P (sh, reply)
  pub on_create : P (cmd_create args turn.created turn.modified sh)
  pub on_open : P (cmd_open args turn.created turn.modified sh)
  pub on_write : str_eq cmd (bytes "write") ≡ true → P (cmd_write args turn.modified sh)
  pub on_shrink : P (cmd_shrink args turn.modified sh)
  pub on_close : P (cmd_close sh)
  pub on_rm : str_eq cmd (bytes "rm") ≡ true → P (cmd_rm args sh)
  pub on_format : P (cmd_format turn.confirm sh)
  pub on_useradd : P (cmd_useradd args sh)
  pub on_userdel : P (cmd_userdel args sh)
  pub on_groupadd : P (cmd_groupadd args sh)
  pub on_groupdel : P (cmd_groupdel args sh)
  pub on_usermod : P (cmd_usermod args sh)
  pub on_su : P (cmd_su args sh)
  pub on_chmod : P (cmd_chmod args sh)
  pub on_chown : P (cmd_chown args sh)
  pub on_chgrp : P (cmd_chgrp args sh)

if-true {ℓ} :
    {A : Type ℓ} (P : A → Type 0) (b : Bool) (x y : A)
    → (b ≡ true → P x)
    → P y
    → P (if b then x else y)
if-true P true x y p q = p refl
if-true P false x y p q = q

cmd_getfacl-show :
    (P : Shell × Reply → Type 0) (args : List CString) (sh : Shell)
    → ((reply : Reply) → P (sh, reply))
    → P (cmd_getfacl args sh)
unfolding cmd_getfacl
cmd_getfacl-show P [] sh h = h silent
cmd_getfacl-show P (file ∷ rest) sh h = h _

read_at-show :
    (P : Shell × Reply → Type 0) (fd : ℕ) (p n : Option ℕ) (sh : Shell)
    → ((reply : Reply) → P (sh, reply))
    → P (read_at fd p n sh)
read_at-show P fd none n sh h = h outside
read_at-show P fd (some p) none sh h = h outside
read_at-show P fd (some p) (some n) sh h = h _

read_permitted-show :
    (P : Shell × Reply → Type 0) (o : Option ℕ) (args : List CString) (sh : Shell)
    → ((reply : Reply) → P (sh, reply))
    → P (read_permitted o args sh)
read_permitted-show P none args sh h = h silent
read_permitted-show P (some fd) [] sh h = read_at-show P fd (some 0) (some 1024) sh h
read_permitted-show P (some fd) (p ∷ []) sh h = read_at-show P fd (atoi p) (some 1024) sh h
read_permitted-show P (some fd) (p ∷ n ∷ rest) sh h = read_at-show P fd (atoi p) (atoi n) sh h

cmd_read-show :
    (P : Shell × Reply → Type 0) (args : List CString) (sh : Shell)
    → ((reply : Reply) → P (sh, reply))
    → P (cmd_read args sh)
unfolding cmd_read
cmd_read-show P args sh h = read_permitted-show P (permitted sh.current_fd perm_read sh) args sh h

account_command-each :
    (P : Shell × Reply → Type 0) (cmd : CString) (args : List CString) (turn : Turn) (sh : Shell)
    → EachCommand P cmd args turn sh
    → P (account_command cmd args sh)
unfolding account_command cmd_whoami
account_command-each P cmd args turn sh each =
    (if-both P (str_eq cmd (bytes "useradd")) _ _ each.on_useradd (
      if-both P (str_eq cmd (bytes "userdel")) _ _ each.on_userdel (
        if-both P (str_eq cmd (bytes "users")) _ _ (each.on_show (user_list (fs_list_users sh.fs)))
          (if-both P (str_eq cmd (bytes "groupadd")) _ _ each.on_groupadd (
            if-both P (str_eq cmd (bytes "groupdel")) _ _ each.on_groupdel (
              if-both P (str_eq cmd (bytes "groups")) _ _
                (each.on_show (group_list (fs_list_groups sh.fs)))
                (if-both P (str_eq cmd (bytes "usermod")) _ _ each.on_usermod (
                  if-both P (str_eq cmd (bytes "su")) _ _ each.on_su (
                    if-both P (str_eq cmd (bytes "whoami")) _ _ (each.on_show _) (
                      if-both P (str_eq cmd (bytes "chmod")) _ _ each.on_chmod (
                        if-both P (str_eq cmd (bytes "chown")) _ _ each.on_chown (
                          if-both P (str_eq cmd (bytes "chgrp")) _ _ each.on_chgrp (
                            if-both P (str_eq cmd (bytes "getfacl")) _ _
                              (cmd_getfacl-show P args sh each.on_show)
                              (each.on_show silent))))))))))))))

pub run_command-each :
    (P : Shell × Reply → Type 0) (cmd : CString) (args : List CString) (turn : Turn) (sh : Shell)
    → EachCommand P cmd args turn sh
    → P (run_command cmd args turn sh)
unfolding run_command cmd_size cmd_ls cmd_stat
run_command-each P cmd args turn sh each =
    (if-both P (str_eq cmd (bytes "create")) _ _ each.on_create (
      if-both P (str_eq cmd (bytes "open")) _ _ each.on_open (
        if-both P (str_eq cmd (bytes "read")) _ _ (cmd_read-show P args sh each.on_show) (
          if-true P (str_eq cmd (bytes "write")) _ _ each.on_write (
            if-both P (str_eq cmd (bytes "shrink")) _ _ each.on_shrink (
              if-both P (str_eq cmd (bytes "size")) _ _ (each.on_show _) (
                if-both P (str_eq cmd (bytes "close")) _ _ each.on_close (
                  if-true P (str_eq cmd (bytes "rm")) _ _ each.on_rm (
                    if-both P (str_eq cmd (bytes "ls")) _ _ (each.on_show _) (
                      if-both P (str_eq cmd (bytes "stat")) _ _ (each.on_show _) (
                        if-both P (str_eq cmd (bytes "viz")) _ _
                          (each.on_show (free_blocks_total (total_free sh.fs.free_list)))
                          (if-both P (str_eq cmd (bytes "format")) _ _ each.on_format (
                            if-both P (str_eq cmd (bytes "clear")) _ _ (each.on_show (silent))
                              (account_command-each P cmd args turn sh each))))))))))))))
