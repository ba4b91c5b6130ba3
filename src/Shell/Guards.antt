-- ===== src/Shell/Guards.antt =====
-- The commands against the tables of accounts, and who can change them.
use opperating_system_practi.Base.{
  leb, length, if-both, ℕ, not, ◌&&◌, ◌≡◌, ◌≢◌, Option, none, some, List, [], ◌∷◌, str_eq, bytes,
  CString,
}
use opperating_system_practi.Base.Int.{pos}
use opperating_system_practi.Types.{Fs, perm_write}
use opperating_system_practi.Boot.{fs_format}
use opperating_system_practi.Files.{fs_create, fs_open, o_creat}
use opperating_system_practi.Data.{fs_write, fs_shrink}
use opperating_system_practi.Accounts.{
  fs_useradd, fs_userdel, fs_groupadd, fs_groupdel, fs_usermod_add_group,
}
use opperating_system_practi.Accounts.Guards.{only_root}
use opperating_system_practi.Access.{fs_chmod, fs_chown, fs_chgrp, fs_check_permission}
use opperating_system_practi.Shell.{Shell, Reply, silent, outside}
use opperating_system_practi.Shell.Words.{join}
use opperating_system_practi.Shell.Numbers.{atoi, strtol_octal, parse_permissions}
use opperating_system_practi.Shell.FileCommands.{
  cmd_create, cmd_open, cmd_write, cmd_shrink, cmd_close, cmd_rm, cmd_format, open_with,
  open_unless, open_flags, opened, has_flag, required_perm, write_permitted, write_at, permitted,
  shrink_open, shrink_to, close_current, is_current, confirm_size,
}
use opperating_system_practi.Shell.AccountCommands.{
  cmd_useradd, cmd_userdel, cmd_groupadd, cmd_groupdel, cmd_usermod, cmd_su, cmd_chmod, cmd_chown,
  cmd_chgrp, chown_parts, chown_unless_empty, chgrp_unless_empty, split_colon,
}
use opperating_system_practi.Shell.Loop.{Turn, run_command}
use opperating_system_practi.Shell.Frame.{
  fs_create-SameBoth, fs_write-SameBoth, fs_shrink-SameBoth, fs_format-SameBoth,
}
use opperating_system_practi.Shell.Frame.Accounts.{
  fs_chmod-SameBoth, fs_chown-SameBoth, fs_chgrp-SameBoth,
}
use opperating_system_practi.Shell.Each.{run_command-each}
use opperating_system_practi.Shell.Tables.{
  SameTables, same_tables, tables_trans, tables_of, fs_open-SameTables, close_current-SameTables,
  fs_delete-SameTables, fs_switch_user-SameTables,
}

refused : (s : Fs) (r : Fs × Option ℕ) → r ≡ (s, none) → SameTables s r.0
refused s r e = rw e (same_tables s)

chown_user-SameTables :
    (file user : CString) (s : Fs) → SameTables s (chown_unless_empty file user s)
chown_user-SameTables file [] s = same_tables s
chown_user-SameTables file (c ∷ user) s =
    tables_of s (fs_chown file (c ∷ user) s).0 (fs_chown-SameBoth file (c ∷ user) s)

chgrp_group-SameTables :
    (file group : CString) (s : Fs) → SameTables s (chgrp_unless_empty file group s)
chgrp_group-SameTables file [] s = same_tables s
chgrp_group-SameTables file (c ∷ group) s =
    tables_of s (fs_chgrp file (c ∷ group) s).0 (fs_chgrp-SameBoth file (c ∷ group) s)

chown_parts-SameTables :
    (file : CString) (p : CString × Option CString) (s : Fs) → SameTables s (chown_parts file p s)
chown_parts-SameTables file (user, none) s =
    tables_of s (fs_chown file user s).0 (fs_chown-SameBoth file user s)
chown_parts-SameTables file (user, some group) s =
    let t : Fs = chown_unless_empty file user s in
    tables_trans s t (chgrp_unless_empty file group t) (chown_user-SameTables file user s)
      (chgrp_group-SameTables file group t)

module _ (sh : Shell) where
  abbrev Kept : Shell × Reply → Type 0
  Kept r = SameTables sh.fs r.0.fs

  unchanged : (reply : Reply) → Kept (sh, reply)
  unchanged reply = same_tables sh.fs

  create-Kept : (args : List CString) (c m : ℕ) → Kept (cmd_create args c m sh)
  unfolding cmd_create
  create-Kept [] c m = unchanged silent
  create-Kept (name ∷ []) c m =
      tables_of sh.fs (fs_create name 0o644 c m sh.fs).0 (fs_create-SameBoth name 0o644 c m sh.fs)
  create-Kept (name ∷ p ∷ rest) c m =
      tables_of sh.fs (fs_create name (parse_permissions p) c m sh.fs).0
        (fs_create-SameBoth name (parse_permissions p) c m sh.fs)

  opened-Kept :
      (name : CString) (r : Fs × Option ℕ)
      → SameTables sh.fs r.0
      → SameTables sh.fs (opened name sh r).fs
  opened-Kept name (s, none) h = h
  opened-Kept name (s, some fd) h = h

  open_unless-Kept :
      (o : Option ℕ) (name : CString) (flags c m : ℕ) → Kept (open_unless o name flags c m sh)
  unfolding open_with
  open_unless-Kept (some fd) name flags c m = unchanged silent
  open_unless-Kept none name flags c m =
      if-both Kept
        (not (has_flag flags o_creat) && not (fs_check_permission name (required_perm flags) sh.fs))
        (sh, silent) (opened name sh (fs_open name flags c m sh.fs), silent) (unchanged silent)
        (opened-Kept name (fs_open name flags c m sh.fs) (fs_open-SameTables name flags c m sh.fs))

  open-Kept : (args : List CString) (c m : ℕ) → Kept (cmd_open args c m sh)
  unfolding cmd_open
  open-Kept [] c m = unchanged silent
  open-Kept (name ∷ rest) c m = open_unless-Kept sh.current_fd name (open_flags rest) c m

  write_at-Kept :
      (fd : ℕ) (o : Option ℕ) (text : CString) (now : ℕ) → Kept (write_at fd o text now sh)
  write_at-Kept fd none text now = unchanged silent
  write_at-Kept fd (some n) text now =
      tables_of sh.fs (fs_write (pos fd) n text now sh.fs).0
        (fs_write-SameBoth (pos fd) n text now sh.fs)

  write_permitted-Kept :
      (o : Option ℕ) (args : List CString) (now : ℕ) → Kept (write_permitted o args now sh)
  write_permitted-Kept none args now = unchanged silent
  write_permitted-Kept (some fd) [] now = unchanged silent
  write_permitted-Kept (some fd) (p ∷ []) now = unchanged silent
  write_permitted-Kept (some fd) (p ∷ w ∷ ws) now = write_at-Kept fd (atoi p) (join (w ∷ ws)) now

  write-Kept : (args : List CString) (now : ℕ) → Kept (cmd_write args now sh)
  unfolding cmd_write
  write-Kept args now = write_permitted-Kept (permitted sh.current_fd perm_write sh) args now

  shrink_to-Kept : (fd : ℕ) (o : Option ℕ) (now : ℕ) → Kept (shrink_to fd o now sh)
  shrink_to-Kept fd none now = unchanged silent
  shrink_to-Kept fd (some n) now =
      tables_of sh.fs (fs_shrink (pos fd) n now sh.fs).0 (fs_shrink-SameBoth (pos fd) n now sh.fs)

  shrink_open-Kept :
      (o : Option ℕ) (args : List CString) (now : ℕ) → Kept (shrink_open o args now sh)
  shrink_open-Kept none args now = unchanged silent
  shrink_open-Kept (some fd) [] now = unchanged silent
  shrink_open-Kept (some fd) (p ∷ rest) now = shrink_to-Kept fd (atoi p) now

  shrink-Kept : (args : List CString) (now : ℕ) → Kept (cmd_shrink args now sh)
  unfolding cmd_shrink
  shrink-Kept args now = shrink_open-Kept sh.current_fd args now

  close-Kept : Kept (cmd_close sh)
  unfolding cmd_close
  close-Kept = close_current-SameTables sh.current_fd sh

  rm-Kept : (args : List CString) → Kept (cmd_rm args sh)
  unfolding cmd_rm
  rm-Kept [] = unchanged silent
  rm-Kept (name ∷ rest) = if-both Kept (is_current sh.current_fd name sh) _ _ (unchanged silent) (
      if-both Kept (not (fs_check_permission name perm_write sh.fs)) _ _ (unchanged silent)
        (fs_delete-SameTables name sh.fs))

  format-Kept : (confirm : CString) → Kept (cmd_format confirm sh)
  unfolding cmd_format
  format-Kept confirm =
      let closed : Shell = close_current sh.current_fd sh in
      if-both Kept (leb confirm_size (length confirm)) _ _ (unchanged outside) (
        if-both Kept (str_eq confirm (bytes "yes")) _ _
          (tables_trans sh.fs closed.fs (fs_format closed.fs)
            (close_current-SameTables sh.current_fd sh)
            (tables_of closed.fs (fs_format closed.fs) (fs_format-SameBoth closed.fs)))
          (unchanged silent))

  su-Kept : (args : List CString) → Kept (cmd_su args sh)
  unfolding cmd_su
  su-Kept [] = unchanged silent
  su-Kept (name ∷ rest) = fs_switch_user-SameTables name sh.fs

  chmod-Kept : (args : List CString) → Kept (cmd_chmod args sh)
  unfolding cmd_chmod
  chmod-Kept [] = unchanged silent
  chmod-Kept (m ∷ []) = unchanged silent
  chmod-Kept (m ∷ f ∷ rest) =
      tables_of sh.fs (fs_chmod f (strtol_octal m) sh.fs).0
        (fs_chmod-SameBoth f (strtol_octal m) sh.fs)

  chown-Kept : (args : List CString) → Kept (cmd_chown args sh)
  unfolding cmd_chown
  chown-Kept [] = unchanged silent
  chown-Kept (o ∷ []) = unchanged silent
  chown-Kept (o ∷ f ∷ rest) = chown_parts-SameTables f (split_colon o) sh.fs

  chgrp-Kept : (args : List CString) → Kept (cmd_chgrp args sh)
  unfolding cmd_chgrp
  chgrp-Kept [] = unchanged silent
  chgrp-Kept (g ∷ []) = unchanged silent
  chgrp-Kept (g ∷ f ∷ rest) = tables_of sh.fs (fs_chgrp f g sh.fs).0 (fs_chgrp-SameBoth f g sh.fs)

  -- the commands that change accounts, for a user other than root
  module _ (h : sh.fs.current_uid ≢ 0) where
    useradd-Kept : (args : List CString) → Kept (cmd_useradd args sh)
    unfolding cmd_useradd
    useradd-Kept [] = unchanged silent
    useradd-Kept (name ∷ rest) =
        refused sh.fs (fs_useradd name sh.fs) (only_root name name sh.fs h).0

    userdel-Kept : (args : List CString) → Kept (cmd_userdel args sh)
    unfolding cmd_userdel
    userdel-Kept [] = unchanged silent
    userdel-Kept (name ∷ rest) =
        refused sh.fs (fs_userdel name sh.fs) (only_root name name sh.fs h).1

    groupadd-Kept : (args : List CString) → Kept (cmd_groupadd args sh)
    unfolding cmd_groupadd
    groupadd-Kept [] = unchanged silent
    groupadd-Kept (name ∷ rest) =
        refused sh.fs (fs_groupadd name sh.fs) (only_root name name sh.fs h).2

    groupdel-Kept : (args : List CString) → Kept (cmd_groupdel args sh)
    unfolding cmd_groupdel
    groupdel-Kept [] = unchanged silent
    groupdel-Kept (name ∷ rest) =
        refused sh.fs (fs_groupdel name sh.fs) (only_root name name sh.fs h).3

    usermod-Kept : (args : List CString) → Kept (cmd_usermod args sh)
    unfolding cmd_usermod
    usermod-Kept [] = unchanged silent
    usermod-Kept (o ∷ []) = unchanged silent
    usermod-Kept (o ∷ u ∷ []) = unchanged silent
    usermod-Kept (o ∷ u ∷ g ∷ rest) =
        if-both Kept (not (str_eq o (bytes "-aG"))) _ _ (unchanged silent)
          (refused sh.fs (fs_usermod_add_group u g sh.fs) (only_root u g sh.fs h).4)

-- While a user other than root is logged in, no command of the command line changes the table of
-- users or the table of groups, whatever its word, its arguments and the answers are.
pub run_command-SameTables :
    (cmd : CString) (args : List CString) (turn : Turn) (sh : Shell)
    → sh.fs.current_uid ≢ 0
    → SameTables sh.fs (run_command cmd args turn sh).0.fs
run_command-SameTables cmd args turn sh h = run_command-each (Kept sh) cmd args turn sh (record {
  on_show = unchanged sh;
  on_create = create-Kept sh args turn.created turn.modified;
  on_open = open-Kept sh args turn.created turn.modified;
  on_write = λ e. write-Kept sh args turn.modified;
  on_shrink = shrink-Kept sh args turn.modified;
  on_close = close-Kept sh;
  on_rm = λ e. rm-Kept sh args;
  on_format = format-Kept sh turn.confirm;
  on_useradd = useradd-Kept sh h args;
  on_userdel = userdel-Kept sh h args;
  on_groupadd = groupadd-Kept sh h args;
  on_groupdel = groupdel-Kept sh h args;
  on_usermod = usermod-Kept sh h args;
  on_su = su-Kept sh args;
  on_chmod = chmod-Kept sh args;
  on_chown = chown-Kept sh args;
  on_chgrp = chgrp-Kept sh args;
})
