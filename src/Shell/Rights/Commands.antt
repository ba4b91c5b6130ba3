-- ===== src/Shell/Rights/Commands.antt =====
-- Every command of File-System/cli.c against the owners, the modes and the groups of the files.
use opperating_system_practi.Base.{
  leb, length, if-both, ℕ, not, ◌&&◌, ◌≡◌, ◌≢◌, Option, none, some, List, [], ◌∷◌, str_eq, bytes,
  CString,
}
use opperating_system_practi.Base.Int.{pos}
use opperating_system_practi.Types.{Fs, perm_write}
use opperating_system_practi.Files.{fs_open, o_creat}
use opperating_system_practi.Accounts.{
  fs_useradd, fs_userdel, fs_groupadd, fs_groupdel, fs_usermod_add_group,
}
use opperating_system_practi.Access.{fs_check_permission}
use opperating_system_practi.Shell.{Shell, Reply, silent, outside}
use opperating_system_practi.Shell.Words.{join}
use opperating_system_practi.Shell.Numbers.{atoi, strtol_octal, parse_permissions}
use opperating_system_practi.Shell.FileCommands.{
  cmd_create, cmd_open, cmd_write, cmd_shrink, cmd_close, cmd_rm, cmd_format, open_with,
  open_unless, open_flags, opened, has_flag, required_perm, write_permitted, write_at, permitted,
  shrink_open, shrink_to, close_current, is_current, confirm_size,
}
use opperating_system_practi.Shell.AccountCommands.{
  cmd_useradd, cmd_userdel, cmd_groupadd, cmd_groupdel, cmd_usermod, cmd_su, cmd_chmod, cmd_chown,
  cmd_chgrp, split_colon,
}
use opperating_system_practi.Shell.Loop.{Turn, run_command}
use opperating_system_practi.Shell.Each.{run_command-each}
use opperating_system_practi.Files.{fs_close_file, close_found, descriptor}
use opperating_system_practi.Base.{refl}
use opperating_system_practi.Base.Int.{ℤ, negsuc}
use opperating_system_practi.Accounts.{fs_switch_user}
use opperating_system_practi.Shell.Frame.Accounts.{
  fs_useradd-SameStore, fs_userdel-SameStore, fs_groupadd-SameStore, fs_groupdel-SameStore,
  usermod-SameStore, fs_switch_user-SameStore,
}
use opperating_system_practi.Shell.Rights.{
  AllGuarded, same_guarded, fs_create-AllGuarded, fs_open-AllGuarded, fs_format-AllGuarded,
  fs_delete-AllGuarded,
}
use opperating_system_practi.Shell.Rights.Operations.{
  fs_write-AllGuarded, fs_shrink-AllGuarded, files-AllGuarded, fs_chmod-AllGuarded,
  fs_chgrp-AllGuarded, chown_parts-AllGuarded,
}

close_found-files :
    (o : Option ℕ) (fd : ℤ) (s : Fs) → (close_found o fd s).file_table ≡ s.file_table
unfolding close_found
close_found-files none fd s = refl
close_found-files (some i) (negsuc n) s = refl
close_found-files (some i) (pos n) s = refl

module _ (sh : Shell) where
  abbrev Kept : Shell × Reply → Type 0
  Kept r = AllGuarded sh.fs r.0.fs

  unchanged : (reply : Reply) → Kept (sh, reply)
  unchanged reply = same_guarded sh.fs

  close_current-files : (o : Option ℕ) → (close_current o sh).fs.file_table ≡ sh.fs.file_table
  close_current-files none = refl
  close_current-files (some fd) =
      unfold fs_close_file in close_found-files (descriptor sh.fs (pos fd)) (pos fd) sh.fs

  create-Guarded : (args : List CString) (c m : ℕ) → Kept (cmd_create args c m sh)
  unfolding cmd_create
  create-Guarded [] c m = unchanged silent
  create-Guarded (name ∷ []) c m = fs_create-AllGuarded name 0o644 c m sh.fs
  create-Guarded (name ∷ p ∷ rest) c m = fs_create-AllGuarded name (parse_permissions p) c m sh.fs

  opened-Guarded :
      (name : CString) (r : Fs × Option ℕ)
      → AllGuarded sh.fs r.0
      → AllGuarded sh.fs (opened name sh r).fs
  opened-Guarded name (s, none) h = h
  opened-Guarded name (s, some fd) h = h

  open_unless-Guarded :
      (o : Option ℕ) (name : CString) (flags c m : ℕ) → Kept (open_unless o name flags c m sh)
  unfolding open_with
  open_unless-Guarded (some fd) name flags c m = unchanged silent
  open_unless-Guarded none name flags c m =
      if-both Kept
        (not (has_flag flags o_creat) && not (fs_check_permission name (required_perm flags) sh.fs))
        (sh, silent) (opened name sh (fs_open name flags c m sh.fs), silent) (unchanged silent)
        (opened-Guarded name (fs_open name flags c m sh.fs)
          (fs_open-AllGuarded name flags c m sh.fs))

  open-Guarded : (args : List CString) (c m : ℕ) → Kept (cmd_open args c m sh)
  unfolding cmd_open
  open-Guarded [] c m = unchanged silent
  open-Guarded (name ∷ rest) c m = open_unless-Guarded sh.current_fd name (open_flags rest) c m

  write_at-Guarded :
      (fd : ℕ) (o : Option ℕ) (text : CString) (now : ℕ) → Kept (write_at fd o text now sh)
  write_at-Guarded fd none text now = unchanged silent
  write_at-Guarded fd (some n) text now = fs_write-AllGuarded (pos fd) n text now sh.fs

  write_permitted-Guarded :
      (o : Option ℕ) (args : List CString) (now : ℕ) → Kept (write_permitted o args now sh)
  write_permitted-Guarded none args now = unchanged silent
  write_permitted-Guarded (some fd) [] now = unchanged silent
  write_permitted-Guarded (some fd) (p ∷ []) now = unchanged silent
  write_permitted-Guarded (some fd) (p ∷ w ∷ ws) now =
      write_at-Guarded fd (atoi p) (join (w ∷ ws)) now

  write-Guarded : (args : List CString) (now : ℕ) → Kept (cmd_write args now sh)
  unfolding cmd_write
  write-Guarded args now = write_permitted-Guarded (permitted sh.current_fd perm_write sh) args now

  shrink_to-Guarded : (fd : ℕ) (o : Option ℕ) (now : ℕ) → Kept (shrink_to fd o now sh)
  shrink_to-Guarded fd none now = unchanged silent
  shrink_to-Guarded fd (some n) now = fs_shrink-AllGuarded (pos fd) n now sh.fs

  shrink_open-Guarded :
      (o : Option ℕ) (args : List CString) (now : ℕ) → Kept (shrink_open o args now sh)
  shrink_open-Guarded none args now = unchanged silent
  shrink_open-Guarded (some fd) [] now = unchanged silent
  shrink_open-Guarded (some fd) (p ∷ rest) now = shrink_to-Guarded fd (atoi p) now

  shrink-Guarded : (args : List CString) (now : ℕ) → Kept (cmd_shrink args now sh)
  unfolding cmd_shrink
  shrink-Guarded args now = shrink_open-Guarded sh.current_fd args now

  close-Guarded : Kept (cmd_close sh)
  unfolding cmd_close
  close-Guarded =
      files-AllGuarded sh.fs (close_current sh.current_fd sh).fs (close_current-files sh.current_fd)

  rm-Guarded : (args : List CString) → Kept (cmd_rm args sh)
  unfolding cmd_rm
  rm-Guarded [] = unchanged silent
  rm-Guarded (name ∷ rest) =
      if-both Kept (is_current sh.current_fd name sh) _ _ (unchanged silent) (
        if-both Kept (not (fs_check_permission name perm_write sh.fs)) _ _ (unchanged silent)
          (fs_delete-AllGuarded name sh.fs))

  format-Guarded : (confirm : CString) → Kept (cmd_format confirm sh)
  unfolding cmd_format
  format-Guarded confirm =
      let closed : Shell = close_current sh.current_fd sh in
      if-both Kept (leb confirm_size (length confirm)) _ _ (unchanged outside) (
        if-both Kept (str_eq confirm (bytes "yes")) _ _ (fs_format-AllGuarded sh.fs closed.fs)
          (unchanged silent))

  su-Guarded : (args : List CString) → Kept (cmd_su args sh)
  unfolding cmd_su
  su-Guarded [] = unchanged silent
  su-Guarded (name ∷ rest) =
      files-AllGuarded sh.fs (fs_switch_user name sh.fs) (fs_switch_user-SameStore name sh.fs).1

  useradd-Guarded : (args : List CString) → Kept (cmd_useradd args sh)
  unfolding cmd_useradd
  useradd-Guarded [] = unchanged silent
  useradd-Guarded (name ∷ rest) =
      files-AllGuarded sh.fs (fs_useradd name sh.fs).0 (fs_useradd-SameStore name sh.fs).1

  userdel-Guarded : (args : List CString) → Kept (cmd_userdel args sh)
  unfolding cmd_userdel
  userdel-Guarded [] = unchanged silent
  userdel-Guarded (name ∷ rest) =
      files-AllGuarded sh.fs (fs_userdel name sh.fs).0 (fs_userdel-SameStore name sh.fs).1

  groupadd-Guarded : (args : List CString) → Kept (cmd_groupadd args sh)
  unfolding cmd_groupadd
  groupadd-Guarded [] = unchanged silent
  groupadd-Guarded (name ∷ rest) =
      files-AllGuarded sh.fs (fs_groupadd name sh.fs).0 (fs_groupadd-SameStore name sh.fs).1

  groupdel-Guarded : (args : List CString) → Kept (cmd_groupdel args sh)
  unfolding cmd_groupdel
  groupdel-Guarded [] = unchanged silent
  groupdel-Guarded (name ∷ rest) =
      files-AllGuarded sh.fs (fs_groupdel name sh.fs).0 (fs_groupdel-SameStore name sh.fs).1

  usermod-Guarded : (args : List CString) → Kept (cmd_usermod args sh)
  unfolding cmd_usermod
  usermod-Guarded [] = unchanged silent
  usermod-Guarded (o ∷ []) = unchanged silent
  usermod-Guarded (o ∷ u ∷ []) = unchanged silent
  usermod-Guarded (o ∷ u ∷ g ∷ rest) =
      if-both Kept (not (str_eq o (bytes "-aG"))) _ _ (unchanged silent)
        (files-AllGuarded sh.fs (fs_usermod_add_group u g sh.fs).0 (usermod-SameStore u g sh.fs).1)

  -- the commands on rights, for a user other than root
  module _ (h : sh.fs.current_uid ≢ 0) where
    chmod-Guarded : (args : List CString) → Kept (cmd_chmod args sh)
    unfolding cmd_chmod
    chmod-Guarded [] = unchanged silent
    chmod-Guarded (m ∷ []) = unchanged silent
    chmod-Guarded (m ∷ f ∷ rest) = fs_chmod-AllGuarded sh.fs h f (strtol_octal m)

    chown-Guarded : (args : List CString) → Kept (cmd_chown args sh)
    unfolding cmd_chown
    chown-Guarded [] = unchanged silent
    chown-Guarded (o ∷ []) = unchanged silent
    chown-Guarded (o ∷ f ∷ rest) = chown_parts-AllGuarded sh.fs h f (split_colon o)

    chgrp-Guarded : (args : List CString) → Kept (cmd_chgrp args sh)
    unfolding cmd_chgrp
    chgrp-Guarded [] = unchanged silent
    chgrp-Guarded (g ∷ []) = unchanged silent
    chgrp-Guarded (g ∷ f ∷ rest) = fs_chgrp-AllGuarded sh.fs h f g

-- While a user other than root is logged in, no command of the command line, whatever its word, its
-- arguments and the answers are, changes the owner of a file that stays in use, or the mode or the
-- group of one that another user owns.
pub run_command-AllGuarded :
    (cmd : CString) (args : List CString) (turn : Turn) (sh : Shell)
    → sh.fs.current_uid ≢ 0
    → AllGuarded sh.fs (run_command cmd args turn sh).0.fs
run_command-AllGuarded cmd args turn sh h = run_command-each (Kept sh) cmd args turn sh (record {
  on_show = unchanged sh;
  on_create = create-Guarded sh args turn.created turn.modified;
  on_open = open-Guarded sh args turn.created turn.modified;
  on_write = λ e. write-Guarded sh args turn.modified;
  on_shrink = shrink-Guarded sh args turn.modified;
  on_close = close-Guarded sh;
  on_rm = λ e. rm-Guarded sh args;
  on_format = format-Guarded sh turn.confirm;
  on_useradd = useradd-Guarded sh args;
  on_userdel = userdel-Guarded sh args;
  on_groupadd = groupadd-Guarded sh args;
  on_groupdel = groupdel-Guarded sh args;
  on_usermod = usermod-Guarded sh args;
  on_su = su-Guarded sh args;
  on_chmod = chmod-Guarded sh h args;
  on_chown = chown-Guarded sh h args;
  on_chgrp = chgrp-Guarded sh h args;
})
