-- ===== src/Shell/Careful.antt =====
-- Whole sessions against the invariant of the file system.
pub mod Session
use opperating_system_practi.Base.{
  ℕ, ◌+◌, Bool, true, false, not, ◌&&◌, ◌||◌, ◌≡◌, ◌≢◌, refl, sym, ap, ◌∙◌, inl, inr, Option, none,
  some, List, [], ◌∷◌, length, get_or, leb, Bool-cases, Option-cases, if-both, str_eq, bytes,
  CString, arith,
}
use opperating_system_practi.Base.Int.{ℤ, pos}
use opperating_system_practi.Types.{Fs, perm_write, max_files}
use opperating_system_practi.Boot.{fs_format}
use opperating_system_practi.Files.{
  fs_create, fs_open, fs_delete, fs_close_file, find_file_index, file_at, descriptor, o_creat,
}
use opperating_system_practi.Data.{fs_write, fs_shrink}
use opperating_system_practi.Accounts.{
  fs_useradd, fs_userdel, fs_groupadd, fs_groupdel, fs_usermod_add_group, fs_switch_user,
}
use opperating_system_practi.Access.{fs_chmod, fs_chown, fs_chgrp, fs_check_permission}
use opperating_system_practi.Invariant.{IsConsistent}
use opperating_system_practi.Invariant.Create.{
  fs_create-IsConsistent, fs_open-IsConsistent, fs_close_file-IsConsistent,
}
use opperating_system_practi.Invariant.Delete.{fs_delete-IsConsistent, HasBlocks}
use opperating_system_practi.Invariant.Shrink.{fs_shrink-IsConsistent}
use opperating_system_practi.Invariant.Write.{fs_write-IsConsistent, HasRoom}
use opperating_system_practi.Invariant.Start.{fs_format-IsConsistent}
use opperating_system_practi.Shell.{Shell, Reply, silent, with_fs}
use opperating_system_practi.Shell.Words.{parse_command, join}
use opperating_system_practi.Shell.Numbers.{atoi, strtol_octal, parse_permissions}
use opperating_system_practi.Shell.FileCommands.{
  cmd_create, cmd_open, cmd_write, cmd_shrink, cmd_close, cmd_rm, cmd_format, open_with,
  open_unless, open_flags, opened, has_flag, required_perm, write_permitted, write_at, permitted,
  shrink_open, shrink_to, close_current, is_current, confirm_size,
}
use opperating_system_practi.Shell.AccountCommands.{
  cmd_useradd, cmd_userdel, cmd_groupadd, cmd_groupdel, cmd_usermod, cmd_su, cmd_chmod, cmd_chown,
  cmd_chgrp, chown_parts, chown_unless_empty, chgrp_unless_empty, split_colon,
}
use opperating_system_practi.Shell.Loop.{
  Turn, run_turn, run_parsed, run_command, run_shell, cmd_size_limit,
}
use opperating_system_practi.Shell.Each.{EachCommand, run_command-each}
use opperating_system_practi.Shell.Frame.Accounts.{
  fs_useradd-SameStore, fs_userdel-SameStore, fs_groupadd-SameStore, fs_groupdel-SameStore,
  usermod-SameStore, fs_switch_user-SameStore,
}
use opperating_system_practi.Shell.Frame.Descriptors.{OnlyOpen}
use opperating_system_practi.Shell.Descriptors.{IsWired, close_current-IsWired}
use opperating_system_practi.Shell.Session.{run_turn-IsWired, IfSome}
use opperating_system_practi.Shell.Consistency.{
  SameStore-IsConsistent, fs_chmod-IsConsistent, fs_chown-IsConsistent, fs_chgrp-IsConsistent,
}

-- A `write` needs no second range of blocks: the file of the current descriptor has no block yet and
-- the text ends behind byte 0, or the text ends within its blocks.
abbrev pub WriteFits : List CString → Shell → Type 0
WriteFits [] sh = Unit
WriteFits (p ∷ []) sh = Unit
WriteFits (p ∷ w ∷ ws) sh =
    (fd n i : ℕ)
    → sh.current_fd ≡ some fd
    → atoi p ≡ some n
    → descriptor sh.fs (pos fd) ≡ some i
    → HasRoom (file_at sh.fs i).start_block (file_at sh.fs i).block_count
        (n + length (join (w ∷ ws)))

-- An `rm` names no file that was cut to no block.
abbrev pub DeleteFits : List CString → Shell → Type 0
DeleteFits [] sh = Unit
DeleteFits (name ∷ rest) sh =
    (i : ℕ) → find_file_index name sh.fs ≡ some i → HasBlocks (file_at sh.fs i)

pub record IsCareful (cmd : CString) (args : List CString) (sh : Shell) : Type 0 where
  pub writes : str_eq cmd (bytes "write") ≡ true → WriteFits args sh
  pub deletes : str_eq cmd (bytes "rm") ≡ true → DeleteFits args sh

abbrev pub Sound : Shell × Reply → Type 0
Sound r = IsConsistent r.0.fs

module _ (sh : Shell) (wired : IsWired sh) (c : IsConsistent sh.fs) where
  pub create-Sound : (args : List CString) (t m : ℕ) → Sound (cmd_create args t m sh)
  unfolding cmd_create
  create-Sound [] t m = c
  create-Sound (name ∷ []) t m = fs_create-IsConsistent name 0o644 t m sh.fs c
  create-Sound (name ∷ p ∷ rest) t m = fs_create-IsConsistent name (parse_permissions p) t m sh.fs c

  opened-Sound :
      (name : CString) (r : Fs × Option ℕ) → IsConsistent r.0 → IsConsistent (opened name sh r).fs
  opened-Sound name (s, none) h = h
  opened-Sound name (s, some fd) h = h

  open_unless-Sound :
      (o : Option ℕ) (name : CString) (flags t m : ℕ) → Sound (open_unless o name flags t m sh)
  unfolding open_with
  open_unless-Sound (some fd) name flags t m = c
  open_unless-Sound none name flags t m =
      if-both Sound
        (not (has_flag flags o_creat) && not (fs_check_permission name (required_perm flags) sh.fs))
        (sh, silent) (opened name sh (fs_open name flags t m sh.fs), silent) c
        (opened-Sound name (fs_open name flags t m sh.fs)
          (fs_open-IsConsistent name flags t m sh.fs c))

  pub open-Sound : (args : List CString) (t m : ℕ) → Sound (cmd_open args t m sh)
  unfolding cmd_open
  open-Sound [] t m = c
  open-Sound (name ∷ rest) t m = open_unless-Sound sh.current_fd name (open_flags rest) t m

  write_at-Sound :
      (fd : ℕ) (o : Option ℕ) (text : CString) (now : ℕ)
      → ((n i : ℕ)
          → o ≡ some n
          → descriptor sh.fs (pos fd) ≡ some i
          → HasRoom (file_at sh.fs i).start_block (file_at sh.fs i).block_count (n + length text))
      → Sound (write_at fd o text now sh)
  write_at-Sound fd none text now h = c
  write_at-Sound fd (some n) text now h =
      fs_write-IsConsistent (pos fd) n text now sh.fs c (λ i e. h n i refl e)

  permitted-fd : (o : Option ℕ) (fd : ℕ) → permitted o perm_write sh ≡ some fd → o ≡ some fd
  permitted-fd none fd e = e
  permitted-fd (some k) fd e =
      elim (Bool-cases (fs_check_permission sh.current_filename perm_write sh.fs)) [
        | inl granted ↦ rw granted at e
        | inr denied ↦ absurd (refused (rw denied at e))
      ]
    where
      refused : ◌≡◌ {A = Option ℕ} none (some fd) → ⊥
      refused p = cc

  write_permitted-Sound :
      (o : Option ℕ) (args : List CString) (now : ℕ)
      → ((fd : ℕ) → o ≡ some fd → sh.current_fd ≡ some fd)
      → WriteFits args sh
      → Sound (write_permitted o args now sh)
  write_permitted-Sound none args now k h = c
  write_permitted-Sound (some fd) [] now k h = c
  write_permitted-Sound (some fd) (p ∷ []) now k h = c
  write_permitted-Sound (some fd) (p ∷ w ∷ ws) now k h =
      write_at-Sound fd (atoi p) (join (w ∷ ws)) now (λ n i e d. h fd n i (k fd refl) e d)

  pub write-Sound :
      (args : List CString) (now : ℕ) → WriteFits args sh → Sound (cmd_write args now sh)
  unfolding cmd_write
  write-Sound args now h =
      write_permitted-Sound (permitted sh.current_fd perm_write sh) args now
        (permitted-fd sh.current_fd) h

  shrink_to-Sound : (fd : ℕ) (o : Option ℕ) (now : ℕ) → Sound (shrink_to fd o now sh)
  shrink_to-Sound fd none now = c
  shrink_to-Sound fd (some n) now = fs_shrink-IsConsistent (pos fd) n now sh.fs c

  shrink_open-Sound :
      (o : Option ℕ) (args : List CString) (now : ℕ) → Sound (shrink_open o args now sh)
  shrink_open-Sound none args now = c
  shrink_open-Sound (some fd) [] now = c
  shrink_open-Sound (some fd) (p ∷ rest) now = shrink_to-Sound fd (atoi p) now

  pub shrink-Sound : (args : List CString) (now : ℕ) → Sound (cmd_shrink args now sh)
  unfolding cmd_shrink
  shrink-Sound args now = shrink_open-Sound sh.current_fd args now

  close_current-Sound : (o : Option ℕ) → IsConsistent (close_current o sh).fs
  close_current-Sound none = c
  close_current-Sound (some fd) = fs_close_file-IsConsistent (pos fd) sh.fs c

  pub close-Sound : Sound (cmd_close sh)
  unfolding cmd_close
  close-Sound = close_current-Sound sh.current_fd

  pub rm-Sound : (args : List CString) → DeleteFits args sh → Sound (cmd_rm args sh)
  unfolding cmd_rm
  rm-Sound [] h = c
  rm-Sound (name ∷ rest) h = if-both Sound (is_current sh.current_fd name sh) _ _ c (
      if-both Sound (not (fs_check_permission name perm_write sh.fs)) _ _ c
        (fs_delete-IsConsistent name sh.fs c h))

  pub format-Sound : (confirm : CString) → Sound (cmd_format confirm sh)
  unfolding cmd_format
  format-Sound confirm =
      let closed : Shell = close_current sh.current_fd sh in
      let h : OnlyOpen none closed.fs.open_files =
        close_current-IsWired sh.current_fd sh refl wired in
      if-both Sound (leb confirm_size (length confirm)) _ _ c (
        if-both Sound (str_eq confirm (bytes "yes")) _ _
          (fs_format-IsConsistent closed.fs h.slots (λ fd i e. never fd (h.only fd i e))) c)
    where
      never : (k : ℕ) → ◌≡◌ {A = Option ℕ} none (some k) → ⊥
      never k p = cc
