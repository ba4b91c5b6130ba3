-- ===== src/Shell/Descriptors.antt =====
-- The descriptor of the command line: no other one is ever open.
use opperating_system_practi.Base.{
  leb, length, if-both, ℕ, not, ◌&&◌, ◌≡◌, refl, Option, none, some, List, [], ◌∷◌, str_eq, bytes,
  CString,
}
use opperating_system_practi.Base.Int.{pos}
use opperating_system_practi.Types.{Fs, perm_write}
use opperating_system_practi.Boot.{fs_format}
use opperating_system_practi.Files.{fs_create, fs_open, o_creat}
use opperating_system_practi.Data.{fs_write, fs_shrink}
use opperating_system_practi.Access.{fs_check_permission}
use opperating_system_practi.Shell.{Shell, Reply, silent, with_fs}
use opperating_system_practi.Shell.Words.{join}
use opperating_system_practi.Shell.Numbers.{atoi, parse_permissions}
use opperating_system_practi.Shell.FileCommands.{
  cmd_create, cmd_open, cmd_write, cmd_shrink, cmd_close, cmd_rm, cmd_format, open_with,
  open_unless, open_flags, opened, has_flag, required_perm, write_permitted, write_at, permitted,
  shrink_open, shrink_to, close_current, is_current, confirm_size,
}
use opperating_system_practi.Shell.Frame.{
  SameOpen, fs_create-SameBoth, fs_write-SameBoth, fs_shrink-SameBoth, fs_format-SameBoth,
}
use opperating_system_practi.Shell.Frame.Descriptors.{
  OnlyOpen, same_open, fs_open-OnlyOpen, fs_close_file-OnlyOpen, fs_delete-OnlyOpen,
}
use opperating_system_practi.Shell.Each.{}

-- The descriptor table has its full length, and only `current_fd` may be open.
abbrev pub IsWired : Shell → Type 0
IsWired sh = OnlyOpen sh.current_fd sh.fs.open_files

abbrev pub WiredReply : Shell × Reply → Type 0
WiredReply r = IsWired r.0

pub kept : (sh : Shell) (t : Fs) → SameOpen sh.fs t → IsWired sh → WiredReply (with_fs sh t)
kept sh t e h = same_open sh.current_fd sh.fs t e h

pub cmd_create-IsWired :
    (args : List CString) (c m : ℕ) (sh : Shell) → IsWired sh → WiredReply (cmd_create args c m sh)
unfolding cmd_create
cmd_create-IsWired [] c m sh h = h
cmd_create-IsWired (name ∷ []) c m sh h =
    kept sh (fs_create name 0o644 c m sh.fs).0 (fs_create-SameBoth name 0o644 c m sh.fs).0 h
cmd_create-IsWired (name ∷ p ∷ rest) c m sh h =
    kept sh (fs_create name (parse_permissions p) c m sh.fs).0
      (fs_create-SameBoth name (parse_permissions p) c m sh.fs).0 h

opened-IsWired :
    (name : CString) (sh : Shell) (r : Fs × Option ℕ)
    → OnlyOpen r.1 r.0.open_files
    → IsWired (opened name sh r)
opened-IsWired name sh (s, none) h = h
opened-IsWired name sh (s, some fd) h = h

open_unless-IsWired :
    (o : Option ℕ) (name : CString) (flags c m : ℕ) (sh : Shell)
    → sh.current_fd ≡ o
    → IsWired sh
    → WiredReply (open_unless o name flags c m sh)
unfolding open_with
open_unless-IsWired (some fd) name flags c m sh e h = h
open_unless-IsWired none name flags c m sh e h =
    if-both WiredReply
      (not (has_flag flags o_creat) && not (fs_check_permission name (required_perm flags) sh.fs))
      (sh, silent) (opened name sh (fs_open name flags c m sh.fs), silent) h
      (opened-IsWired name sh (fs_open name flags c m sh.fs)
        (fs_open-OnlyOpen name flags c m sh.fs (rw e at h)))

pub cmd_open-IsWired :
    (args : List CString) (c m : ℕ) (sh : Shell) → IsWired sh → WiredReply (cmd_open args c m sh)
unfolding cmd_open
cmd_open-IsWired [] c m sh h = h
cmd_open-IsWired (name ∷ rest) c m sh h =
    open_unless-IsWired sh.current_fd name (open_flags rest) c m sh refl h

write_permitted-IsWired :
    (o : Option ℕ) (args : List CString) (now : ℕ) (sh : Shell)
    → IsWired sh
    → WiredReply (write_permitted o args now sh)
write_permitted-IsWired none args now sh h = h
write_permitted-IsWired (some fd) [] now sh h = h
write_permitted-IsWired (some fd) (p ∷ []) now sh h = h
write_permitted-IsWired (some fd) (p ∷ w ∷ ws) now sh h = at_position (atoi p)
  where
    at_position : (o : Option ℕ) → WiredReply (write_at fd o (join (w ∷ ws)) now sh)
    at_position none = h
    at_position (some n) =
        kept sh (fs_write (pos fd) n (join (w ∷ ws)) now sh.fs).0
          (fs_write-SameBoth (pos fd) n (join (w ∷ ws)) now sh.fs).0 h

pub cmd_write-IsWired :
    (args : List CString) (now : ℕ) (sh : Shell) → IsWired sh → WiredReply (cmd_write args now sh)
unfolding cmd_write
cmd_write-IsWired args now sh h =
    write_permitted-IsWired (permitted sh.current_fd perm_write sh) args now sh h

shrink_to-IsWired :
    (fd : ℕ) (o : Option ℕ) (now : ℕ) (sh : Shell) → IsWired sh → WiredReply (shrink_to fd o now sh)
shrink_to-IsWired fd none now sh h = h
shrink_to-IsWired fd (some n) now sh h =
    kept sh (fs_shrink (pos fd) n now sh.fs).0 (fs_shrink-SameBoth (pos fd) n now sh.fs).0 h

shrink_open-IsWired :
    (o : Option ℕ) (args : List CString) (now : ℕ) (sh : Shell)
    → IsWired sh
    → WiredReply (shrink_open o args now sh)
shrink_open-IsWired none args now sh h = h
shrink_open-IsWired (some fd) [] now sh h = h
shrink_open-IsWired (some fd) (p ∷ rest) now sh h = shrink_to-IsWired fd (atoi p) now sh h

pub cmd_shrink-IsWired :
    (args : List CString) (now : ℕ) (sh : Shell) → IsWired sh → WiredReply (cmd_shrink args now sh)
unfolding cmd_shrink
cmd_shrink-IsWired args now sh h = shrink_open-IsWired sh.current_fd args now sh h

-- Closing leaves no descriptor open.
pub close_current-IsWired :
    (o : Option ℕ) (sh : Shell)
    → sh.current_fd ≡ o
    → IsWired sh
    → OnlyOpen none (close_current o sh).fs.open_files
close_current-IsWired none sh e h = rw e at h
close_current-IsWired (some fd) sh e h = fs_close_file-OnlyOpen fd sh.fs (rw e at h)

pub closed_fd :
    (o : Option ℕ) (sh : Shell) → sh.current_fd ≡ o → (close_current o sh).current_fd ≡ none
closed_fd none sh e = e
closed_fd (some fd) sh e = refl

pub all_closed : (sh : Shell) → IsWired sh → IsWired (close_current sh.current_fd sh)
all_closed sh h =
    rw (closed_fd sh.current_fd sh refl) (close_current-IsWired sh.current_fd sh refl h)

pub cmd_close-IsWired : (sh : Shell) → IsWired sh → WiredReply (cmd_close sh)
unfolding cmd_close
cmd_close-IsWired sh h = all_closed sh h

pub cmd_rm-IsWired : (args : List CString) (sh : Shell) → IsWired sh → WiredReply (cmd_rm args sh)
unfolding cmd_rm
cmd_rm-IsWired [] sh h = h
cmd_rm-IsWired (name ∷ rest) sh h = if-both WiredReply (is_current sh.current_fd name sh) _ _ h (
    if-both WiredReply (not (fs_check_permission name perm_write sh.fs)) _ _ h
      (fs_delete-OnlyOpen sh.current_fd name sh.fs h))

pub cmd_format-IsWired :
    (confirm : CString) (sh : Shell) → IsWired sh → WiredReply (cmd_format confirm sh)
unfolding cmd_format
cmd_format-IsWired confirm sh h =
    let closed : Shell = close_current sh.current_fd sh in
    if-both WiredReply (leb confirm_size (length confirm)) _ _ h (
      if-both WiredReply (str_eq confirm (bytes "yes")) _ _
        (kept closed (fs_format closed.fs) (fs_format-SameBoth closed.fs).0 (all_closed sh h)) h)
