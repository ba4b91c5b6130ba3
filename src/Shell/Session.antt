-- ===== src/Shell/Session.antt =====
-- Whole sessions of the command line: the descriptor discipline over every sequence of lines.
use opperating_system_practi.Base.{
  and_both, if-both, replicate, Bool-cases, ◌==◌, ◌&&◌, Bool, ℕ, true, not, ◌||◌, ◌≡◌, refl, ◌∙◌,
  inl, inr, Option, none, some, List, [], ◌∷◌, length, get_or, leb, Option-cases, str_eq, bytes,
  CString,
}
use opperating_system_practi.Types.{Fs}
use opperating_system_practi.Accounts.{
  fs_useradd, fs_userdel, fs_groupadd, fs_groupdel, fs_usermod_add_group, fs_switch_user,
}
use opperating_system_practi.Access.{fs_chmod, fs_chgrp}
use opperating_system_practi.Boot.{
  Host, unwritable, absent, present, fs_init, load_metadata, close_all, at_start,
}
use opperating_system_practi.Invariant.Start.{get_or-replicate}
use mathlib.Core.Option.{some-injective}
use opperating_system_practi.Types.{magic_number, max_files}
use opperating_system_practi.Shell.{Shell, Reply, is_inside}
use opperating_system_practi.Shell.Words.{parse_command}
use opperating_system_practi.Shell.Numbers.{strtol_octal}
use opperating_system_practi.Shell.AccountCommands.{
  cmd_useradd, cmd_userdel, cmd_groupadd, cmd_groupdel, cmd_usermod, cmd_su, cmd_chmod, cmd_chown,
  cmd_chgrp, chown_parts, chown_unless_empty, chgrp_unless_empty, split_colon,
}
use opperating_system_practi.Shell.Loop.{
  Turn, run_turn, run_parsed, run_shell, started, at_exit, cmd_size_limit,
}
use opperating_system_practi.Shell.Frame.{SameOpen}
use opperating_system_practi.Shell.Frame.Accounts.{
  fs_useradd-SameStore, fs_userdel-SameStore, fs_groupadd-SameStore, fs_groupdel-SameStore,
  usermod-SameStore, fs_switch_user-SameStore, fs_chmod-SameBoth, fs_chown-SameBoth,
  fs_chgrp-SameBoth,
}
use opperating_system_practi.Shell.Frame.Descriptors.{OnlyOpen}
use opperating_system_practi.Shell.Each.{EachCommand, run_command-each}
use opperating_system_practi.Shell.Descriptors.{
  IsWired, WiredReply, kept, cmd_create-IsWired, cmd_open-IsWired, cmd_write-IsWired,
  cmd_shrink-IsWired, cmd_close-IsWired, cmd_rm-IsWired, cmd_format-IsWired, close_current-IsWired,
}

chown_user-SameOpen : (file user : CString) (s : Fs) → SameOpen s (chown_unless_empty file user s)
chown_user-SameOpen file [] s = refl
chown_user-SameOpen file (c ∷ user) s = (fs_chown-SameBoth file (c ∷ user) s).0

chgrp_group-SameOpen :
    (file group : CString) (s : Fs) → SameOpen s (chgrp_unless_empty file group s)
chgrp_group-SameOpen file [] s = refl
chgrp_group-SameOpen file (c ∷ group) s = (fs_chgrp-SameBoth file (c ∷ group) s).0

chown_parts-SameOpen :
    (file : CString) (p : CString × Option CString) (s : Fs) → SameOpen s (chown_parts file p s)
chown_parts-SameOpen file (user, none) s = (fs_chown-SameBoth file user s).0
chown_parts-SameOpen file (user, some group) s =
    chgrp_group-SameOpen file group (chown_unless_empty file user s)
    ∙ chown_user-SameOpen file user s

-- the commands on accounts and permissions
module _ (sh : Shell) (h : IsWired sh) where
  useradd-IsWired : (args : List CString) → WiredReply (cmd_useradd args sh)
  unfolding cmd_useradd
  useradd-IsWired [] = h
  useradd-IsWired (name ∷ rest) =
      kept sh (fs_useradd name sh.fs).0 (fs_useradd-SameStore name sh.fs).0 h

  userdel-IsWired : (args : List CString) → WiredReply (cmd_userdel args sh)
  unfolding cmd_userdel
  userdel-IsWired [] = h
  userdel-IsWired (name ∷ rest) =
      kept sh (fs_userdel name sh.fs).0 (fs_userdel-SameStore name sh.fs).0 h

  groupadd-IsWired : (args : List CString) → WiredReply (cmd_groupadd args sh)
  unfolding cmd_groupadd
  groupadd-IsWired [] = h
  groupadd-IsWired (name ∷ rest) =
      kept sh (fs_groupadd name sh.fs).0 (fs_groupadd-SameStore name sh.fs).0 h

  groupdel-IsWired : (args : List CString) → WiredReply (cmd_groupdel args sh)
  unfolding cmd_groupdel
  groupdel-IsWired [] = h
  groupdel-IsWired (name ∷ rest) =
      kept sh (fs_groupdel name sh.fs).0 (fs_groupdel-SameStore name sh.fs).0 h

  usermod-IsWired : (args : List CString) → WiredReply (cmd_usermod args sh)
  unfolding cmd_usermod
  usermod-IsWired [] = h
  usermod-IsWired (o ∷ []) = h
  usermod-IsWired (o ∷ u ∷ []) = h
  usermod-IsWired (o ∷ u ∷ g ∷ rest) =
      if-both WiredReply (not (str_eq o (bytes "-aG"))) _ _ h
        (kept sh (fs_usermod_add_group u g sh.fs).0 (usermod-SameStore u g sh.fs).0 h)

  su-IsWired : (args : List CString) → WiredReply (cmd_su args sh)
  unfolding cmd_su
  su-IsWired [] = h
  su-IsWired (name ∷ rest) =
      kept sh (fs_switch_user name sh.fs) (fs_switch_user-SameStore name sh.fs).0 h

  chmod-IsWired : (args : List CString) → WiredReply (cmd_chmod args sh)
  unfolding cmd_chmod
  chmod-IsWired [] = h
  chmod-IsWired (m ∷ []) = h
  chmod-IsWired (m ∷ f ∷ rest) =
      kept sh (fs_chmod f (strtol_octal m) sh.fs).0 (fs_chmod-SameBoth f (strtol_octal m) sh.fs).0 h

  chown-IsWired : (args : List CString) → WiredReply (cmd_chown args sh)
  unfolding cmd_chown
  chown-IsWired [] = h
  chown-IsWired (o ∷ []) = h
  chown-IsWired (o ∷ f ∷ rest) =
      kept sh (chown_parts f (split_colon o) sh.fs) (chown_parts-SameOpen f (split_colon o) sh.fs) h

  chgrp-IsWired : (args : List CString) → WiredReply (cmd_chgrp args sh)
  unfolding cmd_chgrp
  chgrp-IsWired [] = h
  chgrp-IsWired (g ∷ []) = h
  chgrp-IsWired (g ∷ f ∷ rest) = kept sh (fs_chgrp f g sh.fs).0 (fs_chgrp-SameBoth f g sh.fs).0 h

  each_wired :
      (cmd : CString) (args : List CString) (turn : Turn) → EachCommand WiredReply cmd args turn sh
  each_wired cmd args turn = record {
    on_show = λ reply. h;
    on_create = cmd_create-IsWired args turn.created turn.modified sh h;
    on_open = cmd_open-IsWired args turn.created turn.modified sh h;
    on_write = λ e. cmd_write-IsWired args turn.modified sh h;
    on_shrink = cmd_shrink-IsWired args turn.modified sh h;
    on_close = cmd_close-IsWired sh h;
    on_rm = λ e. cmd_rm-IsWired args sh h;
    on_format = cmd_format-IsWired turn.confirm sh h;
    on_useradd = useradd-IsWired args;
    on_userdel = userdel-IsWired args;
    on_groupadd = groupadd-IsWired args;
    on_groupdel = groupdel-IsWired args;
    on_usermod = usermod-IsWired args;
    on_su = su-IsWired args;
    on_chmod = chmod-IsWired args;
    on_chown = chown-IsWired args;
    on_chgrp = chgrp-IsWired args;
  }

-- What holds of the state that a round leaves, if it does not end the loop.
abbrev pub IfSome : (Shell × Reply → Type 0) → Option (Shell × Reply) → Type 0
IfSome P none = Unit
IfSome P (some r) = P r

run_parsed-IsWired :
    (p : Option (CString × List CString)) (turn : Turn) (sh : Shell)
    → IsWired sh
    → IfSome WiredReply (run_parsed p turn sh)
run_parsed-IsWired none turn sh h = h
run_parsed-IsWired (some (cmd, args)) turn sh h =
    if-both (IfSome WiredReply) (leb cmd_size_limit (length cmd)) _ _ h (
      if-both (IfSome WiredReply) (str_eq cmd (bytes "exit") || str_eq cmd (bytes "quit")) _ _ tt
        (run_command-each WiredReply cmd args turn sh (each_wired sh h cmd args turn)))

pub run_turn-IsWired :
    (turn : Turn) (sh : Shell) → IsWired sh → IfSome WiredReply (run_turn turn sh)
unfolding run_turn
run_turn-IsWired turn sh h = run_parsed-IsWired (parse_command turn.line) turn sh h

-- No line of the session is outside the model, each in the state in which it is read.
unfoldable pub all_inside : List Turn → Shell → Bool
all_inside [] sh = true
all_inside (turn ∷ turns) sh = elim (run_turn turn sh) [
  | none ↦ true
  | some (next, reply) ↦ is_inside reply && all_inside turns next
]

-- The session ends, in a state with this property.
abbrev pub EndsIn : (Shell → Type 0) → Option (Shell × List Reply) → Type 0
EndsIn P result = (end : Shell) × (replies : List Reply) × (result ≡ some (end, replies)) × P end

module _ (P : Shell → Type 0) (turn : Turn) (turns : List Turn) (sh : Shell) where
  run_shell-ended : run_turn turn sh ≡ none → P sh → EndsIn P (run_shell (turn ∷ turns) sh)
  unfolding run_shell
  run_shell-ended e p = (sh, [], rw (run_shell, e) refl, p)

  run_shell-went :
      (next : Shell) (reply : Reply)
      → run_turn turn sh ≡ some (next, reply)
      → is_inside reply ≡ true
      → EndsIn P (run_shell turns next)
      → EndsIn P (run_shell (turn ∷ turns) sh)
  unfolding run_shell
  run_shell-went next reply e i (end, replies, r, p) =
      (end, reply ∷ replies, rw (run_shell, e, i, r) refl, p)

  -- A round keeps the property, if it does in the session without its first line.
  pub run_shell-each :
      P sh
      → all_inside (turn ∷ turns) sh ≡ true
      → ((next : Shell) (reply : Reply)
          → run_turn turn sh ≡ some (next, reply)
          → all_inside turns next ≡ true
          → EndsIn P (run_shell turns next))
      → EndsIn P (run_shell (turn ∷ turns) sh)
  unfolding all_inside
  run_shell-each p inside rest = elim (Option-cases (run_turn turn sh)) [
    | inl ended ↦ run_shell-ended ended p
    | inr ((next, reply), e) ↦
        (let both : (is_inside reply && all_inside turns next) ≡ true =
            rw (all_inside, e) at inside in
          let (i, later) = and_both (is_inside reply) (all_inside turns next) both in
          run_shell-went next reply e i (rest next reply e later))
  ]

-- If only the current descriptor may be open when the command line starts on some lines, and no line
-- is outside the model, the session ends, and the same holds then.
pub run_shell-IsWired :
    (turns : List Turn) (sh : Shell)
    → IsWired sh
    → all_inside turns sh ≡ true
    → EndsIn IsWired (run_shell turns sh)
run_shell-IsWired [] sh h inside = unfold run_shell in (sh, [], refl, h)
run_shell-IsWired (turn ∷ turns) sh h inside =
    run_shell-each IsWired turn turns sh h inside (λ next reply e later.
      let k = run_turn-IsWired turn sh h in run_shell-IsWired turns next (rw e at k) later)

closed_lem :
    (opens : List (Option ℕ)) → OnlyOpen none opens → (fd : ℕ) → get_or opens fd none ≡ none
closed_lem opens h fd = elim (Option-cases (get_or opens fd none)) [
  | inl closed ↦ closed
  | inr (i, found) ↦ absurd (never fd (h.only fd i found))
]
  where
    never : (k : ℕ) → ◌≡◌ {A = Option ℕ} none (some k) → ⊥
    never k p = cc

none_open : OnlyOpen none (replicate max_files none)
none_open = record {
  slots = refl;
  only = λ fd i. rw (get_or-replicate {A = Option ℕ} max_files fd none) (λ p. cc);
}

init_found :
    (t s : Fs)
    → ◌≡◌ {A = Option Fs} (some t) (some s)
    → OnlyOpen none t.open_files
    → OnlyOpen none s.open_files
init_found t s h k = let e : t ≡ s = some-injective t s h in rw e at k

fs_init-OnlyOpen : (host : Host) (s : Fs) → fs_init host ≡ some s → OnlyOpen none s.open_files
unfolding fs_init
fs_init-OnlyOpen unwritable s h = cc
fs_init-OnlyOpen absent s h = init_found _ s h none_open
fs_init-OnlyOpen (present d) s h =
    elim (Bool-cases ((load_metadata (at_start d)).super_block.magic == magic_number)) [
      | inl right ↦ init_found (close_all (load_metadata (at_start d))) s (rw right at h) none_open
      | inr wrong ↦ refused (rw wrong at h)
    ]
  where
    refused : ◌≡◌ {A = Option Fs} none (some s) → OnlyOpen none s.open_files
    refused p = cc

-- From a successful `fs_init` on, where no line is outside the model, the session ends, and closing the
-- current file at its end leaves no descriptor open.
pub run_shell-closed :
    (host : Host) (turns : List Turn) (s : Fs) (fd : ℕ)
    → fs_init host ≡ some s
    → all_inside turns (started s) ≡ true
    → EndsIn (λ end. get_or (at_exit end).open_files fd none ≡ none) (run_shell turns (started s))
run_shell-closed host turns s fd e inside =
    let (end, replies, r, wired) =
      run_shell-IsWired turns (started s) (fs_init-OnlyOpen host s e) inside in
    (
      end,
      replies,
      r,
      closed_lem (at_exit end).open_files (close_current-IsWired end.current_fd end refl wired) fd,
    )
