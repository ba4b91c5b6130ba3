-- ===== src/Shell.antt =====
-- The command line of File-System/cli.c: the state that `run_shell` keeps between commands, and what
-- a command shows.
pub mod Words
pub mod Numbers
pub mod FileCommands
pub mod AccountCommands
pub mod Loop
pub mod Frame
pub mod Each
pub mod Descriptors
pub mod Consistency
pub mod Session
pub mod Careful
pub mod Tables
pub mod Guards
pub mod Rights
use opperating_system_practi.Base.{ℕ, Bool, true, false, Option, none, some, [], List, CString}
use opperating_system_practi.Base.Int.{ℤ}
use opperating_system_practi.Types.{Fs}
use opperating_system_practi.Access.{Acl}

-- `current_fd` is `none` where the source has -1.
pub record Shell : Type 0 where
  pub fs : Fs
  pub current_fd : Option ℕ
  pub current_filename : CString

-- The data that a command prints; `silent` for one that prints messages only. `outside` marks a line
-- that the model does not follow: a number that is negative or does not fit an `int`, a command word
-- that overflows `cmd`, or an answer that overflows `confirm`. The session is not followed from there.
pub data Reply : Type 0 where
  silent : Reply
  outside : Reply
  content : List ℕ → Reply
  size_of : Option ℕ → Reply
  file_list : List (CString × Bool) → Reply
  stats : ℕ × ℕ × ℕ × ℕ → Reply
  free_blocks_total : ℕ → Reply
  user_list : List (ℕ × CString × ℕ) → Reply
  group_list : List (ℕ × CString) → Reply
  whoami : Option CString → ℕ → Reply
  acl : Option Acl → Reply

abbrev pub is_inside : Reply → Bool
is_inside outside = false
is_inside other = true

-- the result of an operation whose returned value the command only turns into a message
abbrev pub with_fs : Shell → Fs → Shell × Reply
with_fs sh s = (record sh { fs = s }, silent)
