-- ===== src/Shell/Careful/Session.antt =====
-- The commands on accounts and permissions, and sessions of careful commands.
use opperating_system_practi.Base.{◌≡◌, some, List, [], ◌∷◌, CString}
use opperating_system_practi.Shell.{Shell, Reply}
use opperating_system_practi.Shell.Words.{parse_command}
use opperating_system_practi.Shell.Loop.{Turn, run_turn}
use opperating_system_practi.Shell.Careful.{IsCareful}

-- The line of a round is careful in the state in which it is read.
abbrev pub CarefulLine : CString → Shell → Type 0
CarefulLine line sh =
    (cmd : CString) (args : List CString)
    → parse_command line ≡ some (cmd, args)
    → IsCareful cmd args sh

-- Every line of a session is careful in the state in which it is read.
unfoldable pub CarefulLines : List Turn → Shell → Type 0
CarefulLines [] sh = Unit
CarefulLines (turn ∷ turns) sh =
    CarefulLine turn.line sh
    × ((next : Shell) (reply : Reply)
        → run_turn turn sh ≡ some (next, reply)
        → CarefulLines turns next)
