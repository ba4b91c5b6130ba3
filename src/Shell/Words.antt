-- ===== src/Shell/Words.antt =====
-- `parse_command` of File-System/cli.c: a line is cut into its words by `strtok` at spaces.
pub mod Join
use opperating_system_practi.Base.{
  ℕ, zero, suc, Bool, Option, none, some, List, [], ◌∷◌, ◌==◌, if◌then◌else◌, take, CString, ◌++◌,
}

abbrev pub max_args : ℕ
max_args = 10

-- `input[strcspn(input, "\n")] = 0`
unfoldable pub cut_newline : CString → CString
cut_newline [] = []
cut_newline (c ∷ s) = let rest = cut_newline s in if c == b'\n' then [] else c ∷ rest

-- `strtok` skips empty words.
abbrev pub keep_word : CString → List CString → List CString
keep_word [] ws = ws
keep_word (c ∷ w) ws = (c ∷ w) ∷ ws

abbrev pub split_at : ℕ → CString × List CString → CString × List CString
split_at c (w, ws) = if c == b' ' then ([], keep_word w ws) else (c ∷ w, ws)

-- The bytes up to the first space, and the words behind it.
unfoldable pub split : CString → CString × List CString
split [] = ([], [])
split (c ∷ s) = split_at c (split s)

-- What the calls of `strtok(_, " ")` return one after another.
unfoldable pub words : CString → List CString
unfolding split
words s = keep_word (split s).0 (split s).1

abbrev pub first_word : List CString → Option (CString × List CString)
first_word [] = none
first_word (cmd ∷ args) = some (cmd, take max_args args)

-- The command and its arguments, `none` for -1.
unfoldable pub parse_command : CString → Option (CString × List CString)
unfolding words cut_newline
parse_command input = first_word (words (cut_newline input))

-- `args[i]` joined by spaces, as `cmd_write` does
unfoldable pub join : List CString → CString
join [] = []
join (w ∷ []) = w
join (w ∷ v ∷ ws) = w ++ (b' ' ∷ join (v ∷ ws))
