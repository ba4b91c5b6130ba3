-- ===== src/Shell/Words/Join.antt =====
-- `parse_command` on a line that is made of words.
use opperating_system_practi.Base.{
  ◌≤◌, Bool, true, false, not, ◌&&◌, ◌≡◌, refl, ap, some, List, [], ◌∷◌, ◌++◌, ◌==◌, take_all,
  length, arith, CString,
}
use opperating_system_practi.Shell.Words.{
  parse_command, cut_newline, split, words, keep_word, join, max_args,
}

-- neither a space nor a newline
unfoldable pub is_plain : CString → Bool
is_plain [] = true
is_plain (c ∷ s) = not (c == b' ') && not (c == b'\n') && is_plain s

abbrev pub is_word : CString → Bool
is_word [] = false
is_word (c ∷ s) = is_plain (c ∷ s)

unfoldable pub all_words : List CString → Bool
all_words [] = true
all_words (w ∷ ws) = is_word w && all_words ws

split-plain : (w : CString) → is_plain w ≡ true → split w ≡ (w, [])
unfolding split is_plain
split-plain [] h = refl
split-plain (c ∷ w) h =
    let e : (c == b' ') ≡ false = ground arith in rw (split-plain w (ground arith), e)

split-space : (w s : CString) → is_plain w ≡ true → split (w ++ (b' ' ∷ s)) ≡ (w, words s)
unfolding split is_plain words
split-space [] s h = refl
split-space (c ∷ w) s h =
    let e : (c == b' ') ≡ false = ground arith in rw (split-space w s (ground arith), e)

word-plain : (w : CString) → is_word w ≡ true → is_plain w ≡ true
word-plain [] h = cc
word-plain (c ∷ w) h = h

keep-word : (w : CString) (ws : List CString) → is_word w ≡ true → keep_word w ws ≡ w ∷ ws
keep-word [] ws h = cc
keep-word (c ∷ w) ws h = refl

words-join : (ws : List CString) → all_words ws ≡ true → words (join ws) ≡ ws
unfolding words join all_words
words-join [] h = refl
words-join (w ∷ []) h =
    let p : is_word w ≡ true = ground arith in
    rw (split-plain w (word-plain w p)) (keep-word w [] p)
words-join (w ∷ v ∷ ws) h =
    let p : is_word w ≡ true = ground arith in
    let rest : words (join (v ∷ ws)) ≡ v ∷ ws = words-join (v ∷ ws) (ground arith) in
    rw (split-space w (join (v ∷ ws)) (word-plain w p)) (rw rest (keep-word w (v ∷ ws) p))

-- No newline stands in the joined words.
unfoldable no_newline : CString → Bool
no_newline [] = true
no_newline (c ∷ s) = not (c == b'\n') && no_newline s

no_newline-plain : (w : CString) → is_plain w ≡ true → no_newline w ≡ true
unfolding no_newline is_plain
no_newline-plain [] h = refl
no_newline-plain (c ∷ w) h = ground (arith, no_newline-plain w)

no_newline-space :
    (w s : CString) → is_plain w ≡ true → no_newline s ≡ true → no_newline (w ++ (b' ' ∷ s)) ≡ true
unfolding no_newline is_plain
no_newline-space [] s h k = ground (arith, k)
no_newline-space (c ∷ w) s h k = ground (arith, no_newline-space w s (ground arith) k)

no_newline-join : (ws : List CString) → all_words ws ≡ true → no_newline (join ws) ≡ true
unfolding join all_words no_newline
no_newline-join [] h = refl
no_newline-join (w ∷ []) h = no_newline-plain w (word-plain w (ground arith))
no_newline-join (w ∷ v ∷ ws) h =
    no_newline-space w (join (v ∷ ws)) (word-plain w (ground arith))
      (no_newline-join (v ∷ ws) (ground arith))

cut_newline-line : (s t : CString) → no_newline s ≡ true → cut_newline (s ++ (b'\n' ∷ t)) ≡ s
unfolding cut_newline no_newline
cut_newline-line [] t h = refl
cut_newline-line (c ∷ s) t h =
    let e : (c == b'\n') ≡ false = ground arith in rw (e, cut_newline-line s t (ground arith))

-- A line that joins a command and at most 10 arguments by single spaces, all of them words without
-- a space or a newline, and ends with a newline, is read as that command and these arguments.
pub parse_command-join :
    (cmd : CString) (args : List CString)
    → all_words (cmd ∷ args) ≡ true
    → length args ≤ max_args
    → parse_command (join (cmd ∷ args) ++ (b'\n' ∷ [])) ≡ some (cmd, args)
unfolding parse_command
parse_command-join cmd args h few =
    rw (cut_newline-line (join (cmd ∷ args)) [] (no_newline-join (cmd ∷ args) h))
      (rw (words-join (cmd ∷ args) h) (ap (λ t. some (cmd, t)) (take_all max_args args few)))
