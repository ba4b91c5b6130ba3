-- ===== src/Base/Text.antt =====
-- C strings: the bytes before the terminator.
use Prim.Native.Nat.{ℕ}
use Prim.Native.Char.{code}
use Prim.Native.String.{String}
use mathlib.Core.Path.{◌≡◌, refl}
use mathlib.Core.Bool.{Bool, true, false, ◌&&◌}
use mathlib.Core.List.{List, [], ◌∷◌}
use native.Mathlib.Omega.{arith}
use opperating_system_practi.Base.Tests.{◌==◌}

abbrev pub CString : Type 0
CString = List ℕ

-- `strcmp(a, b) == 0`
unfoldable pub str_eq : CString → CString → Bool
str_eq [] [] = true
str_eq [] (c ∷ b) = false
str_eq (c ∷ a) [] = false
str_eq (c ∷ a) (d ∷ b) = c == d && str_eq a b

pub str_eq_sound : (a b : CString) → str_eq a b ≡ true → a ≡ b
unfolding str_eq
str_eq_sound [] [] h = refl
str_eq_sound [] (c ∷ b) h = cc
str_eq_sound (c ∷ a) [] h = cc
str_eq_sound (c ∷ a) (d ∷ b) h = ground (arith, str_eq_sound a b)

pub str_eq_refl : (a : CString) → str_eq a a ≡ true
unfolding str_eq
str_eq_refl [] = refl
str_eq_refl (c ∷ a) = ground (arith, str_eq_refl a)

-- A string literal, as its bytes.
abbrev pub bytes : String → CString
bytes String.[] = []
bytes (String.◌∷◌ c s) = code c ∷ bytes s
