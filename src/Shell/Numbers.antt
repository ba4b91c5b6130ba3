-- ===== src/Shell/Numbers.antt =====
-- Numbers and flags in the arguments: `atoi`, `strtol` with base 8, `parse_permissions` and
-- `parse_open_flags`.
use opperating_system_practi.Base.{
  ℕ, ◌+◌, ◌-◌, ◌*◌, ◌%◌, ◌^◌, Bool, true, false, ◌&&◌, ◌||◌, Option, none, some, [], ◌∷◌, ltb, leb,
  ◌==◌, if◌then◌else◌, length, str_eq, bytes, CString,
}
use opperating_system_practi.Files.{o_creat}

abbrev pub o_rdonly : ℕ
o_rdonly = 0

abbrev pub o_wronly : ℕ
o_wronly = 1

abbrev pub o_rdwr : ℕ
o_rdwr = 2

-- `isspace`
abbrev is_space : ℕ → Bool
is_space c = c == 32 || leb 9 c && leb c 13

unfoldable pub skip_space : CString → CString
skip_space [] = []
skip_space (c ∷ s) = let rest = skip_space s in if is_space c then rest else c ∷ s

-- The value of the digits in front, added behind `acc`.
unfoldable pub digits : ℕ → CString → ℕ → ℕ
digits base [] acc = acc
digits base (c ∷ s) acc = elim (leb b'0' c && ltb c (b'0' + base)) [
  | true ↦ digits base s (acc * base + (c - b'0'))
  | false ↦ acc
]

-- The sign, and the value without it.
unfoldable pub signed : ℕ → CString → Bool × ℕ
unfolding digits
signed base [] = (false, 0)
signed base (c ∷ s) = elim (c == b'-') [
  | true ↦ (true, digits base s 0)
  | false ↦ elim (c == b'+') [
    | true ↦ (false, digits base s 0)
    | false ↦ (false, digits base (c ∷ s) 0)
  ]
]

abbrev int_value : Bool × ℕ → Option ℕ
int_value (negative, v) =
    if negative && ltb 0 v then none else if ltb v (2 ^ 31) then some v else none

-- `none` where the value is negative or does not fit an `int`.
unfoldable pub atoi : CString → Option ℕ
unfolding signed skip_space
atoi s = int_value (signed 10 (skip_space s))

-- A `long` of 64 bits, cut to 32: `strtol` stops at the ends of `long`.
abbrev uint32_value : Bool × ℕ → ℕ
uint32_value (false, v) = if ltb v (2 ^ 63) then v % 2 ^ 32 else 2 ^ 32 - 1
uint32_value (true, v) = if leb v (2 ^ 63) then (2 ^ 32 - v % 2 ^ 32) % 2 ^ 32 else 0

-- `strtol(s, NULL, 8)` as an `unsigned int`
unfoldable pub strtol_octal : CString → ℕ
unfolding signed skip_space
strtol_octal s = uint32_value (signed 8 (skip_space s))

unfoldable pub parse_permissions : CString → ℕ
unfolding strtol_octal
parse_permissions perm_str = if length perm_str == 3 then strtol_octal perm_str else 0o644

unfoldable pub parse_open_flags : CString → ℕ
parse_open_flags flag_str =
    if str_eq flag_str (bytes "r")
    then o_rdonly
    else if str_eq flag_str (bytes "w")
    then o_wronly
    else if str_eq flag_str (bytes "rw")
    then o_rdwr
    else if str_eq flag_str (bytes "c")
    then o_creat + o_rdwr
    else o_rdonly
