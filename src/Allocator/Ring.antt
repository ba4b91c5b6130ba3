-- ===== src/Allocator/Ring.antt =====
-- The circular list of free blocks of xv6-riscv/user/umalloc.c: in ascending order from `base` on, and
-- back to it; and the loop of `free` on it.
use opperating_system_practi.Base.{
  ℕ, zero, suc, ◌+◌, ◌^◌, ◌≤◌, ◌<◌, true, false, ◌||◌, ◌≡◌, ◌≢◌, sym, ◌∙◌, ap, inl, inr, ◌⊎◌, some,
  List, [], ◌∷◌, arith, ltb, if◌then◌else◌, length, Bool-cases,
}
use mathlib.Core.Path.{subst}
use opperating_system_practi.Allocator.{Memory, ptr_of, size_of, is_between, is_outside, find_place}

-- `xs` follow `p` in the list, and `q` follows them; each block lies behind the one before it.
unfoldable pub Chain : Memory → ℕ → List ℕ → ℕ → Type 0
Chain m p [] q = ptr_of m p ≡ q
Chain m p (x ∷ xs) q = (ptr_of m p ≡ x) × (p < x) × (p + size_of m p ≤ x) × Chain m x xs q

-- The block at `bp` is none of these, and shares no unit with them.
unfoldable pub Apart : Memory → ℕ → List ℕ → Type 0
Apart m bp [] = bp + size_of m bp < 2 ^ 32
Apart m bp (x ∷ xs) =
    (x ≢ bp)
    × (x < bp → x + size_of m x ≤ bp)
    × (bp < x → bp + size_of m bp ≤ x)
    × (x + size_of m x < 2 ^ 32)
    × Apart m bp xs

-- The last of the blocks `p`, `xs` that lies in front of `bp`, where `p` does.
unfoldable pub place : ℕ → List ℕ → ℕ → ℕ
place p [] bp = p
place p (x ∷ xs) bp = let rest = place x xs bp in if ltb x bp then rest else p

module _ (m : Memory) (bp p : ℕ) (fuel : ℕ) where
  ends : (is_between m bp p || is_outside m bp p) ≡ true → find_place (suc fuel) m bp p ≡ some p
  unfolding find_place
  ends e = rw e

  goes_on :
      (is_between m bp p || is_outside m bp p) ≡ false
      → find_place (suc fuel) m bp p ≡ find_place fuel m bp (ptr_of m p)
  unfolding find_place
  goes_on e = rw e

-- From a block in front of `bp`, the loop climbs to its place.
climb :
    (m : Memory) (bp q p : ℕ) (xs : List ℕ) (fuel : ℕ)
    → Chain m p xs q
    → Apart m bp xs
    → q ≤ p
    → p < bp
    → length xs < fuel
    → find_place fuel m bp p ≡ some (place p xs bp)
unfolding Chain Apart place
climb m bp q p xs zero c a h l n = ground arith
climb m bp q p [] (suc fuel) c a h l n = ends m bp p fuel (ground arith)
climb m bp q p (x ∷ xs) (suc fuel) (e, lt, d, c) (ne, _, _, _, a) h l n =
    elim (Bool-cases (ltb x bp)) [
      | inl t ↦
          goes_on m bp p fuel (ground arith)
          ∙ ap (find_place fuel m bp) e
          ∙ climb m bp q x xs fuel c a (omega arith) (ground arith) (omega arith)
          ∙ (rw t)
      | inr f ↦ ends m bp p fuel (ground arith) ∙ (rw f)
    ]

-- From a block behind `bp`, the loop comes round to the first block.
wrap :
    (m : Memory) (bp q p : ℕ) (xs : List ℕ) (fuel : ℕ)
    → Chain m p xs q
    → q < bp
    → bp < p
    → length xs < fuel
    → (left : ℕ) × (fuel ≡ suc (length xs) + left)
      × (find_place fuel m bp p ≡ find_place left m bp q)
unfolding Chain
wrap m bp q p xs zero c h l n = ground arith
wrap m bp q p [] (suc fuel) c h l n =
    (fuel, omega arith, goes_on m bp p fuel (ground arith) ∙ ap (find_place fuel m bp) c)
wrap m bp q p (x ∷ xs) (suc fuel) (e, lt, d, c) h l n =
    let (left, f, g) = wrap m bp q x xs fuel c h (omega arith) (omega arith) in
    (left, omega arith, goes_on m bp p fuel (ground arith) ∙ ap (find_place fuel m bp) e ∙ g)

-- `f` is one of the blocks.
unfoldable pub OneOf : ℕ → ℕ → List ℕ → Type 0
OneOf f p [] = f ≡ p
OneOf f p (x ∷ xs) = (f ≡ p) ⊎ OneOf f x xs

-- The rest of the list behind one of its blocks.
rest_of :
    (m : Memory) (bp q f p : ℕ) (xs : List ℕ)
    → Chain m p xs q
    → Apart m bp xs
    → OneOf f p xs
    → (zs : List ℕ) × Chain m f zs q
      × Apart m bp zs
      × (p ≤ f)
      × (length zs ≤ length xs)
      × ((f ≡ p) ⊎ (f ≢ bp))
      × (f < bp → place f zs bp ≡ place p xs bp)
unfolding Chain Apart OneOf place
rest_of m bp q f p [] c a o =
    ([], subst (λ v. Chain m v [] q) (sym o) c, a, omega arith, omega arith, inl o, λ _. o)
rest_of m bp q f p (x ∷ xs) c a (inl o) = (
  x ∷ xs,
  subst (λ v. Chain m v (x ∷ xs) q) (sym o) c,
  a,
  omega arith,
  omega arith,
  inl o,
  λ _. rw o,
)
rest_of m bp q f p (x ∷ xs) (e, lt, d, c) (ne, below, above, fits, a) (inr o) =
    let (zs, c', a', ge, le, at, same) = rest_of m bp q f x xs c a o in
    (
      zs,
      c',
      a',
      omega arith,
      omega arith,
      inr (elim at [ inl g ↦ λ s. ne (sym g ∙ s) | inr g ↦ g ]),
      λ h. let t : ltb x bp ≡ true = ground arith in same h ∙ (rw t),
    )

-- The loop of `free` ends, wherever `freep` is: it finds the last block in front of the one that is
-- freed, after at most two rounds.
pub find_place-place :
    (m : Memory) (base bp : ℕ) (xs : List ℕ) (fuel : ℕ)
    → Chain m base xs base
    → Apart m bp xs
    → OneOf m.freep base xs
    → base < bp
    → length xs + length xs + 2 ≤ fuel
    → find_place fuel m bp m.freep ≡ some (place base xs bp)
find_place-place m base bp xs fuel c a o h n =
    let (zs, c', a', ge, le, at, same) = rest_of m bp base m.freep base xs c a o in
    elim (Bool-cases (ltb m.freep bp)) [
      | inl t ↦
          climb m bp base m.freep zs fuel c' a' ge (ground arith) (omega arith)
          ∙ ap some (same (ground arith))
      | inr f ↦
          (let behind : bp < m.freep = ground arith in
            let (left, e, g) = wrap m bp base m.freep zs fuel c' h behind (omega arith) in
            g ∙ climb m bp base base xs left c a (omega arith) h (omega arith))
    ]

pub OneOf-ge : (m : Memory) (f q p : ℕ) (xs : List ℕ) → Chain m p xs q → OneOf f p xs → p ≤ f
unfolding Chain OneOf
OneOf-ge m f q p [] c o = omega arith
OneOf-ge m f q p (x ∷ xs) c (inl o) = omega arith
OneOf-ge m f q p (x ∷ xs) (e, lt, gap, c) (inr o) =
    let le : x ≤ f = OneOf-ge m f q x xs c o in omega arith
