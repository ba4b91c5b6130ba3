-- ===== src/Allocator/Taken/Units.antt =====
-- The units that `malloc` of xv6-riscv/user/umalloc.c takes from the free ones.
use mathlib.Core.Path.{subst}
use opperating_system_practi.Base.{
  ℕ, ◌+◌, ◌≤◌, ◌<◌, Bool, true, false, ◌||◌, ◌≡◌, ◌≢◌, refl, sym, ◌∙◌, ap, ap₂, inl, inr, ◌⊎◌, List,
  [], ◌∷◌, arith, ◌==◌,
}
use opperating_system_practi.Allocator.{Memory, size_of}
use opperating_system_practi.Allocator.Ring.{Chain}
use opperating_system_practi.Allocator.Units.{within, covers, covers_same}
use opperating_system_practi.Allocator.Search.{Follows}
use opperating_system_practi.Allocator.Taken.{remove, Follows-lt}

covers_sizes :
    (m m' : Memory) (xs : List ℕ) (u : ℕ)
    → ((a : ℕ) → size_of m' a ≡ size_of m a)
    → covers m' xs u ≡ covers m xs u
unfolding covers
covers_sizes m m' [] u same = refl
covers_sizes m m' (x ∷ xs) u same =
    ap₂ (λ n b. within x n u || b) (same x) (covers_sizes m m' xs u same)

remove-covers :
    (m : Memory) (q prevp p b : ℕ) (xs : List ℕ) (u : ℕ)
    → Chain m b xs q
    → Follows prevp p b xs
    → covers m xs u ≡ (within p (size_of m p) u || covers m (remove p xs) u)
unfolding Chain Follows covers remove
remove-covers m q prevp p b [] u c o = elim o [ ]
remove-covers m q prevp p b (x ∷ xs) u (next, lt, gap, c) (inl (e', e'')) =
    let t : (x == p) ≡ true = ground arith in
    rw t (ap (λ v. within v (size_of m v) u || covers m xs u) (sym e''))
remove-covers m q prevp p b (x ∷ xs) u (next, lt, gap, c) (inr o) =
    let (le, lt') = Follows-lt m q prevp p x xs c o in
    let f : (x == p) ≡ false = ground arith in
    let rest = remove-covers m q prevp p x xs u c o in
    rw f (ap (λ v. within x (size_of m x) u || v) rest ∙ ground arith)

-- A block that leaves the list takes its units with it.
pub unlink-covers :
    (m m' : Memory) (q prevp p b : ℕ) (xs : List ℕ) (u : ℕ)
    → Chain m b xs q
    → Follows prevp p b xs
    → ((a : ℕ) → size_of m' a ≡ size_of m a)
    → covers m (b ∷ xs) u ≡ (within p (size_of m p) u || covers m' (b ∷ remove p xs) u)
unfolding covers
unlink-covers m m' q prevp p b xs u c o same =
    ap (λ v. within b (size_of m b) u || v) (remove-covers m q prevp p b xs u c o)
    ∙ or-swap (within b (size_of m b) u) (within p (size_of m p) u) (covers m (remove p xs) u)
    ∙ ap (λ v. within p (size_of m p) u || v) (sym (covers_sizes m m' (b ∷ remove p xs) u same))
  where
    or-swap : (a b c : Bool) → (a || (b || c)) ≡ (b || (a || c))
    or-swap a b c = ground arith

-- A block that is cut loses the units at its end.
pub carve-covers :
    (m m' : Memory) (q prevp p b n : ℕ) (xs : List ℕ) (u : ℕ)
    → Chain m b xs q
    → Follows prevp p b xs
    → ((a : ℕ) → a ≢ p → (a < p) ⊎ (p + size_of m p ≤ a) → m'.headers a ≡ m.headers a)
    → size_of m p ≡ size_of m' p + n
    → covers m (b ∷ xs) u ≡ (within (p + size_of m' p) n u || covers m' (b ∷ xs) u)
unfolding Chain Follows covers
carve-covers m m' q prevp p b n [] u c o same s = elim o [ ]
carve-covers m m' q prevp p b n (x ∷ xs) u (next, lt, gap, c) (inl (e', e'')) same s =
    let size-b : size_of m' b ≡ size_of m b =
      ap (λ h. h.size) (same b (omega arith) (inl (omega arith))) in
    let rest : covers m' xs u ≡ covers m xs u =
      covers_same m m' q x xs u c
        (λ a h g. same a (omega arith) (inr (subst (λ v. v + size_of m v ≤ a) (sym e'') g))) in
    let cut : within x (size_of m x) u
        ≡ (within x (size_of m' p) u || within (x + size_of m' p) n u) =
      let s' : size_of m x ≡ size_of m' p + n = ap (λ v. size_of m v) (sym e'') ∙ s in
      rw s' (ground arith) in
    let size-x : size_of m' x ≡ size_of m' p = ap (λ v. size_of m' v) (sym e'') in
    rw (size-b, size-x, rest, cut, e'') (ground arith)
carve-covers m m' q prevp p b n (x ∷ xs) u (next, lt, gap, c) (inr o) same s =
    let (le, lt') = Follows-lt m q prevp p x xs c o in
    let size-b : size_of m' b ≡ size_of m b =
      ap (λ h. h.size) (same b (omega arith) (inl (omega arith))) in
    ap (λ v. within b (size_of m b) u || v) (carve-covers m m' q prevp p x n xs u c o same s)
    ∙ rw size-b (ground arith)
