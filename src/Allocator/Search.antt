-- ===== src/Allocator/Search.antt =====
-- The search of `malloc` through the circular list of xv6-riscv/user/umalloc.c.
pub mod Round
pub mod Malloc
pub mod Calloc
use mathlib.Core.Path.{subst}
use opperating_system_practi.Base.{
  ℕ, zero, suc, ◌+◌, ◌-◌, ◌*◌, ◌/◌, ◌^◌, ◌≤◌, ◌<◌, Bool, true, false, ◌≡◌, ◌≢◌, refl, sym, ◌∙◌, ap,
  inl, inr, ◌⊎◌, Option, none, some, List, [], ◌∷◌, arith, ltb, leb, ◌==◌, if◌then◌else◌, length,
  Bool-cases,
}
use opperating_system_practi.Allocator.{Memory, ptr_of, size_of}
use opperating_system_practi.Allocator.Malloc.{take_block, find_fit}
use opperating_system_practi.Allocator.Ring.{Chain, OneOf}

-- In the list `b`, `xs`, the block `p` comes right behind `prevp`.
unfoldable pub Follows : ℕ → ℕ → ℕ → List ℕ → Type 0
Follows prevp p b [] = ⊥
Follows prevp p b (x ∷ xs) = ((prevp ≡ b) × (p ≡ x)) ⊎ Follows prevp p x xs

-- Some block has `n` units.
unfoldable pub Fits : Memory → ℕ → List ℕ → Type 0
Fits m n [] = ⊥
Fits m n (x ∷ xs) = (n ≤ size_of m x) ⊎ Fits m n xs

-- Some block up to `f` has.
unfoldable pub FitsUpto : Memory → ℕ → ℕ → List ℕ → Type 0
FitsUpto m n f [] = ⊥
FitsUpto m n f (x ∷ xs) = (n ≤ size_of m x) ⊎ ((x ≢ f) × FitsUpto m n f xs)

-- No block has `n` units, and none is `f`.
unfoldable pub Unfit : Memory → ℕ → ℕ → List ℕ → Type 0
Unfit m n f [] = Unit
Unfit m n f (x ∷ xs) = (size_of m x < n) × (x ≢ f) × Unfit m n f xs

module _ {W : Type 0} (sbrk : ℕ → W → W × Option ℕ) (base n : ℕ) (w : W) (m : Memory) where
  -- What `malloc` returns if it takes the block `p` behind `prevp`.
  abbrev pub taken : ℕ → ℕ → Option (W × Memory × ℕ)
  taken prevp p = let (m', q) = take_block n prevp p m in some (w, m', q)

  fits_here :
      (fuel prevp p : ℕ)
      → n ≤ size_of m p
      → find_fit sbrk base (suc fuel) n prevp p w m ≡ taken prevp p
  unfolding find_fit
  fits_here fuel prevp p h =
      let t : leb n (size_of m p) ≡ true = ground arith in rw (find_fit, t) refl

  pub passes :
      (fuel prevp p : ℕ)
      → size_of m p < n
      → p ≢ m.freep
      → find_fit sbrk base (suc fuel) n prevp p w m ≡ find_fit sbrk base fuel n p (ptr_of m p) w m
  unfolding find_fit
  passes fuel prevp p h g =
      let f : leb n (size_of m p) ≡ false = ground arith in
      let f' : (p == m.freep) ≡ false = ground arith in rw (find_fit, f, f') refl

  -- The search finds the first block that fits.
  pub scan :
      (q b : ℕ) (xs : List ℕ) (fuel : ℕ)
      → Chain m b xs q
      → FitsUpto m n m.freep xs
      → length xs ≤ fuel
      → (prevp : ℕ) × (p : ℕ) × Follows prevp p b xs
        × (n ≤ size_of m p)
        × (find_fit sbrk base fuel n b (ptr_of m b) w m ≡ taken prevp p)
  unfolding Chain FitsUpto Follows
  scan q b [] fuel c fit l = elim fit [ ]
  scan q b (x ∷ xs) zero c fit l = ground arith
  scan q b (x ∷ xs) (suc fuel) (e, lt, gap, c) fit l =
      let here = ap (λ v. find_fit sbrk base (suc fuel) n b v w m) e in
      elim (Bool-cases (leb n (size_of m x))) [
        | inl t ↦ (b, x, inl (refl, refl), ground arith, here ∙ fits_here fuel b x (ground arith))
        | inr f ↦
            (let small : size_of m x < n = ground arith in
              let (ne, later) : (x ≢ m.freep) × FitsUpto m n m.freep xs = elim fit [
                | inl h ↦ ground arith
                | inr g ↦ g
              ] in
              let (prevp, p, o, h, found) = scan q x xs fuel c later (omega arith) in
              (prevp, p, inr o, h, here ∙ passes fuel b x small ne ∙ found))
      ]

  -- Where none fits, the search comes round.
  pub skip :
      (q b : ℕ) (xs : List ℕ) (fuel : ℕ)
      → Chain m b xs q
      → Unfit m n m.freep xs
      → length xs ≤ fuel
      → (last : ℕ) × (left : ℕ) × (fuel ≡ length xs + left)
        × (find_fit sbrk base fuel n b (ptr_of m b) w m ≡ find_fit sbrk base left n last q w m)
  unfolding Chain Unfit
  skip q b [] fuel c u l = (b, fuel, omega arith, ap (λ v. find_fit sbrk base fuel n b v w m) c)
  skip q b (x ∷ xs) zero c u l = ground arith
  skip q b (x ∷ xs) (suc fuel) (e, lt, gap, c) (small, ne, u) l =
      let (last, left, f, g) = skip q x xs fuel c u (omega arith) in
      (
        last,
        left,
        omega arith,
        ap (λ v. find_fit sbrk base (suc fuel) n b v w m) e ∙ passes fuel b x small ne ∙ g,
      )
