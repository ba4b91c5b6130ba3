-- ===== src/Allocator/Search/Round.antt =====
-- The search of `malloc` of xv6-riscv/user/umalloc.c, whatever block it starts at.
use mathlib.Core.Path.{subst}
use opperating_system_practi.Base.{
  ℕ, zero, suc, ◌+◌, ◌≤◌, ◌<◌, true, false, ◌≡◌, ◌≢◌, sym, ◌∙◌, inl, inr, ◌⊎◌, Option, List, [],
  ◌∷◌, arith, leb, ◌==◌, if◌then◌else◌, length, Bool-cases,
}
use opperating_system_practi.Allocator.{Memory, ptr_of, size_of}
use opperating_system_practi.Allocator.Malloc.{find_fit}
use opperating_system_practi.Allocator.Ring.{Chain, OneOf, OneOf-ge}
use opperating_system_practi.Allocator.Search.{
  Follows, Fits, FitsUpto, Unfit, taken, scan, skip, passes,
}

-- The blocks behind `f`.
unfoldable behind_of : ℕ → ℕ → List ℕ → List ℕ
behind_of f p [] = []
behind_of f p (x ∷ xs) = let rest = behind_of f x xs in if f == p then x ∷ xs else rest

-- The search goes from `freep` to the end, or some block up to `freep` fits.
module _ (m : Memory) (n f : ℕ) where
  decide : (q p : ℕ) (xs : List ℕ) → Chain m p xs q → f ≤ p → FitsUpto m n f xs ⊎ Unfit m n f xs
  unfolding Chain FitsUpto Unfit
  decide q p [] c le = inr tt
  decide q p (x ∷ xs) (e, lt, gap, c) le = elim (Bool-cases (leb n (size_of m x))) [
    | inl t ↦ inl (inl (ground arith))
    | inr g ↦
        (let ne : x ≢ f = omega arith in
          elim (decide q x xs c (omega arith)) [
            | inl fit ↦ inl (inr (ne, fit))
            | inr u ↦ inr (ground arith, ne, u)
          ])
  ]

  Unfit-Fits : (xs : List ℕ) → Unfit m n f xs → Fits m n xs → ⊥
  unfolding Unfit Fits
  Unfit-Fits [] u g = g
  Unfit-Fits (x ∷ xs) (small, ne, u) (inl h) = omega arith
  Unfit-Fits (x ∷ xs) (small, ne, u) (inr h) = Unfit-Fits xs u h

  behind_of-Chain :
      (q p : ℕ) (xs : List ℕ) → Chain m p xs q → OneOf f p xs → Chain m f (behind_of f p xs) q
  unfolding Chain OneOf behind_of
  behind_of-Chain q p [] c o = subst (λ v. Chain m v [] q) (sym o) c
  behind_of-Chain q p (x ∷ xs) c (inl o) =
      let t : (f == p) ≡ true = ground arith in rw t (subst (λ v. Chain m v (x ∷ xs) q) (sym o) c)
  behind_of-Chain q p (x ∷ xs) (e, lt, gap, c) (inr o) =
      let le : x ≤ f = OneOf-ge m f q x xs c o in
      let g : (f == p) ≡ false = ground arith in rw g (behind_of-Chain q x xs c o)

  behind_of-Follows :
      (prevp r p : ℕ) (xs : List ℕ) → Follows prevp r f (behind_of f p xs) → Follows prevp r p xs
  unfolding Follows behind_of
  behind_of-Follows prevp r p [] o = o
  behind_of-Follows prevp r p (x ∷ xs) o = elim (Bool-cases (f == p)) [
    | inl t ↦
        (let e : f ≡ p = ground arith in
          let o' : Follows prevp r f (x ∷ xs) =
            subst (λ v. Follows prevp r f (if v then x ∷ xs else behind_of f x xs)) t o in
          subst (λ v. Follows prevp r v (x ∷ xs)) e o')
    | inr g ↦ inr (
        behind_of-Follows prevp r x xs
          (subst (λ v. Follows prevp r f (if v then x ∷ xs else behind_of f x xs)) g o))
  ]

  length-behind_of : (p : ℕ) (xs : List ℕ) → length (behind_of f p xs) ≤ length xs
  unfolding behind_of
  length-behind_of p [] = omega arith
  length-behind_of p (x ∷ xs) =
      let le : length (behind_of f x xs) ≤ length xs = length-behind_of x xs in
      elim (Bool-cases (f == p)) [ inl t ↦ rw t (omega arith) | inr g ↦ rw g (omega arith) ]

  behind_of-Unfit :
      (p : ℕ) (xs : List ℕ)
      → OneOf f p xs
      → Fits m n xs
      → Unfit m n f (behind_of f p xs)
      → (f ≢ p) × FitsUpto m n f xs
  unfolding OneOf Fits FitsUpto behind_of
  behind_of-Unfit p [] o fit u = elim fit [ ]
  behind_of-Unfit p (x ∷ xs) o fit u = elim (Bool-cases (f == p)) [
    | inl t ↦
        elim (Unfit-Fits (x ∷ xs)
          (subst (λ v. Unfit m n f (if v then x ∷ xs else behind_of f x xs)) t u)
          (unfold Fits in fit)) [ ]
    | inr g ↦
        (let ne : f ≢ p = ground arith in
          let u' : Unfit m n f (behind_of f x xs) =
            subst (λ v. Unfit m n f (if v then x ∷ xs else behind_of f x xs)) g u in
          let o' : OneOf f x xs = elim o [ inl e ↦ elim (ne e) [ ] | inr o ↦ o ] in
          (
            ne,
            elim fit [
              | inl h ↦ inl h
              | inr later ↦
                  (let (ne', rest) = behind_of-Unfit x xs o' later u' in
                    inr (λ s. ne' (sym s), rest))
            ],
          ))
  ]

module _ {W : Type 0} (sbrk : ℕ → W → W × Option ℕ) (base n : ℕ) (w : W) (m : Memory) (xs : List ℕ)
    (c : Chain m base xs base) (o : OneOf m.freep base xs) (small : size_of m base < n)
    (fit : Fits m n xs) where
  -- The search ends at a block that fits.
  pub find_fit-taken :
      (fuel : ℕ)
      → length xs + length xs + 1 ≤ fuel
      → (prevp : ℕ) × (p : ℕ) × Follows prevp p base xs
        × (n ≤ size_of m p)
        × (find_fit sbrk base fuel n m.freep (ptr_of m m.freep) w m ≡ taken sbrk base n w m prevp p)
  find_fit-taken fuel l =
      let f : ℕ = m.freep in
      let zs : List ℕ = behind_of f base xs in
      let c' : Chain m f zs base = behind_of-Chain m n f base base xs c o in
      let short : length zs ≤ length xs = length-behind_of m n f base xs in
      elim (decide m n f base f zs c' (omega arith)) [
        | inl near ↦
            (let (prevp, p, follows, h, found) =
                scan sbrk base n w m base f zs fuel c' near (omega arith) in
              (prevp, p, behind_of-Follows m n f prevp p base xs follows, h, found))
        | inr u ↦
            (let (last, left, e, round) = skip sbrk base n w m base f zs fuel c' u (omega arith) in
              let (ne, upto) = behind_of-Unfit m n f base xs o fit u in
              round_again last left (omega arith) upto ne round)
      ]
    where
      round_again :
          (last left : ℕ)
          → length xs + 1 ≤ left
          → FitsUpto m n m.freep xs
          → m.freep ≢ base
          → find_fit sbrk base fuel n m.freep (ptr_of m m.freep) w m
            ≡ find_fit sbrk base left n last base w m
          → (prevp : ℕ) × (p : ℕ) × Follows prevp p base xs
            × (n ≤ size_of m p)
            × (find_fit sbrk base fuel n m.freep (ptr_of m m.freep) w m
                ≡ taken sbrk base n w m prevp p)
      round_again last zero le upto ne round = ground arith
      round_again last (suc left) le upto ne round =
          let (prevp, p, follows, h, found) =
            scan sbrk base n w m base base xs left c upto (omega arith) in
          (
            prevp,
            p,
            follows,
            h,
            round ∙ passes sbrk base n w m left last base small (λ s. ne (sym s)) ∙ found,
          )
