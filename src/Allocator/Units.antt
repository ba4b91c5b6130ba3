-- ===== src/Allocator/Units.antt =====
-- The units of memory that are free before and after a block is put into the circular list.
pub mod Free
use mathlib.Core.Path.{subst}
use opperating_system_practi.Base.{
  ℕ, zero, suc, ◌+◌, ◌-◌, ◌*◌, ◌/◌, ◌%◌, ◌^◌, ◌≤◌, ◌<◌, Bool, true, false, ◌&&◌, ◌||◌, ◌≡◌, ◌≢◌,
  refl, sym, ◌∙◌, ap, ap₂, inl, inr, ◌⊎◌, List, [], ◌∷◌, arith, ltb, leb, ◌==◌, if◌then◌else◌,
  Bool-cases,
}
use opperating_system_practi.Allocator.{Header, Memory, ptr_of, size_of, u32, insert_at}
use opperating_system_practi.Allocator.Ring.{Chain, Apart, place}
use opperating_system_practi.Allocator.Freed.{
  own, behind, joined, linked, with_block, place-ge, place-lt, place_climb, place_stay,
  with_block_climb, with_block_stay, insert_at_other, insert_at_block, insert_at-place,
}

-- The unit `u` is one of the `size` units from `p` on.
abbrev pub within : ℕ → ℕ → ℕ → Bool
within p size u = leb p u && ltb u (p + size)

-- The unit `u` belongs to one of these blocks.
unfoldable pub covers : Memory → List ℕ → ℕ → Bool
covers m [] u = false
covers m (x ∷ xs) u = within x (size_of m x) u || covers m xs u

pub covers_same :
    (m m' : Memory) (q x : ℕ) (xs : List ℕ) (u : ℕ)
    → Chain m x xs q
    → ((a : ℕ) → x < a → x + size_of m x ≤ a → m'.headers a ≡ m.headers a)
    → covers m' xs u ≡ covers m xs u
unfolding Chain covers
covers_same m m' q x [] u c same = refl
covers_same m m' q x (y ∷ ys) u (e, lt, gap, c) same =
    ap (λ h. within y h.size u || covers m' ys u) (same y lt gap)
    ∙ ap (λ b. within y (size_of m y) u || b)
        (covers_same m m' q y ys u c (λ a h g. same a (omega arith) (omega arith)))

-- Two blocks that touch hold the same units as one.
pub within_join :
    (p a b n u : ℕ)
    → p + a ≡ b
    → b + n < 2 ^ 32
    → within p (u32 (a + n)) u ≡ (within p a u || within b n u)
within_join p a b n u e h = let fits : u32 (a + n) ≡ a + n = ground arith in rw fits (ground arith)

behind-covers :
    (m m' : Memory) (bp q x : ℕ) (xs : List ℕ) (u : ℕ)
    → Chain m x xs q
    → bp < x
    → x + size_of m x < 2 ^ 32
    → ((a : ℕ) → bp < a → m'.headers a ≡ m.headers a)
    → (within bp (joined m bp x).size u || covers m' (behind m bp x xs) u)
      ≡ (within bp (size_of m bp) u || covers m (x ∷ xs) u)
unfolding covers
behind-covers m m' bp q x xs u c lt fits same =
    let rest : covers m' xs u ≡ covers m xs u =
      covers_same m m' q x xs u c (λ a h _. same a (omega arith)) in
    let s : size_of m' x ≡ size_of m x = ap (λ h. h.size) (same x lt) in
    elim (Bool-cases (bp + size_of m bp == x)) [
      | inl t ↦
          (let j : within bp (u32 (size_of m bp + size_of m x)) u
                ≡ (within bp (size_of m bp) u || within x (size_of m x) u) =
              within_join bp (size_of m bp) x (size_of m x) u (ground arith) fits in
            rw t (rw (j, rest) (ground arith)))
      | inr f ↦ rw f (rw (s, rest) refl)
    ]

own-covers :
    (m : Memory) (bp p : ℕ) (xs : List ℕ) (u : ℕ)
    → p < bp
    → bp + (joined m bp (ptr_of m p)).size < 2 ^ 32
    → covers (insert_at bp p m) (p ∷ own m bp p xs) u ≡ (
        within p (size_of m p) u
        || (within bp (joined m bp (ptr_of m p)).size u || covers (insert_at bp p m) xs u))
unfolding covers
own-covers m bp p xs u lt fits =
    let ne : p ≢ bp = ground arith in
    let block : Header = joined m bp (ptr_of m p) in
    let at : (insert_at bp p m).headers p ≡ linked m bp p block = insert_at-place m bp p ne in
    let at_bp : size_of (insert_at bp p m) bp ≡ block.size =
      ap (λ h. h.size) (insert_at_block m bp p ne) in
    elim (Bool-cases (p + size_of m p == bp)) [
      | inl t ↦
          (let s : size_of (insert_at bp p m) p ≡ u32 (size_of m p + block.size) =
              ap (λ h. h.size) at ∙ (rw t) in
            let j = within_join p (size_of m p) bp block.size u (ground arith) fits in
            rw t (
              ap (λ n. within p n u || covers (insert_at bp p m) xs u) s
              ∙ ap (λ b. b || covers (insert_at bp p m) xs u) j
              ∙ ground arith))
      | inr f ↦
          (let s : size_of (insert_at bp p m) p ≡ size_of m p = ap (λ h. h.size) at ∙ (rw f) in
            rw f (
              ap₂ (λ n n'. within p n u || (within bp n' u || covers (insert_at bp p m) xs u)) s
                at_bp))
    ]

Apart-end : (m : Memory) (bp : ℕ) (xs : List ℕ) → Apart m bp xs → bp + size_of m bp < 2 ^ 32
unfolding Apart
Apart-end m bp [] a = a
Apart-end m bp (x ∷ xs) (_, _, _, _, a) = Apart-end m bp xs a

covers_climb :
    (m m' : Memory) (bp p x : ℕ) (xs ys : List ℕ) (u : ℕ)
    → m'.headers p ≡ m.headers p
    → covers m' ys u ≡ (within bp (size_of m bp) u || covers m (x ∷ xs) u)
    → covers m' (p ∷ ys) u ≡ (within bp (size_of m bp) u || covers m (p ∷ x ∷ xs) u)
unfolding covers
covers_climb m m' bp p x xs ys u same rest =
    ap₂ (λ h b. within p h.size u || b) same rest ∙ ground arith

covers_nil :
    (m : Memory) (bp q p u : ℕ)
    → ptr_of m p ≡ q
    → p < bp
    → q ≤ p
    → bp + size_of m bp < 2 ^ 32
    → covers (insert_at bp p m) (p ∷ own m bp p []) u
      ≡ (within bp (size_of m bp) u || covers m (p ∷ []) u)
unfolding covers
covers_nil m bp q p u c lt le fits =
    let f : (bp + size_of m bp == ptr_of m p) ≡ false = ground arith in
    let s : (joined m bp (ptr_of m p)).size ≡ size_of m bp = rw f refl in
    own-covers m bp p [] u lt (omega arith)
    ∙ ap (λ n. within p (size_of m p) u || (within bp n u || false)) s
    ∙ ground arith

joined_fits :
    (m : Memory) (bp x : ℕ)
    → bp + size_of m bp < 2 ^ 32
    → x + size_of m x < 2 ^ 32
    → bp + (joined m bp x).size < 2 ^ 32
joined_fits m bp x h g = elim (Bool-cases (bp + size_of m bp == x)) [
  | inl t ↦
      (let d : u32 (size_of m bp + size_of m x) ≤ size_of m bp + size_of m x = grind arith in
        rw t (ground arith))
  | inr f ↦ rw f h
]

covers_stay :
    (m : Memory) (bp q p x : ℕ) (xs : List ℕ) (u : ℕ)
    → ptr_of m p ≡ x
    → Chain m x xs q
    → p < bp
    → bp < x
    → bp + size_of m bp < 2 ^ 32
    → x + size_of m x < 2 ^ 32
    → covers (insert_at bp p m) (p ∷ own m bp p (behind m bp x xs)) u
      ≡ (within bp (size_of m bp) u || covers m (p ∷ x ∷ xs) u)
unfolding covers
covers_stay m bp q p x xs u e c lt gt bp-fits x-fits =
    let rest =
      behind-covers m (insert_at bp p m) bp q x xs u c gt x-fits
        (λ a h. insert_at_other m bp p (ground arith) a (ground arith) (ground arith)) in
    own-covers m bp p (behind m bp x xs) u lt
      (subst (λ v. bp + (joined m bp v).size < 2 ^ 32) (sym e) (joined_fits m bp x bp-fits x-fits))
    ∙ ap
        (λ v.
          within p (size_of m p) u
          || (within bp (joined m bp v).size u || covers (insert_at bp p m) (behind m bp x xs) u))
        e
    ∙ ap (λ b. within p (size_of m p) u || b) rest
    ∙ ground arith

-- Exactly the units of the block become free.
pub insert_at-covers :
    (m : Memory) (bp q p : ℕ) (xs : List ℕ) (u : ℕ)
    → Chain m p xs q
    → Apart m bp (p ∷ xs)
    → p < bp
    → q ≤ p
    → covers (insert_at bp (place p xs bp) m) (p ∷ with_block m bp p xs) u
      ≡ (within bp (size_of m bp) u || covers m (p ∷ xs) u)
unfolding Chain Apart
insert_at-covers m bp q p [] u c (ne, below, above, fits, a) lt le =
    unfold place with_block in covers_nil m bp q p u c lt le a
insert_at-covers m bp q p (x ∷ xs) u (e, plt, gap, c) (ne, below, above, fits, a) lt le =
    elim (Bool-cases (ltb x bp)) [
      | inl t ↦
          (let ge : x ≤ place x xs bp = place-ge m bp q x xs c in
            let less : place x xs bp < bp = place-lt bp x xs (ground arith) in
            rw (place_climb m bp p x xs t, with_block_climb m bp p x xs t)
              (covers_climb m (insert_at bp (place x xs bp) m) bp p x xs (x ∷ with_block m bp x xs)
                u (insert_at_other m bp (place x xs bp) (ground arith) p ne (ground arith))
                (insert_at-covers m bp q x xs u c a (ground arith) (omega arith))))
      | inr f ↦
          (let (x-ne, _, _, x-fits, end) = a in
            rw (place_stay m bp p x xs f, with_block_stay m bp p x xs f)
              (covers_stay m bp q p x xs u e c lt (ground arith) (Apart-end m bp xs end) x-fits))
    ]
