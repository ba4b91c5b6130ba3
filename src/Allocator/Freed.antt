-- ===== src/Allocator/Freed.antt =====
-- What `free` makes of the circular list.
use mathlib.Core.Path.{subst}
use opperating_system_practi.Base.{
  ℕ, ◌+◌, ◌^◌, ◌≤◌, ◌<◌, true, false, ◌≡◌, ◌≢◌, refl, ◌∙◌, ap, inl, inr, List, [], ◌∷◌, arith, ltb,
  ◌==◌, if◌then◌else◌, Bool-cases,
}
use opperating_system_practi.Allocator.{
  Header, Memory, ptr_of, size_of, u32, update, join_next, join_prev, insert_at,
}
use opperating_system_practi.Allocator.Ring.{Chain, Apart, place}

-- The block itself, unless it joins the one in front of it.
abbrev pub own : Memory → ℕ → ℕ → List ℕ → List ℕ
own m bp p xs = if p + size_of m p == bp then xs else bp ∷ xs

-- The blocks behind it, less the next one if that is joined.
abbrev pub behind : Memory → ℕ → ℕ → List ℕ → List ℕ
behind m bp x xs = if bp + size_of m bp == x then xs else x ∷ xs

-- The blocks behind `p` once the one at `bp` is freed.
unfoldable pub with_block : Memory → ℕ → ℕ → List ℕ → List ℕ
with_block m bp p [] = own m bp p []
with_block m bp p (x ∷ xs) =
    let rest = x ∷ with_block m bp x xs in if ltb x bp then rest else own m bp p (behind m bp x xs)

-- The header of the block, once it is joined with the next one or linked to it.
abbrev pub joined : Memory → ℕ → ℕ → Header
joined m bp q =
    if bp + size_of m bp == q
    then record { ptr = ptr_of m q; size = u32 (size_of m bp + size_of m q) }
    else record (m.headers bp) { ptr = q }

-- The header of the block in front of it, once `h` is the header of the block.
abbrev pub linked : Memory → ℕ → ℕ → Header → Header
linked m bp p h =
    if p + size_of m p == bp
    then record { ptr = h.ptr; size = u32 (size_of m p + h.size) }
    else record (m.headers p) { ptr = bp }

module _ (m : Memory) (bp p : ℕ) (ne : p ≢ bp) where
  pub insert_at_other : (a : ℕ) → a ≢ bp → a ≢ p → (insert_at bp p m).headers a ≡ m.headers a
  unfolding insert_at join_next join_prev update
  insert_at_other a h g = ground arith

  pub insert_at_block : (insert_at bp p m).headers bp ≡ joined m bp (ptr_of m p)
  unfolding insert_at join_next join_prev update
  insert_at_block = ground arith

  pub insert_at-place : (insert_at bp p m).headers p ≡ linked m bp p (joined m bp (ptr_of m p))
  unfolding insert_at join_next join_prev update
  insert_at-place = ground arith

-- A chain goes on from another block that has the same next one and ends no later.
pub Chain-from :
    (m m' : Memory) (q b x : ℕ) (xs : List ℕ)
    → Chain m x xs q
    → ptr_of m' b ≡ ptr_of m x
    → b ≤ x
    → b + size_of m' b ≤ x + size_of m x
    → ((a : ℕ) → x < a → x + size_of m x ≤ a → m'.headers a ≡ m.headers a)
    → Chain m' b xs q
unfolding Chain
Chain-from m m' q b x [] c e le d same = e ∙ c
Chain-from m m' q b x (y ∷ ys) (next, lt, gap, c) e le d same =
    let y-same : m'.headers y ≡ m.headers y = same y lt gap in
    (
      e ∙ next,
      omega arith,
      omega arith,
      Chain-from m m' q y y ys c (ap (λ h. h.ptr) y-same) (omega arith)
          (let s : size_of m' y ≡ size_of m y = ap (λ h. h.size) y-same in omega arith)
          (λ a h g. same a (omega arith) (omega arith)),
    )

-- The blocks behind the one that is freed follow a block with its new link.
behind-Chain :
    (m m' : Memory) (bp q b x : ℕ) (xs : List ℕ)
    → Chain m x xs q
    → bp < x
    → bp + size_of m bp ≤ x
    → x + size_of m x < 2 ^ 32
    → ptr_of m' b ≡ (joined m bp x).ptr
    → b ≤ bp
    → b + size_of m' b ≤ bp + (joined m bp x).size
    → ((a : ℕ) → bp < a → m'.headers a ≡ m.headers a)
    → Chain m' b (behind m bp x xs) q
unfolding Chain
behind-Chain m m' bp q b x xs c lt gap fits e le d same =
    elim (Bool-cases (bp + size_of m bp == x)) [
      | inl t ↦
          (let e' : ptr_of m' b ≡ ptr_of m x = ground arith in
            let d' : b + size_of m' b ≤ bp + u32 (size_of m bp + size_of m x) = ground arith in
            rw t (
              Chain-from m m' q b x xs c e' (omega arith) (ground arith)
                (λ a h _. same a (omega arith))))
      | inr f ↦
          (let e' : ptr_of m' b ≡ x = ground arith in
            let d' : b + size_of m' b ≤ bp + size_of m bp = ground arith in
            rw f (
              e',
              omega arith,
              omega arith,
              Chain-from m m' q x x xs c (ap (λ h. h.ptr) (same x lt)) (omega arith)
                  (let s : size_of m' x ≡ size_of m x = ap (λ h. h.size) (same x lt) in omega arith)
                  (λ a h _. same a (omega arith)),
            ))
    ]

-- The place lies among the blocks.
pub place-ge : (m : Memory) (bp q p : ℕ) (xs : List ℕ) → Chain m p xs q → p ≤ place p xs bp
unfolding Chain place
place-ge m bp q p [] c = omega arith
place-ge m bp q p (x ∷ xs) (e, lt, gap, c) =
    let ge : x ≤ place x xs bp = place-ge m bp q x xs c in ground arith

pub place-lt : (bp p : ℕ) (xs : List ℕ) → p < bp → place p xs bp < bp
unfolding place
place-lt bp p [] h = h
place-lt bp p (x ∷ xs) h = elim (Bool-cases (ltb x bp)) [
  | inl t ↦ rw t (place-lt bp x xs (ground arith))
  | inr f ↦ rw f h
]

module _ (m : Memory) (bp p x : ℕ) (xs : List ℕ) where
  pub place_climb : ltb x bp ≡ true → place p (x ∷ xs) bp ≡ place x xs bp
  unfolding place
  place_climb t = rw t refl

  pub place_stay : ltb x bp ≡ false → place p (x ∷ xs) bp ≡ p
  unfolding place
  place_stay f = rw f refl

  pub with_block_climb : ltb x bp ≡ true → with_block m bp p (x ∷ xs) ≡ (x ∷ with_block m bp x xs)
  unfolding with_block
  with_block_climb t = rw t refl

  pub with_block_stay :
      ltb x bp ≡ false → with_block m bp p (x ∷ xs) ≡ own m bp p (behind m bp x xs)
  unfolding with_block
  with_block_stay f = rw f refl

-- Where the next blocks are a chain behind the block, its own place begins one with them.
own-Chain :
    (m : Memory) (bp q p : ℕ) (xs : List ℕ)
    → p < bp
    → p + size_of m p ≤ bp
    → ((b : ℕ)
        → ptr_of (insert_at bp p m) b ≡ (joined m bp (ptr_of m p)).ptr
        → b ≤ bp
        → b + size_of (insert_at bp p m) b ≤ bp + (joined m bp (ptr_of m p)).size
        → Chain (insert_at bp p m) b xs q)
    → Chain (insert_at bp p m) p (own m bp p xs) q
unfolding Chain
own-Chain m bp q p xs lt gap chain =
    let ne : p ≢ bp = ground arith in
    let at : (insert_at bp p m).headers p ≡ linked m bp p (joined m bp (ptr_of m p)) =
      insert_at-place m bp p ne in
    let at_bp : (insert_at bp p m).headers bp ≡ joined m bp (ptr_of m p) =
      insert_at_block m bp p ne in
    let block : Header = joined m bp (ptr_of m p) in
    elim (Bool-cases (p + size_of m p == bp)) [
      | inl t ↦
          (let e : ptr_of (insert_at bp p m) p ≡ block.ptr = ap (λ h. h.ptr) at ∙ (rw t) in
            let s : size_of (insert_at bp p m) p ≡ u32 (size_of m p + block.size) =
              ap (λ h. h.size) at ∙ (rw t) in
            rw t (chain p e (omega arith) (ground arith)))
      | inr f ↦
          (let e : ptr_of (insert_at bp p m) p ≡ bp = ap (λ h. h.ptr) at ∙ (rw f) in
            let s : size_of (insert_at bp p m) p ≡ size_of m p = ap (λ h. h.size) at ∙ (rw f) in
            let s' : size_of (insert_at bp p m) bp ≡ block.size = ap (λ h. h.size) at_bp in
            rw f (e, lt, omega arith, chain bp (ap (λ h. h.ptr) at_bp) (omega arith) (omega arith)))
    ]

pub insert_at-Chain :
    (m : Memory) (bp q p : ℕ) (xs : List ℕ)
    → Chain m p xs q
    → Apart m bp (p ∷ xs)
    → p < bp
    → q ≤ p
    → Chain (insert_at bp (place p xs bp) m) p (with_block m bp p xs) q
unfolding Chain Apart place with_block
insert_at-Chain m bp q p [] c (ne, below, above, fits, a) lt le =
    own-Chain m bp q p [] lt (below lt)
      (λ b e h d. let f : (bp + size_of m bp == ptr_of m p) ≡ false = ground arith in e ∙ (rw f c))
insert_at-Chain m bp q p (x ∷ xs) (e, plt, gap, c) (ne, below, above, fits, a) lt le =
    elim (Bool-cases (ltb x bp)) [
      | inl t ↦
          (let r : ℕ = place x xs bp in
            let ge : x ≤ r = place-ge m bp q x xs c in
            let less : r < bp = place-lt bp x xs (ground arith) in
            let same : (insert_at bp r m).headers p ≡ m.headers p =
              insert_at_other m bp r (ground arith) p ne (ground arith) in
            let s : size_of (insert_at bp r m) p ≡ size_of m p = ap (λ h. h.size) same in
            rw t (
              ap (λ h. h.ptr) same ∙ e,
              plt,
              omega arith,
              insert_at-Chain m bp q x xs c a (ground arith) (omega arith),
            ))
      | inr f ↦
          (let (x≠bp, x-below, x-above, x-fits, _) = a in
            let lt' : bp < x = ground arith in
            rw f (
              own-Chain m bp q p (behind m bp x xs) lt (below lt) (λ b b-ptr le' b-size.
                behind-Chain m (insert_at bp p m) bp q b x xs c lt' (x-above lt') x-fits
                  (b-ptr ∙ ap (λ v. (joined m bp v).ptr) e) le'
                  (subst (λ v. b + size_of (insert_at bp p m) b ≤ bp + (joined m bp v).size) e
                    b-size)
                  (λ y h. insert_at_other m bp p ne y (ground arith) (ground arith)))))
    ]
