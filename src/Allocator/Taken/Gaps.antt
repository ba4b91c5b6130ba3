-- ===== src/Allocator/Taken/Gaps.antt =====
-- A block that `malloc` of xv6-riscv/user/umalloc.c returns lies in a gap of the circular list.
use mathlib.Core.Path.{subst}
use opperating_system_practi.Base.{
  ℕ, ◌+◌, ◌^◌, ◌≤◌, ◌<◌, true, false, ◌≡◌, ◌≢◌, sym, ◌∙◌, ap, inl, inr, ◌⊎◌, List, [], ◌∷◌, arith,
  ◌==◌, Bool-cases,
}
use opperating_system_practi.Allocator.{Memory, size_of}
use opperating_system_practi.Allocator.Ring.{Chain, Apart}
use opperating_system_practi.Allocator.Search.{Follows}
use opperating_system_practi.Allocator.Taken.{remove, Follows-lt}

-- Every block ends below 2^32 units.
unfoldable pub Ends : Memory → List ℕ → Type 0
Ends m [] = Unit
Ends m (x ∷ xs) = (x + size_of m x < 2 ^ 32) × Ends m xs

-- The block at `bp` lies behind `b` and its follower, or between two neighbours.
unfoldable pub Gap : Memory → ℕ → ℕ → List ℕ → Type 0
Gap m bp b [] = (b < bp) × (b + size_of m b ≤ bp)
Gap m bp b (y ∷ ys) = ((b < bp) × (b + size_of m b ≤ bp) × (bp + size_of m bp ≤ y)) ⊎ Gap m bp y ys

module _ (m : Memory) (bp q : ℕ) (has : 0 < size_of m bp) (end : bp + size_of m bp < 2 ^ 32) where
  Apart-above :
      (y : ℕ) (ys : List ℕ)
      → Chain m y ys q
      → bp + size_of m bp ≤ y
      → Ends m (y ∷ ys)
      → Apart m bp (y ∷ ys)
  unfolding Chain Ends Apart
  Apart-above y [] c le (fits, _) = (omega arith, λ h. omega arith, λ _. le, fits, end)
  Apart-above y (z ∷ zs) (e, lt, gap, c) le (fits, rest) =
      (omega arith, λ h. omega arith, λ _. le, fits, Apart-above z zs c (omega arith) rest)

  Gap-lt : (y : ℕ) (ys : List ℕ) → Chain m y ys q → Gap m bp y ys → y < bp
  unfolding Chain Gap
  Gap-lt y [] c (lt, le) = lt
  Gap-lt y (z ∷ zs) c (inl (lt, le, above)) = lt
  Gap-lt y (z ∷ zs) (e, lt, gap, c) (inr g) = let less : z < bp = Gap-lt z zs c g in omega arith

  pub Gap-Apart :
      (y : ℕ) (ys : List ℕ) → Chain m y ys q → Gap m bp y ys → Ends m (y ∷ ys) → Apart m bp (y ∷ ys)
  unfolding Chain Ends Gap Apart
  Gap-Apart y [] c (lt, le) (fits, _) = (omega arith, λ _. le, λ h. omega arith, fits, end)
  Gap-Apart y (z ∷ zs) (e, zlt, gap, c) (inl (lt, le, above)) (fits, rest) =
      (omega arith, λ _. le, λ h. omega arith, fits, Apart-above z zs c above rest)
  Gap-Apart y (z ∷ zs) (e, zlt, gap, c) (inr g) (fits, rest) =
      let less : z < bp = Gap-lt z zs c g in
      (omega arith, λ _. omega arith, λ h. omega arith, fits, Gap-Apart z zs c g rest)

unlink-Gap_first :
    (m m' : Memory) (q p b x : ℕ) (xs : List ℕ)
    → Chain m x xs q
    → b < x
    → b + size_of m b ≤ x
    → p ≡ x
    → ((a : ℕ) → size_of m' a ≡ size_of m a)
    → Gap m' p b xs
unfolding Chain Gap
unlink-Gap_first m m' q p b x [] c lt gap e same =
    let size-b : size_of m' b ≡ size_of m b = same b in (omega arith, omega arith)
unlink-Gap_first m m' q p b x (y ∷ ys) (next, lt', gap', c) lt gap e same =
    let size-b : size_of m' b ≡ size_of m b = same b in
    let size-p : size_of m' p ≡ size_of m x = same p ∙ ap (λ v. size_of m v) e in
    inl (omega arith, omega arith, omega arith)

pub unlink-Gap :
    (m m' : Memory) (q prevp p b : ℕ) (xs : List ℕ)
    → Chain m b xs q
    → Follows prevp p b xs
    → ((a : ℕ) → size_of m' a ≡ size_of m a)
    → Gap m' p b (remove p xs)
unfolding Chain Follows remove Gap
unlink-Gap m m' q prevp p b [] c o same = elim o [ ]
unlink-Gap m m' q prevp p b (x ∷ xs) (next, lt, gap, c) (inl (e', e'')) same =
    let t : (x == p) ≡ true = ground arith in
    rw t (unlink-Gap_first m m' q p b x xs c lt gap e'' same)
unlink-Gap m m' q prevp p b (x ∷ xs) (next, lt, gap, c) (inr o) same =
    let (le, lt') = Follows-lt m q prevp p x xs c o in
    let f : (x == p) ≡ false = ground arith in
    let rest = unlink-Gap m m' q prevp p x xs c o same in rw f (inr rest)

carve-Gap_first :
    (m m' : Memory) (q p x bp : ℕ) (xs : List ℕ)
    → Chain m x xs q
    → p ≡ x
    → bp ≡ p + size_of m' p
    → 0 < size_of m' p
    → bp + size_of m' bp ≡ p + size_of m p
    → Gap m' bp x xs
unfolding Chain Gap
carve-Gap_first m m' q p x bp [] c e'' e h s =
    let size-x : size_of m' x ≡ size_of m' p = ap (λ v. size_of m' v) (sym e'') in
    (omega arith, omega arith)
carve-Gap_first m m' q p x bp (y ∷ ys) (next, lt, gap, c) e'' e h s =
    let size-x : size_of m' x ≡ size_of m' p = ap (λ v. size_of m' v) (sym e'') in
    let size-old : size_of m x ≡ size_of m p = ap (λ v. size_of m v) (sym e'') in
    inl (omega arith, omega arith, omega arith)

pub carve-Gap :
    (m m' : Memory) (q prevp p b bp : ℕ) (xs : List ℕ)
    → Chain m b xs q
    → Follows prevp p b xs
    → bp ≡ p + size_of m' p
    → 0 < size_of m' p
    → bp + size_of m' bp ≡ p + size_of m p
    → Gap m' bp b xs
unfolding Chain Follows Gap
carve-Gap m m' q prevp p b bp [] c o e h s = elim o [ ]
carve-Gap m m' q prevp p b bp (x ∷ xs) (next, lt, gap, c) (inl (e', e'')) e h s =
    inr (carve-Gap_first m m' q p x bp xs c e'' e h s)
carve-Gap m m' q prevp p b bp (x ∷ xs) (next, lt, gap, c) (inr o) e h s =
    inr (carve-Gap m m' q prevp p x bp xs c o e h s)

Ends-same :
    (m m' : Memory) (q x : ℕ) (xs : List ℕ)
    → Chain m x xs q
    → ((a : ℕ) → x < a → x + size_of m x ≤ a → m'.headers a ≡ m.headers a)
    → Ends m xs
    → Ends m' xs
unfolding Chain Ends
Ends-same m m' q x [] c same h = tt
Ends-same m m' q x (y ∷ ys) (e, lt, gap, c) same (fits, h) =
    let size-y : size_of m' y ≡ size_of m y = ap (λ h. h.size) (same y lt gap) in
    (omega arith, Ends-same m m' q y ys c (λ a h g. same a (omega arith) (omega arith)) h)

Ends-remove :
    (m m' : Memory) (p : ℕ) (xs : List ℕ)
    → ((a : ℕ) → size_of m' a ≡ size_of m a)
    → Ends m xs
    → Ends m' (remove p xs) × Ends m' xs
unfolding Ends remove
Ends-remove m m' p [] same h = (tt, tt)
Ends-remove m m' p (x ∷ xs) same (fits, h) =
    let (rest, all) = Ends-remove m m' p xs same h in
    let size-x : size_of m' x ≡ size_of m x = same x in
    let fits' : x + size_of m' x < 2 ^ 32 = omega arith in
    (elim (Bool-cases (x == p)) [ inl t ↦ rw t all | inr f ↦ rw f (fits', rest) ], (fits', all))

pub unlink-Ends :
    (m m' : Memory) (p b : ℕ) (xs : List ℕ)
    → ((a : ℕ) → size_of m' a ≡ size_of m a)
    → Ends m (b ∷ xs)
    → Ends m' (b ∷ remove p xs)
unfolding Ends
unlink-Ends m m' p b xs same (fits, h) =
    let size-b : size_of m' b ≡ size_of m b = same b in
    (omega arith, (Ends-remove m m' p xs same h).0)

pub carve-Ends :
    (m m' : Memory) (q prevp p b : ℕ) (xs : List ℕ)
    → Chain m b xs q
    → Follows prevp p b xs
    → ((a : ℕ) → a ≢ p → (a < p) ⊎ (p + size_of m p ≤ a) → m'.headers a ≡ m.headers a)
    → size_of m' p ≤ size_of m p
    → Ends m (b ∷ xs)
    → Ends m' (b ∷ xs)
unfolding Chain Follows Ends
carve-Ends m m' q prevp p b [] c o same s h = elim o [ ]
carve-Ends m m' q prevp p b (x ∷ xs) (next, lt, gap, c) (inl (e', e'')) same s
      (b-fits, (x-fits, h)) =
    let size-b : size_of m' b ≡ size_of m b =
      ap (λ h. h.size) (same b (omega arith) (inl (omega arith))) in
    let size-x : size_of m' x ≤ size_of m x = subst (λ v. size_of m' v ≤ size_of m v) e'' s in
    (
      omega arith,
      (
        omega arith,
        Ends-same m m' q x xs c
            (λ a h g. same a (omega arith) (inr (subst (λ v. v + size_of m v ≤ a) (sym e'') g))) h,
      ),
    )
carve-Ends m m' q prevp p b (x ∷ xs) (next, lt, gap, c) (inr o) same s (b-fits, h) =
    let (le, lt') = Follows-lt m q prevp p x xs c o in
    let size-b : size_of m' b ≡ size_of m b =
      ap (λ h. h.size) (same b (omega arith) (inl (omega arith))) in
    (omega arith, carve-Ends m m' q prevp p x xs c o same s h)
