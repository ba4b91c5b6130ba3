-- ===== src/Allocator/Taken.antt =====
-- What `malloc` of xv6-riscv/user/umalloc.c makes of the circular list, once it has found a block.
pub mod Units
pub mod Gaps
pub mod Block
use mathlib.Core.Path.{subst}
use opperating_system_practi.Base.{
  ℕ, zero, suc, ◌+◌, ◌-◌, ◌*◌, ◌/◌, ◌%◌, ◌^◌, ◌≤◌, ◌<◌, Bool, true, false, ◌&&◌, ◌||◌, ◌≡◌, ◌≢◌,
  refl, sym, ◌∙◌, ap, ap₂, inl, inr, ◌⊎◌, some, List, [], ◌∷◌, arith, ltb, leb, ◌==◌, if◌then◌else◌,
  Bool-cases,
}
use opperating_system_practi.Allocator.{Header, Memory, ptr_of, size_of, update, u32, pointer_to}
use opperating_system_practi.Allocator.Malloc.{take_block}
use opperating_system_practi.Allocator.Ring.{Chain, Apart, OneOf}
use opperating_system_practi.Allocator.Freed.{Chain-from}
use opperating_system_practi.Allocator.Units.{within, covers, covers_same, within_join}
use opperating_system_practi.Allocator.Search.{Follows}

unfoldable pub remove : ℕ → List ℕ → List ℕ
remove p [] = []
remove p (x ∷ xs) = let rest = x ∷ remove p xs in if x == p then xs else rest

pub Follows-lt :
    (m : Memory) (q prevp p b : ℕ) (xs : List ℕ)
    → Chain m b xs q
    → Follows prevp p b xs
    → (b ≤ prevp) × (prevp < p)
unfolding Chain Follows
Follows-lt m q prevp p b [] c o = elim o [ ]
Follows-lt m q prevp p b (x ∷ xs) (e, lt, gap, c) (inl (e', e'')) = (omega arith, omega arith)
Follows-lt m q prevp p b (x ∷ xs) (e, lt, gap, c) (inr o) =
    let (le, lt') = Follows-lt m q prevp p x xs c o in (omega arith, omega arith)

-- The block `p` leaves the list.
pub unlink-Chain :
    (m m' : Memory) (q prevp p b : ℕ) (xs : List ℕ)
    → Chain m b xs q
    → Follows prevp p b xs
    → ((a : ℕ) → a ≢ prevp → m'.headers a ≡ m.headers a)
    → ptr_of m' prevp ≡ ptr_of m p
    → size_of m' prevp ≡ size_of m prevp
    → Chain m' b (remove p xs) q
unfolding Chain Follows remove
unlink-Chain m m' q prevp p b [] c o same e s = elim o [ ]
unlink-Chain m m' q prevp p b (x ∷ xs) (next, lt, gap, c) (inl (e', e'')) same e s =
    let t : (x == p) ≡ true = ground arith in
    let ptr-b : ptr_of m' b ≡ ptr_of m x =
      ap (λ v. ptr_of m' v) (sym e') ∙ e ∙ ap (λ v. ptr_of m v) e'' in
    let size-b : size_of m' b ≡ size_of m b =
      ap (λ v. size_of m' v) (sym e') ∙ s ∙ ap (λ v. size_of m v) e' in
    rw t
      (Chain-from m m' q b x xs c ptr-b (omega arith) (omega arith) (λ a h g. same a (omega arith)))
unlink-Chain m m' q prevp p b (x ∷ xs) (next, lt, gap, c) (inr o) same e s =
    let (le, lt') = Follows-lt m q prevp p x xs c o in
    let f : (x == p) ≡ false = ground arith in
    let at : m'.headers b ≡ m.headers b = same b (omega arith) in
    let size-b : size_of m' b ≡ size_of m b = ap (λ h. h.size) at in
    rw f (ap (λ h. h.ptr) at ∙ next, lt, omega arith, unlink-Chain m m' q prevp p x xs c o same e s)

-- The block `p` keeps `left` of its units.
pub carve-Chain :
    (m m' : Memory) (q prevp p b : ℕ) (xs : List ℕ)
    → Chain m b xs q
    → Follows prevp p b xs
    → ((a : ℕ) → a ≢ p → (a < p) ⊎ (p + size_of m p ≤ a) → m'.headers a ≡ m.headers a)
    → ptr_of m' p ≡ ptr_of m p
    → size_of m' p ≤ size_of m p
    → Chain m' b xs q
unfolding Chain Follows
carve-Chain m m' q prevp p b [] c o same e s = elim o [ ]
carve-Chain m m' q prevp p b (x ∷ xs) (next, lt, gap, c) (inl (e', e'')) same e s =
    let at : m'.headers b ≡ m.headers b = same b (omega arith) (inl (omega arith)) in
    let size-b : size_of m' b ≡ size_of m b = ap (λ h. h.size) at in
    let size-x : size_of m' x ≤ size_of m x = subst (λ v. size_of m' v ≤ size_of m v) e'' s in
    let same' : (a : ℕ) → x < a → x + size_of m x ≤ a → m'.headers a ≡ m.headers a =
      subst (λ v. (a : ℕ) → v < a → v + size_of m v ≤ a → m'.headers a ≡ m.headers a) e''
        (λ a h g. same a (omega arith) (inr g)) in
    (
      ap (λ h. h.ptr) at ∙ next,
      lt,
      omega arith,
      Chain-from m m' q x x xs c (subst (λ v. ptr_of m' v ≡ ptr_of m v) e'' e) (omega arith)
          (omega arith) same',
    )
carve-Chain m m' q prevp p b (x ∷ xs) (next, lt, gap, c) (inr o) same e s =
    let (le, lt') = Follows-lt m q prevp p x xs c o in
    let at : m'.headers b ≡ m.headers b = same b (omega arith) (inl (omega arith)) in
    let size-b : size_of m' b ≡ size_of m b = ap (λ h. h.size) at in
    (ap (λ h. h.ptr) at ∙ next, lt, omega arith, carve-Chain m m' q prevp p x xs c o same e s)
