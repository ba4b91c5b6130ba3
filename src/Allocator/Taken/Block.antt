-- ===== src/Allocator/Taken/Block.antt =====
-- The end of the search in `malloc` of xv6-riscv/user/umalloc.c: the block is taken.
use opperating_system_practi.Base.{
  ℕ, ◌+◌, ◌-◌, ◌^◌, ◌≤◌, ◌<◌, true, false, ◌||◌, ◌≡◌, ◌≢◌, refl, ◌∙◌, ap, inl, inr, ◌⊎◌, List, [],
  ◌∷◌, arith, ◌==◌, Bool-cases, length,
}
use opperating_system_practi.Allocator.{
  Memory, ptr_of, size_of, update, set_header, u32, pointer_to,
}
use opperating_system_practi.Allocator.Malloc.{take_block}
use opperating_system_practi.Allocator.Ring.{Chain, Apart, OneOf}
use opperating_system_practi.Allocator.Units.{within, covers}
use opperating_system_practi.Allocator.Search.{Follows}
use opperating_system_practi.Allocator.Taken.{remove, Follows-lt, unlink-Chain, carve-Chain}
use opperating_system_practi.Allocator.Taken.Units.{unlink-covers, carve-covers}
use opperating_system_practi.Allocator.Taken.Gaps.{
  Ends, Gap-Apart, unlink-Gap, carve-Gap, unlink-Ends, carve-Ends,
}

-- The block of `n` units at `bp` left the list `xs`, which became `ys`: its units were free and are
-- not free any more, it shares none with the free blocks, the list is in order from `base` and back
-- and no longer than before, and the bytes stay.
pub record Taken (m m' : Memory) (base n bp : ℕ) (xs ys : List ℕ) : Type 0 where
  pub chain : Chain m' base ys base
  pub start : OneOf m'.freep base ys
  pub ends : Ends m' (base ∷ ys)
  pub size : size_of m' bp ≡ n
  pub apart : Apart m' bp (base ∷ ys)
  pub above : base < bp
  pub shorter : length ys ≤ length xs
  pub first : size_of m' base ≡ size_of m base
  pub units : (u : ℕ) → covers m (base ∷ xs) u ≡ (within bp n u || covers m' (base ∷ ys) u)
  pub bytes : m'.bytes ≡ m.bytes

Follows-Ends :
    (m : Memory) (prevp p b : ℕ) (xs : List ℕ)
    → Follows prevp p b xs
    → Ends m xs
    → p + size_of m p < 2 ^ 32
unfolding Follows Ends
Follows-Ends m prevp p b [] o h = elim o [ ]
Follows-Ends m prevp p b (x ∷ xs) (inl (e, e')) (fits, h) = rw e' fits
Follows-Ends m prevp p b (x ∷ xs) (inr o) (fits, h) = Follows-Ends m prevp p x xs o h

Follows-OneOf : (prevp p b : ℕ) (xs : List ℕ) → Follows prevp p b xs → OneOf prevp b xs
unfolding Follows OneOf
Follows-OneOf prevp p b [] o = elim o [ ]
Follows-OneOf prevp p b (x ∷ xs) (inl (e, e')) = inl e
Follows-OneOf prevp p b (x ∷ xs) (inr o) = inr (Follows-OneOf prevp p x xs o)

remove-OneOf :
    (m : Memory) (q prevp p b : ℕ) (xs : List ℕ)
    → Chain m b xs q
    → Follows prevp p b xs
    → OneOf prevp b (remove p xs)
unfolding Chain Follows OneOf remove
remove-OneOf m q prevp p b [] c o = elim o [ ]
remove-OneOf m q prevp p b (x ∷ xs) (next, lt, gap, c) (inl (e, e')) =
    let t : (x == p) ≡ true = ground arith in rw t (first xs)
  where
    first : (ys : List ℕ) → OneOf prevp b ys
    first [] = e
    first (y ∷ ys) = inl e
remove-OneOf m q prevp p b (x ∷ xs) (next, lt, gap, c) (inr o) =
    let (le, lt') = Follows-lt m q prevp p x xs c o in
    let f : (x == p) ≡ false = ground arith in
    let rest = remove-OneOf m q prevp p x xs c o in rw f (inr rest)

length-remove : (p : ℕ) (xs : List ℕ) → length (remove p xs) ≤ length xs
unfolding remove
length-remove p [] = omega arith
length-remove p (x ∷ xs) =
    let le : length (remove p xs) ≤ length xs = length-remove p xs in
    elim (Bool-cases (x == p)) [ inl t ↦ rw t (omega arith) | inr f ↦ rw f (omega arith) ]

abbrev unlinked : Memory → ℕ → ℕ → Memory
unlinked m prevp p = record (set_header prevp (record (m.headers prevp) { ptr = ptr_of m p }) m) {
  freep = prevp;
}

abbrev carved : Memory → ℕ → ℕ → ℕ → Memory
carved m n prevp p =
    let left = size_of m p - n in
    let shorter = set_header p (record (m.headers p) { size = left }) m in
    record (set_header (p + left) (record (shorter.headers (p + left)) { size = n }) shorter) {
      freep = prevp;
    }

module _ (m : Memory) (base n prevp p : ℕ) (xs : List ℕ) (c : Chain m base xs base)
    (ends : Ends m (base ∷ xs)) (o : Follows prevp p base xs) (some-units : 0 < n) where
  take_block_whole : size_of m p ≡ n → take_block n prevp p m ≡ (unlinked m prevp p, pointer_to p)
  unfolding take_block
  take_block_whole e = let t : (size_of m p == n) ≡ true = ground arith in rw (take_block, t) refl

  unlinked-Taken : size_of m p ≡ n → Taken m (unlinked m prevp p) base n p xs (remove p xs)
  unfolding update Ends
  unlinked-Taken e =
      let m' : Memory = unlinked m prevp p in
      let (le, lt) = Follows-lt m base prevp p base xs c o in
      let sizes : (a : ℕ) → size_of m' a ≡ size_of m a = λ a. ground arith in
      let chain : Chain m' base (remove p xs) base =
        unlink-Chain m m' base prevp p base xs c o (λ a ne. ground arith) (ground arith)
          (sizes prevp) in
      let ends' : Ends m' (base ∷ remove p xs) = unlink-Ends m m' p base xs sizes ends in
      let fits : p + size_of m p < 2 ^ 32 = Follows-Ends m prevp p base xs o (ends.1) in
      let size : size_of m' p ≡ n = sizes p ∙ e in
      record {
        chain = chain;
        start = remove-OneOf m base prevp p base xs c o;
        ends = ends';
        size = size;
        apart =
            Gap-Apart m' p base (omega arith) (omega arith) base (remove p xs) chain
              (unlink-Gap m m' base prevp p base xs c o sizes) ends';
        above = omega arith;
        shorter = length-remove p xs;
        first = sizes base;
        units = λ u. rw (← e) (unlink-covers m m' base prevp p base xs u c o sizes);
        bytes = refl;
      }

  take_block_cut :
      n < size_of m p
      → take_block n prevp p m ≡ (carved m n prevp p, pointer_to (p + (size_of m p - n)))
  unfolding take_block
  take_block_cut h =
      let f : (size_of m p == n) ≡ false = ground arith in
      let fits : p + size_of m p < 2 ^ 32 =
        Follows-Ends m prevp p base xs o (unfold Ends in ends.1) in
      let left : u32 (size_of m p + 2 ^ 32 - n) ≡ size_of m p - n = ground arith in
      rw (take_block, f, left) refl

  carved-Taken : n < size_of m p → Taken m (carved m n prevp p) base n (p + (size_of m p - n)) xs xs
  unfolding update Ends
  carved-Taken h =
      let m' : Memory = carved m n prevp p in
      let bp : ℕ = p + (size_of m p - n) in
      let (le, lt) = Follows-lt m base prevp p base xs c o in
      let fits : p + size_of m p < 2 ^ 32 = Follows-Ends m prevp p base xs o (ends.1) in
      let same : (a : ℕ) → a ≢ p → (a < p) ⊎ (p + size_of m p ≤ a) → m'.headers a ≡ m.headers a =
        λ a ne side. (let ne' : a ≢ bp = ground arith in ground arith) in
      let ptr-p : ptr_of m' p ≡ ptr_of m p = ground arith in
      let size-p : size_of m' p ≡ size_of m p - n = ground arith in
      let size : size_of m' bp ≡ n = ground arith in
      let chain : Chain m' base xs base =
        carve-Chain m m' base prevp p base xs c o same ptr-p (omega arith) in
      let ends' : Ends m' (base ∷ xs) =
        carve-Ends m m' base prevp p base xs c o same (omega arith) ends in
      record {
        chain = chain;
        start = Follows-OneOf prevp p base xs o;
        ends = ends';
        size = size;
        apart =
            Gap-Apart m' bp base (omega arith) (omega arith) base xs chain
              (carve-Gap m m' base prevp p base bp xs c o (omega arith) (omega arith) (omega arith))
              ends';
        above = omega arith;
        shorter = omega arith;
        first = ap (λ h. h.size) (same base (omega arith) (inl (omega arith)));
        units = λ u.
            carve-covers m m' base prevp p base n xs u c o same (omega arith)
            ∙ ap (λ v. within (p + v) n u || covers m' (base ∷ xs) u) size-p;
        bytes = refl;
      }

  pub take_block-Taken :
      n ≤ size_of m p
      → (m' : Memory) × (bp : ℕ) × (ys : List ℕ) × (take_block n prevp p m ≡ (m', pointer_to bp))
        × Taken m m' base n bp xs ys
  take_block-Taken h = elim (Bool-cases (size_of m p == n)) [
    | inl t ↦
        (let e : size_of m p ≡ n = ground arith in
          (unlinked m prevp p, p, remove p xs, take_block_whole e, unlinked-Taken e))
    | inr f ↦
        (let less : n < size_of m p = ground arith in
          (carved m n prevp p, p + (size_of m p - n), xs, take_block_cut less, carved-Taken less))
  ]
