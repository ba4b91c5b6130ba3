-- ===== src/Allocator/Units/Free.antt =====
-- `free` of xv6-riscv/user/umalloc.c against the set of free units.
use mathlib.Core.Path.{subst}
use opperating_system_practi.Base.{
  ℕ, ◌+◌, ◌≤◌, ◌<◌, ◌||◌, ◌≡◌, refl, inl, inr, some, List, [], ◌∷◌, arith, ltb, length, Bool-cases,
}
use opperating_system_practi.Allocator.{
  Memory, size_of, header_of, pointer_to, find_place, join_next, join_prev, insert_at, free,
}
use opperating_system_practi.Allocator.Ring.{Chain, Apart, OneOf, place, find_place-place}
use opperating_system_practi.Allocator.Freed.{
  with_block, place_climb, place_stay, with_block_climb, insert_at-Chain,
}
use opperating_system_practi.Allocator.Units.{within, covers, insert_at-covers}

-- The list `xs` became `ys` in `m'`: it is in order from `base` and back, `freep` is one of its blocks,
-- the units of the block at `bp` are free besides those that were, and the bytes stay.
pub record Freed (m m' : Memory) (base bp : ℕ) (xs ys : List ℕ) : Type 0 where
  pub chain : Chain m' base ys base
  pub start : OneOf m'.freep base ys
  pub units :
      (u : ℕ) → covers m' (base ∷ ys) u ≡ (within bp (size_of m bp) u || covers m (base ∷ xs) u)
  pub bytes : m'.bytes ≡ m.bytes

OneOf-first : (p : ℕ) (ys : List ℕ) → OneOf p p ys
unfolding OneOf
OneOf-first p [] = refl
OneOf-first p (y ∷ ys) = inl refl

OneOf-later : (f p x : ℕ) (ys : List ℕ) → OneOf f x ys → OneOf f p (x ∷ ys)
unfolding OneOf
OneOf-later f p x ys o = inr o

place-OneOf : (m : Memory) (bp p : ℕ) (xs : List ℕ) → OneOf (place p xs bp) p (with_block m bp p xs)
place-OneOf m bp p [] = unfold place in OneOf-first p (with_block m bp p [])
place-OneOf m bp p (x ∷ xs) = elim (Bool-cases (ltb x bp)) [
  | inl t ↦
      rw (place_climb m bp p x xs t, with_block_climb m bp p x xs t)
        (OneOf-later (place x xs bp) p x (with_block m bp x xs) (place-OneOf m bp x xs))
  | inr f ↦ rw (place_stay m bp p x xs f) (OneOf-first p (with_block m bp p (x ∷ xs)))
]

module _ (m : Memory) (bp p : ℕ) where
  insert_at_start : (insert_at bp p m).freep ≡ p
  unfolding insert_at
  insert_at_start = refl

  insert_at-bytes : (insert_at bp p m).bytes ≡ m.bytes
  unfolding insert_at join_next join_prev
  insert_at-bytes = ground arith

free-header_of :
    (m : Memory) (addr p fuel : ℕ)
    → find_place fuel m (header_of addr) m.freep ≡ some p
    → free fuel addr m ≡ some (insert_at (header_of addr) p m)
unfolding free
free-header_of m addr p fuel e = rw (free, e) refl

free-pointer_to :
    (m : Memory) (bp p fuel : ℕ)
    → find_place fuel m bp m.freep ≡ some p
    → free fuel (pointer_to bp) m ≡ some (insert_at bp p m)
free-pointer_to m bp p fuel =
    let h : header_of (pointer_to bp) ≡ bp = omega arith in
    subst
      (λ b.
        find_place fuel m b m.freep ≡ some p → free fuel (pointer_to bp) m ≡ some (insert_at b p m))
      h (free-header_of m (pointer_to bp) p fuel)

-- Where the list is in order from `base` and back, `freep` is one of its blocks, and a block behind
-- `base` shares no unit with the free ones, all of them below 2^32 units: `free` of it ends, whatever
-- block the search starts at, and puts it into the list, which is in order again; the units of the
-- block become free and no others, and the bytes stay.
pub free-Freed :
    (m : Memory) (base bp : ℕ) (xs : List ℕ) (fuel : ℕ)
    → Chain m base xs base
    → Apart m bp (base ∷ xs)
    → OneOf m.freep base xs
    → base < bp
    → length xs + length xs + 2 ≤ fuel
    → (m' : Memory) × (ys : List ℕ) × (free fuel (pointer_to bp) m ≡ some m')
      × Freed m m' base bp xs ys
unfolding Apart
free-Freed m base bp xs fuel c (ne, below, above, fits, a) o lt n =
    let p : ℕ = place base xs bp in
    let found = find_place-place m base bp xs fuel c a o lt n in
    (
      insert_at bp p m,
      with_block m bp base xs,
      free-pointer_to m bp p fuel found,
      record {
        chain = insert_at-Chain m bp base base xs c (ne, below, above, fits, a) lt (omega arith);
        start = rw (insert_at_start m bp p) (place-OneOf m bp base xs);
        units = λ u.
            insert_at-covers m bp base base xs u c (ne, below, above, fits, a) lt (omega arith);
        bytes = insert_at-bytes m bp p;
      },
    )
