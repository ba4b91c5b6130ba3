-- ===== src/Tests/Allocators.antt =====
-- Runs of the allocator, with a system that hands out memory from a break on.
use opperating_system_practi.Base.{
  ℕ, ◌+◌, ◌-◌, ◌*◌, ◌^◌, ◌≤◌, ◌≡◌, refl, inl, inr, Option, none, some, List, [], ◌∷◌, ◌==◌,
  if◌then◌else◌, arith,
}
use opperating_system_practi.Allocator.{Memory, free, update, pointer_to, size_of}
use opperating_system_practi.Allocator.Ring.{Chain, Apart, OneOf}
use opperating_system_practi.Allocator.Units.Free.{Freed, free-Freed}
use opperating_system_practi.Allocator.Units.{within, covers}
use opperating_system_practi.Allocator.Taken.Gaps.{Ends}
use opperating_system_practi.Allocator.Taken.Block.{Taken}
use opperating_system_practi.Allocator.Search.{Fits}
use opperating_system_practi.Allocator.Search.Malloc.{IsRing, malloc-Taken, malloc-free}
use opperating_system_practi.Allocator.Search.Calloc.{calloc_room}
use opperating_system_practi.Allocator.Malloc.{malloc, calloc}

-- The break moves by the bytes that are asked for.
abbrev grow : ℕ → ℕ → ℕ × Option ℕ
grow n brk = (brk + n, some brk)

abbrev empty : Memory
empty = record { headers = λ _. record { ptr = 0; size = 0 }; bytes = λ _. 7; freep = 0 }

abbrev pointer : Option (ℕ × Memory × ℕ) → Option ℕ
pointer none = none
pointer (some (_, _, p)) = some p

abbrev requested : Option (ℕ × Memory × ℕ) → Option ℕ
requested none = none
requested (some (brk, _, _)) = some brk

-- The block is cut from the end of the new memory.
malloc_first : pointer (malloc grow 100 9 20 16384 empty) ≡ some (16384 + 65536 - 32)
unfolding malloc update free
malloc_first = refl

-- A product of 2^32 bytes is a block of no byte.
calloc_wrapped : pointer (calloc grow 100 9 65536 65536 16384 empty) ≡ some (16384 + 65536)
unfolding calloc update free
calloc_wrapped = refl

-- The most bytes that can be asked for move the break by 16 only.
malloc_most : requested (malloc grow 100 9 (2 ^ 32 - 1) 16384 empty) ≡ some (16384 + 16)
unfolding malloc update free
malloc_most = refl

-- The block of 5 units at 100 is free, the one of 3 units at 105 is not.
abbrev one_free : Memory
one_free = record {
  headers = λ p.
      if p == 10
      then record { ptr = 100; size = 0 }
      else if p == 100
      then record { ptr = 10; size = 5 }
      else record { ptr = 0; size = 3 };
  bytes = λ _. 7;
  freep = 100;
}

one_free-Chain : Chain one_free 10 (100 ∷ []) 10
unfolding Chain
one_free-Chain = (refl, omega arith, omega arith, refl)

one_free-Apart : Apart one_free 105 (10 ∷ 100 ∷ [])
unfolding Apart
one_free-Apart = (
  omega arith,
  λ _. omega arith,
  λ h. omega arith,
  omega arith,
  (omega arith, λ _. omega arith, λ h. omega arith, omega arith, omega arith),
)

one_free-OneOf : OneOf 100 10 (100 ∷ [])
unfolding OneOf
one_free-OneOf = inr refl

free-Freed_example :
    (m' : Memory) × (ys : List ℕ) × (free 4 (pointer_to 105) one_free ≡ some m')
    × Freed one_free m' 10 105 (100 ∷ []) ys
free-Freed_example =
    free-Freed one_free 10 105 (100 ∷ []) 4 one_free-Chain one_free-Apart one_free-OneOf
      (omega arith) (omega arith)

one_free-Ends : Ends one_free (10 ∷ 100 ∷ [])
unfolding Ends
one_free-Ends = (omega arith, (omega arith, tt))

one_free-IsRing : IsRing one_free 10 (100 ∷ [])
one_free-IsRing = record {
  positive = omega arith;
  chain = one_free-Chain;
  start = one_free-OneOf;
  ends = one_free-Ends;
  none = refl;
}

one_free-Fits : Fits one_free 3 (100 ∷ [])
unfolding Fits
one_free-Fits = inl (omega arith)

malloc-Taken_example :
    (m' : Memory) × (bp : ℕ) × (ys : List ℕ) × (malloc grow 10 4 20 16384 one_free
      ≡ some (16384, m', pointer_to bp))
    × (20 + 16 ≤ size_of m' bp * 16)
    × Taken one_free m' 10 3 bp (100 ∷ []) ys
malloc-Taken_example =
    malloc-Taken grow 10 16384 one_free (100 ∷ []) 4 20 one_free-IsRing (omega arith) one_free-Fits
      (omega arith)

malloc-free_example :
    (m' : Memory) × (bp : ℕ) × (m'' : Memory) × (zs : List ℕ) × (malloc grow 10 4 20 16384 one_free
      ≡ some (16384, m', pointer_to bp))
    × (free 4 (pointer_to bp) m' ≡ some m'')
    × Chain m'' 10 zs 10
    × ((u : ℕ) → covers m'' (10 ∷ zs) u ≡ covers one_free (10 ∷ 100 ∷ []) u)
    × (m''.bytes ≡ one_free.bytes)
malloc-free_example =
    malloc-free grow 10 16384 one_free (100 ∷ []) 4 20 one_free-IsRing (omega arith) one_free-Fits
      (omega arith)

calloc-room_example :
    (m' : Memory) × (bp : ℕ) × (calloc grow 10 4 5 4 16384 one_free
      ≡ some (16384, m', pointer_to bp))
    × (5 * 4 + 16 ≤ size_of m' bp * 16)
    × ((a : ℕ) → m'.bytes a ≡ (if within (pointer_to bp) (5 * 4) a then 0 else one_free.bytes a))
calloc-room_example =
    calloc_room grow 10 16384 one_free (100 ∷ []) 4 5 4 one_free-IsRing (omega arith) one_free-Fits
      (omega arith)
