-- ===== src/Allocator/Search/Malloc.antt =====
-- `malloc` of xv6-riscv/user/umalloc.c where a free block is large enough, and `free` behind it.
use opperating_system_practi.Base.{
  ℕ, ◌+◌, ◌*◌, ◌/◌, ◌^◌, ◌≤◌, ◌<◌, false, ◌||◌, ◌≡◌, refl, sym, ◌∙◌, ap, Option, some, List, ◌∷◌,
  arith, ◌==◌, length,
}
use opperating_system_practi.Allocator.{Memory, ptr_of, size_of, pointer_to, free}
use opperating_system_practi.Allocator.Malloc.{find_fit, malloc, units_of}
use opperating_system_practi.Allocator.Ring.{Chain, OneOf, OneOf-ge}
use opperating_system_practi.Allocator.Units.{within, covers}
use opperating_system_practi.Allocator.Units.Free.{free-Freed}
use opperating_system_practi.Allocator.Search.{Fits}
use opperating_system_practi.Allocator.Search.Round.{find_fit-taken}
use opperating_system_practi.Allocator.Taken.Gaps.{Ends}
use opperating_system_practi.Allocator.Taken.Block.{Taken, take_block-Taken}

-- A request gets room for its bytes and a header.
units_of_room :
    (nbytes : ℕ) → nbytes < 2 ^ 32 → (0 < units_of nbytes) × (nbytes + 16 ≤ units_of nbytes * 16)
units_of_room nbytes h =
    let e : units_of nbytes ≡ (nbytes + 15) / 16 + 1 = grind arith in (omega arith, omega arith)

-- The list is in order from `base` and back, `freep` is one of its blocks, and every block ends below
-- 2^32 units; `base` holds no unit.
pub record IsRing (m : Memory) (base : ℕ) (xs : List ℕ) : Type 0 where
  pub positive : 0 < base
  pub chain : Chain m base xs base
  pub start : OneOf m.freep base xs
  pub ends : Ends m (base ∷ xs)
  pub none : size_of m base ≡ 0

module _ {W : Type 0} (sbrk : ℕ → W → W × Option ℕ) (base : ℕ) (w : W) (m : Memory) where
  malloc-find_fit :
      (fuel nbytes : ℕ)
      → 0 < m.freep
      → malloc sbrk base fuel nbytes w m
        ≡ find_fit sbrk base fuel (units_of nbytes) m.freep (ptr_of m m.freep) w m
  unfolding malloc
  malloc-find_fit fuel nbytes h = let f : (m.freep == 0) ≡ false = ground arith in rw f refl

-- Where the list is in order and a free block is large enough for a request below 2^32 bytes, `malloc`
-- ends, whatever block the search starts at, asks the system for nothing, and takes a block with room
-- for the bytes: its units were free and are not free any more, and the list is in order again.
pub malloc-Taken :
    {W : Type 0} (sbrk : ℕ → W → W × Option ℕ) (base : ℕ) (w : W) (m : Memory) (xs : List ℕ)
    (fuel nbytes : ℕ)
    → IsRing m base xs
    → nbytes < 2 ^ 32
    → Fits m (units_of nbytes) xs
    → length xs + length xs + 1 ≤ fuel
    → (m' : Memory) × (bp : ℕ) × (ys : List ℕ) × (malloc sbrk base fuel nbytes w m
        ≡ some (w, m', pointer_to bp))
      × (nbytes + 16 ≤ size_of m' bp * 16)
      × Taken m m' base (units_of nbytes) bp xs ys
malloc-Taken sbrk base w m xs fuel nbytes ring lt fit l =
    let n : ℕ = units_of nbytes in
    let (has, room) = units_of_room nbytes lt in
    let le : base ≤ m.freep = OneOf-ge m m.freep base base xs ring.chain ring.start in
    let begins = ring.positive in
    let small : size_of m base < n = let z = ring.none in omega arith in
    let (prevp, p, follows, h, found) =
      find_fit-taken sbrk base n w m xs ring.chain ring.start small fit fuel l in
    let (m', bp, ys, e, t) =
      take_block-Taken m base n prevp p xs ring.chain ring.ends follows has h in
    let size = t.size in
    (
      m',
      bp,
      ys,
      malloc-find_fit sbrk base w m fuel nbytes (omega arith)
          ∙ found
          ∙ ap (λ r. let (v, q) = r in some (w, v, q)) e,
      omega arith,
      t,
    )

-- Where the list is in order and a free block is large enough for a request below 2^32 bytes, `malloc`
-- and then `free` of the block end, and exactly the units that were free are free again; the bytes stay.
pub malloc-free :
    {W : Type 0} (sbrk : ℕ → W → W × Option ℕ) (base : ℕ) (w : W) (m : Memory) (xs : List ℕ)
    (fuel nbytes : ℕ)
    → IsRing m base xs
    → nbytes < 2 ^ 32
    → Fits m (units_of nbytes) xs
    → length xs + length xs + 2 ≤ fuel
    → (m' : Memory) × (bp : ℕ) × (m'' : Memory) × (zs : List ℕ) × (malloc sbrk base fuel nbytes w m
        ≡ some (w, m', pointer_to bp))
      × (free fuel (pointer_to bp) m' ≡ some m'')
      × Chain m'' base zs base
      × ((u : ℕ) → covers m'' (base ∷ zs) u ≡ covers m (base ∷ xs) u)
      × (m''.bytes ≡ m.bytes)
malloc-free sbrk base w m xs fuel nbytes ring lt fit l =
    let (m', bp, ys, e, room, t) =
      malloc-Taken sbrk base w m xs fuel nbytes ring lt fit (omega arith) in
    let shorter = t.shorter in
    let (m'', zs, e', r) =
      free-Freed m' base bp ys fuel t.chain t.apart t.start t.above (omega arith) in
    (
      m',
      bp,
      m'',
      zs,
      e,
      e',
      r.chain,
      λ u. r.units u ∙ ap (λ n. within bp n u || covers m' (base ∷ ys) u) t.size ∙ sym (t.units u),
      r.bytes ∙ t.bytes,
    )
