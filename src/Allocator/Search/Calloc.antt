-- ===== src/Allocator/Search/Calloc.antt =====
-- `calloc` of xv6-riscv/user/umalloc.c where a free block is large enough.
use opperating_system_practi.Base.{
  ℕ, zero, suc, ◌+◌, ◌*◌, ◌^◌, ◌≤◌, ◌<◌, true, false, ◌≡◌, refl, sym, ◌∙◌, ap, inl, inr, Option,
  some, List, arith, ◌==◌, if◌then◌else◌, length, Bool-cases,
}
use opperating_system_practi.Allocator.{Memory, size_of, pointer_to, u32}
use opperating_system_practi.Allocator.Malloc.{malloc, calloc, units_of, zero_bytes, zero_block}
use opperating_system_practi.Allocator.Units.{within}
use opperating_system_practi.Allocator.Search.{Fits}
use opperating_system_practi.Allocator.Search.Malloc.{IsRing, malloc-Taken}

zero_bytes-within :
    (n p : ℕ) (b : ℕ → ℕ) (a : ℕ) → zero_bytes n p b a ≡ (if within p n a then 0 else b a)
unfolding zero_bytes
zero_bytes-within zero p b a = let f : within p 0 a ≡ false = ground arith in rw f refl
zero_bytes-within (suc n) p b a =
    let rest = zero_bytes-within n p b a in
    elim (Bool-cases (a == p + n)) [
      | inl t ↦ (let g : within p (suc n) a ≡ true = ground arith in rw (t, g) refl)
      | inr f ↦ (let g : within p (suc n) a ≡ within p n a = ground arith in rw (f, g) rest)
    ]

module _ {W : Type 0} (sbrk : ℕ → W → W × Option ℕ) (base fuel num size : ℕ) (w : W)
    (m : Memory) where
  calloc-malloc :
      (m' : Memory) (p : ℕ)
      → malloc sbrk base fuel (u32 (num * size)) w m ≡ some (w, m', suc p)
      → calloc sbrk base fuel num size w m
        ≡ some (w, record m' { bytes = zero_bytes (u32 (num * size)) (suc p) m'.bytes }, suc p)
  unfolding calloc zero_block
  calloc-malloc m' p e = rw e refl

-- Where the list is in order, a free block is large enough and the product of the arguments is below 2^32, `calloc` ends,
-- its block has room for the product, all bytes of that number are 0, and no other byte changed.
pub calloc_room :
    {W : Type 0} (sbrk : ℕ → W → W × Option ℕ) (base : ℕ) (w : W) (m : Memory) (xs : List ℕ)
    (fuel num size : ℕ)
    → IsRing m base xs
    → num * size < 2 ^ 32
    → Fits m (units_of (num * size)) xs
    → length xs + length xs + 1 ≤ fuel
    → (m' : Memory) × (bp : ℕ) × (calloc sbrk base fuel num size w m ≡ some (w, m', pointer_to bp))
      × (num * size + 16 ≤ size_of m' bp * 16)
      × ((a : ℕ) → m'.bytes a ≡ (if within (pointer_to bp) (num * size) a then 0 else m.bytes a))
calloc_room sbrk base w m xs fuel num size ring lt fit l =
    let total : ℕ = num * size in
    let exact : u32 total ≡ total = ground arith in
    let (m', bp, ys, e, room, t) = malloc-Taken sbrk base w m xs fuel total ring lt fit l in
    let at : pointer_to bp ≡ suc (bp * 16 + 15) = omega arith in
    let e' : malloc sbrk base fuel (u32 total) w m ≡ some (w, m', suc (bp * 16 + 15)) =
      ap (λ n. malloc sbrk base fuel n w m) exact ∙ e ∙ ap (λ p. some (w, m', p)) at in
    (
      record m' { bytes = zero_bytes total (pointer_to bp) m'.bytes },
      bp,
      calloc-malloc sbrk base fuel num size w m m' (bp * 16 + 15) e'
          ∙ ap
              (λ n. some (
                w,
                record m' { bytes = zero_bytes n (suc (bp * 16 + 15)) m'.bytes },
                suc (bp * 16 + 15),
              ))
              exact
          ∙ ap (λ p. some (w, record m' { bytes = zero_bytes total p m'.bytes }, p)) (sym at),
      room,
      λ a.
          zero_bytes-within total (pointer_to bp) m'.bytes a
          ∙ ap (λ b. if within (pointer_to bp) total a then 0 else b a) t.bytes,
    )
