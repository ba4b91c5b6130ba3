-- ===== src/Allocator/Malloc.antt =====
-- `morecore`, `malloc`, `realloc` and `calloc` of xv6-riscv/user/umalloc.c. The system call `sbrk` is a
-- parameter: it gets the bits of its `int`, acts on a state of the system, and answers with an
-- address, `none` for `SBRK_ERROR`. A result `none` is a loop that does not end within the fuel, and a
-- pointer of 0 is the null pointer.
use opperating_system_practi.Base.{
  ℕ, zero, suc, ◌+◌, ◌-◌, ◌*◌, ◌/◌, ◌^◌, true, false, Option, none, some, ltb, leb, ◌==◌,
  if◌then◌else◌,
}
use opperating_system_practi.Allocator.{
  Memory, header_bytes, u32, ptr_of, size_of, set_header, header_of, pointer_to, free,
}

-- `nbytes + sizeof(Header) - 1` is a sum of 64 bits, which the `uint` cannot exceed.
abbrev pub units_of : ℕ → ℕ
units_of nbytes = u32 ((nbytes + header_bytes - 1) / header_bytes + 1)

-- The least number of units that is asked from the system.
abbrev pub core_units : ℕ → ℕ
core_units nu = if ltb nu 4096 then 4096 else nu

-- The list of free blocks with `base` only.
abbrev pub init_free : ℕ → Memory → Memory
init_free base m =
    if m.freep == 0
    then record (set_header base (record { ptr = base; size = 0 }) m) { freep = base }
    else m

-- The block is cut from the end of `p`, or `p` leaves the list.
unfoldable pub take_block : ℕ → ℕ → ℕ → Memory → Memory × ℕ
take_block nunits prevp p m =
    if size_of m p == nunits
    then (
      record (set_header prevp (record (m.headers prevp) { ptr = ptr_of m p }) m) { freep = prevp },
      pointer_to p,
    )
    else (let left = u32 (size_of m p + 2 ^ 32 - nunits) in
        let q = p + left in
        let shorter = set_header p (record (m.headers p) { size = left }) m in
        (
          record (set_header q (record (shorter.headers q) { size = nunits }) shorter) {
            freep = prevp;
          },
          pointer_to q,
        ))

-- The bytes `src` to `src + n` are copied in order.
unfoldable pub copy_bytes : ℕ → ℕ → ℕ → (ℕ → ℕ) → ℕ → ℕ
copy_bytes zero src dst b = b
copy_bytes (suc n) src dst b =
    let done = copy_bytes n src dst b in λ a. if a == dst + n then done (src + n) else done a

unfoldable pub zero_bytes : ℕ → ℕ → (ℕ → ℕ) → ℕ → ℕ
zero_bytes zero p b = b
zero_bytes (suc n) p b = let done = zero_bytes n p b in λ a. if a == p + n then 0 else done a

-- `(bp->s.size - 1) * sizeof(Header)`, kept in a `uint`
abbrev pub old_size : Memory → ℕ → ℕ
old_size m ptr = u32 (u32 (size_of m (header_of ptr) + 2 ^ 32 - 1) * header_bytes)

-- The number of times that the loop of `realloc` runs.
abbrev pub copied : ℕ → ℕ → ℕ
copied old nbytes = if ltb old nbytes then old else nbytes

module _ {W : Type 0} (sbrk : ℕ → W → W × Option ℕ) (base : ℕ) where
  unfoldable pub morecore : ℕ → ℕ → W → Memory → Option (W × Memory × ℕ)
  morecore fuel nu w m =
      let n = core_units nu in
      let (w', answer) = sbrk (u32 (n * header_bytes)) w in
      elim answer [
        | none ↦ some (w', m, 0)
        | some a ↦
            let hp = a / header_bytes in
            elim (free fuel (pointer_to hp)
              (set_header hp (record (m.headers hp) { size = n }) m)) [
                | none ↦ none
                | some m' ↦ some (w', m', m'.freep)
              ]
      ]

  unfoldable pub find_fit : ℕ → ℕ → ℕ → ℕ → W → Memory → Option (W × Memory × ℕ)
  unfolding take_block morecore
  find_fit zero nunits prevp p w m = none
  find_fit (suc fuel) nunits prevp p w m = elim (leb nunits (size_of m p)) [
    | true ↦ let (m', q) = take_block nunits prevp p m in some (w, m', q)
    | false ↦ elim (p == m.freep) [
      | false ↦ find_fit fuel nunits p (ptr_of m p) w m
      | true ↦ elim (morecore fuel nunits w m) [
        | none ↦ none
        | some (w', m', zero) ↦ some (w', m', 0)
        | some (w', m', suc q) ↦ find_fit fuel nunits (suc q) (ptr_of m' (suc q)) w' m'
      ]
    ]
  ]

  unfoldable pub malloc : ℕ → ℕ → W → Memory → Option (W × Memory × ℕ)
  unfolding find_fit
  malloc fuel nbytes w m =
      let m' = init_free base m in
      find_fit fuel (units_of nbytes) m'.freep (ptr_of m' m'.freep) w m'

  -- The old content goes to the new block, and the old block is freed.
  unfoldable pub move_block : ℕ → ℕ → ℕ → ℕ → Option (W × Memory × ℕ) → Option (W × Memory × ℕ)
  unfolding copy_bytes
  move_block fuel ptr old nbytes none = none
  move_block fuel ptr old nbytes (some (w, m, zero)) = some (w, m, 0)
  move_block fuel ptr old nbytes (some (w, m, suc new)) =
      elim (free fuel ptr
        (record m { bytes = copy_bytes (copied old nbytes) ptr (suc new) m.bytes })) [
          | none ↦ none
          | some m' ↦ some (w, m', suc new)
        ]

  unfoldable pub realloc : ℕ → ℕ → ℕ → W → Memory → Option (W × Memory × ℕ)
  unfolding malloc move_block
  realloc fuel ptr nbytes w m =
      if ptr == 0
      then malloc fuel nbytes w m
      else if nbytes == 0
      then elim (free fuel ptr m) [ none ↦ none | some m' ↦ some (w, m', 0) ]
      else move_block fuel ptr (old_size m ptr) nbytes (malloc fuel nbytes w m)

  unfoldable pub zero_block : ℕ → Option (W × Memory × ℕ) → Option (W × Memory × ℕ)
  unfolding zero_bytes
  zero_block total none = none
  zero_block total (some (w, m, zero)) = some (w, m, 0)
  zero_block total (some (w, m, suc p)) =
      some (w, record m { bytes = zero_bytes total (suc p) m.bytes }, suc p)

  unfoldable pub calloc : ℕ → ℕ → ℕ → W → Memory → Option (W × Memory × ℕ)
  unfolding malloc zero_block
  calloc fuel num size w m =
      let total = u32 (num * size) in zero_block total (malloc fuel total w m)
