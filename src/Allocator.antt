-- ===== src/Allocator.antt =====
-- The allocator of user programs, xv6-riscv/user/umalloc.c: the list of free blocks, and `free`. An
-- address of a header counts headers of 16 bytes, a `void *` counts bytes; 0 is the null pointer.
pub mod Malloc
pub mod Ring
pub mod Freed
pub mod Units
pub mod Search
pub mod Taken
use opperating_system_practi.Base.{
  ℕ, zero, suc, ◌+◌, ◌-◌, ◌*◌, ◌/◌, ◌%◌, ◌^◌, Bool, ◌&&◌, ◌||◌, Option, none, some, ltb, leb, ◌==◌,
  if◌then◌else◌,
}

-- `union header`: the next free block, and the number of units of this one, its header among them.
pub record Header : Type 0 where
  pub ptr : ℕ
  pub size : ℕ

-- The headers stand apart from the other bytes. `freep` is 0 until the first `malloc`.
pub record Memory : Type 0 where
  pub headers : ℕ → Header
  pub bytes : ℕ → ℕ
  pub freep : ℕ

-- `sizeof(Header)`
abbrev pub header_bytes : ℕ
header_bytes = 16

abbrev pub u32 : ℕ → ℕ
u32 n = n % 2 ^ 32

abbrev pub ptr_of : Memory → ℕ → ℕ
ptr_of m p = (m.headers p).ptr

abbrev pub size_of : Memory → ℕ → ℕ
size_of m p = (m.headers p).size

unfoldable pub update {ℓ} : {A : Type ℓ} → (ℕ → A) → ℕ → A → ℕ → A
update f a x b = if b == a then x else f b

abbrev pub set_header : ℕ → Header → Memory → Memory
set_header p h m = record m { headers = update m.headers p h }

-- `(Header*)ap - 1` and `(void*)(p + 1)`
abbrev pub header_of : ℕ → ℕ
header_of ap = ap / header_bytes - 1

abbrev pub pointer_to : ℕ → ℕ
pointer_to p = (p + 1) * header_bytes

-- The two tests that end the loop of `free`.
abbrev pub is_between : Memory → ℕ → ℕ → Bool
is_between m bp p = ltb p bp && ltb bp (ptr_of m p)

abbrev pub is_outside : Memory → ℕ → ℕ → Bool
is_outside m bp p = leb (ptr_of m p) p && (ltb p bp || ltb bp (ptr_of m p))

unfoldable pub find_place : ℕ → Memory → ℕ → ℕ → Option ℕ
find_place zero m bp p = none
find_place (suc fuel) m bp p =
    let rest = find_place fuel m bp (ptr_of m p) in
    if is_between m bp p || is_outside m bp p then some p else rest

-- Joins the block with the one behind it, or links it to that one.
unfoldable pub join_next : ℕ → ℕ → Memory → Memory
unfolding update
join_next bp p m =
    let q = ptr_of m p in
    if bp + size_of m bp == q
    then set_header bp (record { ptr = ptr_of m q; size = u32 (size_of m bp + size_of m q) }) m
    else set_header bp (record (m.headers bp) { ptr = q }) m

-- Joins the block with the one in front of it, or links that one to it.
unfoldable pub join_prev : ℕ → ℕ → Memory → Memory
unfolding update
join_prev bp p m =
    if p + size_of m p == bp
    then set_header p (record { ptr = ptr_of m bp; size = u32 (size_of m p + size_of m bp) }) m
    else set_header p (record (m.headers p) { ptr = bp }) m

unfoldable pub insert_at : ℕ → ℕ → Memory → Memory
unfolding join_next join_prev
insert_at bp p m = record (join_prev bp p (join_next bp p m)) { freep = p }

-- `none`: the loop does not end within the fuel.
unfoldable pub free : ℕ → ℕ → Memory → Option Memory
unfolding find_place insert_at
free fuel ap m =
    let bp = header_of ap in
    elim (find_place fuel m bp m.freep) [ none ↦ none | some p ↦ some (insert_at bp p m) ]
