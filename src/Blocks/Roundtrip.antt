-- ===== src/Blocks/Roundtrip.antt =====
-- `fs_free` undoes `fs_alloc`.
use opperating_system_practi.Base.{ℕ, ◌+◌, ◌-◌, ◌≡◌, refl, ap₂, sym, Option, none, some, arith}
use mathlib.Core.Option.{some-injective}
use opperating_system_practi.FreeList.{FreeList, allocate, release}
use opperating_system_practi.FreeList.Blocks.{Coalesced}
use opperating_system_practi.FreeList.Roundtrip.{release-allocate}
use opperating_system_practi.Types.{Fs}
use opperating_system_practi.Blocks.{fs_alloc, fs_free, take_blocks, blocks_for, at_least_one}

restored :
    (size lo : ℕ) (s : Fs) (a : ℕ) (o : Option (ℕ × FreeList))
    → Coalesced lo s.free_list
    → allocate (at_least_one (blocks_for size)) s.free_list ≡ o
    → (take_blocks (at_least_one (blocks_for size)) s o).1 ≡ some a
    → fs_free a size (take_blocks (at_least_one (blocks_for size)) s o).0 ≡ s
unfolding take_blocks fs_free
restored size lo s a none w e h = cc
restored size lo s a (some (b, rs)) w e h =
    let n : ℕ = at_least_one (blocks_for size) in
    let p : b ≡ a = some-injective b a h in
    let q : release a n rs ≡ s.free_list =
      rw (sym p) (release-allocate lo n s.free_list b rs w (ground arith) e) in
    let r : s.super_block.used_blocks + n - n ≡ s.super_block.used_blocks = omega arith in
    ap₂ (λ f u. record s { free_list = f; super_block = record s.super_block { used_blocks = u } })
      q r

-- On a coalesced free list, giving back what a successful `fs_alloc` of the same size returned
-- restores the state as it was, the list and the counter of used blocks included.
pub fs_free-fs_alloc :
    (size lo : ℕ) (s : Fs) (a : ℕ)
    → Coalesced lo s.free_list
    → (fs_alloc size s).1 ≡ some a
    → fs_free a size (fs_alloc size s).0 ≡ s
unfolding fs_alloc
fs_free-fs_alloc size lo s a w h =
    restored size lo s a (allocate (at_least_one (blocks_for size)) s.free_list) w refl h
