-- ===== src/Blocks.antt =====
-- Allocation on the state: the free list together with `used_blocks` of the superblock.
-- `used_blocks` never falls below what is given back, so the subtraction does not stop at 0.
pub mod Roundtrip
use opperating_system_practi.Base.{ℕ, ◌+◌, ◌-◌, ◌/◌, Option, none, some, ◌==◌, if◌then◌else◌}
use opperating_system_practi.FreeList.{FreeList, allocate, release}
use opperating_system_practi.Types.{Fs, block_size}

-- `(size + BLOCK_SIZE - 1) / BLOCK_SIZE`
abbrev pub blocks_for : ℕ → ℕ
blocks_for size = (size + block_size - 1) / block_size

-- the end of `allocate_blocks`: `none` is the -1 for no space
unfoldable pub take_blocks : ℕ → Fs → Option (ℕ × FreeList) → Fs × Option ℕ
take_blocks count s none = (s, none)
take_blocks count s (some (a, rs)) = (
  record s {
    free_list = rs;
    super_block = record s.super_block { used_blocks = s.super_block.used_blocks + count };
  },
  some a,
)

unfoldable pub allocate_blocks : ℕ → Fs → Fs × Option ℕ
unfolding take_blocks
allocate_blocks count s = take_blocks count s (allocate count s.free_list)

abbrev pub at_least_one : ℕ → ℕ
at_least_one n = if n == 0 then 1 else n

-- The size is in bytes; at least one block is taken.
unfoldable pub fs_alloc : ℕ → Fs → Fs × Option ℕ
unfolding take_blocks
fs_alloc size s =
    let needed = at_least_one (blocks_for size) in
    take_blocks needed s (allocate needed s.free_list)

unfoldable pub free_blocks : ℕ → ℕ → Fs → Fs
free_blocks start count s = record s {
  free_list = release start count s.free_list;
  super_block = record s.super_block { used_blocks = s.super_block.used_blocks - count };
}

unfoldable pub fs_free : ℕ → ℕ → Fs → Fs
fs_free start size s =
    let count = at_least_one (blocks_for size) in
    record s {
      free_list = release start count s.free_list;
      super_block = record s.super_block { used_blocks = s.super_block.used_blocks - count };
    }
