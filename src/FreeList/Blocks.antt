-- ===== src/FreeList/Blocks.antt =====
-- What a free list stands for: the set of its blocks. `Coalesced` is the shape that the functions
-- of File-System/filesystem.c keep: regions that are not empty, in ascending order, with at least
-- one used block between two of them.
use opperating_system_practi.Base.{
  ℕ, ◌+◌, ◌≤◌, ◌<◌, Bool, false, ◌&&◌, ◌||◌, ◌≡◌, refl, [], ◌∷◌, leb, ltb, arith,
}
use opperating_system_practi.FreeList.{Region, FreeList}

abbrev pub in_region : Region → ℕ → Bool
in_region r b = leb r.start_block b && leb b r.end_block

-- the blocks `start` to `start + count - 1`
abbrev pub in_run : ℕ → ℕ → ℕ → Bool
in_run start count b = leb start b && ltb b (start + count)

unfoldable pub is_free : FreeList → ℕ → Bool
is_free [] b = false
is_free (r ∷ rs) b = in_region r b || is_free rs b

-- No region begins below `lo`.
abbrev pub Coalesced : ℕ → FreeList → Type 0
Coalesced lo [] = Unit {0}
Coalesced lo (r ∷ rs) =
    (lo ≤ r.start_block) × (r.start_block ≤ r.end_block) × Coalesced (r.end_block + 2) rs

pub Coalesced-mono : (lo lo' : ℕ) (rs : FreeList) → lo ≤ lo' → Coalesced lo' rs → Coalesced lo rs
Coalesced-mono lo lo' [] h w = tt
Coalesced-mono lo lo' (r ∷ rs) h w = (omega arith, w.1, w.2)

pub is_free_below :
    (lo : ℕ) (rs : FreeList) (b : ℕ) → Coalesced lo rs → b < lo → is_free rs b ≡ false
unfolding is_free
is_free_below lo [] b w h = refl
is_free_below lo (r ∷ rs) b w h = ground (arith, is_free_below (r.end_block + 2) rs b w.2)

-- What lies behind a region is free only in the rest of the list.
pub is_free_beyond :
    (lo : ℕ) (r : Region) (rs : FreeList) (b : ℕ)
    → Coalesced lo (r ∷ rs)
    → r.end_block < b
    → is_free (r ∷ rs) b ≡ is_free rs b
unfolding is_free
is_free_beyond lo r rs b w h = ground arith
