-- ===== src/FreeList/Canonical.antt =====
-- A coalesced list is determined by the set of its blocks.
use opperating_system_practi.Base.{ℕ, ◌+◌, ◌≤◌, ◌≡◌, refl, [], ◌∷◌, arith, ap₂, sym}
use opperating_system_practi.FreeList.{Region, FreeList}
use opperating_system_practi.FreeList.Blocks.{is_free, Coalesced, is_free_below}

module _ (lo lo' : ℕ) (r r' : Region) (rs rs' : FreeList) (w : Coalesced lo (r ∷ rs))
    (w' : Coalesced lo' (r' ∷ rs'))
    (same : (b : ℕ) → is_free (r ∷ rs) b ≡ is_free (r' ∷ rs') b) where
  start-le : r'.start_block ≤ r.start_block
  unfolding is_free
  start-le =
      ground (arith, same r.start_block, is_free_below (r'.end_block + 2) rs' r.start_block w'.2)

  end-le : r.start_block ≡ r'.start_block → r.end_block ≤ r'.end_block
  unfolding is_free
  end-le e =
      ground (
        arith,
        same (r'.end_block + 1),
        is_free_below (r'.end_block + 2) rs' (r'.end_block + 1) w'.2,
      )

  same_tail :
      r.start_block ≡ r'.start_block
      → r.end_block ≡ r'.end_block
      → (b : ℕ) → is_free rs b ≡ is_free rs' b
  unfolding is_free
  same_tail e f b = ground (
    arith,
    same b,
    is_free_below (r.end_block + 2) rs b w.2,
    is_free_below (r'.end_block + 2) rs' b w'.2,
  )

-- Two coalesced lists with the same free blocks are one list.
pub canonical :
    (lo lo' : ℕ) (rs rs' : FreeList)
    → Coalesced lo rs
    → Coalesced lo' rs'
    → ((b : ℕ) → is_free rs b ≡ is_free rs' b)
    → rs ≡ rs'
unfolding is_free
canonical lo lo' [] [] w w' same = refl
canonical lo lo' [] (r' ∷ rs') w w' same = ground (arith, same r'.start_block)
canonical lo lo' (r ∷ rs) [] w w' same = ground (arith, same r.start_block)
canonical lo lo' (r ∷ rs) (r' ∷ rs') w w' same =
    let e : r.start_block ≡ r'.start_block = omega (
      arith,
      start-le lo lo' r r' rs rs' w w' same,
      start-le lo' lo r' r rs' rs w' w (λ b. sym (same b)),
    ) in
    let f : r.end_block ≡ r'.end_block = omega (
      arith,
      end-le lo lo' r r' rs rs' w w' same e,
      end-le lo' lo r' r rs' rs w' w (λ b. sym (same b)) (sym e),
    ) in
    ap₂ ◌∷◌ (λ i. record { start_block = e i; end_block = f i })
      (canonical (r.end_block + 2) (r'.end_block + 2) rs rs' w.2 w'.2
        (same_tail lo lo' r r' rs rs' w w' same e f))
