-- ===== src/FreeList/Roundtrip.antt =====
-- `free_blocks` undoes `allocate_blocks` on the list.
use opperating_system_practi.Base.{ℕ, ◌+◌, ◌-◌, ◌<◌, ◌≡◌, some, arith}
use opperating_system_practi.FreeList.{FreeList, allocate, release}
use opperating_system_practi.FreeList.Blocks.{Coalesced}
use opperating_system_practi.FreeList.Allocate.{Takes, allocate-Takes}
use opperating_system_practi.FreeList.Release.{IsUsed, Gives, release-Gives}
use opperating_system_practi.FreeList.Canonical.{canonical}

taken-IsUsed :
    (lo n : ℕ) (rs : FreeList) (a : ℕ) (rs' : FreeList)
    → Takes lo n rs a rs'
    → 0 < n
    → IsUsed rs' a (a + n - 1)
taken-IsUsed lo n rs a rs' t h b p q = ground (arith, t.left b)

-- Giving back the blocks that were just taken restores the list as it was.
pub release-allocate :
    (lo n : ℕ) (rs : FreeList) (a : ℕ) (rs' : FreeList)
    → Coalesced lo rs
    → 0 < n
    → allocate n rs ≡ some (a, rs')
    → release a n rs' ≡ rs
release-allocate lo n rs a rs' w h e =
    let t : Takes lo n rs a rs' = allocate-Takes lo n rs a rs' w h e in
    let g : Gives lo a (a + n - 1) rs' (release a n rs') =
      release-Gives lo a n rs' t.coalesced t.above h (taken-IsUsed lo n rs a rs' t h) in
    canonical lo lo (release a n rs') rs g.coalesced w
      (λ b. ground (arith, g.joined b, t.left b, t.was_free b))
