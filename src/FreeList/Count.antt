-- ===== src/FreeList/Count.antt =====
-- The number of free blocks, which `used_blocks` of the superblock complements.
use opperating_system_practi.Base.{
  ℕ, ◌+◌, ◌-◌, ◌≤◌, ◌<◌, false, ◌≡◌, inl, inr, some, [], ◌∷◌, leb, ltb, arith, Bool-cases,
}
use opperating_system_practi.FreeList.{
  Region, FreeList, get_block_count, allocate, release, insert_first, insert_after, insert_range,
  starts_below, total_free,
}
use opperating_system_practi.FreeList.Blocks.{Coalesced}
use opperating_system_practi.FreeList.Allocate.{keep-eq-some}
use opperating_system_practi.FreeList.Release.{IsUsed, IsUsed-tail, used_before}

-- A successful `allocate_blocks` takes as many blocks from the list as it was asked for.
pub total_free-allocate :
    (n : ℕ) (rs : FreeList) (a : ℕ) (rs' : FreeList)
    → allocate n rs ≡ some (a, rs')
    → total_free rs ≡ total_free rs' + n
unfolding allocate total_free
total_free-allocate n [] a rs' h = ground arith
total_free-allocate n (r ∷ rs) a rs' h = elim (Bool-cases (leb n (get_block_count r))) [
  | inl fits ↦ ground arith
  | inr small ↦
      let (rest, e, e') = keep-eq-some r (allocate n rs) a rs' (rw small at h) in
      rw e' (omega (arith, total_free-allocate n rs a rest e))
]

total_free-insert_first :
    (lo s e : ℕ) (rs : FreeList)
    → Coalesced lo rs
    → s ≤ e + 1
    → IsUsed rs s e
    → starts_below s rs ≡ false
    → total_free (insert_first s e rs) ≡ total_free rs + (e + 1 - s)
unfolding insert_first total_free
total_free-insert_first lo s e [] w k used t = omega arith
total_free-insert_first lo s e (r ∷ rs) w k used t = ground arith

total_free-insert_after :
    (lo s e : ℕ) (p : Region) (rs : FreeList)
    → Coalesced lo (p ∷ rs)
    → p.end_block < s
    → s ≤ e + 1
    → starts_below s rs ≡ false
    → total_free (insert_after p s e rs) ≡ total_free (p ∷ rs) + (e + 1 - s)
unfolding insert_after total_free
total_free-insert_after lo s e p [] w h k t = ground arith
total_free-insert_after lo s e p (r ∷ rs) w h k t = ground arith

total_free-insert_range :
    (lo s e : ℕ) (rs : FreeList)
    → Coalesced lo rs
    → s ≤ e
    → IsUsed rs s e
    → total_free (insert_range s e rs) ≡ total_free rs + (e + 1 - s)
unfolding insert_range total_free
total_free-insert_range lo s e [] w k used = unfold insert_first in omega arith
total_free-insert_range lo s e (r ∷ rs) w k used = elim (Bool-cases (ltb r.start_block s)) [
  | inl below ↦
      let before : r.end_block < s = used_before s e r rs (ground arith) k used in
      elim (Bool-cases (starts_below s rs)) [
        | inl more ↦
            rw (below, more)
              (omega (
                arith,
                total_free-insert_range (r.end_block + 2) s e rs w.2 k (IsUsed-tail s e r rs used),
              ))
        | inr last ↦
            rw (below, last) (total_free-insert_after lo s e r rs w before (omega arith) last)
      ]
  | inr above ↦ rw above (total_free-insert_first lo s e (r ∷ rs) w (omega arith) used above)
]

-- Blocks in use that are given back add up with the free ones.
pub total_free-release :
    (lo a n : ℕ) (rs : FreeList)
    → Coalesced lo rs
    → 0 < n
    → IsUsed rs a (a + n - 1)
    → total_free (release a n rs) ≡ total_free rs + n
unfolding release
total_free-release lo a n rs w h used =
    omega (arith, total_free-insert_range lo a (a + n - 1) rs w (omega arith) used)
