-- ===== src/FreeList/Allocate.antt =====
-- `allocate_blocks`: what it takes, and when it finds nothing.
use opperating_system_practi.Base.{
  ℕ, ◌+◌, ◌≤◌, ◌<◌, true, not, ◌&&◌, ◌≡◌, refl, inl, inr, Option, none, some, [], ◌∷◌, leb, ◌==◌,
  arith, Bool-cases,
}
use opperating_system_practi.FreeList.{Region, FreeList, region, get_block_count, allocate, keep}
use opperating_system_practi.FreeList.Blocks.{
  in_run, is_free, Coalesced, Coalesced-mono, is_free_below,
}

-- What a call that returns `a` and leaves `rs'` has done to `rs`.
pub record Takes (lo n : ℕ) (rs : FreeList) (a : ℕ) (rs' : FreeList) : Type 0 where
  pub coalesced : Coalesced lo rs'
  pub above : lo ≤ a
  pub was_free : (b : ℕ) → in_run a n b ≡ true → is_free rs b ≡ true
  pub left : (b : ℕ) → is_free rs' b ≡ is_free rs b && not (in_run a n b)

allocate_exact :
    (lo n : ℕ) (r : Region) (rs : FreeList)
    → Coalesced lo (r ∷ rs)
    → 0 < n
    → n ≡ get_block_count r
    → Takes lo n (r ∷ rs) r.start_block rs
unfolding is_free
allocate_exact lo n r rs w pos e = record {
  coalesced = Coalesced-mono lo (r.end_block + 2) rs (omega arith) w.2;
  above = w.0;
  was_free = λ b p. ground arith;
  left = λ b. ground (arith, is_free_below (r.end_block + 2) rs b w.2);
}

allocate_part :
    (lo n : ℕ) (r : Region) (rs : FreeList)
    → Coalesced lo (r ∷ rs)
    → n < get_block_count r
    → Takes lo n (r ∷ rs) r.start_block (region (r.start_block + n) r.end_block ∷ rs)
unfolding is_free
allocate_part lo n r rs w h = record {
  coalesced = (omega arith, omega arith, w.2);
  above = w.0;
  was_free = λ b p. ground arith;
  left = λ b. ground (arith, is_free_below (r.end_block + 2) rs b w.2);
}

allocate_skip :
    (lo n : ℕ) (r : Region) (rs : FreeList) (a : ℕ) (rs' : FreeList)
    → Coalesced lo (r ∷ rs)
    → Takes (r.end_block + 2) n rs a rs'
    → Takes lo n (r ∷ rs) a (r ∷ rs')
unfolding is_free
allocate_skip lo n r rs a rs' w t = record {
  coalesced = (w.0, w.1, t.coalesced);
  above = omega (arith, t.above);
  was_free = λ b p. ground (arith, t.was_free b);
  left = λ b. ground (arith, t.left b, t.above);
}

-- `keep`, taken apart
pub keep-eq-some :
    (r : Region) (o : Option (ℕ × FreeList)) (a : ℕ) (rs : FreeList)
    → keep r o ≡ some (a, rs)
    → (rs' : FreeList) × (o ≡ some (a, rs')) × (rs ≡ r ∷ rs')
keep-eq-some r none a rs h = cc
keep-eq-some r (some (a', rs')) a rs h = (rs', ground arith, ground arith)

keep-eq-none : (r : Region) (o : Option (ℕ × FreeList)) → keep r o ≡ none → o ≡ none
keep-eq-none r none h = refl
keep-eq-none r (some p) h = cc

-- A successful `allocate_blocks` of at least one block takes `n` blocks that were free, takes
-- nothing else, and keeps the list coalesced.
pub allocate-Takes :
    (lo n : ℕ) (rs : FreeList) (a : ℕ) (rs' : FreeList)
    → Coalesced lo rs
    → 0 < n
    → allocate n rs ≡ some (a, rs')
    → Takes lo n rs a rs'
unfolding allocate
allocate-Takes lo n [] a rs' w pos h = cc
allocate-Takes lo n (r ∷ rs) a rs' w pos h = elim (Bool-cases (leb n (get_block_count r))) [
  | inl fits ↦ elim (Bool-cases (get_block_count r == n)) [
    | inl exact ↦ ground (arith, allocate_exact lo n r rs w pos)
    | inr larger ↦ ground (arith, allocate_part lo n r rs w)
  ]
  | inr small ↦
      let (rest, e, e') = keep-eq-some r (allocate n rs) a rs' (rw small at h) in
      rw e'
        (allocate_skip lo n r rs a rest w (allocate-Takes (r.end_block + 2) n rs a rest w.2 pos e))
]

-- `count` blocks in a row are free.
abbrev pub IsFreeRun : FreeList → ℕ → ℕ → Type 0
IsFreeRun rs a n = (b : ℕ) → a ≤ b → b < a + n → is_free rs b ≡ true

-- A run that begins in the first region lies in it.
run_in_first :
    (lo a n : ℕ) (r : Region) (rs : FreeList)
    → Coalesced lo (r ∷ rs)
    → a ≤ r.end_block
    → IsFreeRun (r ∷ rs) a n
    → a + n ≤ r.end_block + 1
unfolding is_free
run_in_first lo a n r rs w h run = elim (Bool-cases (leb (a + n) (r.end_block + 1))) [
  | inl done ↦ ground arith
  | inr beyond ↦ ground (
    arith,
    run (r.end_block + 1) (omega arith) (ground arith),
    is_free_below (r.end_block + 2) rs (r.end_block + 1) w.2 (omega arith),
  )
]

run_starts_in :
    (lo a n : ℕ) (r : Region) (rs : FreeList)
    → Coalesced lo (r ∷ rs)
    → 0 < n
    → a ≤ r.end_block
    → IsFreeRun (r ∷ rs) a n
    → r.start_block ≤ a
unfolding is_free
run_starts_in lo a n r rs w pos h run =
    ground (arith, run a (omega arith) (omega arith), is_free_below (r.end_block + 2) rs a w.2)

-- `allocate_blocks` fails only if no `n` blocks in a row are free.
pub allocate-none :
    (lo n : ℕ) (rs : FreeList) (a : ℕ)
    → Coalesced lo rs
    → 0 < n
    → allocate n rs ≡ none
    → ¬ IsFreeRun rs a n
unfolding allocate is_free
allocate-none lo n [] a w pos h run = ground (arith, run a (omega arith) (omega arith))
allocate-none lo n (r ∷ rs) a w pos h run = elim (Bool-cases (leb n (get_block_count r))) [
  | inl fits ↦ ground arith
  | inr small ↦ elim (Bool-cases (leb a r.end_block)) [
    | inl within ↦ ground (arith, run_in_first lo a n r rs w, run_starts_in lo a n r rs w)
    | inr after ↦
        allocate-none (r.end_block + 2) n rs a w.2 pos
          (keep-eq-none r (allocate n rs) (rw small at h))
          (λ b lo' hi. ground (arith, run b lo' hi))
  ]
]
