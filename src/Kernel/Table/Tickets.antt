-- ===== src/Kernel/Table/Tickets.antt =====
-- `sys_settickets`: which process it changes, and when it fails.
use opperating_system_practi.Base.{
  ℕ, zero, suc, ◌<◌, true, false, ◌≡◌, ◌≢◌, refl, sym, ◌∙◌, inl, inr, Option, none, some, arith,
  length, get_or, find_index, find_index-some, find_index-none, find_index-only, Bool-cases,
  Option-cases, List, [], ◌∷◌,
}
use opperating_system_practi.Base.Int.{ℤ, pos, negsuc}
use opperating_system_practi.Kernel.{Kernel, Proc, zero_proc, proc_at, put_proc, is_unused}
use opperating_system_practi.Kernel.Table.{sys_settickets, settickets, settickets_found, has_pid}
use opperating_system_practi.Kernel.Invariant.{Inv}
use opperating_system_practi.Kernel.Invariant.Preserved.{InUse}

used-within : (k : Kernel) (i : ℕ) → InUse k i → i < length k.procs
used-within k i u = within k.procs i u
  where
    within :
        (ps : List Proc) (j : ℕ) → is_unused (get_or ps j zero_proc).state ≡ false → j < length ps
    within [] j h = cc
    within (p ∷ ps) zero h = omega arith
    within (p ∷ ps) (suc j) h = omega (arith, within ps j h)

-- Only the process itself has its pid.
found-pid :
    (k : Kernel) (i : ℕ)
    → Inv k
    → InUse k i
    → find_index (has_pid (pos (proc_at k i).pid)) k.procs ≡ some i
found-pid k i h u =
    let (positive, t) = (h.sound i).live u in
    find_index-only (has_pid (pos (proc_at k i).pid)) k.procs i zero_proc (used-within k i u)
      (ground arith)
      (λ j e. elim (Bool-cases (is_unused (proc_at k j).state)) [
        | inl free ↦ absurd (ground (arith, (h.sound j).free free))
        | inr in_use ↦ h.unique j i in_use u (ground arith)
      ])

-- Setting at least one ticket for a process in use succeeds, and changes the tickets of that process
-- and nothing else.
pub sys_settickets-put_proc :
    (k : Kernel) (i n : ℕ)
    → Inv k
    → InUse k i
    → sys_settickets (pos (proc_at k i).pid) (pos (suc n)) k
      ≡ (put_proc i (record (proc_at k i) { ticket = suc n }) k, true)
unfolding sys_settickets settickets settickets_found
sys_settickets-put_proc k i n h u = rw (found-pid k i h u)

no_pid :
    (k : Kernel) (pid : ℤ)
    → ((i : ℕ) → has_pid pid (proc_at k i) ≡ false)
    → find_index (has_pid pid) k.procs ≡ none
no_pid k pid h = elim (Option-cases (find_index (has_pid pid) k.procs)) [
  | inl absent ↦ absent
  | inr (i, e) ↦
      let (within, hit) = find_index-some (has_pid pid) k.procs i zero_proc e in
      absurd (clash (sym hit ∙ h i))
]
  where
    clash : true ≡ false → ⊥
    clash p = cc

-- What makes `sys_settickets` fail: no ticket, or a pid that no slot has.
abbrev pub Rejects : Kernel → ℤ → ℤ → Type 0
Rejects k pid (negsuc n) = Unit
Rejects k pid (pos zero) = Unit
Rejects k pid (pos (suc n)) = (i : ℕ) → has_pid pid (proc_at k i) ≡ false

-- A number of tickets of 0 or less, and a pid that no slot of the table has, are rejected, and the
-- table stays as it was.
pub sys_settickets-Rejects :
    (k : Kernel) (pid tickets : ℤ)
    → Rejects k pid tickets
    → sys_settickets pid tickets k ≡ (k, false)
unfolding sys_settickets settickets settickets_found
sys_settickets-Rejects k pid (negsuc n) h = refl
sys_settickets-Rejects k pid (pos zero) h = refl
sys_settickets-Rejects k pid (pos (suc n)) h = rw (no_pid k pid h)

found-zero :
    (k : Kernel) (i : ℕ)
    → (proc_at k i).pid ≡ 0
    → i < length k.procs
    → (find_index (has_pid (pos 0)) k.procs) ≢ none
found-zero k i e within p =
    absurd (clash (sym hit ∙ find_index-none (has_pid (pos 0)) k.procs i zero_proc p within))
  where
    hit : has_pid (pos 0) (proc_at k i) ≡ true
    hit = ground arith

    clash : true ≡ false → ⊥
    clash q = cc

settickets_found-true :
    (o : Option ℕ) (n : ℕ) (k : Kernel) → o ≢ none → (settickets_found o n k).1 ≡ true
unfolding settickets_found
settickets_found-true none n k h = absurd (h refl)
settickets_found-true (some i) n k h = refl

-- Where a slot of the table is not in use, setting tickets for the pid 0 succeeds, although no process
-- has that pid.
pub sys_settickets-zero :
    (k : Kernel) (i n : ℕ)
    → Inv k
    → is_unused (proc_at k i).state ≡ true
    → i < length k.procs
    → (sys_settickets (pos 0) (pos (suc n)) k).1 ≡ true
unfolding sys_settickets settickets
sys_settickets-zero k i n h free within =
    settickets_found-true (find_index (has_pid (pos 0)) k.procs) (suc n) k
      (found-zero k i ((h.sound i).free free).0 within)
