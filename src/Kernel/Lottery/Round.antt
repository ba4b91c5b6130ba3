-- ===== src/Kernel/Lottery/Round.antt =====
-- One round of the scheduler.
use opperating_system_practi.Base.{
  ℕ, zero, suc, ◌≤◌, ◌<◌, true, false, ◌≡◌, ◌≢◌, refl, sym, ap, inl, inr, some, List, [], ◌∷◌,
  arith, length, get_or-set_self, get_or-set_ne, length-set, ◌==◌, Bool-cases, Option-cases, ◌⊎◌,
  ltb, ◌^◌,
}
use opperating_system_practi.Kernel.{
  Kernel, Proc, Rng, running, zero_proc, proc_at, is_runnable, is_unused,
}
use opperating_system_practi.Kernel.Random.{rand_int}
use opperating_system_practi.Kernel.Lottery.{
  total_tickets, find_winner, run_winner, winner_of, scheduler_round,
}
use opperating_system_practi.Kernel.Lottery.Fairness.{
  find_winner-some, find_winner-ready, total_tickets-all_tickets, all_tickets, proc_of,
}
use opperating_system_practi.Kernel.Invariant.{Inv, AlikeAll, Alike-refl}

-- The process in slot `n` was ready and runs now; every other slot, and the rest of the state but the generator, are as before.
pub record Runs (k k' : Kernel) (n : ℕ) : Type 0 where
  pub was_ready : is_runnable (proc_at k n).state ≡ true
  pub now : proc_at k' n ≡ record (proc_at k n) { state = running }
  pub others : (j : ℕ) → j ≢ n → proc_at k' j ≡ proc_at k j
  pub next : k'.nextpid ≡ k.nextpid
  pub init : k'.initproc ≡ k.initproc
  pub size : length k'.procs ≡ length k.procs

runnable-within : (ps : List Proc) (i : ℕ) → is_runnable (proc_of ps i).state ≡ true → i < length ps
runnable-within [] i h = cc
runnable-within (p ∷ ps) zero h = omega arith
runnable-within (p ∷ ps) (suc i) h = omega (arith, runnable-within ps i h)

winner_of-lt : (random total : ℕ) → total ≢ 0 → total < 2 ^ 31 → winner_of random total < total
winner_of-lt random total h b =
    let e : ltb total (2 ^ 31) ≡ true = ground arith in rw e (grind arith)

run_winner-Runs :
    (k : Kernel) (i : ℕ)
    → is_runnable (proc_at k i).state ≡ true
    → Runs k (run_winner (some i) k).0 i
unfolding run_winner
run_winner-Runs k i h = record {
  was_ready = h;
  now =
      get_or-set_self k.procs i (record (proc_at k i) { state = running }) zero_proc
        (runnable-within k.procs i h);
  others = λ j ne.
      get_or-set_ne k.procs i j (record (proc_at k i) { state = running }) zero_proc
        (λ s. ne (sym s));
  next = refl;
  init = refl;
  size = length-set k.procs i (record (proc_at k i) { state = running });
}

-- The process that the second pass chooses runs, with the new state of the generator.
chosen-Runs :
    (k : Kernel) (g : Rng) (w n : ℕ)
    → find_winner w 0 k.procs ≡ some n
    → Runs k (run_winner (some n) (record k { rng = g })).0 n
chosen-Runs k g w n found =
    let ready = find_winner-ready k.procs w 0 n found in
    let r = run_winner-Runs (record k { rng = g }) n ready in
    record {
      was_ready = ready;
      now = r.now;
      others = r.others;
      next = r.next;
      init = r.init;
      size = r.size;
    }

-- If there is a ticket among the processes that are ready, and all of theirs together are below 2^31,
-- a round of the scheduler runs one of them, whatever the state of the generator, and changes no other.
pub scheduler_round-Runs :
    (k : Kernel)
    → all_tickets k.procs < 2 ^ 31
    → all_tickets k.procs ≢ 0
    → (n : ℕ) × ((scheduler_round k).1 ≡ some n) × Runs k (scheduler_round k).0 n
unfolding scheduler_round
scheduler_round-Runs k b h =
    let t : total_tickets k.procs ≡ all_tickets k.procs = total_tickets-all_tickets k.procs b in
    let e : (total_tickets k.procs == 0) ≡ false = ground arith in
    let w : ℕ = winner_of (rand_int k.rng).1 (total_tickets k.procs) in
    let below : w < total_tickets k.procs =
      winner_of-lt (rand_int k.rng).1 (total_tickets k.procs) (ground arith) (omega arith) in
    let (n, found) = find_winner-some k.procs w 0 (omega arith) (omega arith) (omega arith) in
    (
      n,
      rw (e, found) (unfold run_winner in refl),
      rw (e, found) (chosen-Runs k (rand_int k.rng).0 w n found),
    )

-- Whatever the sums are, a round runs a process that is ready, or changes the generator at most.
pub scheduler_round-cases :
    (k : Kernel)
    → ((scheduler_round k).0 ≡ k)
      ⊎ (((scheduler_round k).0 ≡ record k { rng = (rand_int k.rng).0 })
          ⊎ ((n : ℕ) × Runs k (scheduler_round k).0 n))
unfolding scheduler_round run_winner
scheduler_round-cases k =
    let w : ℕ = winner_of (rand_int k.rng).1 (total_tickets k.procs) in
    elim (Bool-cases (total_tickets k.procs == 0)) [
      | inl idle ↦ inl (rw idle refl)
      | inr e ↦ elim (Option-cases (find_winner w 0 k.procs)) [
        | inl nobody ↦ inr (inl (rw (e, nobody) refl))
        | inr (n, found) ↦ inr (inr (n, rw (e, found) (chosen-Runs k (rand_int k.rng).0 w n found)))
      ]
    ]

stake-total :
    (ps : List Proc) (j : ℕ)
    → is_runnable (proc_of ps j).state ≡ true
    → (proc_of ps j).ticket ≤ all_tickets ps
unfolding all_tickets
stake-total [] j h = cc
stake-total (p ∷ ps) zero h = rw h (omega arith)
stake-total (p ∷ ps) (suc j) h = omega (arith, stake-total ps j h)

ready-used : (p : Proc) → is_runnable p.state ≡ true → is_unused p.state ≡ false
ready-used p h = ground arith

-- Under the invariant, a ready process means that there is a ticket.
pub tickets-ready :
    (k : Kernel) (j : ℕ) → Inv k → is_runnable (proc_at k j).state ≡ true → all_tickets k.procs ≢ 0
tickets-ready k j h r e =
    let (p, t) = (h.sound j).live (ready-used (proc_at k j) r) in
    omega (arith, stake-total k.procs j r)

pub Runs-AlikeAll : (k k' : Kernel) (n : ℕ) → Runs k k' n → AlikeAll k k'
Runs-AlikeAll k k' n r = record {
  size = r.size;
  next = r.next;
  init = r.init;
  each = λ i. elim (Bool-cases (i == n)) [
    | inl same ↦
        let e : i ≡ n = ground arith in
        let p : (proc_at k i) ≡ (proc_at k n) = ap (proc_at k) e in
        rw e (rw r.now (ground (arith, r.was_ready)))
    | inr apart ↦ rw (r.others i (ground arith)) (Alike-refl (proc_at k i))
  ];
}
