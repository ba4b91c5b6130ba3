-- ===== src/Kernel/Reach.antt =====
-- The steps of the processes and of the scheduler, and the states that they reach from the boot.
use opperating_system_practi.Base.{
  ℕ, ◌<◌, ◌^◌, Bool, true, false, ◌≡◌, ◌≢◌, sym, inl, inr, Option, none, some, arith, get_or,
  replicate, length-replicate,
}
use mathlib.Core.Option.{some-injective}
use opperating_system_practi.Base.Int.{ℤ}
use opperating_system_practi.Kernel.{
  Kernel, Rng, Proc, Chan, running, runnable, zero_proc, proc_at, put_proc, nproc, is_unused,
  is_runnable,
}
use opperating_system_practi.Kernel.Table.{
  procinit, userinit, start_init, allocproc, wakeup, kkill, sys_settickets,
}
use opperating_system_practi.Kernel.Calls.{kfork, kexit, kwait, yield_proc, sleep, sleep_end}
use opperating_system_practi.Kernel.Lottery.{scheduler_round}
use opperating_system_practi.Kernel.Lottery.Fairness.{all_tickets}
use opperating_system_practi.Kernel.Lottery.Round.{
  Runs, Runs-AlikeAll, scheduler_round-Runs, scheduler_round-cases, tickets-ready,
}
use opperating_system_practi.Kernel.Invariant.{Inv, AlikeAll-Inv, put_proc-AlikeAll}
use opperating_system_practi.Kernel.Invariant.Preserved.{
  InUse, wakeup-AlikeAll, kkill-AlikeAll, sys_settickets-AlikeAll, yield_proc-AlikeAll,
  sleep-AlikeAll, sleep_end-AlikeAll, kexit-Inv,
}
use opperating_system_practi.Kernel.Invariant.Slots.{Allocates, allocproc-Allocates, kwait-Inv}
use opperating_system_practi.Kernel.Invariant.Fork.{kfork-Inv}
use opperating_system_practi.Invariant.Start.{get_or-replicate}

abbrev pub IsRunning : Kernel → ℕ → Type 0
IsRunning k i = (proc_at k i).state ≡ running

-- One call of a running process, one round of the scheduler, or a `wakeup` by a device. The Boolean
-- arguments say whether memory is found and whether a copy to user space succeeds.
pub data Step (k : Kernel) : Kernel → Type 0 where
  schedule : Step k (scheduler_round k).0
  fork :
      (i : ℕ) (frame table copied : Bool) → IsRunning k i → Step k (kfork i frame table copied k).0
  exit : (i : ℕ) (status : ℤ) {k' : Kernel} → IsRunning k i → kexit i status k ≡ some k' → Step k k'
  wait : (i : ℕ) (stored : Bool) → IsRunning k i → Step k (kwait i stored k).0
  give_up : (i : ℕ) → IsRunning k i → Step k (yield_proc i k)
  fall_asleep : (i : ℕ) (c : Chan) → IsRunning k i → Step k (sleep i c k)
  tidy_up : (i : ℕ) → IsRunning k i → Step k (sleep_end i k)
  kill : (pid : ℤ) → Step k (kkill pid k).0
  set_tickets : (pid tickets : ℤ) → Step k (sys_settickets pid tickets k).0
  wake_up : (me : Option ℕ) (c : Option Chan) → Step k (wakeup me c k)

-- The states from the end of `userinit` on.
pub data Reach : Kernel → Type 0 where
  boot :
      (r : Rng) (frame table : Bool) {k : Kernel}
      → userinit frame table (procinit r) ≡ some k
      → Reach k
  later : {k k' : Kernel} → Reach k → Step k k' → Reach k'

procinit-Inv : (r : Rng) → Inv (procinit r)
unfolding procinit
procinit-Inv r = record {
  slots = length-replicate nproc zero_proc;
  sound = λ i. rw (get_or-replicate nproc i zero_proc) (ground arith);
  unique = λ i j u v e. absurd (none_used i u);
}
  where
    none_used : (i : ℕ) → is_unused (get_or (replicate nproc zero_proc) i zero_proc).state ≢ false
    none_used i = rw (get_or-replicate nproc i zero_proc) (λ e. cc)

start_init-Inv :
    (k : Kernel) (r : Kernel × Option ℕ) (t : Kernel)
    → Allocates k r
    → start_init r ≡ some t
    → Inv t
unfolding Allocates
start_init-Inv k (k', none) t a e = cc
start_init-Inv k (k', some i) t a e =
    let q : Proc = record (proc_at k' i) { state = runnable } in
    let m : Kernel = put_proc i q (record k' { initproc = i }) in
    let h : Inv (put_proc i q k') =
      AlikeAll-Inv k' (put_proc i q k') (put_proc-AlikeAll k' i q (ground (arith, a.in_use)))
        a.keeps in
    let g : Inv m = record { slots = h.slots; sound = h.sound; unique = h.unique } in
    let p : m ≡ t = some-injective m t e in rw (sym p) g

running-used : (k : Kernel) (i : ℕ) → IsRunning k i → InUse k i
running-used k i h = rw h

schedule-Inv : (k : Kernel) → Inv k → Inv (scheduler_round k).0
schedule-Inv k h = elim (scheduler_round-cases k) [
  | inl idle ↦ rw idle h
  | inr (inl nobody) ↦ rw nobody (record { slots = h.slots; sound = h.sound; unique = h.unique })
  | inr (inr (n, r)) ↦
      AlikeAll-Inv k (scheduler_round k).0 (Runs-AlikeAll k (scheduler_round k).0 n r) h
]

pub Step-Inv : (k k' : Kernel) → Step k k' → Inv k → Inv k'
Step-Inv k _ schedule h = schedule-Inv k h
Step-Inv k _ (fork i frame table copied u) h =
    kfork-Inv i frame table copied k (running-used k i u) h
Step-Inv k k' (exit i status u e) h = kexit-Inv i status k k' (running-used k i u) h e
Step-Inv k _ (wait i stored u) h = kwait-Inv i stored k (running-used k i u) h
Step-Inv k _ (give_up i u) h =
    AlikeAll-Inv k (yield_proc i k) (yield_proc-AlikeAll i k (running-used k i u)) h
Step-Inv k _ (fall_asleep i c u) h =
    AlikeAll-Inv k (sleep i c k) (sleep-AlikeAll i c k (running-used k i u)) h
Step-Inv k _ (tidy_up i u) h = AlikeAll-Inv k (sleep_end i k) (sleep_end-AlikeAll i k) h
Step-Inv k _ (kill pid) h = AlikeAll-Inv k (kkill pid k).0 (kkill-AlikeAll pid k) h
Step-Inv k _ (set_tickets pid n) h =
    AlikeAll-Inv k (sys_settickets pid n k).0 (sys_settickets-AlikeAll pid n k) h
Step-Inv k _ (wake_up me c) h = AlikeAll-Inv k (wakeup me c k) (wakeup-AlikeAll me c k) h

-- In every state that is reached from the boot: the table has all its slots, every slot that is not in
-- use has no pid and no pages, every other one has a pid below `nextpid` and at least one ticket, and
-- no two processes have one pid.
pub Reach-Inv : (k : Kernel) → Reach k → Inv k
Reach-Inv k (boot r frame table e) =
    start_init-Inv (procinit r) (allocproc frame table (procinit r)) k
      (allocproc-Allocates frame table (procinit r) (procinit-Inv r)) (unfold userinit in e)
Reach-Inv k (later before step) = Step-Inv _ k step (Reach-Inv _ before)

-- In every state that is reached from the boot and in which the tickets of the processes that are ready
-- are below 2^31 together: if any process is ready, then the next round of the scheduler runs a process
-- that is ready, and changes no other, whatever the generator returns.
pub scheduler_round-live :
    (k : Kernel) (j : ℕ)
    → Reach k
    → all_tickets k.procs < 2 ^ 31
    → is_runnable (proc_at k j).state ≡ true
    → (n : ℕ) × ((scheduler_round k).1 ≡ some n) × Runs k (scheduler_round k).0 n
scheduler_round-live k j r b e = scheduler_round-Runs k b (tickets-ready k j (Reach-Inv k r) e)
