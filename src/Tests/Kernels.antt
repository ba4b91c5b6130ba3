-- ===== src/Tests/Kernels.antt =====
-- The theorems on processes: the first process of a new table runs, forks and exits.
use opperating_system_practi.Base.{
  ℕ, ◌^◌, ◌≡◌, refl, Option, none, some, List, [], ◌∷◌, true, arith, find_index,
}
use opperating_system_practi.Base.Int.{pos}
use opperating_system_practi.Kernel.{Kernel, Proc, sleeping, runnable, zero_proc}
use opperating_system_practi.Kernel.Random.{rng_seed}
use opperating_system_practi.Kernel.Table.{procinit, userinit, sys_settickets}
use opperating_system_practi.Kernel.Table.Tickets.{sys_settickets-zero}
use opperating_system_practi.Kernel.Calls.{kfork, kexit, exit_proc, kwait, reaped}
use opperating_system_practi.Kernel.Calls.Exit.{Exited, kexit-Exited}
use opperating_system_practi.Kernel.Lottery.{total_tickets, find_winner, scheduler_round}
use opperating_system_practi.Kernel.Lottery.Fairness.{count_below, is_at, wins-tickets, all_tickets}
use opperating_system_practi.Kernel.Lottery.Round.{Runs}
use opperating_system_practi.Kernel.Invariant.{Inv}
use opperating_system_practi.Kernel.Invariant.Fork.{Forked, kfork-Forked}
use opperating_system_practi.Kernel.Reach.{Reach, boot, Reach-Inv, scheduler_round-live}

abbrev ready_with : ℕ → Proc
ready_with n = record zero_proc { state = runnable; pid = 3; ticket = n }

-- Two processes that are ready, with a sleeper between them.
abbrev three : List Proc
three = ready_with 10 ∷ record zero_proc { state = sleeping; ticket = 7 } ∷ ready_with 30 ∷ []

last_ticket : find_winner 39 0 three ≡ some 2
unfolding find_winner
last_ticket = refl

first_of_last : find_winner 10 0 three ≡ some 2
unfolding find_winner
first_of_last = refl

-- Four processes with 2^30 tickets each: the total is 0, and nobody runs.
abbrev rich : Proc
rich = ready_with (2 ^ 30)

overflow : total_tickets (rich ∷ rich ∷ rich ∷ rich ∷ []) ≡ 0
unfolding total_tickets
overflow = refl

wins-tickets_example : count_below (total_tickets three) (λ w. is_at 2 (find_winner w 0 three)) ≡ 30
unfolding all_tickets
wins-tickets_example = wins-tickets three 2 (omega arith) refl

abbrev or_else : Kernel → Option Kernel → Kernel
or_else k none = k
or_else k (some t) = t

abbrev booted : Kernel
unfolding userinit procinit rng_seed find_index
booted = or_else (procinit (rng_seed 1)) (userinit true true (procinit (rng_seed 1)))

booted-Reach : Reach booted
unfolding userinit procinit rng_seed find_index
booted-Reach = boot (rng_seed 1) true true refl

Reach-Inv_example : Inv booted
Reach-Inv_example = Reach-Inv booted booted-Reach

scheduler_round-live_example :
    (n : ℕ) × ((scheduler_round booted).1 ≡ some n) × Runs booted (scheduler_round booted).0 n
unfolding userinit procinit rng_seed find_index all_tickets
scheduler_round-live_example = scheduler_round-live booted 0 booted-Reach (omega arith) refl

kfork-Forked_example : (n : ℕ) × Forked 0 booted (kfork 0 true true true booted).0 2 n
unfolding userinit procinit rng_seed find_index kfork
kfork-Forked_example =
    kfork-Forked 0 true true true booted 2 refl (Reach-Inv booted booted-Reach) refl

sys_settickets-zero_example : (sys_settickets (pos 0) (pos 5) booted).1 ≡ true
unfolding userinit procinit rng_seed find_index
sys_settickets-zero_example =
    sys_settickets-zero booted 1 4 (Reach-Inv booted booted-Reach) refl (omega arith)

-- The child of the first process runs.
abbrev forked : Kernel
unfolding userinit procinit rng_seed find_index kfork
forked = (kfork 0 true true true booted).0

kexit-Exited_example : Exited 1 (pos 7) forked (exit_proc 1 (pos 7) forked)
unfolding userinit procinit rng_seed find_index kfork kexit
kexit-Exited_example =
    kexit-Exited 1 (pos 7) forked (exit_proc 1 (pos 7) forked) refl (omega arith) refl

-- The parent then gets the pid of the child.
reaps_child : (kwait 0 true (exit_proc 1 (pos 7) forked)).1 ≡ reaped 2
unfolding userinit procinit rng_seed find_index kfork exit_proc kwait
reaps_child = refl
