-- ===== src/Kernel/Calls.antt =====
-- What a running process does to the table: `kfork`, `reparent`, `kexit`, `kwait`, `yield` and `sleep`
-- of xv6-riscv/kernel/proc.c. A call acts on the table as one step up to the switch to the scheduler.
pub mod Reparent
pub mod Exit
use opperating_system_practi.Base.{
  ℕ, zero, suc, Bool, true, false, not, ◌&&◌, ◌||◌, Option, none, some, List, [], ◌∷◌, ◌==◌,
  if◌then◌else◌, find_index,
}
use opperating_system_practi.Base.Int.{ℤ}
use opperating_system_practi.Kernel.{
  Kernel, Proc, Chan, proc_chan, unused, sleeping, runnable, zombie, nproc, proc_at, put_proc,
  is_zombie,
}
use opperating_system_practi.Kernel.Table.{allocproc, freeproc, wakeup, is_me}

-- `copied` says whether `uvmcopy` finds memory. The result is the pid, `none` for -1.
unfoldable pub fork_from : ℕ → Bool → Kernel × Option ℕ → Kernel × Option ℕ
unfolding freeproc
fork_from i copied (k, none) = (k, none)
fork_from i copied (k, some n) =
    let p = proc_at k i in
    let np = proc_at k n in
    if not copied then (put_proc n (freeproc np) k, none) else (
      put_proc n
          (record np {
            sz = p.sz;
            name = p.name;
            ticket = p.ticket;
            parent = some i;
            state = runnable;
          })
          k,
      some np.pid,
    )

-- The process in slot `i` forks.
unfoldable pub kfork : ℕ → Bool → Bool → Bool → Kernel → Kernel × Option ℕ
unfolding fork_from allocproc
kfork i frame table copied k = fork_from i copied (allocproc frame table k)

-- `pp->parent == p`
abbrev pub is_child : ℕ → Proc → Bool
is_child i p = is_me p.parent i

-- One round of the loop of `reparent`.
unfoldable pub reparent_at : ℕ → ℕ → Kernel → Kernel
unfolding wakeup
reparent_at i n k =
    if is_child i (proc_at k n)
    then wakeup (some i) (some (proc_chan k.initproc))
        (put_proc n (record (proc_at k n) { parent = some k.initproc }) k)
    else k

-- The first `n` rounds.
unfoldable pub reparent_upto : ℕ → ℕ → Kernel → Kernel
unfolding reparent_at
reparent_upto i zero k = k
reparent_upto i (suc n) k = reparent_at i n (reparent_upto i n k)

unfoldable pub reparent : ℕ → Kernel → Kernel
unfolding reparent_upto
reparent i k = reparent_upto i nproc k

abbrev pub parent_chan : Option ℕ → Option Chan
parent_chan none = none
parent_chan (some i) = some (proc_chan i)

-- The part of `kexit` behind its test; its files are left out.
unfoldable pub exit_proc : ℕ → ℤ → Kernel → Kernel
unfolding reparent wakeup
exit_proc i status k =
    let k' = reparent i k in
    let k'' = wakeup (some i) (parent_chan (proc_at k' i).parent) k' in
    put_proc i (record (proc_at k'' i) { xstate = status; state = zombie }) k''

-- `none` is the panic "init exiting".
unfoldable pub kexit : ℕ → ℤ → Kernel → Option Kernel
unfolding exit_proc
kexit i status k = if i == k.initproc then none else some (exit_proc i status k)

unfoldable pub yield_proc : ℕ → Kernel → Kernel
yield_proc i k = put_proc i (record (proc_at k i) { state = runnable }) k

-- `sleep` up to the switch to the scheduler, and what it does once it is back.
unfoldable pub sleep : ℕ → Chan → Kernel → Kernel
sleep i c k = put_proc i (record (proc_at k i) { chan = some c; state = sleeping }) k

unfoldable pub sleep_end : ℕ → Kernel → Kernel
sleep_end i k = put_proc i (record (proc_at k i) { chan = none }) k

-- How a round of the loop of `kwait` ends.
pub data Waited : Type 0 where
  reaped : ℕ → Waited
  failed : Waited
  asleep : Waited

-- `stored` says that no status is asked for, or that `copyout` succeeds.
unfoldable pub wait_found : Option ℕ → Option ℕ → ℕ → Bool → Kernel → Kernel × Waited
unfolding freeproc sleep
wait_found (some n) kids i stored k =
    if not stored
    then (k, failed)
    else (put_proc n (freeproc (proc_at k n)) k, reaped (proc_at k n).pid)
wait_found none none i stored k = (k, failed)
wait_found none (some c) i stored k =
    if (proc_at k i).killed then (k, failed) else (sleep i (proc_chan i) k, asleep)

-- One round of `kwait`: the first exited child, and whether there is a child at all.
unfoldable pub kwait : ℕ → Bool → Kernel → Kernel × Waited
unfolding wait_found
kwait i stored k =
    wait_found (find_index (λ p. is_child i p && is_zombie p.state) k.procs)
      (find_index (is_child i) k.procs) i stored k
