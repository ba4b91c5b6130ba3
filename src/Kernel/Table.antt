-- ===== src/Kernel/Table.antt =====
-- Slots of the process table: `procinit`, `allocpid`, `allocproc`, `freeproc`, `userinit`, `wakeup`,
-- `kkill` and `settickets` of xv6-riscv/kernel/proc.c. A pid is exact, as it is in C
-- for the first 2^31 processes.
pub mod Tickets
use opperating_system_practi.Base.{
  ℕ, zero, suc, ◌+◌, Bool, true, false, not, ◌&&◌, Option, none, some, List, [], ◌∷◌, ◌==◌,
  if◌then◌else◌, find_index, replicate,
}
use opperating_system_practi.Base.Int.{ℤ, pos, negsuc}
use opperating_system_practi.Kernel.{
  Kernel, Proc, Rng, Chan, proc_chan, other_chan, ProcState, unused, used, runnable, nproc,
  zero_proc, proc_at, put_proc, is_unused, is_sleeping,
}

-- Static data is zero; `procinit` sets the state of every slot to `UNUSED`.
unfoldable pub procinit : Rng → Kernel
procinit r = record { procs = replicate nproc zero_proc; initproc = 0; nextpid = 1; rng = r }

unfoldable pub allocpid : Kernel → Kernel × ℕ
allocpid k = (record k { nextpid = k.nextpid + 1 }, k.nextpid)

unfoldable pub freeproc : Proc → Proc
freeproc p = record p {
  trapframe = false;
  pagetable = false;
  sz = 0;
  pid = 0;
  parent = none;
  name = [];
  chan = none;
  killed = false;
  xstate = pos 0;
  state = unused;
}

abbrev pub default_tickets : ℕ
default_tickets = 10

-- The two tests say whether `kalloc` and `proc_pagetable` find memory.
unfoldable pub allocproc_at : Option ℕ → Bool → Bool → Kernel → Kernel × Option ℕ
unfolding allocpid freeproc
allocproc_at none frame table k = (k, none)
allocproc_at (some i) frame table k =
    let (k', pid) = allocpid k in
    let p = record (proc_at k i) { pid = pid; state = used; trapframe = frame } in
    if not frame
    then (put_proc i (freeproc p) k', none)
    else if not table
    then (put_proc i (freeproc p) k', none)
    else (put_proc i (record p { pagetable = true; ticket = default_tickets }) k', some i)

unfoldable pub allocproc : Bool → Bool → Kernel → Kernel × Option ℕ
unfolding allocproc_at
allocproc frame table k = allocproc_at (find_index (λ p. is_unused p.state) k.procs) frame table k

abbrev pub start_init : Kernel × Option ℕ → Option Kernel
start_init (k, none) = none
start_init (k, some i) =
    some (put_proc i (record (proc_at k i) { state = runnable }) (record k { initproc = i }))

-- `none` where `allocproc` fails: the source then writes through a null pointer.
unfoldable pub userinit : Bool → Bool → Kernel → Option Kernel
unfolding allocproc
userinit frame table k = start_init (allocproc frame table k)

abbrev same_chan : Chan → Chan → Bool
same_chan (proc_chan a) (proc_chan b) = a == b
same_chan (proc_chan a) (other_chan b) = false
same_chan (other_chan a) (proc_chan b) = false
same_chan (other_chan a) (other_chan b) = a == b

abbrev chan_eq : Option Chan → Option Chan → Bool
chan_eq none none = true
chan_eq none (some b) = false
chan_eq (some a) none = false
chan_eq (some a) (some b) = same_chan a b

unfoldable pub wake : Option Chan → Proc → Proc
wake c p = if is_sleeping p.state && chan_eq p.chan c then record p { state = runnable } else p

abbrev pub is_me : Option ℕ → ℕ → Bool
is_me none i = false
is_me (some me) i = i == me

-- The loop from slot `i` on.
unfoldable pub wakeup_from : ℕ → Option ℕ → Option Chan → List Proc → List Proc
unfolding wake
wakeup_from i me c [] = []
wakeup_from i me c (p ∷ ps) = (if is_me me i then p else wake c p) ∷ wakeup_from (suc i) me c ps

-- `me` is the slot of `myproc()`.
unfoldable pub wakeup : Option ℕ → Option Chan → Kernel → Kernel
unfolding wakeup_from
wakeup me c k = record k { procs = wakeup_from 0 me c k.procs }

-- `p->pid == pid`, where the argument may be negative
abbrev pub has_pid : ℤ → Proc → Bool
has_pid (pos n) p = p.pid == n
has_pid (negsuc n) p = false

unfoldable pub kill_proc : Proc → Proc
kill_proc p =
    if is_sleeping p.state
    then record p { killed = true; state = runnable }
    else record p { killed = true }

-- The Boolean is true for the result 0, false for -1.
unfoldable pub kill_found : Option ℕ → Kernel → Kernel × Bool
unfolding kill_proc
kill_found none k = (k, false)
kill_found (some i) k = (put_proc i (kill_proc (proc_at k i)) k, true)

unfoldable pub kkill : ℤ → Kernel → Kernel × Bool
unfolding kill_found
kkill pid k = kill_found (find_index (has_pid pid) k.procs) k

unfoldable pub settickets_found : Option ℕ → ℕ → Kernel → Kernel × Bool
settickets_found none tickets k = (k, false)
settickets_found (some i) tickets k =
    (put_proc i (record (proc_at k i) { ticket = tickets }) k, true)

-- Only called with a positive number.
unfoldable pub settickets : ℤ → ℕ → Kernel → Kernel × Bool
unfolding settickets_found
settickets pid tickets k = settickets_found (find_index (has_pid pid) k.procs) tickets k

-- `sys_settickets` of xv6-riscv/kernel/sysproc.c
unfoldable pub sys_settickets : ℤ → ℤ → Kernel → Kernel × Bool
unfolding settickets
sys_settickets pid (negsuc n) k = (k, false)
sys_settickets pid (pos zero) k = (k, false)
sys_settickets pid (pos (suc n)) k = settickets pid (suc n) k
