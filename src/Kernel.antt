-- ===== src/Kernel.antt =====
-- The process table of xv6-riscv/kernel/proc.c: `struct proc` of proc.h and the table itself.
pub mod Random
pub mod Table
pub mod Calls
pub mod Lottery
pub mod Invariant
pub mod Reach
use opperating_system_practi.Base.{
  ℕ, Bool, true, false, Option, none, some, List, [], CString, get_or, set, not,
}
use opperating_system_practi.Base.Int.{ℤ, pos}

-- `enum procstate`
pub data ProcState : Type 0 where
  unused : ProcState
  used : ProcState
  sleeping : ProcState
  runnable : ProcState
  running : ProcState
  zombie : ProcState

-- What a process can sleep on: the process in a slot, as in `kwait`, or any other address.
pub data Chan : Type 0 where
  proc_chan : ℕ → Chan
  other_chan : ℕ → Chan

-- `trapframe` and `pagetable` say whether the pages are there; `parent` is a slot. The lock, the saved
-- registers, the kernel stack and the files are left out.
pub record Proc : Type 0 where
  pub state : ProcState
  pub chan : Option Chan
  pub killed : Bool
  pub xstate : ℤ
  pub pid : ℕ
  pub parent : Option ℕ
  pub sz : ℕ
  pub pagetable : Bool
  pub trapframe : Bool
  pub name : CString
  pub ticket : ℕ

abbrev pub nproc : ℕ
nproc = 64

-- The two words of `s` in rng.c.
pub record Rng : Type 0 where
  pub s0 : ℕ
  pub s1 : ℕ

-- `initproc` is a slot.
pub record Kernel : Type 0 where
  pub procs : List Proc
  pub initproc : ℕ
  pub nextpid : ℕ
  pub rng : Rng

abbrev pub zero_proc : Proc
zero_proc = record {
  state = unused;
  chan = none;
  killed = false;
  xstate = pos 0;
  pid = 0;
  parent = none;
  sz = 0;
  pagetable = false;
  trapframe = false;
  name = [];
  ticket = 0;
}

abbrev pub proc_at : Kernel → ℕ → Proc
proc_at k i = get_or k.procs i zero_proc

abbrev pub put_proc : ℕ → Proc → Kernel → Kernel
put_proc i p k = record k { procs = set k.procs i p }

abbrev pub is_unused : ProcState → Bool
is_unused unused = true
is_unused _ = false

abbrev pub is_sleeping : ProcState → Bool
is_sleeping sleeping = true
is_sleeping _ = false

abbrev pub is_runnable : ProcState → Bool
is_runnable runnable = true
is_runnable _ = false

abbrev pub is_zombie : ProcState → Bool
is_zombie zombie = true
is_zombie _ = false
