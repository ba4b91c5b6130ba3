-- ===== src/Kernel/Invariant/Fork.antt =====
-- `kfork` keeps the invariant, and what the child is.
use opperating_system_practi.Base.{
  ℕ, Bool, true, false, ◌≡◌, ◌≢◌, sym, ◌∙◌, ap, Option, none, some, arith, get_or, set,
  get_or-set_self, get_or-set_ne,
}
use mathlib.Core.Option.{some-injective}
use opperating_system_practi.Kernel.{
  Kernel, Proc, runnable, zero_proc, proc_at, put_proc, is_unused, is_runnable,
}
use opperating_system_practi.Kernel.Table.{allocproc}
use opperating_system_practi.Kernel.Calls.{kfork, fork_from}
use opperating_system_practi.Kernel.Invariant.{Inv, AlikeAll-Inv, put_proc-AlikeAll}
use opperating_system_practi.Kernel.Invariant.Preserved.{InUse}
use opperating_system_practi.Kernel.Invariant.Slots.{
  Allocated, Allocates, allocproc-Allocates, freeproc-Inv,
}

-- The slots of a process in use and of a new one are different.
apart : (k k' : Kernel) (i n : ℕ) → InUse k i → Allocated k k' n → i ≢ n
apart k k' i n u a e =
    let p : is_unused (proc_at k n).state ≡ false = rw (sym e) u in
    absurd (no_both (sym p ∙ a.was_unused))
  where
    no_both : false ≡ true → ⊥
    no_both q = cc

abbrev child_of : Proc → Proc → ℕ → Proc
child_of np p i = record np {
  sz = p.sz;
  name = p.name;
  ticket = p.ticket;
  parent = some i;
  state = runnable;
}

-- What a successful `kfork` of slot `i` leaves: a process that is ready to run in a slot that was
-- free, with the pid that is returned and the tickets, size and name of its parent.
pub record Forked (i : ℕ) (k k' : Kernel) (pid n : ℕ) : Type 0 where
  pub was_unused : is_unused (proc_at k n).state ≡ true
  pub pid_lem : (proc_at k' n).pid ≡ pid
  pub new_pid : pid ≡ k.nextpid
  pub ready : is_runnable (proc_at k' n).state ≡ true
  pub parent : (proc_at k' n).parent ≡ some i
  pub ticket : (proc_at k' n).ticket ≡ (proc_at k i).ticket
  pub sz : (proc_at k' n).sz ≡ (proc_at k i).sz
  pub name : (proc_at k' n).name ≡ (proc_at k i).name
  pub others : (j : ℕ) → j ≢ n → proc_at k' j ≡ proc_at k j

fork_from-Inv :
    (k : Kernel) (i : ℕ) (copied : Bool) (r : Kernel × Option ℕ)
    → Inv k
    → InUse k i
    → Allocates k r
    → Inv (fork_from i copied r).0
unfolding fork_from Allocates
fork_from-Inv k i copied (k', none) h u a = a
fork_from-Inv k i false (k', some n) h u a = freeproc-Inv k' n a.keeps a.within
fork_from-Inv k i true (k', some n) h u a =
    let q : Proc = child_of (proc_at k' n) (proc_at k' i) i in
    let same : proc_at k' i ≡ proc_at k i = a.others i (apart k k' i n u a) in
    let e : (proc_at k' i).ticket ≡ (proc_at k i).ticket = ap (λ p. p.ticket) same in
    AlikeAll-Inv k' (put_proc n q k')
      (put_proc-AlikeAll k' n q (ground (arith, a.in_use, e, (h.sound i).live u))) a.keeps

pub kfork-Inv :
    (i : ℕ) (frame table copied : Bool) (k : Kernel)
    → InUse k i
    → Inv k
    → Inv (kfork i frame table copied k).0
unfolding kfork
kfork-Inv i frame table copied k u h =
    fork_from-Inv k i copied (allocproc frame table k) h u (allocproc-Allocates frame table k h)

fork_from-Forked :
    (k : Kernel) (i pid : ℕ) (copied : Bool) (r : Kernel × Option ℕ)
    → InUse k i
    → Allocates k r
    → (fork_from i copied r).1 ≡ some pid
    → (n : ℕ) × Forked i k (fork_from i copied r).0 pid n
unfolding fork_from Allocates
fork_from-Forked k i pid copied (k', none) u a e = cc
fork_from-Forked k i pid false (k', some n) u a e = cc
fork_from-Forked k i pid true (k', some n) u a e =
    let q : Proc = child_of (proc_at k' n) (proc_at k' i) i in
    let at_n : get_or (set k'.procs n q) n zero_proc ≡ q =
      get_or-set_self k'.procs n q zero_proc a.within in
    let same : proc_at k' i ≡ proc_at k i = a.others i (apart k k' i n u a) in
    let p : (proc_at k' n).pid ≡ pid = some-injective (proc_at k' n).pid pid e in
    (
      n,
      record {
        was_unused = a.was_unused;
        pid_lem = ap (λ t. t.pid) at_n ∙ p;
        new_pid = sym p ∙ a.new_pid;
        ready = ap (λ t. is_runnable t.state) at_n;
        parent = ap (λ t. t.parent) at_n;
        ticket = ap (λ t. t.ticket) at_n ∙ ap (λ t. t.ticket) same;
        sz = ap (λ t. t.sz) at_n ∙ ap (λ t. t.sz) same;
        name = ap (λ t. t.name) at_n ∙ ap (λ t. t.name) same;
        others = λ j ne. get_or-set_ne k'.procs n j q zero_proc (λ s. ne (sym s)) ∙ a.others j ne;
      },
    )

-- A successful `kfork` of a process in use makes one child, in a slot that was free: its pid is the
-- one that is returned and is new, it is ready to run, its parent is that process, and it has the
-- tickets, the size and the name of its parent; every other slot is as before.
pub kfork-Forked :
    (i : ℕ) (frame table copied : Bool) (k : Kernel) (pid : ℕ)
    → InUse k i
    → Inv k
    → (kfork i frame table copied k).1 ≡ some pid
    → (n : ℕ) × Forked i k (kfork i frame table copied k).0 pid n
unfolding kfork
kfork-Forked i frame table copied k pid u h e =
    fork_from-Forked k i pid copied (allocproc frame table k) u
      (allocproc-Allocates frame table k h) e
