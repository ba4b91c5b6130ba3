-- ===== src/Kernel/Invariant/Slots.antt =====
-- The operations that take a slot or give it back keep the invariant.
use opperating_system_practi.Base.{
  if-both, ℕ, ◌+◌, ◌<◌, Bool, true, false, ◌&&◌, ◌≡◌, ◌≢◌, refl, sym, Option, none, some, arith,
  length, get_or, set, get_or-set_self, get_or-set_ne, length-set, find_index, find_index-some,
}
use opperating_system_practi.Kernel.{
  Kernel, Proc, proc_chan, used, zero_proc, proc_at, put_proc, is_unused, is_zombie,
}
use opperating_system_practi.Kernel.Table.{
  allocproc, allocproc_at, allocpid, freeproc, default_tickets,
}
use opperating_system_practi.Kernel.Calls.{
  failed, asleep, Waited, is_child, sleep, kwait, wait_found,
}
use opperating_system_practi.Kernel.Invariant.{IsSound, Inv, AlikeAll-Inv, replace-Inv}
use opperating_system_practi.Kernel.Invariant.Preserved.{InUse, sleep-AlikeAll}

freeproc-IsSound : (n : ℕ) (p : Proc) → 0 < n → IsSound n (freeproc p)
unfolding freeproc
freeproc-IsSound n p h = ground arith

pub freeproc-Inv :
    (k : Kernel) (n : ℕ) → Inv k → n < length k.procs → Inv (put_proc n (freeproc (proc_at k n)) k)
unfolding freeproc
freeproc-Inv k n h within =
    replace-Inv k n k.nextpid (freeproc (proc_at k n)) h within (omega arith)
      (freeproc-IsSound k.nextpid (proc_at k n) (omega (arith, (h.sound 0).fresh)))
      (λ j apart in_use u. absurd (no_use in_use))
  where
    no_use : true ≡ false → ⊥
    no_use e = cc

-- What `allocproc` returns: a slot in use whose process is new; the other slots are as before.
pub record Allocated (k k' : Kernel) (n : ℕ) : Type 0 where
  pub keeps : Inv k'
  pub within : n < length k'.procs
  pub was_unused : is_unused (proc_at k n).state ≡ true
  pub in_use : InUse k' n
  pub new_pid : (proc_at k' n).pid ≡ k.nextpid
  pub tickets : (proc_at k' n).ticket ≡ default_tickets
  pub same_init : k'.initproc ≡ k.initproc
  pub others : (j : ℕ) → j ≢ n → proc_at k' j ≡ proc_at k j

-- The state in any case, and the slot if there is one.
unfoldable pub Allocates : Kernel → Kernel × Option ℕ → Type 0
Allocates k (k', none) = Inv k'
Allocates k (k', some n) = Allocated k k' n

module _ (k : Kernel) (i : ℕ) (frame : Bool) (h : Inv k) (within : i < length k.procs)
    (free : is_unused (proc_at k i).state ≡ true) where
  abbrev new : Proc
  new = record (proc_at k i) {
    pid = k.nextpid;
    state = used;
    trapframe = frame;
    pagetable = true;
    ticket = default_tickets;
  }

  new-Inv : Inv (record k { procs = set k.procs i new; nextpid = k.nextpid + 1 })
  new-Inv =
      replace-Inv k i (k.nextpid + 1) new h within (omega arith)
        (record {
          fresh = omega arith;
          free = λ e. cc;
          live = λ e. (omega (arith, (h.sound 0).fresh), omega arith);
        })
        (λ j apart in_use u e. omega (arith, (h.sound j).fresh))

  new-Allocated : Allocated k (record k { procs = set k.procs i new; nextpid = k.nextpid + 1 }) i
  new-Allocated =
      let e : get_or (set k.procs i new) i zero_proc ≡ new =
        get_or-set_self k.procs i new zero_proc within in
      record {
        keeps = new-Inv;
        within = omega (arith, length-set k.procs i new);
        was_unused = free;
        in_use = rw e;
        new_pid = rw e;
        tickets = rw e;
        same_init = refl;
        others = λ j apart. get_or-set_ne k.procs i j new zero_proc (λ p. apart (sym p));
      }

  failed-Inv :
      (q : Proc) → Inv (record k { procs = set k.procs i (freeproc q); nextpid = k.nextpid + 1 })
  unfolding freeproc
  failed-Inv q =
      replace-Inv k i (k.nextpid + 1) (freeproc q) h within (omega arith)
        (freeproc-IsSound (k.nextpid + 1) q (omega arith))
        (λ j apart in_use u. absurd (no_use in_use))
    where
      no_use : true ≡ false → ⊥
      no_use e = cc

allocproc_at-Allocates :
    (o : Option ℕ) (frame table : Bool) (k : Kernel)
    → Inv k
    → find_index (λ p. is_unused p.state) k.procs ≡ o
    → Allocates k (allocproc_at o frame table k)
unfolding allocproc_at allocpid Allocates
allocproc_at-Allocates none frame table k h e = h
allocproc_at-Allocates (some i) false table k h e =
    let (within, free) = find_index-some (λ p. is_unused p.state) k.procs i zero_proc e in
    failed-Inv k i false h within free
      (record (proc_at k i) { pid = k.nextpid; state = used; trapframe = false })
allocproc_at-Allocates (some i) true false k h e =
    let (within, free) = find_index-some (λ p. is_unused p.state) k.procs i zero_proc e in
    failed-Inv k i true h within free
      (record (proc_at k i) { pid = k.nextpid; state = used; trapframe = true })
allocproc_at-Allocates (some i) true true k h e =
    let (within, free) = find_index-some (λ p. is_unused p.state) k.procs i zero_proc e in
    new-Allocated k i true h within free

pub allocproc-Allocates :
    (frame table : Bool) (k : Kernel) → Inv k → Allocates k (allocproc frame table k)
unfolding allocproc
allocproc-Allocates frame table k h =
    allocproc_at-Allocates (find_index (λ p. is_unused p.state) k.procs) frame table k h refl

wait_found-Inv :
    (z c : Option ℕ) (i : ℕ) (stored : Bool) (k : Kernel)
    → InUse k i
    → Inv k
    → ((n : ℕ) → z ≡ some n → n < length k.procs)
    → Inv (wait_found z c i stored k).0
unfolding wait_found
wait_found-Inv (some n) c i false k u h r = h
wait_found-Inv (some n) c i true k u h r = freeproc-Inv k n h (r n refl)
wait_found-Inv none none i stored k u h r = h
wait_found-Inv none (some c) i stored k u h r =
    if-both (λ (t : Kernel × Waited). Inv t.0) (proc_at k i).killed (k, failed)
      (sleep i (proc_chan i) k, asleep) h
      (AlikeAll-Inv k (sleep i (proc_chan i) k) (sleep-AlikeAll i (proc_chan i) k u) h)

pub kwait-Inv : (i : ℕ) (stored : Bool) (k : Kernel) → InUse k i → Inv k → Inv (kwait i stored k).0
unfolding kwait
kwait-Inv i stored k u h =
    wait_found-Inv (find_index (λ p. is_child i p && is_zombie p.state) k.procs)
      (find_index (is_child i) k.procs) i stored k u h
      (λ n e. (find_index-some (λ p. is_child i p && is_zombie p.state) k.procs n zero_proc e).0)
