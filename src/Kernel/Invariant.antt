-- ===== src/Kernel/Invariant.antt =====
-- What holds of the process table between the steps of the processes.
pub mod Preserved
pub mod Slots
pub mod Fork
use opperating_system_practi.Base.{
  ℕ, zero, suc, ◌+◌, ◌≤◌, ◌<◌, Bool, true, false, ◌≡◌, ◌≢◌, ◌∙◌, refl, inl, inr, List, [], ◌∷◌,
  arith, length, get_or, set, get_or-set, length-set, if◌then◌else◌, ◌==◌, Bool-cases,
}
use opperating_system_practi.Kernel.{Kernel, Proc, zero_proc, proc_at, put_proc, nproc, is_unused}

-- A slot that is not in use has no pid and no pages; any other has a pid and at least one ticket.
pub record IsSound (n : ℕ) (p : Proc) : Type 0 where
  pub fresh : p.pid < n
  pub free : is_unused p.state ≡ true → (p.pid ≡ 0) × (p.trapframe ≡ false) × (p.pagetable ≡ false)
  pub live : is_unused p.state ≡ false → (0 < p.pid) × (0 < p.ticket)

pub record Inv (k : Kernel) : Type 0 where
  pub slots : length k.procs ≡ nproc
  pub sound : (i : ℕ) → IsSound k.nextpid (proc_at k i)
  -- No two processes have one pid.
  pub unique :
      (i j : ℕ)
      → is_unused (proc_at k i).state ≡ false
      → is_unused (proc_at k j).state ≡ false
      → (proc_at k i).pid ≡ (proc_at k j).pid
      → i ≡ j

-- The second process may stand in place of the first.
pub record Alike (p q : Proc) : Type 0 where
  pub state : is_unused q.state ≡ is_unused p.state
  pub pid : q.pid ≡ p.pid
  pub trapframe : q.trapframe ≡ p.trapframe
  pub pagetable : q.pagetable ≡ p.pagetable
  pub ticket : 0 < p.ticket → 0 < q.ticket

pub record AlikeAll (k k' : Kernel) : Type 0 where
  pub size : length k'.procs ≡ length k.procs
  pub next : k'.nextpid ≡ k.nextpid
  pub init : k'.initproc ≡ k.initproc
  pub each : (i : ℕ) → Alike (proc_at k i) (proc_at k' i)

pub Alike-refl : (p : Proc) → Alike p p
Alike-refl p = ground arith

pub Alike-trans : (p q r : Proc) → Alike p q → Alike q r → Alike p r
Alike-trans p q r a b = ground arith

pub AlikeAll-refl : (k : Kernel) → AlikeAll k k
AlikeAll-refl k = record {
  size = refl;
  next = refl;
  init = refl;
  each = λ i. Alike-refl (proc_at k i);
}

pub AlikeAll-trans : (k l m : Kernel) → AlikeAll k l → AlikeAll l m → AlikeAll k m
AlikeAll-trans k l m a b = record {
  size = b.size ∙ a.size;
  next = b.next ∙ a.next;
  init = b.init ∙ a.init;
  each = λ i. Alike-trans (proc_at k i) (proc_at l i) (proc_at m i) (a.each i) (b.each i);
}

IsSound-Alike : (n : ℕ) (p q : Proc) → Alike p q → IsSound n p → IsSound n q
IsSound-Alike n p q a h = ground arith

pub AlikeAll-Inv : (k k' : Kernel) → AlikeAll k k' → Inv k → Inv k'
AlikeAll-Inv k k' a h = record {
  slots = a.size ∙ h.slots;
  sound =
      λ i. rw a.next (IsSound-Alike k.nextpid (proc_at k i) (proc_at k' i) (a.each i) (h.sound i));
  unique = λ i j u v e.
      h.unique i j (ground (arith, a.each i)) (ground (arith, a.each j))
        (ground (arith, a.each i, a.each j));
}

set-Alike :
    (ps : List Proc) (i j : ℕ) (q : Proc)
    → Alike (get_or ps i zero_proc) q
    → Alike (get_or ps j zero_proc) (get_or (set ps i q) j zero_proc)
set-Alike [] i j q a = Alike-refl zero_proc
set-Alike (p ∷ ps) zero zero q a = a
set-Alike (p ∷ ps) zero (suc j) q a = Alike-refl (get_or ps j zero_proc)
set-Alike (p ∷ ps) (suc i) zero q a = Alike-refl p
set-Alike (p ∷ ps) (suc i) (suc j) q a = set-Alike ps i j q a

pub put_proc-AlikeAll :
    (k : Kernel) (i : ℕ) (q : Proc) → Alike (proc_at k i) q → AlikeAll k (put_proc i q k)
put_proc-AlikeAll k i q a = record {
  size = length-set k.procs i q;
  next = refl;
  init = refl;
  each = λ j. set-Alike k.procs i j q a;
}

IsSound-mono : (n m : ℕ) (p : Proc) → n ≤ m → IsSound n p → IsSound m p
IsSound-mono n m p h s = record { fresh = omega (arith, s.fresh); free = s.free; live = s.live }

-- A slot gets another process, with a pid that no other process has.
module _ (k : Kernel) (i n : ℕ) (q : Proc) (h : Inv k) (within : i < length k.procs)
    (more : k.nextpid ≤ n) (s : IsSound n q)
    (other : (j : ℕ)
      → j ≢ i
      → is_unused q.state ≡ false
      → is_unused (proc_at k j).state ≡ false
      → (proc_at k j).pid ≢ q.pid) where
  at_slot : (j : ℕ) → get_or (set k.procs i q) j zero_proc ≡ (if i == j then q else proc_at k j)
  at_slot j = get_or-set k.procs i j q zero_proc within

  slot_IsSound : (j : ℕ) → IsSound n (get_or (set k.procs i q) j zero_proc)
  slot_IsSound j = rw (at_slot j) (elim (Bool-cases (i == j)) [
    | inl same ↦ rw same s
    | inr apart ↦ rw apart (IsSound-mono k.nextpid n (proc_at k j) more (h.sound j))
  ])

  pub replace-Inv : Inv (record k { procs = set k.procs i q; nextpid = n })
  replace-Inv = record {
    slots = length-set k.procs i q ∙ h.slots;
    sound = slot_IsSound;
    unique = λ a b u v e. ground (arith, at_slot a, at_slot b, h.unique a b, other a, other b);
  }
