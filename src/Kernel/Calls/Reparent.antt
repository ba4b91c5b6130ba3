-- ===== src/Kernel/Calls/Reparent.antt =====
-- `reparent`: who the parent of each process is afterwards.
use opperating_system_practi.Base.{
  ℕ, zero, suc, ◌≤◌, ◌<◌, true, false, ◌&&◌, ◌≡◌, ◌⊎◌, refl, sym, ◌∙◌, inl, inr, Option, some, List,
  [], ◌∷◌, arith, length, get_or, set, if◌then◌else◌, ltb, ◌==◌, Bool-cases,
}
use opperating_system_practi.Kernel.{
  Kernel, Proc, Chan, proc_chan, runnable, zero_proc, proc_at, put_proc, nproc,
}
use opperating_system_practi.Kernel.Table.{wake, wakeup_from, wakeup, is_me}
use opperating_system_practi.Kernel.Calls.{is_child, reparent_at, reparent_upto, reparent}
use opperating_system_practi.Kernel.Invariant.{AlikeAll}
use opperating_system_practi.Kernel.Invariant.Preserved.{reparent_upto-AlikeAll}

-- Waking keeps the parent, and leaves a sleeper as it was or ready.
pub record Woken (p q : Proc) : Type 0 where
  pub parent : q.parent ≡ p.parent
  pub chan : q.chan ≡ p.chan
  pub state : (q.state ≡ p.state) ⊎ (q.state ≡ runnable)

Woken-refl : (p : Proc) → Woken p p
Woken-refl p = record { parent = refl; chan = refl; state = inl refl }

wake-Woken : (c : Option Chan) (p : Proc) → Woken p (wake c p)
unfolding wake
wake-Woken c p = ground arith

pub wakeup_from-Woken :
    (n : ℕ) (me : Option ℕ) (c : Option Chan) (ps : List Proc) (j : ℕ)
    → Woken (get_or ps j zero_proc) (get_or (wakeup_from n me c ps) j zero_proc)
unfolding wakeup_from
wakeup_from-Woken n me c [] j = Woken-refl zero_proc
wakeup_from-Woken n me c (p ∷ ps) zero = elim (Bool-cases (is_me me n)) [
  | inl mine ↦ rw mine (Woken-refl p)
  | inr other ↦ rw other (wake-Woken c p)
]
wakeup_from-Woken n me c (p ∷ ps) (suc j) = wakeup_from-Woken (suc n) me c ps j

pub wakeup-Woken :
    (me : Option ℕ) (c : Option Chan) (k : Kernel) (j : ℕ)
    → Woken (proc_at k j) (proc_at (wakeup me c k) j)
unfolding wakeup
wakeup-Woken me c k j = wakeup_from-Woken 0 me c k.procs j

-- The parent that a process has after the rounds of `reparent` below `n`.
abbrev new_parent : ℕ → ℕ → ℕ → Kernel → Option ℕ
new_parent i n j k =
    if ltb j n && is_child i (proc_at k j) then some k.initproc else (proc_at k j).parent

parent-set :
    (ps : List Proc) (n j : ℕ) (p : Option ℕ)
    → n < length ps
    → (get_or (set ps n (record (get_or ps n zero_proc) { parent = p })) j zero_proc).parent
      ≡ (if n == j then p else (get_or ps j zero_proc).parent)
parent-set [] n j p h = absurd (omega arith)
parent-set (q ∷ ps) zero zero p h = refl
parent-set (q ∷ ps) zero (suc j) p h = ground arith
parent-set (q ∷ ps) (suc n) zero p h = ground arith
parent-set (q ∷ ps) (suc n) (suc j) p h = ground (arith, parent-set ps n j p (omega arith))

reparent_at-parent :
    (i n j : ℕ) (k : Kernel)
    → n < length k.procs
    → (proc_at (reparent_at i n k) j).parent
      ≡ (if (n == j) && is_child i (proc_at k j) then some k.initproc else (proc_at k j).parent)
unfolding reparent_at
reparent_at-parent i n j k h = elim (Bool-cases (is_child i (proc_at k n))) [
  | inl child ↦
      let k' : Kernel = put_proc n (record (proc_at k n) { parent = some k.initproc }) k in
      rw child (
        (wakeup-Woken (some i) (some (proc_chan k.initproc)) k' j).parent
        ∙ parent-set k.procs n j (some k.initproc) h
        ∙ joined child)
  | inr other ↦ rw other (apart other)
]
  where
    joined :
        is_child i (proc_at k n) ≡ true
        → (if n == j then some k.initproc else (proc_at k j).parent)
          ≡ (if (n == j) && is_child i (proc_at k j) then some k.initproc else (proc_at k j).parent)
    joined c = elim (Bool-cases (n == j)) [
      | inl same ↦
          let e : n ≡ j = ground arith in
          let d : is_child i (proc_at k j) ≡ true = rw (sym e) c in rw (same, d)
      | inr ne ↦ rw ne
    ]

    apart :
        is_child i (proc_at k n) ≡ false
        → (proc_at k j).parent
          ≡ (if (n == j) && is_child i (proc_at k j) then some k.initproc else (proc_at k j).parent)
    apart c = elim (Bool-cases (n == j)) [
      | inl same ↦
          let e : n ≡ j = ground arith in
          let d : is_child i (proc_at k j) ≡ false = rw (sym e) c in rw (same, d)
      | inr ne ↦ rw ne
    ]

reparent_upto-parent :
    (i n j : ℕ) (k : Kernel)
    → n ≤ length k.procs
    → (proc_at (reparent_upto i n k) j).parent ≡ new_parent i n j k
unfolding reparent_upto
reparent_upto-parent i zero j k h = ground arith
reparent_upto-parent i (suc n) j k h =
    let k' : Kernel = reparent_upto i n k in
    let a : AlikeAll k k' = reparent_upto-AlikeAll i n k in
    let ih : (proc_at k' j).parent ≡ new_parent i n j k =
      reparent_upto-parent i n j k (omega arith) in
    reparent_at-parent i n j k' (omega (arith, a.size))
    ∙ next_round (proc_at k' j).parent k'.initproc a.init ih
  where
    next_round :
        (p : Option ℕ) (init : ℕ)
        → init ≡ k.initproc
        → p ≡ new_parent i n j k
        → (if (n == j) && is_me p i then some init else p) ≡ new_parent i (suc n) j k
    next_round p init e q = elim (Bool-cases (n == j)) [
      | inl same ↦
          let old : ltb j n ≡ false = ground arith in
          let new : ltb j (suc n) ≡ true = ground arith in
          let r : p ≡ (proc_at k j).parent = q ∙ (rw old) in rw (same, new, r, e)
      | inr ne ↦ let t : ltb j (suc n) ≡ ltb j n = ground arith in rw (ne, t) q
    ]

-- The parent of a process once the process in slot `i` has exited.
abbrev pub adopted : ℕ → Kernel → ℕ → Option ℕ
adopted i k j = if is_child i (proc_at k j) then some k.initproc else (proc_at k j).parent

pub reparent-parent :
    (i j : ℕ) (k : Kernel)
    → length k.procs ≡ nproc
    → (proc_at (reparent i k) j).parent ≡ adopted i k j
unfolding reparent
reparent-parent i j k h =
    reparent_upto-parent i nproc j k (omega arith) ∙ within (Bool-cases (ltb j nproc))
  where
    beyond : (ps : List Proc) (m : ℕ) → length ps ≤ m → get_or ps m zero_proc ≡ zero_proc
    beyond [] m b = refl
    beyond (p ∷ ps) zero b = absurd (omega arith)
    beyond (p ∷ ps) (suc m) b = beyond ps m (omega arith)

    no_child :
        (p : Proc) → p ≡ zero_proc → p.parent ≡ (if is_child i p then some k.initproc else p.parent)
    no_child p e = rw e

    within : (ltb j nproc ≡ true) ⊎ (ltb j nproc ≡ false) → new_parent i nproc j k ≡ adopted i k j
    within (inl e) = rw e
    within (inr e) = rw e (no_child (proc_at k j) (beyond k.procs j (ground arith)))
