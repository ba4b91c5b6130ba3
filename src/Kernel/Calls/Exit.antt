-- ===== src/Kernel/Calls/Exit.antt =====
-- `kexit`: what becomes of the children, and that the parent does not sleep on.
use opperating_system_practi.Base.{
  if-both, ℕ, zero, suc, ◌+◌, ◌<◌, false, ◌≡◌, ◌≢◌, ◌⊎◌, refl, sym, ap, ◌∙◌, inl, inr, Option, none,
  some, List, [], ◌∷◌, arith, length, get_or, set, get_or-set_self, get_or-set_ne, if◌then◌else◌,
  ◌==◌, Bool-cases,
}
use mathlib.Core.Option.{some-injective}
use opperating_system_practi.Base.Int.{ℤ}
use opperating_system_practi.Kernel.{
  Kernel, Proc, Chan, proc_chan, sleeping, runnable, zombie, zero_proc, proc_at, put_proc, nproc,
}
use opperating_system_practi.Kernel.Table.{wake, wakeup_from, wakeup, is_me}
use opperating_system_practi.Kernel.Calls.{
  is_child, reparent_at, reparent_upto, reparent, exit_proc, kexit, parent_chan,
}
use opperating_system_practi.Kernel.Invariant.{AlikeAll}
use opperating_system_practi.Kernel.Invariant.Preserved.{wakeup-AlikeAll, reparent_upto-AlikeAll}
use opperating_system_practi.Kernel.Calls.Reparent.{Woken, wakeup-Woken, adopted, reparent-parent}

exit_proc-parent :
    (i j : ℕ) (status : ℤ) (k : Kernel)
    → length k.procs ≡ nproc
    → i < nproc
    → (proc_at (exit_proc i status k) j).parent ≡ adopted i k j
unfolding exit_proc
exit_proc-parent i j status k h within =
    let k' : Kernel = reparent i k in
    let c : Option Chan = parent_chan (proc_at k' i).parent in
    let k'' : Kernel = wakeup (some i) c k' in
    kept k''.procs (record (proc_at k'' i) { xstate = status; state = zombie }) refl j
    ∙ (wakeup-Woken (some i) c k' j).parent
    ∙ reparent-parent i j k h
  where
    kept :
        (ps : List Proc) (q : Proc)
        → q.parent ≡ (get_or ps i zero_proc).parent
        → (m : ℕ) → (get_or (set ps i q) m zero_proc).parent ≡ (get_or ps m zero_proc).parent
    kept ps q e m = go ps i e m
      where
        go :
            (qs : List Proc) (a : ℕ)
            → q.parent ≡ (get_or qs a zero_proc).parent
            → (b : ℕ) → (get_or (set qs a q) b zero_proc).parent ≡ (get_or qs b zero_proc).parent
        go [] a f b = refl
        go (x ∷ qs) zero f zero = f
        go (x ∷ qs) zero f (suc b) = refl
        go (x ∷ qs) (suc a) f zero = refl
        go (x ∷ qs) (suc a) f (suc b) = go qs a f b

-- Whether a process sleeps in `kwait`, or is ready.
abbrev Waits : ℕ → Proc → Type 0
Waits q p = ((p.state ≡ sleeping) × (p.chan ≡ some (proc_chan q))) ⊎ (p.state ≡ runnable)

Woken-Waits : (q : ℕ) (p r : Proc) → Woken p r → Waits q p → Waits q r
Woken-Waits q p r w (inr e) = elim w.state [ inl f ↦ inr (f ∙ e) | inr f ↦ inr f ]
Woken-Waits q p r w (inl (e, c)) = elim w.state [ inl f ↦ inl (f ∙ e, w.chan ∙ c) | inr f ↦ inr f ]

set-Waits :
    (ps : List Proc) (n j q : ℕ) (p : Option ℕ)
    → Waits q (get_or ps j zero_proc)
    → Waits q (get_or (set ps n (record (get_or ps n zero_proc) { parent = p })) j zero_proc)
set-Waits [] n j q p w = w
set-Waits (x ∷ ps) zero zero q p w = w
set-Waits (x ∷ ps) zero (suc j) q p w = w
set-Waits (x ∷ ps) (suc n) zero q p w = w
set-Waits (x ∷ ps) (suc n) (suc j) q p w = set-Waits ps n j q p w

reparent_at-Waits :
    (i n q : ℕ) (k : Kernel) → Waits q (proc_at k q) → Waits q (proc_at (reparent_at i n k) q)
unfolding reparent_at
reparent_at-Waits i n q k w =
    if-both (λ (t : Kernel). Waits q (proc_at t q)) (is_child i (proc_at k n)) _ k
      (Woken-Waits q _ _
        (wakeup-Woken (some i) (some (proc_chan k.initproc))
          (put_proc n (record (proc_at k n) { parent = some k.initproc }) k) q)
        (set-Waits k.procs n q q (some k.initproc) w))
      w

reparent_upto-Waits :
    (i n q : ℕ) (k : Kernel) → Waits q (proc_at k q) → Waits q (proc_at (reparent_upto i n k) q)
unfolding reparent_upto
reparent_upto-Waits i zero q k w = w
reparent_upto-Waits i (suc n) q k w =
    reparent_at-Waits i n q (reparent_upto i n k) (reparent_upto-Waits i n q k w)

wake-ready : (q : ℕ) (p : Proc) → Waits q p → (wake (some (proc_chan q)) p).state ≡ runnable
unfolding wake
wake-ready q p (inl (e, c)) = rw (e, c) (ground arith)
wake-ready q p (inr e) = rw e (ground arith)

wakeup_from-ready :
    (n i q j : ℕ) (ps : List Proc)
    → n + j ≢ i
    → Waits q (get_or ps j zero_proc)
    → (get_or (wakeup_from n (some i) (some (proc_chan q)) ps) j zero_proc).state ≡ runnable
unfolding wakeup_from
wakeup_from-ready n i q j [] ne (inl (e, c)) = cc
wakeup_from-ready n i q j [] ne (inr e) = cc
wakeup_from-ready n i q zero (p ∷ ps) ne w =
    let t : (n == i) ≡ false = ground arith in rw t (wake-ready q p w)
wakeup_from-ready n i q (suc j) (p ∷ ps) ne w =
    wakeup_from-ready (suc n) i q j ps (λ e. ne (omega arith)) w

exit_proc-awake :
    (i q : ℕ) (status : ℤ) (k : Kernel)
    → length k.procs ≡ nproc
    → (proc_at k i).parent ≡ some q
    → q ≢ i
    → Waits q (proc_at k q)
    → (proc_at (exit_proc i status k) q).state ≡ runnable
unfolding exit_proc reparent
exit_proc-awake i q status k size e ne w =
    let k' : Kernel = reparent_upto i nproc k in
    let up : (proc_at k' i).parent ≡ some q =
      unfold reparent in reparent-parent i i k size ∙ not_own ∙ e in
    let c : parent_chan (proc_at k' i).parent ≡ some (proc_chan q) = ap parent_chan up in
    let k'' : Kernel = wakeup (some i) (parent_chan (proc_at k' i).parent) k' in
    ap (λ p. p.state)
      (get_or-set_ne k''.procs i q (record (proc_at k'' i) { xstate = status; state = zombie })
        zero_proc (λ s. ne (sym s)))
    ∙ (unfold wakeup in
        rw c (
          wakeup_from-ready 0 i q q k'.procs (λ s. ne (omega arith))
            (reparent_upto-Waits i nproc q k w)))
  where
    not_own : adopted i k i ≡ (proc_at k i).parent
    not_own = own (proc_at k i) e
      where
        own :
            (p : Proc)
            → p.parent ≡ some q
            → (if is_child i p then some k.initproc else p.parent) ≡ p.parent
        own p f = let t : (i == q) ≡ false = ground arith in rw (f, t)

-- What the exit of the process in slot `i` leaves.
pub record Exited (i : ℕ) (status : ℤ) (k k' : Kernel) : Type 0 where
  pub state : (proc_at k' i).state ≡ zombie
  pub xstate : (proc_at k' i).xstate ≡ status
  -- Its children have the first process as their parent, and all others have the parent that they had.
  pub parents : (j : ℕ) → (proc_at k' j).parent ≡ adopted i k j
  pub childless : (j : ℕ) → (proc_at k' j).parent ≢ some i
  -- A parent that slept in `kwait` is ready.
  pub awake :
      (q : ℕ)
      → (proc_at k i).parent ≡ some q
      → q ≢ i
      → (proc_at k q).state ≡ sleeping
      → (proc_at k q).chan ≡ some (proc_chan q)
      → (proc_at k' q).state ≡ runnable

adopted-ne : (i j : ℕ) (k : Kernel) → i ≢ k.initproc → adopted i k j ≢ some i
adopted-ne i j k ne = ground_parent (proc_at k j).parent
  where
    ground_parent : (p : Option ℕ) → (if is_me p i then some k.initproc else p) ≢ some i
    ground_parent none = λ e. cc
    ground_parent (some q) = elim (Bool-cases (i == q)) [
      | inl same ↦ rw same (λ e. ne (sym (some-injective k.initproc i e)))
      | inr other ↦ rw other (λ e. let f : q ≡ i = some-injective q i e in ground arith)
    ]

exit_proc-Exited :
    (i : ℕ) (status : ℤ) (k : Kernel)
    → length k.procs ≡ nproc
    → i < nproc
    → i ≢ k.initproc
    → Exited i status k (exit_proc i status k)
unfolding exit_proc
exit_proc-Exited i status k size within ne =
    let k' : Kernel = reparent i k in
    let k'' : Kernel = wakeup (some i) (parent_chan (proc_at k' i).parent) k' in
    let z : Proc = record (proc_at k'' i) { xstate = status; state = zombie } in
    let a : AlikeAll k k' = unfold reparent in reparent_upto-AlikeAll i nproc k in
    let b : AlikeAll k' k'' = wakeup-AlikeAll (some i) (parent_chan (proc_at k' i).parent) k' in
    let p : proc_at (put_proc i z k'') i ≡ z =
      get_or-set_self k''.procs i z zero_proc (omega (arith, a.size, b.size)) in
    record {
      state = ap (λ t. t.state) p;
      xstate = ap (λ t. t.xstate) p;
      parents = λ j. exit_proc-parent i j status k size within;
      childless = λ j e. adopted-ne i j k ne (sym (exit_proc-parent i j status k size within) ∙ e);
      awake = λ q e apart s c. exit_proc-awake i q status k size e apart (inl (s, c));
    }

-- Where the table has all its slots, a process that exits and is not the first one becomes a zombie with
-- its exit status; its children get the first process as their parent, no other parent changes, no
-- process has it as parent any more, and a parent that slept in `kwait` is ready.
pub kexit-Exited :
    (i : ℕ) (status : ℤ) (k k' : Kernel)
    → length k.procs ≡ nproc
    → i < nproc
    → kexit i status k ≡ some k'
    → Exited i status k k'
unfolding kexit
kexit-Exited i status k k' size within e = elim (Bool-cases (i == k.initproc)) [
  | inl init ↦ absurd (refused (rw init at e))
  | inr other ↦
      let p : exit_proc i status k ≡ k' =
        some-injective (exit_proc i status k) k' (rw other at e) in
      rw (sym p) (exit_proc-Exited i status k size within (ground arith))
]
  where
    refused : ◌≡◌ {A = Option Kernel} none (some k') → ⊥
    refused p = cc
