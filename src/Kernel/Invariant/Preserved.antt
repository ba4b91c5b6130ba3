-- ===== src/Kernel/Invariant/Preserved.antt =====
-- The operations on the process table keep its invariant.
use opperating_system_practi.Base.{
  ℕ, zero, suc, ◌<◌, false, ◌≡◌, refl, sym, inl, inr, Option, none, some, List, [], ◌∷◌, arith,
  length, get_or, find_index, ◌==◌, Bool-cases,
}
use mathlib.Core.Option.{some-injective}
use opperating_system_practi.Base.Int.{ℤ, pos, negsuc}
use opperating_system_practi.Kernel.{
  Kernel, Proc, Chan, proc_chan, sleeping, runnable, zombie, zero_proc, proc_at, put_proc, nproc,
  is_unused,
}
use opperating_system_practi.Kernel.Table.{
  wake, wakeup_from, wakeup, is_me, kkill, kill_found, kill_proc, has_pid, settickets,
  settickets_found, sys_settickets,
}
use opperating_system_practi.Kernel.Calls.{
  is_child, reparent_at, reparent_upto, reparent, kexit, exit_proc, yield_proc, sleep, sleep_end,
  parent_chan,
}
use opperating_system_practi.Kernel.Invariant.{
  Inv, Alike, AlikeAll, Alike-refl, AlikeAll-refl, AlikeAll-trans, AlikeAll-Inv, put_proc-AlikeAll,
}

wake-Alike : (c : Option Chan) (p : Proc) → Alike p (wake c p)
unfolding wake
wake-Alike c p = ground arith

wakeup_from-Alike :
    (n : ℕ) (me : Option ℕ) (c : Option Chan) (ps : List Proc) (j : ℕ)
    → Alike (get_or ps j zero_proc) (get_or (wakeup_from n me c ps) j zero_proc)
unfolding wakeup_from
wakeup_from-Alike n me c [] j = Alike-refl zero_proc
wakeup_from-Alike n me c (p ∷ ps) zero = elim (Bool-cases (is_me me n)) [
  | inl mine ↦ rw mine (Alike-refl p)
  | inr other ↦ rw other (wake-Alike c p)
]
wakeup_from-Alike n me c (p ∷ ps) (suc j) = wakeup_from-Alike (suc n) me c ps j

length-wakeup_from :
    (n : ℕ) (me : Option ℕ) (c : Option Chan) (ps : List Proc)
    → length (wakeup_from n me c ps) ≡ length ps
unfolding wakeup_from
length-wakeup_from n me c [] = refl
length-wakeup_from n me c (p ∷ ps) = omega (arith, length-wakeup_from (suc n) me c ps)

pub wakeup-AlikeAll : (me : Option ℕ) (c : Option Chan) (k : Kernel) → AlikeAll k (wakeup me c k)
unfolding wakeup
wakeup-AlikeAll me c k = record {
  size = length-wakeup_from 0 me c k.procs;
  next = refl;
  init = refl;
  each = λ j. wakeup_from-Alike 0 me c k.procs j;
}

kill_proc-Alike : (p : Proc) → Alike p (kill_proc p)
unfolding kill_proc
kill_proc-Alike p = ground arith

kill_found-AlikeAll : (o : Option ℕ) (k : Kernel) → AlikeAll k (kill_found o k).0
unfolding kill_found
kill_found-AlikeAll none k = AlikeAll-refl k
kill_found-AlikeAll (some i) k =
    put_proc-AlikeAll k i (kill_proc (proc_at k i)) (kill_proc-Alike (proc_at k i))

pub kkill-AlikeAll : (pid : ℤ) (k : Kernel) → AlikeAll k (kkill pid k).0
unfolding kkill
kkill-AlikeAll pid k = kill_found-AlikeAll (find_index (has_pid pid) k.procs) k

settickets_found-AlikeAll :
    (o : Option ℕ) (n : ℕ) (k : Kernel) → 0 < n → AlikeAll k (settickets_found o n k).0
unfolding settickets_found
settickets_found-AlikeAll none n k h = AlikeAll-refl k
settickets_found-AlikeAll (some i) n k h =
    put_proc-AlikeAll k i (record (proc_at k i) { ticket = n }) (ground arith)

pub sys_settickets-AlikeAll : (pid n : ℤ) (k : Kernel) → AlikeAll k (sys_settickets pid n k).0
unfolding sys_settickets settickets
sys_settickets-AlikeAll pid (negsuc n) k = AlikeAll-refl k
sys_settickets-AlikeAll pid (pos zero) k = AlikeAll-refl k
sys_settickets-AlikeAll pid (pos (suc n)) k =
    settickets_found-AlikeAll (find_index (has_pid pid) k.procs) (suc n) k (omega arith)

-- A process in use.
abbrev pub InUse : Kernel → ℕ → Type 0
InUse k i = is_unused (proc_at k i).state ≡ false

pub yield_proc-AlikeAll : (i : ℕ) (k : Kernel) → InUse k i → AlikeAll k (yield_proc i k)
unfolding yield_proc
yield_proc-AlikeAll i k h =
    put_proc-AlikeAll k i (record (proc_at k i) { state = runnable }) (ground arith)

pub sleep-AlikeAll : (i : ℕ) (c : Chan) (k : Kernel) → InUse k i → AlikeAll k (sleep i c k)
unfolding sleep
sleep-AlikeAll i c k h =
    put_proc-AlikeAll k i (record (proc_at k i) { chan = some c; state = sleeping }) (ground arith)

pub sleep_end-AlikeAll : (i : ℕ) (k : Kernel) → AlikeAll k (sleep_end i k)
unfolding sleep_end
sleep_end-AlikeAll i k = put_proc-AlikeAll k i (record (proc_at k i) { chan = none }) (ground arith)

pub reparent_at-AlikeAll : (i n : ℕ) (k : Kernel) → AlikeAll k (reparent_at i n k)
unfolding reparent_at
reparent_at-AlikeAll i n k = elim (Bool-cases (is_child i (proc_at k n))) [
  | inl child ↦
      let k' : Kernel = put_proc n (record (proc_at k n) { parent = some k.initproc }) k in
      rw child (
        AlikeAll-trans k k' (wakeup (some i) (some (proc_chan k.initproc)) k')
          (put_proc-AlikeAll k n (record (proc_at k n) { parent = some k.initproc }) (ground arith))
          (wakeup-AlikeAll (some i) (some (proc_chan k.initproc)) k'))
  | inr other ↦ rw other (AlikeAll-refl k)
]

pub reparent_upto-AlikeAll : (i n : ℕ) (k : Kernel) → AlikeAll k (reparent_upto i n k)
unfolding reparent_upto
reparent_upto-AlikeAll i zero k = AlikeAll-refl k
reparent_upto-AlikeAll i (suc n) k =
    AlikeAll-trans k (reparent_upto i n k) (reparent_at i n (reparent_upto i n k))
      (reparent_upto-AlikeAll i n k) (reparent_at-AlikeAll i n (reparent_upto i n k))

exit_proc-AlikeAll :
    (i : ℕ) (status : ℤ) (k : Kernel) → InUse k i → AlikeAll k (exit_proc i status k)
unfolding exit_proc reparent
exit_proc-AlikeAll i status k h =
    let k' : Kernel = reparent_upto i nproc k in
    let a : AlikeAll k k' = reparent_upto-AlikeAll i nproc k in
    let c : Option Chan = parent_chan (proc_at k' i).parent in
    let k'' : Kernel = wakeup (some i) c k' in
    let b : AlikeAll k' k'' = wakeup-AlikeAll (some i) c k' in
    let ab : AlikeAll k k'' = AlikeAll-trans k k' k'' a b in
    AlikeAll-trans k k''
      (put_proc i (record (proc_at k'' i) { xstate = status; state = zombie }) k'') ab
      (put_proc-AlikeAll k'' i (record (proc_at k'' i) { xstate = status; state = zombie })
        (ground (arith, ab.each i)))

pub kexit-Inv :
    (i : ℕ) (status : ℤ) (k k' : Kernel) → InUse k i → Inv k → kexit i status k ≡ some k' → Inv k'
unfolding kexit
kexit-Inv i status k k' u h e = elim (Bool-cases (i == k.initproc)) [
  | inl init ↦ absurd (refused (rw init at e))
  | inr other ↦
      let p : exit_proc i status k ≡ k' =
        some-injective (exit_proc i status k) k' (rw other at e) in
      rw (sym p) (AlikeAll-Inv k (exit_proc i status k) (exit_proc-AlikeAll i status k u) h)
]
  where
    refused : ◌≡◌ {A = Option Kernel} none (some k') → ⊥
    refused p = cc
