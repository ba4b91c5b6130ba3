-- ===== src/Kernel/Lottery/Fairness.antt =====
-- How many tickets win for each process.
use opperating_system_practi.Base.{
  ℕ, zero, suc, ◌+◌, ◌-◌, ◌%◌, ◌^◌, ◌≤◌, ◌<◌, Bool, true, false, ◌&&◌, ◌≡◌, refl, sym, ap, inl, inr,
  Option, none, some, List, [], ◌∷◌, arith, ltb, leb, ◌==◌, if◌then◌else◌, next, get_or, Bool-cases,
}
use mathlib.Core.Option.{some-injective}
use opperating_system_practi.Kernel.{Proc, zero_proc, is_runnable}
use opperating_system_practi.Kernel.Lottery.{stake, exceeds, total_tickets, find_winner}

-- The number of values below `n` that pass a test.
unfoldable pub count_below : ℕ → (ℕ → Bool) → ℕ
count_below zero p = 0
count_below (suc n) p = (if p n then 1 else 0) + count_below n p

abbrev pub is_at : ℕ → Option ℕ → Bool
is_at j none = false
is_at j (some i) = i == j

abbrev pub proc_of : List Proc → ℕ → Proc
proc_of ps j = get_or ps j zero_proc

-- The tickets in front of a slot.
stakes_before : ℕ → List Proc → ℕ
stakes_before zero ps = 0
stakes_before (suc j) [] = 0
stakes_before (suc j) (p ∷ ps) = stake p + stakes_before j ps

is_at-next : (j : ℕ) (o : Option ℕ) → is_at (suc j) (next o) ≡ is_at j o
is_at-next j none = refl
is_at-next j (some i) = ground arith

is_at-next_zero : (o : Option ℕ) → is_at 0 (next o) ≡ false
is_at-next_zero none = refl
is_at-next_zero (some i) = ground arith

abbrev within : ℕ → ℕ → ℕ → Bool
within a n w = leb a w && ltb w (a + n)

module _ (w c : ℕ) (p : Proc) (ps : List Proc) where
  skips : is_runnable p.state ≡ false → find_winner w c (p ∷ ps) ≡ next (find_winner w c ps)
  unfolding find_winner
  skips e = rw (find_winner, e)

  wins :
      is_runnable p.state ≡ true
      → c + p.ticket < 2 ^ 31
      → w < c + p.ticket
      → find_winner w c (p ∷ ps) ≡ some 0
  unfolding find_winner
  wins e b h =
      let m : (c + p.ticket) % 2 ^ 32 ≡ c + p.ticket = omega arith in
      let t : exceeds (c + p.ticket) w ≡ true = ground arith in rw (find_winner, e, m, t) refl

  loses :
      is_runnable p.state ≡ true
      → c + p.ticket < 2 ^ 31
      → c + p.ticket ≤ w
      → find_winner w c (p ∷ ps) ≡ next (find_winner w (c + p.ticket) ps)
  unfolding find_winner
  loses e b h =
      let m : (c + p.ticket) % 2 ^ 32 ≡ c + p.ticket = omega arith in
      let t : exceeds ((c + p.ticket) % 2 ^ 32) w ≡ false = ground arith in
      rw (find_winner, e, t) (ap (λ v. next (find_winner w v ps)) m)

-- The tickets that take part, without overflow.
unfoldable pub all_tickets : List Proc → ℕ
all_tickets [] = 0
all_tickets (p ∷ ps) = stake p + all_tickets ps

pub total_tickets-all_tickets :
    (ps : List Proc) → all_tickets ps < 2 ^ 31 → total_tickets ps ≡ all_tickets ps
unfolding total_tickets all_tickets
total_tickets-all_tickets [] h = refl
total_tickets-all_tickets (p ∷ ps) h =
    let e : total_tickets ps ≡ all_tickets ps = total_tickets-all_tickets ps (omega arith) in
    omega arith

-- The stake of a process that is ready, and what the others leave below 2^31.
stake_first :
    (p : Proc) (ps : List Proc) (c : ℕ)
    → is_runnable p.state ≡ true
    → c + all_tickets (p ∷ ps) < 2 ^ 31
    → c + p.ticket + all_tickets ps < 2 ^ 31
unfolding all_tickets
stake_first p ps c r b = let e : stake p ≡ p.ticket = rw r refl in omega arith

rest_first :
    (p : Proc) (ps : List Proc) (c : ℕ)
    → c + all_tickets (p ∷ ps) < 2 ^ 31
    → c + all_tickets ps < 2 ^ 31
unfolding all_tickets
rest_first p ps c b = omega arith

-- A process wins with the tickets that follow those of the processes in front of it.
find_winner-within :
    (ps : List Proc) (w c j : ℕ)
    → c + all_tickets ps < 2 ^ 31
    → c ≤ w
    → is_runnable (proc_of ps j).state ≡ true
    → is_at j (find_winner w c ps) ≡ within (c + stakes_before j ps) (proc_of ps j).ticket w
unfolding stakes_before
find_winner-within [] w c j b h r = cc
find_winner-within (p ∷ ps) w c zero b h r =
    let f = stake_first p ps c r b in
    elim (Bool-cases (ltb w (c + p.ticket))) [
      | inl won ↦ rw (wins w c p ps r (omega arith) (ground arith)) (ground arith)
      | inr lost ↦
          rw (loses w c p ps r (omega arith) (ground arith))
            (rw (is_at-next_zero (find_winner w (c + p.ticket) ps)) (ground arith))
    ]
find_winner-within (p ∷ ps) w c (suc j) b h r = elim (Bool-cases (is_runnable p.state)) [
  | inl takes_part ↦
      (let f = stake_first p ps c takes_part b in
        elim (Bool-cases (ltb w (c + p.ticket))) [
          | inl won ↦ rw (wins w c p ps takes_part (omega arith) (ground arith)) (ground arith)
          | inr lost ↦ rw (loses w c p ps takes_part (omega arith) (ground arith)) (
              rw (is_at-next j (find_winner w (c + p.ticket) ps))
                (rw (find_winner-within ps w (c + p.ticket) j f (ground arith) r) (ground arith)))
        ])
  | inr waits ↦ rw (skips w c p ps waits) (
      rw (is_at-next j (find_winner w c ps))
        (rw (find_winner-within ps w c j (rest_first p ps c b) h r) (ground arith)))
]

stakes_before-le :
    (j : ℕ) (ps : List Proc)
    → is_runnable (proc_of ps j).state ≡ true
    → stakes_before j ps + (proc_of ps j).ticket ≤ all_tickets ps
unfolding stakes_before all_tickets
stakes_before-le j [] r = cc
stakes_before-le zero (p ∷ ps) r = rw r (omega arith)
stakes_before-le (suc j) (p ∷ ps) r = omega (arith, stakes_before-le j ps r)

count_below-within :
    (n a t : ℕ)
    → count_below n (within a t) ≡ (if leb n a then 0 else if leb n (a + t) then n - a else t)
unfolding count_below
count_below-within zero a t = ground arith
count_below-within (suc n) a t = ground (arith, count_below-within n a t)

count_below-ext :
    (n : ℕ) (p q : ℕ → Bool) → ((w : ℕ) → p w ≡ q w) → count_below n p ≡ count_below n q
unfolding count_below
count_below-ext zero p q e = refl
count_below-ext (suc n) p q e = rw (e n, count_below-ext n p q e)

-- Where all tickets together are below 2^31: for each runnable process, exactly as many of the winning
-- numbers below the total as the process has tickets make the second pass of the lottery choose it.
pub wins-tickets :
    (ps : List Proc) (j : ℕ)
    → all_tickets ps < 2 ^ 31
    → is_runnable (proc_of ps j).state ≡ true
    → count_below (total_tickets ps) (λ w. is_at j (find_winner w 0 ps)) ≡ (proc_of ps j).ticket
wins-tickets ps j b r = rw (total_tickets-all_tickets ps b) (
    rw
      (count_below-ext (all_tickets ps) (λ w. is_at j (find_winner w 0 ps))
        (within (stakes_before j ps) (proc_of ps j).ticket)
        (λ w. rw (find_winner-within ps w 0 j (omega arith) (omega arith) r) (ground arith)))
      (rw (count_below-within (all_tickets ps) (stakes_before j ps) (proc_of ps j).ticket)
        (ground (arith, stakes_before-le j ps r))))

-- The second pass finds a process if the winning number is below the total of the first pass.
pub find_winner-some :
    (ps : List Proc) (w c : ℕ)
    → c + all_tickets ps < 2 ^ 31
    → c ≤ w
    → w < c + all_tickets ps
    → (i : ℕ) × (find_winner w c ps ≡ some i)
unfolding all_tickets
find_winner-some [] w c b h k = absurd (omega arith)
find_winner-some (p ∷ ps) w c b h k = elim (Bool-cases (is_runnable p.state)) [
  | inl takes_part ↦
      (let e : stake p ≡ p.ticket = rw takes_part refl in
        elim (Bool-cases (ltb w (c + p.ticket))) [
          | inl won ↦ (0, wins w c p ps takes_part (omega arith) (ground arith))
          | inr lost ↦
              let (i, found) =
                find_winner-some ps w (c + p.ticket) (omega arith) (ground arith) (omega arith) in
              (suc i, rw (loses w c p ps takes_part (omega arith) (ground arith)) (rw found))
        ])
  | inr waits ↦
      (let e : stake p ≡ 0 = rw waits refl in
        let (i, found) = find_winner-some ps w c (omega arith) h (omega arith) in
        (suc i, rw (skips w c p ps waits) (rw found)))
]

next-some : (o : Option ℕ) (i : ℕ) → next o ≡ some i → (j : ℕ) × (o ≡ some j) × (i ≡ suc j)
next-some none i e = cc
next-some (some j) i e = (j, refl, sym (some-injective (suc j) i e))

-- Whatever the sums are, a process that is chosen is ready.
pub find_winner-ready :
    (ps : List Proc) (w c i : ℕ)
    → find_winner w c ps ≡ some i
    → is_runnable (proc_of ps i).state ≡ true
unfolding find_winner
find_winner-ready [] w c i e = cc
find_winner-ready (p ∷ ps) w c i e = elim (Bool-cases (is_runnable p.state)) [
  | inl takes_part ↦
      (let n : ℕ = (c + p.ticket) % 2 ^ 32 in
        elim (Bool-cases (exceeds n w)) [
          | inl won ↦
              (let first : 0 ≡ i = some-injective 0 i (rw (find_winner, takes_part, won) at e) in
                rw (sym first) takes_part)
          | inr lost ↦
              (let (j, found, g) =
                  next-some (find_winner w n ps) i (rw (find_winner, takes_part, lost) at e) in
                rw g (find_winner-ready ps w n j found))
        ])
  | inr waits ↦
      (let (j, found, g) = next-some (find_winner w c ps) i (rw (find_winner, waits) at e) in
        rw g (find_winner-ready ps w c j found))
]
