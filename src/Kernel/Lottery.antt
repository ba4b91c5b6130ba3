-- ===== src/Kernel/Lottery.antt =====
-- The lottery of `scheduler` in xv6-riscv/kernel/proc.c. The tickets are counted and the winner is
-- looked for in two passes over the table. The two sums are kept in an `int`: they are its 32 bits
-- here, and wrap around.
pub mod Fairness
pub mod Round
use opperating_system_practi.Base.{
  ℕ, zero, suc, ◌+◌, ◌-◌, ◌%◌, ◌^◌, ◌&&◌, Bool, true, false, Option, none, some, List, [], ◌∷◌, ltb,
  ◌==◌, if◌then◌else◌, next,
}
use opperating_system_practi.Kernel.{Kernel, Proc, Rng, running, proc_at, put_proc, is_runnable}
use opperating_system_practi.Kernel.Random.{rand_int}

-- The tickets that take part.
abbrev pub stake : Proc → ℕ
stake p = if is_runnable p.state then p.ticket else 0

-- The first pass.
unfoldable pub total_tickets : List Proc → ℕ
total_tickets [] = 0
total_tickets (p ∷ ps) = (stake p + total_tickets ps) % 2 ^ 32

-- `counter > winner`, where the bits of `counter` may be those of a negative number and `winner` is 0
-- or more
abbrev pub exceeds : ℕ → ℕ → Bool
exceeds counter winner = ltb counter (2 ^ 31) && ltb winner counter

-- The second pass, from a value of `counter` on.
unfoldable pub find_winner : ℕ → ℕ → List Proc → Option ℕ
find_winner winner counter [] = none
find_winner winner counter (p ∷ ps) = elim (is_runnable p.state) [
  | false ↦ next (find_winner winner counter ps)
  | true ↦ elim (exceeds ((counter + p.ticket) % 2 ^ 32) winner) [
    | true ↦ some 0
    | false ↦ next (find_winner winner ((counter + p.ticket) % 2 ^ 32) ps)
  ]
]

unfoldable pub run_winner : Option ℕ → Kernel → Kernel × Option ℕ
run_winner none k = (k, none)
run_winner (some i) k = (put_proc i (record (proc_at k i) { state = running }) k, some i)

-- `(rand_int() & 0x7FFFFFFF) % total_tickets`; the remainder by a negative total is the one by its
-- absolute value.
abbrev pub winner_of : ℕ → ℕ → ℕ
winner_of random total = random % 2 ^ 31 % (if ltb total (2 ^ 31) then total else 2 ^ 32 - total)

-- One round of the loop, where no other core changes the table between the passes. The result is
-- the process that runs next; `none` is the wait for an interrupt.
unfoldable pub scheduler_round : Kernel → Kernel × Option ℕ
unfolding total_tickets find_winner run_winner rand_int
scheduler_round k =
    let total = total_tickets k.procs in
    if total == 0
    then (k, none)
    else (let (r, random) = rand_int k.rng in
        run_winner (find_winner (winner_of random total) 0 k.procs) (record k { rng = r }))
