-- ===== src/Base/Lists.antt =====
-- Lists measured and indexed by the native numbers: the C arrays.
use Prim.Native.Nat.{ℕ, zero, suc, ◌<◌, ◌≤◌}
use mathlib.Core.Path.{◌≡◌, refl, ap}
use mathlib.Core.Logic.{◌≢◌}
use mathlib.Core.List.{List, [], ◌∷◌}
use mathlib.Core.Option.{Option, none, some}
use mathlib.Core.Bool.{Bool, true, false}
use native.Mathlib.Omega.{arith}
use opperating_system_practi.Base.Tests.{◌==◌, if◌then◌else◌}

abbrev pub next : Option ℕ → Option ℕ
next none = none
next (some i) = some (suc i)

module _ {ℓ} {A : Type ℓ} where
  abbrev pub length : List A → ℕ
  length [] = 0
  length (x ∷ xs) = suc (length xs)

  abbrev pub get_or : List A → ℕ → A → A
  get_or [] i d = d
  get_or (x ∷ xs) zero d = x
  get_or (x ∷ xs) (suc i) d = get_or xs i d

  -- A write out of range changes nothing.
  abbrev pub set : List A → ℕ → A → List A
  set [] i v = []
  set (x ∷ xs) zero v = v ∷ xs
  set (x ∷ xs) (suc i) v = x ∷ set xs i v

  abbrev pub take : ℕ → List A → List A
  take zero xs = []
  take (suc n) [] = []
  take (suc n) (x ∷ xs) = x ∷ take n xs

  abbrev pub replicate : ℕ → A → List A
  replicate zero a = []
  replicate (suc n) a = a ∷ replicate n a

  pub length-replicate : (n : ℕ) (a : A) → length (replicate n a) ≡ n
  length-replicate zero a = refl
  length-replicate (suc n) a = ap suc (length-replicate n a)

  pub length-set : (xs : List A) (i : ℕ) (v : A) → length (set xs i v) ≡ length xs
  length-set [] i v = refl
  length-set (x ∷ xs) zero v = refl
  length-set (x ∷ xs) (suc i) v = ap suc (length-set xs i v)

  pub get_or-set_self :
      (xs : List A) (i : ℕ) (v d : A) → i < length xs → get_or (set xs i v) i d ≡ v
  get_or-set_self [] i v d h = absurd (omega arith)
  get_or-set_self (x ∷ xs) zero v d h = refl
  get_or-set_self (x ∷ xs) (suc i) v d h = get_or-set_self xs i v d (omega arith)

  pub get_or-set_ne :
      (xs : List A) (i j : ℕ) (v d : A) → i ≢ j → get_or (set xs i v) j d ≡ get_or xs j d
  get_or-set_ne [] i j v d h = refl
  get_or-set_ne (x ∷ xs) zero zero v d h = absurd (h refl)
  get_or-set_ne (x ∷ xs) zero (suc j) v d h = refl
  get_or-set_ne (x ∷ xs) (suc i) zero v d h = refl
  get_or-set_ne (x ∷ xs) (suc i) (suc j) v d h = get_or-set_ne xs i j v d (λ e. h (ap suc e))

  -- `get_or` after `set`, at any index
  pub get_or-set :
      (xs : List A) (i j : ℕ) (v d : A)
      → i < length xs
      → get_or (set xs i v) j d ≡ (if i == j then v else get_or xs j d)
  get_or-set [] i j v d h = absurd (omega arith)
  get_or-set (x ∷ xs) zero zero v d h = refl
  get_or-set (x ∷ xs) zero (suc j) v d h = ground arith
  get_or-set (x ∷ xs) (suc i) zero v d h = ground arith
  get_or-set (x ∷ xs) (suc i) (suc j) v d h = ground (arith, get_or-set xs i j v d)

  -- The first index at which a test holds: `for (i = 0; i < n; i++) if (p(a[i])) { idx = i; break; }`
  unfoldable pub find_index : (A → Bool) → List A → Option ℕ
  find_index p [] = none
  find_index p (x ∷ xs) = if p x then some 0 else next (find_index p xs)

  pub find_index-some :
      (p : A → Bool) (xs : List A) (i : ℕ) (d : A)
      → find_index p xs ≡ some i
      → (i < length xs) × (p (get_or xs i d) ≡ true)
  unfolding find_index
  find_index-some p [] i d h = cc
  find_index-some p (x ∷ xs) zero d h = ground (arith, find_index-some p xs 0 d)
  find_index-some p (x ∷ xs) (suc i) d h = ground (arith, find_index-some p xs i d)

  -- No index before the one found passes the test.
  pub find_index-first :
      (p : A → Bool) (xs : List A) (i j : ℕ) (d : A)
      → find_index p xs ≡ some i
      → j < i
      → p (get_or xs j d) ≡ false
  unfolding find_index
  find_index-first p [] i j d h k = cc
  find_index-first p (x ∷ xs) zero j d h k = absurd (omega arith)
  find_index-first p (x ∷ xs) (suc i) zero d h k = ground arith
  find_index-first p (x ∷ xs) (suc i) (suc j) d h k = ground (arith, find_index-first p xs i j d)

  pub find_index-none :
      (p : A → Bool) (xs : List A) (j : ℕ) (d : A)
      → find_index p xs ≡ none
      → j < length xs
      → p (get_or xs j d) ≡ false
  unfolding find_index
  find_index-none p [] j d h k = absurd (omega arith)
  find_index-none p (x ∷ xs) zero d h k = ground arith
  find_index-none p (x ∷ xs) (suc j) d h k = ground (arith, find_index-none p xs j d)

  -- A write that does not change the test at its place.
  pub find_index-set_same :
      (p : A → Bool) (xs : List A) (i : ℕ) (v d : A)
      → i < length xs
      → p v ≡ p (get_or xs i d)
      → find_index p (set xs i v) ≡ find_index p xs
  unfolding find_index
  find_index-set_same p [] i v d h e = refl
  find_index-set_same p (x ∷ xs) zero v d h e = rw e
  find_index-set_same p (x ∷ xs) (suc i) v d h e =
      rw (find_index-set_same p xs i v d (omega arith) e)

  -- The first match of a list that had none.
  pub find_index-set_new :
      (p : A → Bool) (xs : List A) (i : ℕ) (v : A)
      → i < length xs
      → find_index p xs ≡ none
      → p v ≡ true
      → find_index p (set xs i v) ≡ some i
  unfolding find_index
  find_index-set_new p [] i v h n e = absurd (omega arith)
  find_index-set_new p (x ∷ xs) zero v h n e = rw e
  find_index-set_new p (x ∷ xs) (suc i) v h n e =
      ground (arith, find_index-set_new p xs i v (omega arith))

  -- The only match of a list is the one that is found.
  pub find_index-only :
      (p : A → Bool) (xs : List A) (i : ℕ) (d : A)
      → i < length xs
      → p (get_or xs i d) ≡ true
      → ((j : ℕ) → p (get_or xs j d) ≡ true → j ≡ i)
      → find_index p xs ≡ some i
  unfolding find_index
  find_index-only p [] i d h e only = absurd (omega arith)
  find_index-only p (x ∷ xs) zero d h e only = rw e
  find_index-only p (x ∷ xs) (suc i) d h e only = ground (
    arith,
    only 0,
    find_index-only p xs i d (omega arith) e (λ j k. omega (arith, only (suc j) k)),
  )

  pub take_all : (n : ℕ) (xs : List A) → length xs ≤ n → take n xs ≡ xs
  take_all zero [] h = refl
  take_all zero (x ∷ xs) h = absurd (omega arith)
  take_all (suc n) [] h = refl
  take_all (suc n) (x ∷ xs) h = rw (take_all n xs (omega arith))
