-- ===== src/Invariant/Sums.antt =====
-- Sums over the file table, and the replacement of one entry in a consistent table.
use opperating_system_practi.Base.{
  ℕ, zero, suc, ◌+◌, ◌≤◌, ◌<◌, true, ◌≡◌, ◌≢◌, ap, refl, Option, none, some, List, [], ◌∷◌, length,
  get_or, set, arith, get_or-set, length-set,
}
use opperating_system_practi.FreeList.{FreeList}
use opperating_system_practi.FreeList.Blocks.{is_free, Coalesced}
use opperating_system_practi.Types.{FileEntry, zero_file}
use opperating_system_practi.Disk.{get_meta_blocks}
use opperating_system_practi.Invariant.{
  Consistent, indicator, own, blocks_of, used_one, sum_of, IsSound,
}

pub sum_of-set :
    (m : FileEntry → ℕ) (fs : List FileEntry) (i : ℕ) (f : FileEntry)
    → i < length fs
    → sum_of m (set fs i f) + m (get_or fs i zero_file) ≡ sum_of m fs + m f
sum_of-set m [] i f h = absurd (omega arith)
sum_of-set m (g ∷ fs) zero f h = omega arith
sum_of-set m (g ∷ fs) (suc i) f h = omega (arith, sum_of-set m fs i f)

pub le-sum_of :
    (m : FileEntry → ℕ) (fs : List FileEntry) (i : ℕ)
    → m zero_file ≡ 0
    → m (get_or fs i zero_file) ≤ sum_of m fs
le-sum_of m [] i h = omega arith
le-sum_of m (g ∷ fs) zero h = omega arith
le-sum_of m (g ∷ fs) (suc i) h = omega (arith, le-sum_of m fs i h)

-- An entry in use lies in the table.
pub used_in_range :
    (fs : List FileEntry) (i : ℕ) → (get_or fs i zero_file).is_used ≡ true → i < length fs
used_in_range [] i h = cc
used_in_range (f ∷ fs) zero h = omega arith
used_in_range (f ∷ fs) (suc i) h = omega (arith, used_in_range fs i h)

-- What a replacement of the entry `i` by `f` must keep, and the table that it gives.
module _ {files : List FileEntry} {rs : FreeList} {used count : ℕ} {opens : List (Option ℕ)}
    (c : Consistent files rs used count opens) (i : ℕ) (f : FileEntry) (within : i < length files)
    (rs' : FreeList) (used' count' : ℕ) (opens' : List (Option ℕ)) where
  pub replace :
      Coalesced get_meta_blocks rs'
      → ((b : ℕ)
          → own b f + indicator (is_free rs' b)
            ≡ own b (get_or files i zero_file) + indicator (is_free rs b))
      → used' + blocks_of (get_or files i zero_file) ≡ used + blocks_of f
      → count' + used_one (get_or files i zero_file) ≡ count + used_one f
      → IsSound f
      → length opens' ≡ length opens
      → ((fd j : ℕ)
          → get_or opens' fd none ≡ some j
          → (get_or (set files i f) j zero_file).is_used ≡ true)
      → Consistent (set files i f) rs' used' count' opens'
  replace w blocks used_eq count_eq ok same open_ok = record {
    coalesced = w;
    partition = λ b. omega (arith, c.partition b, blocks b, sum_of-set (own b) files i f within);
    used_lem = omega (arith, c.used_lem, sum_of-set blocks_of files i f within);
    count_lem = omega (arith, c.count_lem, sum_of-set used_one files i f within);
    sound = λ j. ground (arith, get_or-set files i j f zero_file, c.sound j);
    slots = omega (arith, length-set files i f, c.slots);
    descriptors = omega (arith, c.descriptors);
    live = open_ok;
  }

-- Two entries count apart.
pub add-le-sum_of :
    (m : FileEntry → ℕ) (fs : List FileEntry) (i j : ℕ)
    → m zero_file ≡ 0
    → i ≢ j
    → m (get_or fs i zero_file) + m (get_or fs j zero_file) ≤ sum_of m fs
add-le-sum_of m [] i j h ne = omega arith
add-le-sum_of m (g ∷ fs) zero zero h ne = absurd (ne refl)
add-le-sum_of m (g ∷ fs) zero (suc j) h ne = omega (arith, le-sum_of m fs j h)
add-le-sum_of m (g ∷ fs) (suc i) zero h ne = omega (arith, le-sum_of m fs i h)
add-le-sum_of m (g ∷ fs) (suc i) (suc j) h ne =
    omega (arith, add-le-sum_of m fs i j h (λ e. ne (ap suc e)))
