-- ===== src/Invariant/Start.antt =====
-- A new disk and a formatted one are consistent.
use opperating_system_practi.Base.{
  ℕ, zero, suc, ◌-◌, ◌≡◌, ◌≢◌, refl, Option, none, some, List, [], ◌∷◌, length, get_or, arith,
  replicate, length-replicate,
}
use mathlib.Core.Path.{subst}
use mathlib.Core.Option.{some-injective}
use opperating_system_practi.FreeList.{region}
use opperating_system_practi.FreeList.Blocks.{is_free}
use opperating_system_practi.Types.{Fs, FileEntry, zero_file, max_files}
use opperating_system_practi.Disk.{get_meta_blocks}
use opperating_system_practi.Boot.{fs_init, fs_format, absent, total_blocks}
use opperating_system_practi.Invariant.{Consistent, IsConsistent, own, blocks_of, used_one, sum_of}

sum_of-replicate :
    (m : FileEntry → ℕ) (n : ℕ) (f : FileEntry) → m f ≡ 0 → sum_of m (replicate n f) ≡ 0
sum_of-replicate m zero f h = refl
sum_of-replicate m (suc n) f h = omega (arith, h, sum_of-replicate m n f h)

pub get_or-replicate {ℓ} : {A : Type ℓ} (n i : ℕ) (x : A) → get_or (replicate n x) i x ≡ x
get_or-replicate zero i x = refl
get_or-replicate (suc n) zero x = refl
get_or-replicate (suc n) (suc i) x = get_or-replicate n i x

-- No file, and all data blocks in one region.
blank :
    (n : ℕ) (opens : List (Option ℕ))
    → n ≡ max_files
    → length opens ≡ max_files
    → ((fd i : ℕ) → get_or opens fd none ≢ some i)
    → Consistent
        (replicate n zero_file)
        (region get_meta_blocks (total_blocks - 1) ∷ [])
        get_meta_blocks
        0
        opens
blank n opens e same closed = record {
  coalesced = omega arith;
  partition = λ b. unfold is_free in ground (arith, sum_of-replicate (own b) n zero_file refl);
  used_lem = omega (arith, sum_of-replicate blocks_of n zero_file refl);
  count_lem = omega (arith, sum_of-replicate used_one n zero_file refl);
  sound = λ i. rw (get_or-replicate n i zero_file) (λ h. cc);
  slots = omega (arith, length-replicate n zero_file);
  descriptors = same;
  live = λ fd i h. absurd (closed fd i h);
}

-- The file system that `fs_init` makes where there was no disk file is consistent.
pub fs_init-IsConsistent : (s : Fs) → fs_init absent ≡ some s → IsConsistent s
unfolding fs_init
fs_init-IsConsistent s h = subst IsConsistent (some-injective _ s h) (
    blank max_files (replicate max_files none) refl refl
      (λ fd i. rw (get_or-replicate {A = Option ℕ} max_files fd none) (λ p. cc)))

-- `fs_format` leaves a consistent file system, if no descriptor is open.
pub fs_format-IsConsistent :
    (s : Fs)
    → length s.open_files ≡ max_files
    → ((fd i : ℕ) → get_or s.open_files fd none ≢ some i)
    → IsConsistent (fs_format s)
unfolding fs_format
fs_format-IsConsistent s = blank max_files s.open_files refl
