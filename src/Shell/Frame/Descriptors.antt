-- ===== src/Shell/Frame/Descriptors.antt =====
-- Opening, closing and deleting: which descriptors are open, and that no account changes.
use opperating_system_practi.Base.{
  ℕ, zero, suc, false, ◌≡◌, ◌≢◌, ◌∙◌, ◌≤◌, refl, sym, ap, inl, inr, Option, none, some, List, [],
  ◌∷◌, length, map, set, get_or, length-set, get_or-set_ne, find_index, ltb, ◌==◌, arith,
  Bool-cases, CString,
}
use Prim.Native.Nat.{bit_and}
use mathlib.Core.Option.{some-injective}
use opperating_system_practi.Base.Int.{pos}
use opperating_system_practi.Types.{Fs, max_files}
use opperating_system_practi.Disk.{save_metadata}
use opperating_system_practi.Blocks.{free_blocks}
use opperating_system_practi.Files.{
  fs_open, open_found, open_at, take_descriptor, fs_close_file, close_found, descriptor, fs_delete,
  delete_at, release_file, close_file, find_file_index, file_at, is_closed, fs_create, o_creat,
}
use opperating_system_practi.Invariant.Delete.{get_or-map_close, length-map_close}
use opperating_system_practi.Shell.Frame.{SameOpen, fs_create-SameBoth}

-- The descriptor table has its full length, and only the descriptor `current` may be open.
pub record OnlyOpen (current : Option ℕ) (opens : List (Option ℕ)) : Type 0 where
  pub slots : length opens ≡ max_files
  pub only : (fd i : ℕ) → get_or opens fd none ≡ some i → current ≡ some fd

some≢none : (i : ℕ) → ◌≡◌ {A = Option ℕ} none (some i) → ⊥
some≢none i p = cc

take_descriptor-OnlyOpen :
    (idx : ℕ) (o : Option ℕ) (s : Fs)
    → OnlyOpen none s.open_files
    → OnlyOpen (take_descriptor idx o s).1 (take_descriptor idx o s).0.open_files
unfolding take_descriptor
take_descriptor-OnlyOpen idx none s h = h
take_descriptor-OnlyOpen idx (some fd) s h = record {
  slots = length-set s.open_files fd (some idx) ∙ h.slots;
  only = λ k i e. elim (Bool-cases (fd == k)) [
    | inl same ↦ ap some (ground arith)
    | inr other ↦ absurd (
        some≢none k
          (h.only k i (sym (get_or-set_ne s.open_files fd k (some idx) none (ground arith)) ∙ e)))
  ];
}

open_at-OnlyOpen :
    (r : Fs × Option ℕ)
    → OnlyOpen none r.0.open_files
    → OnlyOpen (open_at r).1 (open_at r).0.open_files
unfolding open_at
open_at-OnlyOpen (s, none) h = h
open_at-OnlyOpen (s, some idx) h =
    take_descriptor-OnlyOpen idx (find_index is_closed s.open_files) s h

-- The invariant does not depend on how the table is written.
pub same_open :
    (current : Option ℕ) (s t : Fs)
    → SameOpen s t
    → OnlyOpen current s.open_files
    → OnlyOpen current t.open_files
same_open current s t e h = rw e h

open_found-OnlyOpen :
    (o : Option ℕ) (name : CString) (flags created modified : ℕ) (s : Fs)
    → OnlyOpen none s.open_files
    → OnlyOpen
        (open_found o name flags created modified s).1
        (open_found o name flags created modified s).0.open_files
unfolding open_found
open_found-OnlyOpen (some idx) name flags created modified s h = open_at-OnlyOpen (s, some idx) h
open_found-OnlyOpen none name flags created modified s h =
    elim (Bool-cases (bit_and flags o_creat == 0)) [
      | inl without ↦ rw without h
      | inr creating ↦ rw creating (
          open_at-OnlyOpen (fs_create name 0o644 created modified s) (
            same_open none s (fs_create name 0o644 created modified s).0
              (fs_create-SameBoth name 0o644 created modified s).0 h))
    ]

-- `fs_open` where no descriptor is open: then only the one that it returns is.
pub fs_open-OnlyOpen :
    (name : CString) (flags created modified : ℕ) (s : Fs)
    → OnlyOpen none s.open_files
    → OnlyOpen
        (fs_open name flags created modified s).1
        (fs_open name flags created modified s).0.open_files
unfolding fs_open
fs_open-OnlyOpen name flags created modified s h =
    open_found-OnlyOpen (find_file_index name s) name flags created modified s h

get_or-beyond :
    (opens : List (Option ℕ)) (n : ℕ)
    → length opens ≡ max_files
    → ltb n max_files ≡ false
    → get_or opens n none ≡ none
get_or-beyond opens n e h = beyond opens n (ground arith)
  where
    beyond : (os : List (Option ℕ)) (k : ℕ) → length os ≤ k → get_or os k none ≡ none
    beyond [] k h = refl
    beyond (o ∷ os) zero h = absurd (omega arith)
    beyond (o ∷ os) (suc k) h = beyond os k (omega arith)

-- A descriptor that `fs_close_file` rejects is not open.
descriptor-none :
    (n : ℕ) (s : Fs)
    → length s.open_files ≡ max_files
    → descriptor s (pos n) ≡ none
    → get_or s.open_files n none ≡ none
unfolding descriptor
descriptor-none n s e h = elim (Bool-cases (ltb n max_files)) [
  | inl within ↦ rw within at h
  | inr beyond ↦ get_or-beyond s.open_files n e beyond
]

none_open :
    (n : ℕ) (opens rest : List (Option ℕ))
    → OnlyOpen (some n) opens
    → length rest ≡ max_files
    → get_or rest n none ≡ none
    → ((k : ℕ) → n ≢ k → get_or rest k none ≡ get_or opens k none)
    → OnlyOpen none rest
none_open n opens rest h size closed others = record {
  slots = size;
  only = λ k i e. elim (Bool-cases (n == k)) [
    | inl same ↦ let p : n ≡ k = ground arith in absurd (some≢none i (sym closed ∙ (rw p e)))
    | inr other ↦
        let ne : n ≢ k = ground arith in
        absurd (ne (some-injective n k (h.only k i (sym (others k ne) ∙ e))))
  ];
}

close_found-OnlyOpen :
    (o : Option ℕ) (n : ℕ) (s : Fs)
    → descriptor s (pos n) ≡ o
    → OnlyOpen (some n) s.open_files
    → OnlyOpen none (close_found o (pos n) s).open_files
unfolding close_found
close_found-OnlyOpen none n s e h =
    none_open n s.open_files s.open_files h h.slots (descriptor-none n s h.slots e) (λ k ne. refl)
close_found-OnlyOpen (some idx) n s e h =
    none_open n s.open_files (set s.open_files n none) h (length-set s.open_files n none ∙ h.slots)
      (set_none s.open_files n) (λ k ne. get_or-set_ne s.open_files n k none none ne)
  where
    set_none : (os : List (Option ℕ)) (k : ℕ) → get_or (set os k none) k none ≡ none
    set_none [] k = refl
    set_none (o ∷ os) zero = refl
    set_none (o ∷ os) (suc k) = set_none os k

-- `fs_close_file` on the only descriptor that may be open closes it.
pub fs_close_file-OnlyOpen :
    (n : ℕ) (s : Fs)
    → OnlyOpen (some n) s.open_files
    → OnlyOpen none (fs_close_file (pos n) s).open_files
unfolding fs_close_file
fs_close_file-OnlyOpen n s h = close_found-OnlyOpen (descriptor s (pos n)) n s refl h

close_file-some : (idx i : ℕ) (o : Option ℕ) → close_file idx o ≡ some i → o ≡ some i
close_file-some idx i none e = e
close_file-some idx i (some j) e = ground arith

delete_at-OnlyOpen :
    (current o : Option ℕ) (s : Fs)
    → OnlyOpen current s.open_files
    → OnlyOpen current (delete_at o s).0.open_files
unfolding delete_at save_metadata release_file free_blocks
delete_at-OnlyOpen current none s h = h
delete_at-OnlyOpen current (some idx) s h = deleted _ (release-open (file_at s idx).start_block)
  where
    release-open :
        (b : Option ℕ) → (release_file b (file_at s idx).block_count s).open_files ≡ s.open_files
    release-open none = refl
    release-open (some start) = refl

    deleted :
        (opens : List (Option ℕ))
        → opens ≡ s.open_files
        → OnlyOpen current (map (close_file idx) opens)
    deleted opens e = rw e (record {
      slots = length-map_close idx s.open_files ∙ h.slots;
      only = λ k i p. h.only k i (
          close_file-some idx i (get_or s.open_files k none)
            (sym (get_or-map_close idx s.open_files k) ∙ p));
    })

-- `fs_delete` opens no descriptor.
pub fs_delete-OnlyOpen :
    (current : Option ℕ) (name : CString) (s : Fs)
    → OnlyOpen current s.open_files
    → OnlyOpen current (fs_delete name s).0.open_files
unfolding fs_delete
fs_delete-OnlyOpen current name s h = delete_at-OnlyOpen current (find_file_index name s) s h
