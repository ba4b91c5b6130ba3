-- ===== src/Zocker/Setup/Again.antt =====
-- Setting up the directories of one container twice.
use opperating_system_practi.Base.{
  ℕ, zero, suc, ◌&&◌, ◌||◌, ◌==◌, leb, take, and_both, Bool, true, false, ◌≡◌, refl, sym, ◌∙◌, inl,
  inr, Bool-cases, List, [], ◌∷◌, ◌++◌, bytes, CString,
}
use opperating_system_practi.Zocker.{
  zocker_prefix, Os, Stat, missing, unreadable, directory, other_file,
}
use opperating_system_practi.Zocker.Setup.{
  copies, copy_bins, copy_libs, make_lib64, make_root, fill_lib, fill_root, setup_bin_dir,
  setup_lib_dir, setup_container_dir, dir_of, inside, path_limit,
}

abbrev is_between : ℕ → ℕ → ℕ → Bool
is_between a b c = leb a c && leb c b

abbrev is_path_byte : ℕ → Bool
is_path_byte c =
    is_between b'a' b'z' c || (is_between b'A' b'Z' c || (is_between b'-' b'9' c || c == b'_'))

-- No byte of the name has a meaning to the shell.
unfoldable pub is_path : CString → Bool
is_path [] = true
is_path (c ∷ s) = is_path_byte c && is_path s

is_path-append : (s t : CString) → is_path s ≡ true → is_path t ≡ true → is_path (s ++ t) ≡ true
unfolding is_path
is_path-append [] t h g = g
is_path-append (c ∷ s) t h g =
    let (first, rest) = and_both (is_path_byte c) (is_path s) h in
    rw first (is_path-append s t rest g)

is_path-take : (n : ℕ) (s : CString) → is_path s ≡ true → is_path (take n s) ≡ true
unfolding is_path
is_path-take zero s h = refl
is_path-take (suc n) [] h = refl
is_path-take (suc n) (c ∷ s) h =
    let (first, rest) = and_both (is_path_byte c) (is_path s) h in rw first (is_path-take n s rest)

inside-is_path :
    (dir name : CString)
    → is_path dir ≡ true
    → is_path name ≡ true
    → is_path (inside dir name) ≡ true
inside-is_path dir name h g = is_path-take path_limit (dir ++ name) (is_path-append dir name h g)

dir_of-is_path : (id : CString) → is_path id ≡ true → is_path (dir_of id) ≡ true
unfolding is_path
dir_of-is_path id h =
    is_path-take path_limit (zocker_prefix ++ (b'/' ∷ id))
      (is_path-append zocker_prefix (b'/' ∷ id) refl h)

unfoldable AllPaths : List CString → Type 0
AllPaths [] = Unit
AllPaths (s ∷ rest) = (is_path s ≡ true) × AllPaths rest

-- What the manual of `mkdir` says: it makes a directory, fails where the path is there already, and
-- removes none; and the shell command that copies one file into a directory removes none.
pub record Laws {W : Type 0} (os : Os W) : Type 0 where
  pub mkdir_fresh : (p : CString) (w : W) → (os.mkdir p w).1 ≡ true → os.stat p w ≡ missing
  pub mkdir_makes :
      (p : CString) (w : W) → (os.mkdir p w).1 ≡ true → os.stat p (os.mkdir p w).0 ≡ directory
  pub mkdir_keeps :
      (p q : CString) (w : W) → os.stat p w ≡ directory → os.stat p (os.mkdir q w).0 ≡ directory
  pub copy_keeps :
      (p source dir : CString) (w : W)
      → is_path source ≡ true
      → is_path dir ≡ true
      → os.stat p w ≡ directory
      → os.stat p (os.system (bytes "cp " ++ (source ++ (b' ' ∷ dir))) w) ≡ directory

module _ {W : Type 0} (os : Os W) (laws : Laws os) where
  abbrev HasDir : CString → W → Type 0
  HasDir p w = os.stat p w ≡ directory

  copies-HasDir :
      (p : CString) (sources : List CString) (dir : CString) (w : W)
      → AllPaths sources
      → is_path dir ≡ true
      → HasDir p w
      → HasDir p (copies os sources dir w)
  unfolding copies AllPaths
  copies-HasDir p [] dir w a d h = h
  copies-HasDir p (s ∷ rest) dir w (first, a) d h =
      copies-HasDir p rest dir (os.system (bytes "cp " ++ (s ++ (b' ' ∷ dir))) w) a d
        (laws.copy_keeps p s dir w first d h)

  copy_libs-HasDir :
      (p lib lib64 : CString) (r : W × Bool)
      → is_path lib ≡ true
      → is_path lib64 ≡ true
      → HasDir p r.0
      → HasDir p (copy_libs os lib lib64 r).0
  unfolding AllPaths is_path
  copy_libs-HasDir p lib lib64 (w, false) d d' h = h
  copy_libs-HasDir p lib lib64 (w, true) d d' h =
      copies-HasDir p _ lib64 _ (refl, tt) d'
        (copies-HasDir p _ lib _ (refl, (refl, (refl, tt))) d
          (copies-HasDir p _ lib64 _ (refl, tt) d' (copies-HasDir p _ lib w (refl, tt) d h)))

  make_lib64-HasDir :
      (p lib lib64 : CString) (r : W × Bool)
      → is_path lib ≡ true
      → is_path lib64 ≡ true
      → HasDir p r.0
      → HasDir p (make_lib64 os lib lib64 r).0
  make_lib64-HasDir p lib lib64 (w, false) d d' h = h
  make_lib64-HasDir p lib lib64 (w, true) d d' h =
      copy_libs-HasDir p lib lib64 (os.mkdir lib64 w) d d' (laws.mkdir_keeps p lib64 w h)

  setup_lib_dir-HasDir :
      (p dir : CString) (w : W)
      → is_path dir ≡ true
      → HasDir p w
      → HasDir p (setup_lib_dir os dir w).0
  unfolding setup_lib_dir is_path
  setup_lib_dir-HasDir p dir w d h =
      make_lib64-HasDir p (inside dir (bytes "/lib")) (inside dir (bytes "/lib64"))
        (os.mkdir (inside dir (bytes "/lib")) w) (inside-is_path dir (bytes "/lib") d refl)
        (inside-is_path dir (bytes "/lib64") d refl)
        (laws.mkdir_keeps p (inside dir (bytes "/lib")) w h)

  abbrev bin_of : CString → CString
  bin_of dir = inside dir (bytes "/bin")

  copy_bins-HasDir :
      (p dir : CString) (r : W × Bool)
      → is_path dir ≡ true
      → (r.1 ≡ true → HasDir p r.0)
      → (copy_bins os dir r).1 ≡ true
      → HasDir p (copy_bins os dir r).0
  unfolding AllPaths is_path
  copy_bins-HasDir p dir (w, false) d h e = cc
  copy_bins-HasDir p dir (w, true) d h e = copies-HasDir p _ dir w (refl, (refl, tt)) d (h refl)

  setup_bin_dir-HasDir :
      (dir : CString) (w : W)
      → is_path dir ≡ true
      → (setup_bin_dir os dir w).1 ≡ true
      → HasDir (bin_of dir) (setup_bin_dir os dir w).0
  unfolding setup_bin_dir is_path
  setup_bin_dir-HasDir dir w d e =
      copy_bins-HasDir (bin_of dir) (bin_of dir) (os.mkdir (bin_of dir) w)
        (inside-is_path dir (bytes "/bin") d refl) (laws.mkdir_makes (bin_of dir) w) e

  fill_lib-HasDir :
      (p dir : CString) (r : W × Bool)
      → is_path dir ≡ true
      → (r.1 ≡ true → HasDir p r.0)
      → (fill_lib os dir r).1 ≡ true
      → HasDir p (fill_lib os dir r).0
  fill_lib-HasDir p dir (w, false) d h e = cc
  fill_lib-HasDir p dir (w, true) d h e = setup_lib_dir-HasDir p dir w d (h refl)

  fill_root-HasDir :
      (dir : CString) (r : W × Bool)
      → is_path dir ≡ true
      → (fill_root os dir r).1 ≡ true
      → HasDir (bin_of dir) (fill_root os dir r).0
  fill_root-HasDir dir (w, false) d e = cc
  fill_root-HasDir dir (w, true) d e =
      fill_lib-HasDir (bin_of dir) dir (setup_bin_dir os dir w) d (setup_bin_dir-HasDir dir w d) e

  -- With its directory `bin` there, a container cannot be set up.
  copy_bins-false : (dir : CString) (r : W × Bool) → r.1 ≡ false → (copy_bins os dir r).1 ≡ false
  copy_bins-false dir (w, false) e = refl
  copy_bins-false dir (w, true) e = cc

  mkdir-false : (p : CString) (w : W) → HasDir p w → (os.mkdir p w).1 ≡ false
  mkdir-false p w h = elim (Bool-cases (os.mkdir p w).1) [
    | inl made ↦ absurd (clash (sym h ∙ laws.mkdir_fresh p w made))
    | inr refused ↦ refused
  ]
    where
      clash : directory ≡ missing → ⊥
      clash e = cc

  fill_lib-false : (dir : CString) (r : W × Bool) → r.1 ≡ false → (fill_lib os dir r).1 ≡ false
  fill_lib-false dir (w, false) e = refl
  fill_lib-false dir (w, true) e = cc

  fill_root-false :
      (dir : CString) (r : W × Bool) → HasDir (bin_of dir) r.0 → (fill_root os dir r).1 ≡ false
  unfolding setup_bin_dir
  fill_root-false dir (w, false) h = refl
  fill_root-false dir (w, true) h =
      fill_lib-false dir (setup_bin_dir os dir w)
        (copy_bins-false (bin_of dir) (os.mkdir (bin_of dir) w) (mkdir-false (bin_of dir) w h))

  make_root-HasDir :
      (p dir : CString) (k : Stat) (w : W) → HasDir p w → HasDir p (make_root os k dir w).0
  make_root-HasDir p dir missing w h = laws.mkdir_keeps p dir w h
  make_root-HasDir p dir unreadable w h = h
  make_root-HasDir p dir directory w h = h
  make_root-HasDir p dir other_file w h = h

  -- Once the directories of a container have been set up, whose name has letters, digits and `/`, `.`,
  -- `-`, `_` only, setting them up again fails, since its `bin` is there.
  pub setup_container_dir-again :
      (id : CString) (w : W)
      → is_path id ≡ true
      → (setup_container_dir os id w).1 ≡ true
      → (setup_container_dir os id (setup_container_dir os id w).0).1 ≡ false
  unfolding setup_container_dir
  setup_container_dir-again id w plain e =
      let dir : CString = dir_of id in
      let first : W × Bool = make_root os (os.stat dir w) dir w in
      let w' : W = (fill_root os dir first).0 in
      fill_root-false dir (make_root os (os.stat dir w') dir w') (
        make_root-HasDir (bin_of dir) dir (os.stat dir w') w'
          (fill_root-HasDir dir first (dir_of-is_path id plain) e))
