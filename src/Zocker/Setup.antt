-- ===== src/Zocker/Setup.antt =====
-- The directories of a container: zocker/src/setup.c. No path is longer than its buffer takes, else it
-- is cut there, as by `snprintf`.
pub mod Again
use opperating_system_practi.Base.{
  ℕ, Bool, true, false, not, List, [], ◌∷◌, ◌++◌, if◌then◌else◌, take, bytes, CString,
}
use opperating_system_practi.Zocker.{
  Os, Stat, missing, unreadable, directory, other_file, zocker_prefix,
}

abbrev pub path_limit : ℕ
path_limit = 255

abbrev pub dir_of : CString → CString
dir_of id = take path_limit (zocker_prefix ++ (b'/' ∷ id))

abbrev pub inside : CString → CString → CString
inside dir name = take path_limit (dir ++ name)

module _ {W : Type 0} (os : Os W) where
  -- `cp source dir`, for one source after another
  unfoldable pub copies : List CString → CString → W → W
  copies [] dir w = w
  copies (source ∷ rest) dir w =
      copies rest dir (os.system (bytes "cp " ++ (source ++ (b' ' ∷ dir))) w)

  abbrev stat_prefix : Stat → Bool
  stat_prefix missing = false
  stat_prefix unreadable = false
  stat_prefix directory = true
  stat_prefix other_file = false

  unfoldable pub setup_zocker_dir : W → Bool
  setup_zocker_dir w = stat_prefix (os.stat zocker_prefix w)

  abbrev pub copy_bins : CString → W × Bool → W × Bool
  copy_bins bin_dir (w, false) = (w, false)
  copy_bins bin_dir (w, true) =
      (copies (bytes "/usr/bin/sh" ∷ bytes "/usr/bin/ls" ∷ []) bin_dir w, true)

  unfoldable pub setup_bin_dir : CString → W → W × Bool
  unfolding copies
  setup_bin_dir container_dir w =
      let bin_dir = inside container_dir (bytes "/bin") in copy_bins bin_dir (os.mkdir bin_dir w)

  abbrev pub copy_libs : CString → CString → W × Bool → W × Bool
  copy_libs lib_dir lib64_dir (w, false) = (w, false)
  copy_libs lib_dir lib64_dir (w, true) =
      let w1 = copies (bytes "/lib/x86_64-linux-gnu/libc.so.6" ∷ []) lib_dir w in
      let w2 = copies (bytes "/lib64/ld-linux-x86-64.so.2" ∷ []) lib64_dir w1 in
      let w3 =
        copies
          (bytes "/lib/x86_64-linux-gnu/libselinux.so.1"
            ∷ bytes "/lib/x86_64-linux-gnu/libc.so.6"
            ∷ bytes "/lib/x86_64-linux-gnu/libpcre2-8.so.0"
            ∷ [])
          lib_dir w2 in
      (copies (bytes "/lib64/ld-linux-x86-64.so.2" ∷ []) lib64_dir w3, true)

  abbrev pub make_lib64 : CString → CString → W × Bool → W × Bool
  make_lib64 lib_dir lib64_dir (w, false) = (w, false)
  make_lib64 lib_dir lib64_dir (w, true) = copy_libs lib_dir lib64_dir (os.mkdir lib64_dir w)

  unfoldable pub setup_lib_dir : CString → W → W × Bool
  unfolding copies
  setup_lib_dir container_dir w =
      let lib_dir = inside container_dir (bytes "/lib") in
      let lib64_dir = inside container_dir (bytes "/lib64") in
      make_lib64 lib_dir lib64_dir (os.mkdir lib_dir w)

  -- `container_dir` is there, or could not be made.
  abbrev pub make_root : Stat → CString → W → W × Bool
  make_root missing container_dir w = os.mkdir container_dir w
  make_root unreadable container_dir w = (w, false)
  make_root directory container_dir w = (w, true)
  make_root other_file container_dir w = (w, false)

  abbrev pub fill_lib : CString → W × Bool → W × Bool
  fill_lib container_dir (w, false) = (w, false)
  fill_lib container_dir (w, true) = setup_lib_dir container_dir w

  abbrev pub fill_root : CString → W × Bool → W × Bool
  fill_root container_dir (w, false) = (w, false)
  fill_root container_dir (w, true) = fill_lib container_dir (setup_bin_dir container_dir w)

  unfoldable pub setup_container_dir : CString → W → W × Bool
  unfolding setup_bin_dir setup_lib_dir
  setup_container_dir id w =
      let container_dir = dir_of id in
      fill_root container_dir (make_root (os.stat container_dir w) container_dir w)
