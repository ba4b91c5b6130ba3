-- ===== src/Zocker/Run/Prepared.antt =====
-- What has happened before a container executes its command.
use opperating_system_practi.Base.{
  ℕ, Bool, true, false, ◌≡◌, refl, arith, inl, inr, Option, none, some, List, bytes, CString,
  Bool-cases,
}
use opperating_system_practi.Zocker.{
  Config, Container, Subcommand, nothing, run, exec, Os, Forked, fork_failed, in_child, in_parent,
}
use opperating_system_practi.Zocker.Arguments.{parse_arguments, validate_config, empty_config}
use opperating_system_practi.Zocker.Setup.{setup_zocker_dir}
use opperating_system_practi.Zocker.Run.{
  Outcome, returned, executes, after, execute, make_proc, container_dir, root_of, enter_container,
  run_child, run_forked, run_container, container_from_config, main, main_parsed, run_subcommand,
}

module _ {W : Type 0} (os : Os W) where
  -- The calls that have succeeded one after another, from the state `w0` on.
  pub record Prepared (cont : Container) (w0 : W) (c : CString) : Type 0 where
    pub w1 : W
    pub w2 : W
    pub w3 : W
    pub w4 : W
    pub w5 : W
    pub w6 : W
    pub w7 : W
    pub w8 : W
    pub w9 : W
    pub unshared : os.unshare w0 ≡ (w1, true)
    pub forked : os.fork w1 ≡ (w2, in_child)
    pub set_up : container_dir os cont.base_dir cont.id w2 ≡ (w3, true)
    pub private_mounts : os.make_private w3 ≡ (w4, true)
    pub rooted : os.chroot (root_of cont.base_dir cont.id) w4 ≡ (w5, true)
    pub moved : os.chdir (bytes "/") w5 ≡ (w6, true)
    pub has_proc : make_proc os (os.stat (bytes "/proc") w6) w6 ≡ (w7, true)
    pub proc_mounted : os.mount_proc w7 ≡ (w8, true)
    pub named : os.sethostname cont.id w8 ≡ (w9, true)
    pub command : c ≡ cont.command

  clash : (n : ℕ) (c : CString) → returned n ≡ executes c → ⊥
  clash n c e = cc

  -- A step that is followed by a command has succeeded.
  after-executes :
      (r : W × Bool) (k : W → W × Outcome) (c : CString)
      → (after os r k).1 ≡ executes c
      → (r ≡ (r.0, true)) × ((k r.0).1 ≡ executes c)
  after-executes (w, false) k c e = absurd (clash 1 c e)
  after-executes (w, true) k c e = (refl, e)

  execute-executes :
      (cont : Container) (r : W × Bool) (c : CString)
      → (execute os cont r).1 ≡ executes c
      → c ≡ cont.command
  execute-executes cont (w, false) c e = absurd (clash 1 c e)
  execute-executes cont (w, true) c e = ground arith

  run_forked-executes :
      (cont : Container) (r : W × Forked) (c : CString)
      → (run_forked os cont r).1 ≡ executes c
      → (r ≡ (r.0, in_child)) × ((run_child os cont r.0).1 ≡ executes c)
  run_forked-executes cont (w, fork_failed) c e = absurd (clash 1 c e)
  run_forked-executes cont (w, in_child) c e = (refl, e)
  run_forked-executes cont (w, in_parent) c e = absurd (clash 0 c e)

  run_container-Prepared :
      (cont : Container) (w : W) (c : CString)
      → (run_container os cont w).1 ≡ executes c
      → Prepared cont w c
  unfolding run_container run_child enter_container
  run_container-Prepared cont w c e =
      let a1 : W = (os.unshare w).0 in
      let a2 : W = (os.fork a1).0 in
      let a3 : W = (container_dir os cont.base_dir cont.id a2).0 in
      let a4 : W = (os.make_private a3).0 in
      let a5 : W = (os.chroot (root_of cont.base_dir cont.id) a4).0 in
      let a6 : W = (os.chdir (bytes "/") a5).0 in
      let a7 : W = (make_proc os (os.stat (bytes "/proc") a6) a6).0 in
      let a8 : W = (os.mount_proc a7).0 in
      let (unshared, e1) = after-executes (os.unshare w) _ c e in
      let (forked, e2) = run_forked-executes cont (os.fork a1) c e1 in
      let (set_up, e3) = after-executes (container_dir os cont.base_dir cont.id a2) _ c e2 in
      let (private_mounts, e4) = after-executes (os.make_private a3) _ c e3 in
      let (rooted, e5) = after-executes (os.chroot (root_of cont.base_dir cont.id) a4) _ c e4 in
      let (moved, e6) = after-executes (os.chdir (bytes "/") a5) _ c e5 in
      let (has_proc, e7) = after-executes (make_proc os (os.stat (bytes "/proc") a6) a6) _ c e6 in
      let (proc_mounted, e8) = after-executes (os.mount_proc a7) _ c e7 in
      let (named, e9) = after-executes (os.sethostname cont.id a8) _ c e8 in
      record {
        w1 = a1;
        w2 = a2;
        w3 = a3;
        w4 = a4;
        w5 = a5;
        w6 = a6;
        w7 = a7;
        w8 = a8;
        w9 = (os.sethostname cont.id a8).0;
        unshared = unshared;
        forked = forked;
        set_up = set_up;
        private_mounts = private_mounts;
        rooted = rooted;
        moved = moved;
        has_proc = has_proc;
        proc_mounted = proc_mounted;
        named = named;
        command = execute-executes cont (os.execl cont.command (os.sethostname cont.id a8).0) c e9;
      }

  run_subcommand-Prepared :
      (cmd : Subcommand) (cfg : Config) (w : W) (c : CString)
      → (run_subcommand os cmd cfg w).1 ≡ executes c
      → Prepared (container_from_config cfg) w c
  run_subcommand-Prepared run cfg w c e = run_container-Prepared (container_from_config cfg) w c e
  run_subcommand-Prepared exec cfg w c e = absurd (clash 0 c e)
  run_subcommand-Prepared nothing cfg w c e = absurd (clash 0 c e)

  main_parsed-Prepared :
      (o : Option Config) (w : W) (c : CString)
      → (main_parsed os o w).1 ≡ executes c
      → (cfg : Config) × (o ≡ some cfg)
        × (validate_config cfg ≡ true)
        × Prepared (container_from_config cfg) w c
  main_parsed-Prepared none w c e = absurd (clash 1 c e)
  main_parsed-Prepared (some cfg) w c e = elim (Bool-cases (validate_config cfg)) [
    | inl valid ↦ (cfg, refl, valid, run_subcommand-Prepared cfg.subcommand cfg w c (rw valid at e))
    | inr invalid ↦ absurd (clash 1 c (rw invalid at e))
  ]

  -- The program becomes a command only if its arguments are read and valid and the directory of zocker
  -- is there, and then only in the child process, behind these calls in this order, all successful: the
  -- new namespaces, the directory of the container, private mounts, the new root, the change to it,
  -- `/proc` and its mount, and the host name; and the command is the one of the container.
  pub main-Prepared :
      (args : List CString) (w : W) (c : CString)
      → (main os args w).1 ≡ executes c
      → (setup_zocker_dir os w ≡ true)
        × ((cfg : Config) × (parse_arguments args empty_config ≡ some cfg)
            × (validate_config cfg ≡ true)
            × Prepared (container_from_config cfg) w c)
  unfolding main
  main-Prepared args w c e = elim (Bool-cases (setup_zocker_dir os w)) [
    | inl ready ↦
        (ready, main_parsed-Prepared (parse_arguments args empty_config) w c (rw ready at e))
    | inr absent ↦ absurd (clash 1 c (rw absent at e))
  ]
