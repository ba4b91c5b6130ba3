-- ===== src/Shell/AccountCommands.antt =====
-- The commands on accounts and permissions in File-System/cli.c, `cmd_useradd` to `cmd_getfacl`.
use opperating_system_practi.Base.{
  ℕ, Option, none, some, List, [], ◌∷◌, ◌==◌, not, if◌then◌else◌, str_eq, bytes, CString,
}
use opperating_system_practi.Types.{Fs}
use opperating_system_practi.Accounts.{
  fs_useradd, fs_userdel, fs_groupadd, fs_groupdel, fs_usermod_add_group, fs_switch_user,
  fs_get_username, fs_get_current_user,
}
use opperating_system_practi.Access.{fs_chmod, fs_chown, fs_chgrp, fs_getfacl}
use opperating_system_practi.Shell.{Shell, Reply, silent, whoami, acl, with_fs}
use opperating_system_practi.Shell.Numbers.{strtol_octal}

unfoldable pub cmd_useradd : List CString → Shell → Shell × Reply
cmd_useradd [] sh = (sh, silent)
cmd_useradd (name ∷ rest) sh = with_fs sh (fs_useradd name sh.fs).0

unfoldable pub cmd_userdel : List CString → Shell → Shell × Reply
cmd_userdel [] sh = (sh, silent)
cmd_userdel (name ∷ rest) sh = with_fs sh (fs_userdel name sh.fs).0

unfoldable pub cmd_groupadd : List CString → Shell → Shell × Reply
cmd_groupadd [] sh = (sh, silent)
cmd_groupadd (name ∷ rest) sh = with_fs sh (fs_groupadd name sh.fs).0

unfoldable pub cmd_groupdel : List CString → Shell → Shell × Reply
cmd_groupdel [] sh = (sh, silent)
cmd_groupdel (name ∷ rest) sh = with_fs sh (fs_groupdel name sh.fs).0

unfoldable pub cmd_usermod : List CString → Shell → Shell × Reply
cmd_usermod [] sh = (sh, silent)
cmd_usermod (option ∷ []) sh = (sh, silent)
cmd_usermod (option ∷ user ∷ []) sh = (sh, silent)
cmd_usermod (option ∷ user ∷ group ∷ rest) sh =
    if not (str_eq option (bytes "-aG"))
    then (sh, silent)
    else with_fs sh (fs_usermod_add_group user group sh.fs).0

unfoldable pub cmd_su : List CString → Shell → Shell × Reply
cmd_su [] sh = (sh, silent)
cmd_su (name ∷ rest) sh = with_fs sh (fs_switch_user name sh.fs)

unfoldable pub cmd_whoami : Shell → Shell × Reply
cmd_whoami sh = let uid = fs_get_current_user sh.fs in (sh, whoami (fs_get_username uid sh.fs) uid)

unfoldable pub cmd_chmod : List CString → Shell → Shell × Reply
cmd_chmod [] sh = (sh, silent)
cmd_chmod (mode ∷ []) sh = (sh, silent)
cmd_chmod (mode ∷ file ∷ rest) sh = with_fs sh (fs_chmod file (strtol_octal mode) sh.fs).0

-- What stands before the first colon, and what stands behind it, if there is one.
abbrev pub split_colon_at : ℕ → CString × Option CString → CString → CString × Option CString
split_colon_at c (before, after) s = if c == b':' then ([], some s) else (c ∷ before, after)

unfoldable pub split_colon : CString → CString × Option CString
split_colon [] = ([], none)
split_colon (c ∷ s) = split_colon_at c (split_colon s) s

abbrev pub chown_unless_empty : CString → CString → Fs → Fs
chown_unless_empty file [] s = s
chown_unless_empty file (c ∷ user) s = (fs_chown file (c ∷ user) s).0

abbrev pub chgrp_unless_empty : CString → CString → Fs → Fs
chgrp_unless_empty file [] s = s
chgrp_unless_empty file (c ∷ group) s = (fs_chgrp file (c ∷ group) s).0

abbrev pub chown_parts : CString → CString × Option CString → Fs → Fs
chown_parts file (user, none) s = (fs_chown file user s).0
chown_parts file (user, some group) s =
    chgrp_unless_empty file group (chown_unless_empty file user s)

unfoldable pub cmd_chown : List CString → Shell → Shell × Reply
unfolding split_colon
cmd_chown [] sh = (sh, silent)
cmd_chown (owner ∷ []) sh = (sh, silent)
cmd_chown (owner ∷ file ∷ rest) sh = with_fs sh (chown_parts file (split_colon owner) sh.fs)

unfoldable pub cmd_chgrp : List CString → Shell → Shell × Reply
cmd_chgrp [] sh = (sh, silent)
cmd_chgrp (group ∷ []) sh = (sh, silent)
cmd_chgrp (group ∷ file ∷ rest) sh = with_fs sh (fs_chgrp file group sh.fs).0

unfoldable pub cmd_getfacl : List CString → Shell → Shell × Reply
cmd_getfacl [] sh = (sh, silent)
cmd_getfacl (file ∷ rest) sh = (sh, acl (fs_getfacl file sh.fs))
