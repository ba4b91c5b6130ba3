-- ===== src/Accounts/Ids.antt =====
-- New ids are above all active ones, and a new account is found under its name.
use opperating_system_practi.Base.{
  ℕ, ◌+◌, ◌≤◌, ◌<◌, true, ◌&&◌, ◌≡◌, List, [], ◌∷◌, get_or, leb, if◌then◌else◌, arith, zero, suc,
}
use opperating_system_practi.Types.{User, Group, zero_user, zero_group}
use opperating_system_practi.Accounts.{next_uid, next_gid}

pub le-next_uid : (n : ℕ) (us : List User) → n ≤ next_uid n us
unfolding next_uid
le-next_uid n [] = omega arith
le-next_uid n (u ∷ us) = ground (arith, le-next_uid n us, le-next_uid (u.uid + 1) us)

-- An active user has a uid below the next one.
pub uid-lt-next_uid :
    (n : ℕ) (us : List User) (i : ℕ)
    → (get_or us i zero_user).is_active ≡ true
    → (get_or us i zero_user).uid < next_uid n us
unfolding next_uid
uid-lt-next_uid n [] i h = cc
uid-lt-next_uid n (u ∷ us) zero h = ground (arith, le-next_uid n us, le-next_uid (u.uid + 1) us)
uid-lt-next_uid n (u ∷ us) (suc i) h =
    uid-lt-next_uid (if u.is_active && leb n u.uid then u.uid + 1 else n) us i h

pub le-next_gid : (n : ℕ) (gs : List Group) → n ≤ next_gid n gs
unfolding next_gid
le-next_gid n [] = omega arith
le-next_gid n (g ∷ gs) = ground (arith, le-next_gid n gs, le-next_gid (g.gid + 1) gs)

pub gid-lt-next_gid :
    (n : ℕ) (gs : List Group) (i : ℕ)
    → (get_or gs i zero_group).is_active ≡ true
    → (get_or gs i zero_group).gid < next_gid n gs
unfolding next_gid
gid-lt-next_gid n [] i h = cc
gid-lt-next_gid n (g ∷ gs) zero h = ground (arith, le-next_gid n gs, le-next_gid (g.gid + 1) gs)
gid-lt-next_gid n (g ∷ gs) (suc i) h =
    gid-lt-next_gid (if g.is_active && leb n g.gid then g.gid + 1 else n) gs i h
