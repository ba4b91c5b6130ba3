-- ===== src/FreeList/Release.antt =====
-- `free_blocks`: what it gives back.
use opperating_system_practi.Base.{
  ℕ, ◌+◌, ◌-◌, ◌≤◌, ◌<◌, true, false, ◌&&◌, ◌||◌, ◌≡◌, refl, inl, inr, [], ◌∷◌, leb, ltb, ◌==◌,
  arith, Bool-cases,
}
use opperating_system_practi.FreeList.{
  Region, FreeList, insert_first, insert_after, insert_range, starts_below, release,
}
use opperating_system_practi.FreeList.Blocks.{is_free, Coalesced}

-- The blocks `s` to `e` are in use.
abbrev pub IsUsed : FreeList → ℕ → ℕ → Type 0
IsUsed rs s e = (b : ℕ) → s ≤ b → b ≤ e → is_free rs b ≡ false

-- What `rs'` holds once the blocks `s` to `e` have been given back to `rs`.
pub record Gives (lo s e : ℕ) (rs rs' : FreeList) : Type 0 where
  pub coalesced : Coalesced lo rs'
  pub joined : (b : ℕ) → is_free rs' b ≡ is_free rs b || (leb s b && leb b e)

insert_first-Gives :
    (lo s e : ℕ) (rs : FreeList)
    → Coalesced lo rs
    → lo ≤ s
    → s ≤ e
    → IsUsed rs s e
    → starts_below s rs ≡ false
    → Gives lo s e rs (insert_first s e rs)
unfolding insert_first is_free
insert_first-Gives lo s e [] w h k used t = record {
  coalesced = (h, k, tt);
  joined = λ b. ground arith;
}
insert_first-Gives lo s e (r ∷ rs) w h k used t =
    let beyond : e < r.start_block = ground (arith, used r.start_block) in
    elim (Bool-cases (e + 1 == r.start_block)) [
      | inl touch ↦
          rw (touch, insert_first)
            (record { coalesced = (h, omega arith, w.2); joined = λ b. ground arith })
      | inr apart ↦
          rw (apart, insert_first)
            (record { coalesced = (h, k, (ground arith, w.1, w.2)); joined = λ b. ground arith })
    ]

insert_after-Gives :
    (lo s e : ℕ) (p : Region) (rs : FreeList)
    → Coalesced lo (p ∷ rs)
    → p.end_block < s
    → s ≤ e
    → IsUsed (p ∷ rs) s e
    → starts_below s rs ≡ false
    → Gives lo s e (p ∷ rs) (insert_after p s e rs)
unfolding insert_after is_free
insert_after-Gives lo s e p [] w h k used t = record {
  coalesced = ground arith;
  joined = λ b. ground arith;
}
insert_after-Gives lo s e p (r ∷ rs) w h k used t =
    let beyond : e < r.start_block = ground (arith, used r.start_block) in
    record { coalesced = ground arith; joined = λ b. ground arith }

-- The search goes on only to a region that begins below `s`.
room :
    (lo s : ℕ) (r : Region) (rs : FreeList)
    → Coalesced lo (r ∷ rs)
    → r.end_block < s
    → starts_below s rs ≡ true
    → r.end_block + 2 ≤ s
room lo s r [] w h t = cc
room lo s r (c ∷ rs) w h t = ground arith

skip_Gives :
    (lo s e : ℕ) (r : Region) (rs rs' : FreeList)
    → Coalesced lo (r ∷ rs)
    → r.end_block < s
    → Gives (r.end_block + 2) s e rs rs'
    → Gives lo s e (r ∷ rs) (r ∷ rs')
unfolding is_free
skip_Gives lo s e r rs rs' w h g = record {
  coalesced = (w.0, w.1, g.coalesced);
  joined = λ b. ground (arith, g.joined b);
}

pub used_before :
    (s e : ℕ) (r : Region) (rs : FreeList)
    → r.start_block < s
    → s ≤ e
    → IsUsed (r ∷ rs) s e
    → r.end_block < s
unfolding is_free
used_before s e r rs h k used = ground (arith, used s)

pub IsUsed-tail : (s e : ℕ) (r : Region) (rs : FreeList) → IsUsed (r ∷ rs) s e → IsUsed rs s e
unfolding is_free
IsUsed-tail s e r rs used b p q = ground (arith, used b p q)

insert_range-Gives :
    (lo s e : ℕ) (rs : FreeList)
    → Coalesced lo rs
    → lo ≤ s
    → s ≤ e
    → IsUsed rs s e
    → Gives lo s e rs (insert_range s e rs)
unfolding insert_range
insert_range-Gives lo s e [] w h k used = insert_first-Gives lo s e [] w h k used refl
insert_range-Gives lo s e (r ∷ rs) w h k used = elim (Bool-cases (ltb r.start_block s)) [
  | inl below ↦
      let before : r.end_block < s = used_before s e r rs (ground arith) k used in
      elim (Bool-cases (starts_below s rs)) [
        | inl more ↦
            rw (below, more)
              (skip_Gives lo s e r rs _ w before (
                insert_range-Gives (r.end_block + 2) s e rs w.2 (room lo s r rs w before more) k
                  (IsUsed-tail s e r rs used)))
        | inr last ↦ rw (below, last) (insert_after-Gives lo s e r rs w before k used last)
      ]
  | inr above ↦ rw above (insert_first-Gives lo s e (r ∷ rs) w h k used above)
]

-- Giving back `n` blocks in use keeps the list coalesced, and makes exactly these blocks free.
pub release-Gives :
    (lo a n : ℕ) (rs : FreeList)
    → Coalesced lo rs
    → lo ≤ a
    → 0 < n
    → IsUsed rs a (a + n - 1)
    → Gives lo a (a + n - 1) rs (release a n rs)
unfolding release
release-Gives lo a n rs w h k used = insert_range-Gives lo a (a + n - 1) rs w h (omega arith) used
