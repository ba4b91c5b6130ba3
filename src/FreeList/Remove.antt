-- ===== src/FreeList/Remove.antt =====
-- `remove_range_from_freelist`: it takes out exactly the blocks of its range.
use opperating_system_practi.Base.{
  ℕ, ◌+◌, ◌-◌, ◌≤◌, ◌<◌, not, ◌&&◌, ◌||◌, ◌≡◌, refl, inl, inr, [], ◌∷◌, leb, arith, Bool-cases,
}
use opperating_system_practi.FreeList.{Region, FreeList, cut, cut_all, remove_range}
use opperating_system_practi.FreeList.Blocks.{in_region, is_free, Coalesced, Coalesced-mono}

-- What `rs'` holds once the blocks `s` to `e` have been taken out of `rs`.
pub record Loses (lo s e : ℕ) (rs rs' : FreeList) : Type 0 where
  pub coalesced : Coalesced lo rs'
  pub left : (b : ℕ) → is_free rs' b ≡ is_free rs b && not (leb s b && leb b e)

cut-Coalesced :
    (lo s e : ℕ) (r : Region) (rs : FreeList)
    → lo ≤ r.start_block
    → r.start_block ≤ r.end_block
    → s ≤ e
    → 0 < s
    → Coalesced (r.end_block + 2) rs
    → Coalesced lo (cut s e r rs)
unfolding cut
cut-Coalesced lo s e r rs h k se pos w =
    elim (Bool-cases (leb s r.end_block && leb r.start_block e)) [
      | inr apart ↦ rw apart (h, k, w)
      | inl meets ↦ elim (Bool-cases (leb s r.start_block && leb r.end_block e)) [
        | inl whole ↦ rw (meets, whole) (Coalesced-mono lo (r.end_block + 2) rs (omega arith) w)
        | inr part ↦ elim (Bool-cases (leb s r.start_block)) [
          | inl front ↦ rw (meets, part, front) (ground arith, ground arith, w)
          | inr inner ↦ elim (Bool-cases (leb r.end_block e)) [
            | inl back ↦
                rw (meets, part, inner, back)
                  (
                    h,
                    ground arith,
                    Coalesced-mono (s - 1 + 2) (r.end_block + 2) rs (ground arith) w,
                  )
            | inr split ↦
                rw (meets, part, inner, split) (h, ground arith, (ground arith, ground arith, w))
          ]
        ]
      ]
    ]

is_free-cut :
    (s e : ℕ) (r : Region) (rs : FreeList) (b : ℕ)
    → s ≤ e
    → 0 < s
    → r.start_block ≤ r.end_block
    → is_free (cut s e r rs) b ≡ (in_region r b && not (leb s b && leb b e)) || is_free rs b
unfolding cut is_free
is_free-cut s e r rs b h pos k = ground arith

cut_all-Loses :
    (lo s e : ℕ) (rs : FreeList)
    → Coalesced lo rs
    → s ≤ e
    → 0 < s
    → Loses lo s e rs (cut_all s e rs)
unfolding cut_all is_free
cut_all-Loses lo s e [] w h pos = record { coalesced = tt; left = λ b. refl }
cut_all-Loses lo s e (r ∷ rs) w h pos =
    let rest = cut_all-Loses (r.end_block + 2) s e rs w.2 h pos in
    record {
      coalesced = cut-Coalesced lo s e r (cut_all s e rs) w.0 w.1 h pos rest.coalesced;
      left = λ b. ground (arith, rest.left b, is_free-cut s e r (cut_all s e rs) b h pos w.1);
    }

-- Taking out `n` blocks keeps the list coalesced, and leaves exactly the free blocks outside them.
pub remove_range-Loses :
    (lo a n : ℕ) (rs : FreeList)
    → Coalesced lo rs
    → 0 < a
    → 0 < n
    → Loses lo a (a + n - 1) rs (remove_range a n rs)
unfolding remove_range
remove_range-Loses lo a n rs w pos k = cut_all-Loses lo a (a + n - 1) rs w (omega arith) pos
