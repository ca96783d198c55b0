-- ===== src/Traffic/ConnGroup/Forget.antt =====
-- The func that `Hold` returned forgets its own connection and no other.
use rapido_go.Prelude.{
  ℕ, ◌+◌, ◌<◌, true, not, ◌||◌, nat_eq, erase, lookup-erase, length, length-set, get_or,
  get_or-set_self, get_or-set_ne, set, ◌≡◌, ◌≢◌, inl, inr, refl, sym, ◌∙◌, arith, Bool-cases,
  nat_beq, ltb, get_or_past, eq_false,
}
use rapido_go.Traffic.ConnGroup.{Hold, refused, ConnGroup, release}
use rapido_go.Traffic.ConnGroup.Covered.{IsCovered, IsCovered-map, hold_at, IsConsistent}

module _ (g : ConnGroup) (i : ℕ) (x : IsConsistent g) where
  abbrev mine : Hold
  mine = record (hold_at g i) { released = true }

  abbrev after : ConnGroup
  after = record g { conns = erase (hold_at g i).id g.conns; holds = set g.holds i mine }

  kept_within : (hold_at g i).kept ≡ true → i < length g.holds
  kept_within k = elim (Bool-cases (ltb i (length g.holds))) [
    | inl e ↦ ground arith
    | inr e ↦
        let past = get_or_past g.holds i (refused 0) (ground arith) in
        absurd (ground (arith, rw past at k))
  ]

  forget-ids :
      (j : ℕ)
      → j < length (set g.holds i mine)
      → (get_or (set g.holds i mine) j (refused 0)).kept ≡ true
      → (get_or (set g.holds i mine) j (refused 0)).id ≡ j + 1
  forget-ids j h k =
      let within : j < length g.holds = omega (arith, length-set g.holds i mine) in
      elim (Bool-cases (nat_beq i j)) [
        | inl e ↦
            let same : i ≡ j = ground arith in
            let at : get_or (set g.holds i mine) j (refused 0) ≡ mine =
              rw (← same) (get_or-set_self g.holds i mine (refused 0) (omega arith)) in
            rw at (rw (← same) (x.ids i (omega arith) (rw at at k)))
        | inr e ↦
            let differ : i ≢ j = ground arith in
            let at = get_or-set_ne g.holds i j mine (refused 0) differ in
            rw at (x.ids j within (rw at at k))
      ]

  forget-IsCovered :
      (hold_at g i).kept ≡ true
      → (j : ℕ) → j < length (set g.holds i mine)
      → IsCovered after (get_or (set g.holds i mine) j (refused 0))
  forget-IsCovered kept j h =
      let within : j < length g.holds = omega (arith, length-set g.holds i mine) in
      elim (Bool-cases (nat_beq i j)) [
        | inl e ↦
            let same : i ≡ j = ground arith in
            let at : get_or (set g.holds i mine) j (refused 0) ≡ mine =
              rw (← same) (get_or-set_self g.holds i mine (refused 0) (omega arith)) in
            rw at (inl refl)
        | inr e ↦
            let differ : i ≢ j = ground arith in
            rw (get_or-set_ne g.holds i j mine (refused 0) differ) (
              IsCovered-map g after (hold_at g j) (λ k. k)
                (λ k l.
                  let of_i = x.ids i (kept_within kept) kept in
                  let of_j = x.ids j within k in
                  rw (lookup-erase (hold_at g i).id (hold_at g j).id g.conns) (
                    rw (eq_false (nat_beq (hold_at g i).id (hold_at g j).id) (λ t. ground arith))
                      l))
                (x.covered j within))
      ]

pub release-IsConsistent : (g : ConnGroup) (i : ℕ) → IsConsistent g → IsConsistent (release g i)
unfolding release
release-IsConsistent g i x = elim (Bool-cases (not (hold_at g i).kept || (hold_at g i).released)) [
  | inl e ↦ rw e x
  | inr e ↦ rw e (record {
    ids = forget-ids g i x;
    counted = λ f. x.counted f ∙ sym (length-set g.holds i (mine g i x));
    emptied = λ f. rw (x.emptied f) refl;
    covered = forget-IsCovered g i x (ground arith);
  })
]
