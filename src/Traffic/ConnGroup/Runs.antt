-- ===== src/Traffic/ConnGroup/Runs.antt =====
-- Any calls of Hold, of the funcs that it returned, and of CloseAll.
use rapido_go.Prelude.{
  ℕ, ◌+◌, ◌^◌, ◌<◌, ◌≤◌, true, not, ◌||◌, nat_eq, List, [], ◌∷◌, length, length-append, length-set,
  ◌≡◌, ◌⊎◌, inl, inr, refl, arith, Bool-cases,
}
use rapido_go.Traffic.ConnGroup.{Hold, ConnGroup, new_group, hold, release, close_all, len}
use rapido_go.Traffic.ConnGroup.Covered.{
  is_in, IsCovered, hold_at, IsConsistent, hold-IsConsistent, close_all-IsConsistent,
}
use rapido_go.Traffic.ConnGroup.Forget.{release-IsConsistent}

pub data Event : Type 0 where
  holds : ℕ → Event
  releases : ℕ → Event
  closes_all : Event

abbrev pub apply : ConnGroup → Event → ConnGroup
apply g (holds c) = hold g c
apply g (releases i) = release g i
apply g closes_all = close_all g

abbrev pub run : ConnGroup → List Event → ConnGroup
run g [] = g
run g (e ∷ es) = run (apply g e) es

length-hold : (g : ConnGroup) (c : ℕ) → length (hold g c).holds ≡ length g.holds + 1
unfolding hold
length-hold g c = elim (Bool-cases g.closed) [
  | inl e ↦ rw e (length-append g.holds (_ ∷ []))
  | inr e ↦ rw e (length-append g.holds (_ ∷ []))
]

length-release : (g : ConnGroup) (i : ℕ) → length (release g i).holds ≡ length g.holds
unfolding release
length-release g i = elim (Bool-cases (not (hold_at g i).kept || (hold_at g i).released)) [
  | inl e ↦ rw e refl
  | inr e ↦ rw e (length-set g.holds i (record (hold_at g i) { released = true }))
]

apply-grows :
    (g : ConnGroup) (e : Event)
    → (length g.holds ≤ length (apply g e).holds) × (length (apply g e).holds ≤ length g.holds + 1)
unfolding close_all
apply-grows g (holds c) = (omega (arith, length-hold g c), omega (arith, length-hold g c))
apply-grows g (releases i) = (omega (arith, length-release g i), omega (arith, length-release g i))
apply-grows g closes_all = (omega arith, omega arith)

run-grows : (es : List Event) (g : ConnGroup) → length g.holds ≤ length (run g es).holds
run-grows [] g = omega arith
run-grows (e ∷ es) g = omega (arith, (apply-grows g e).0, run-grows es (apply g e))

apply-IsConsistent :
    (g : ConnGroup) (e : Event)
    → length (apply g e).holds < 2 ^ 64
    → IsConsistent g
    → IsConsistent (apply g e)
apply-IsConsistent g (holds c) small x = hold-IsConsistent g c (omega (arith, length-hold g c)) x
apply-IsConsistent g (releases i) small x = release-IsConsistent g i x
apply-IsConsistent g closes_all small x = close_all-IsConsistent g x

-- Any calls keep a group consistent, if fewer than 2^64 connections were ever given: each
-- connection that Hold accepted has the number of its call as its id, a closed group is empty, and
-- every connection given was released, or is closed by the group, or is held under its id.
pub run-IsConsistent :
    (es : List Event) (g : ConnGroup)
    → length (run g es).holds < 2 ^ 64
    → IsConsistent g
    → IsConsistent (run g es)
run-IsConsistent [] g small x = x
run-IsConsistent (e ∷ es) g small x =
    run-IsConsistent es (apply g e) small
      (apply-IsConsistent g e (omega (arith, run-grows es (apply g e))) x)

apply-closed : (g : ConnGroup) (e : Event) → g.closed ≡ true → (apply g e).closed ≡ true
unfolding hold release close_all
apply-closed g (holds c) h = ground arith
apply-closed g (releases i) h = ground arith
apply-closed g closes_all h = refl

run-closed : (es : List Event) (g : ConnGroup) → g.closed ≡ true → (run g es).closed ≡ true
run-closed [] g h = h
run-closed (e ∷ es) g h = run-closed es (apply g e) (apply-closed g e h)

pub new_group-IsConsistent : IsConsistent new_group
new_group-IsConsistent = record {
  ids = λ i h k. absurd (omega arith);
  counted = λ e. refl;
  emptied = λ e. refl;
  covered = λ i h. absurd (omega arith);
}

left_over :
    (g : ConnGroup) (h : Hold)
    → g.conns ≡ []
    → IsCovered g h
    → (h.released ≡ true) ⊎ (is_in h.conn g.ended ≡ true)
left_over g h e (inl r) = inl r
left_over g h e (inr (inl c)) = inr c
left_over g h e (inr (inr k)) = let l = rw e at k.1 in absurd (ground (arith, l))

-- A group on which CloseAll was called between other calls.
abbrev pub closed_between : List Event → List Event → ConnGroup
closed_between before after = run (close_all (run new_group before)) after

-- Once CloseAll was called on a group, whatever was called before and is called after, the group
-- holds nothing, and every connection that Hold was given was released or is closed by the group,
-- if fewer than 2^64 connections were ever given.
pub close_all_lem :
    (before after : List Event) (i : ℕ)
    → length (closed_between before after).holds < 2 ^ 64
    → i < length (closed_between before after).holds
    → (len (closed_between before after) ≡ 0)
      × (((hold_at (closed_between before after) i).released ≡ true)
          ⊎ (is_in
                (hold_at (closed_between before after) i).conn
                (closed_between before after).ended
              ≡ true))
unfolding len
close_all_lem before after i small h =
    let g0 : ConnGroup = run new_group before in
    let g : ConnGroup = run (close_all g0) after in
    let first : IsConsistent g0 =
      run-IsConsistent before new_group
        (omega (arith, apply-grows g0 closes_all, run-grows after (close_all g0)))
        new_group-IsConsistent in
    let x : IsConsistent g =
      run-IsConsistent after (close_all g0) small (close_all-IsConsistent g0 first) in
    let empty : g.conns ≡ [] =
      x.emptied (run-closed after (close_all g0) (unfold close_all in refl)) in
    (rw empty refl, left_over g (hold_at g i) empty (x.covered i h))
