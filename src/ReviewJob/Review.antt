-- ===== src/ReviewJob/Review.antt =====
-- What a review whose queries succeed makes of each row.
use rapido_go.Prelude.{
  ℕ, ◌<◌, ◌^◌, ℤ, pos, int32, int32_small, int_eq, Bool, true, false, ◌==◌, Option, none, some, [],
  ◌∷◌, Assoc, lookup, beq_refl, if◌then◌else◌, if_cases, if_true, if_false, Bool-cases, inl, inr,
  ◌≡◌, refl, sym, ap, ◌∙◌, arith,
}
use mathlib.Core.Path.{subst}
use rapido_go.Prelude.Keys.{DistinctKeys}
use rapido_go.ReviewJob.{
  User, NextPlan, Db, Clock, State, Done, done, Outcome, ok, err, next, review_user, each,
  where_row, needs_review, review_active_users,
}
use rapido_go.ReviewJob.Steps.{reviewed, start, Yields, Touched, review_user-Yields}

-- The users given have their reviewed rows, all others and their plans stay.
abbrev row_after : Clock → Db → ℤ → Option User → Option User
row_after clock db j none = lookup j db.users
row_after clock db j (some u) = some (reviewed clock (lookup j db.next_plans) u)

abbrev Reviewed : Clock → Assoc ℤ User → Db → Db → Type 0
Reviewed clock us db d = (j : ℤ) → lookup j d.users ≡ row_after clock db j (lookup j us)

abbrev Held : Assoc ℤ User → Db → Type 0
Held us db = (j : ℤ) (w : User) → lookup j us ≡ some w → lookup j db.users ≡ some w

row_after_moved :
    (clock : Clock) (db d : Db) (j : ℤ) (o : Option User)
    → lookup j d.users ≡ lookup j db.users
    → lookup j d.next_plans ≡ lookup j db.next_plans
    → row_after clock d j o ≡ row_after clock db j o
row_after_moved clock db d j none h k = h
row_after_moved clock db d j (some u) h k = ap (λ p. some (reviewed clock p u)) k

other_key :
    (id j : ℤ) (w : User) (us : Assoc ℤ User)
    → lookup id us ≡ none
    → lookup j us ≡ some w
    → (id == j) ≡ false
other_key id j w us fresh e = elim (Bool-cases (id == j)) [
  | inl t ↦ absurd (
      let clash = sym (subst (λ k. lookup k us ≡ none) ((int_eq.beq_path id j).0 t) fresh) ∙ e in
      ground (arith, clash))
  | inr f ↦ f
]

Held-after :
    (id : ℤ) (u new : User) (us : Assoc ℤ User) (db d : Db)
    → lookup id us ≡ none
    → Held ((id, u) ∷ us) db
    → Touched id db new d
    → Held us d
Held-after id u new us db d fresh held t j w e =
    let apart = other_key id j w us fresh e in
    t.1 j apart ∙ held j w (if_false (id == j) (some u) (lookup j us) apart ∙ e)

row_of_first :
    (clock : Clock) (id j : ℤ) (u : User) (us : Assoc ℤ User) (db d : Db)
    → lookup id us ≡ none
    → Touched id db (reviewed clock (lookup id db.next_plans) u) d
    → (id == j) ≡ true
    → row_after clock d j (lookup j us) ≡ some (reviewed clock (lookup j db.next_plans) u)
row_of_first clock id j u us db d fresh t e =
    subst
      (λ k. row_after clock d k (lookup k us) ≡ some (reviewed clock (lookup k db.next_plans) u))
      ((int_eq.beq_path id j).0 e) (ap (row_after clock d id) fresh ∙ t.0)

Reviewed-more :
    (clock : Clock) (id : ℤ) (u : User) (us : Assoc ℤ User) (db d e : Db)
    → lookup id us ≡ none
    → Touched id db (reviewed clock (lookup id db.next_plans) u) d
    → Reviewed clock us d e
    → Reviewed clock ((id, u) ∷ us) db e
Reviewed-more clock id u us db d e fresh t r j = elim (Bool-cases (id == j)) [
  | inl h ↦
      r j
      ∙ row_of_first clock id j u us db d fresh t h
      ∙ sym (ap (row_after clock db j) (if_true (id == j) (some u) (lookup j us) h))
  | inr h ↦
      r j
      ∙ row_after_moved clock db d j (lookup j us) (t.1 j h) (t.2 j h)
      ∙ sym (ap (row_after clock db j) (if_false (id == j) (some u) (lookup j us) h))
]

next-Yields :
    (P Q : Db → Type 0) (out : Outcome Done) (k : State → Outcome Done)
    → Yields out P
    → ((d : Db) → P d → Yields (k (start d)) Q)
    → Yields (next out (λ a. k)) Q
next-Yields P Q (ok a s) k h f =
    subst (λ l. Yields (k (record { db = s.db; left = l })) Q) (sym h.0) (f s.db h.1)
next-Yields P Q (err s) k h f = h

widen :
    (out : Outcome Done) (P Q : Db → Type 0) → ((d : Db) → P d → Q d) → Yields out P → Yields out Q
widen (ok a s) P Q f h = (h.0, f s.db h.1)
widen (err s) P Q f h = h

each-Yields :
    (clock : Clock) (us : Assoc ℤ User) (db : Db)
    → DistinctKeys us
    → Held us db
    → Yields (each (review_user clock) us (start db)) (Reviewed clock us db)
each-Yields clock [] db own held = (refl, λ j. refl)
each-Yields clock ((id, u) ∷ us) db own held =
    let new : User = reviewed clock (lookup id db.next_plans) u in
    let here : lookup id db.users ≡ some u =
      held id u (if_true (id == id) (some u) (lookup id us) (beq_refl id)) in
    next-Yields (Touched id db new) (Reviewed clock ((id, u) ∷ us) db)
      (review_user clock id u (start db)) (each (review_user clock) us)
      (review_user-Yields clock id u db here)
      (λ d t.
        widen (each (review_user clock) us (start d)) (Reviewed clock us d)
          (Reviewed clock ((id, u) ∷ us) db) (λ e r. Reviewed-more clock id u us db d e own.0 t r)
          (each-Yields clock us d own.1 (Held-after id u new us db d own.0 held t)))

abbrev kept : (User → Bool) → Option User → Option User
kept p none = none
kept p (some u) = if p u then some u else none

lookup-where_row :
    (p : User → Bool) (us : Assoc ℤ User) (j : ℤ)
    → DistinctKeys us
    → lookup j (where_row p us) ≡ kept p (lookup j us)
lookup-where_row p [] j own = refl
lookup-where_row p ((id, u) ∷ us) j own = elim (Bool-cases (p u)) [
  | inl t ↦ elim (Bool-cases (id == j)) [
    | inl same ↦ rw t (rw same (rw t refl))
    | inr other ↦ rw t (rw other (lookup-where_row p us j own.1))
  ]
  | inr t ↦ elim (Bool-cases (id == j)) [
    | inl same ↦
        let gone : lookup j us ≡ none =
          subst (λ k. lookup k us ≡ none) ((int_eq.beq_path id j).0 same) own.0 in
        rw t (rw same (lookup-where_row p us j own.1 ∙ ap (kept p) gone ∙ rw t refl))
    | inr other ↦ rw t (rw other (lookup-where_row p us j own.1))
  ]
]

kept-some : (p : User → Bool) (o : Option User) (w : User) → kept p o ≡ some w → o ≡ some w
kept-some p none w e = e
kept-some p (some u) w e = elim (Bool-cases (p u)) [
  | inl t ↦ rw t at e
  | inr t ↦ absurd (let clash = rw t at e in ground (arith, clash))
]

returned :
    (out : Outcome Done) (P : Db → Type 0) → Yields out P → (d : State) × (out ≡ ok done d) × P d.db
returned (ok done s) P h = (s, refl, h.1)
returned (err s) P h = absurd h

where_row-DistinctKeys :
    (p : User → Bool) (us : Assoc ℤ User) → DistinctKeys us → DistinctKeys (where_row p us)
where_row-DistinctKeys p [] own = tt
where_row-DistinctKeys p ((id, u) ∷ us) own =
    if_cases DistinctKeys (p u) ((id, u) ∷ where_row p us) (where_row p us)
      (λ e. (lookup-where_row p us id own.1 ∙ ap (kept p) own.0, where_row-DistinctKeys p us own.1))
      (λ e. where_row-DistinctKeys p us own.1)

-- The row of any user after a review: that of one who needs it is the reviewed one.
abbrev pub after_review : Clock → Option NextPlan → Option User → Option User
after_review clock plan none = none
after_review clock plan (some u) =
    some (if needs_review clock.unix u then reviewed clock plan u else u)

after_kept :
    (clock : Clock) (db : Db) (j : ℤ) (o : Option User)
    → lookup j db.users ≡ o
    → row_after clock db j (kept (needs_review clock.unix) o)
      ≡ after_review clock (lookup j db.next_plans) o
after_kept clock db j none e = e
after_kept clock db j (some u) e = elim (Bool-cases (needs_review clock.unix u)) [
  | inl t ↦ rw t refl
  | inr t ↦ rw t e
]

-- The review of the users whom a query has selected.
review_of_selected :
    (clock : Clock) (db : Db) (needs : User → Bool)
    → DistinctKeys db.users
    → (d : State) × (each (review_user clock) (where_row needs db.users) (start db) ≡ ok done d)
      × ((j : ℤ) → lookup j d.db.users ≡ row_after clock db j (kept needs (lookup j db.users)))
review_of_selected clock db needs own =
    let us : Assoc ℤ User = where_row needs db.users in
    let (d, e, r) = returned (each (review_user clock) us (start db)) (Reviewed clock us db) (
      each-Yields clock us db (where_row-DistinctKeys needs db.users own) (λ j w h.
        kept-some needs (lookup j db.users) w (sym (lookup-where_row needs db.users j own) ∙ h))) in
    (d, e, λ j. r j ∙ ap (row_after clock db j) (lookup-where_row needs db.users j own))

pub review_active_users_lem :
    (clock : Clock) (db : Db) (instant : ℕ)
    → clock.unix ≡ pos instant
    → instant < 2 ^ 31
    → DistinctKeys db.users
    → (d : State) × (review_active_users clock (start db) ≡ ok done d)
      × ((j : ℤ)
          → lookup j d.db.users ≡ after_review clock (lookup j db.next_plans) (lookup j db.users))
unfolding review_active_users
review_active_users_lem clock db instant at early own =
    let exact : int32 clock.unix ≡ clock.unix = ap int32 at ∙ int32_small instant early ∙ sym at in
    let (d, e, r) = review_of_selected clock db (needs_review (int32 clock.unix)) own in
    (
      d,
      e,
      λ j.
          r j
          ∙ ap (λ t. row_after clock db j (kept (needs_review t) (lookup j db.users))) exact
          ∙ after_kept clock db j (lookup j db.users) refl,
    )
