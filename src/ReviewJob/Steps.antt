-- ===== src/ReviewJob/Steps.antt =====
-- What the review of one user makes of the tables.
use rapido_go.Prelude.{
  ℤ, int_eq, Bool, true, false, ◌||◌, ◌==◌, Option, none, some, Assoc, lookup, insert,
  lookup-insert, lookup-erase, beq_refl, if◌then◌else◌, if_true, if_false, Bool-cases, inl, inr,
  ◌≡◌, refl, ◌∙◌, arith,
}
use mathlib.Core.Path.{subst}
use rapido_go.ReviewJob.{
  limited, expired, User, NextPlan, Db, Clock, State, done, Outcome, ok, err, next, query, update,
  with_status, reset_by_next_plan, fire_next_plan, change_status, fires, with_plan, review_user,
  is_limited, is_expired, ◌>>=◌,
}

-- The row of a user who is limited or expired, by the plan that waits for the user.
abbrev pub renewed : Clock → Bool → Bool → User → Option NextPlan → User
renewed clock lim exp u none = with_status clock (if lim then limited else expired) u
renewed clock lim exp u (some plan) =
    if fires lim exp plan
    then reset_by_next_plan clock plan u
    else with_status clock (if lim then limited else expired) u

abbrev pub reviewed : Clock → Option NextPlan → User → User
reviewed clock plan u =
    let lim = is_limited u in
    let exp = is_expired clock.unix u in if lim || exp then renewed clock lim exp u plan else u

abbrev pub start : Db → State
start db = record { db = db; left = none }

-- A run that succeeds, all queries included, and what holds of its database.
abbrev pub Yields : {A : Type 0} → Outcome A → (Db → Type 0) → Type 0
Yields (ok a s) P = (s.left ≡ none) × P s.db
Yields (err s) P = ⊥

-- One user has the row given, all others and their plans stay.
abbrev pub Touched : ℤ → Db → User → Db → Type 0
Touched id db u d =
    (lookup id d.users ≡ some u)
    × ((j : ℤ) → (id == j) ≡ false → lookup j d.users ≡ lookup j db.users)
    × ((j : ℤ) → (id == j) ≡ false → lookup j d.next_plans ≡ lookup j db.next_plans)

lookup-insert_self : (id : ℤ) (u : User) (m : Assoc ℤ User) → lookup id (insert id u m) ≡ some u
lookup-insert_self id u m = lookup-insert id id u m ∙ if_true (id == id) _ _ (beq_refl id)

lookup-insert_other :
    (id j : ℤ) (u : User) (m : Assoc ℤ User)
    → (id == j) ≡ false
    → lookup j (insert id u m) ≡ lookup j m
lookup-insert_other id j u m e = lookup-insert id j u m ∙ if_false (id == j) _ _ e

module _ (clock : Clock) (id : ℤ) (u : User) (db : Db) (held : lookup id db.users ≡ some u) where
  update-Touched : (f : User → User) → Touched id db (f u) (update id f db)
  update-Touched f = rw held (
    lookup-insert_self id (f u) db.users,
    (λ j e. lookup-insert_other id j (f u) db.users e),
    (λ j e. refl),
  )

  change_status-Yields :
      (lim exp : Bool)
      → Yields (change_status clock id lim exp (start db)) (
          Touched id db (
            if lim
            then with_status clock limited u
            else if exp
            then with_status clock expired u
            else u))
  change_status-Yields true exp = (refl, update-Touched (with_status clock limited))
  change_status-Yields false true = (refl, update-Touched (with_status clock expired))
  change_status-Yields false false = (refl, (held, (λ j e. refl), (λ j e. refl)))

  fire_next_plan-Yields :
      (plan : NextPlan)
      → lookup id db.next_plans ≡ some plan
      → Yields
          (next (fire_next_plan clock id u (start db)) (λ updated s. ok done s))
          (Touched id db (reset_by_next_plan clock plan u))
  unfolding fire_next_plan
  fire_next_plan-Yields plan e = rw e (
      rw held (
        rw (lookup-insert_self id (reset_by_next_plan clock plan u) db.users) (
          refl,
          (
            lookup-insert_self id (reset_by_next_plan clock plan u) db.users,
            (λ j f. lookup-insert_other id j (reset_by_next_plan clock plan u) db.users f),
            (λ j f. lookup-erase id j db.next_plans ∙ if_false (id == j) _ _ f),
          ),
        )))

  -- A status changes where a limit or the time is reached.
  changed :
      (lim exp : Bool)
      → lim || exp ≡ true
      → (if lim
          then with_status clock limited u
          else if exp
          then with_status clock expired u
          else u)
        ≡ with_status clock (if lim then limited else expired) u
  changed true exp h = refl
  changed false true h = refl
  changed false false h = absurd (ground (arith, h))

  with_plan-Yields :
      (lim exp : Bool) (o : Option NextPlan)
      → lim || exp ≡ true
      → lookup id db.next_plans ≡ o
      → Yields
          (with_plan clock id u lim exp o (start db))
          (Touched id db (renewed clock lim exp u o))
  unfolding fire_next_plan
  with_plan-Yields lim exp none h e =
      subst (λ w. Yields (change_status clock id lim exp (start db)) (Touched id db w))
        (changed lim exp h) (change_status-Yields lim exp)
  with_plan-Yields lim exp (some plan) h e = elim (Bool-cases (fires lim exp plan)) [
    | inl f ↦ rw f (fire_next_plan-Yields plan e)
    | inr f ↦ rw f (
        subst (λ w. Yields (change_status clock id lim exp (start db)) (Touched id db w))
          (changed lim exp h) (change_status-Yields lim exp))
  ]

  decided-Yields :
      (lim exp : Bool)
      → Yields
          ((if lim || exp
              then ◌>>=◌ (query (λ d. (lookup id d.next_plans, d))) (with_plan clock id u lim exp)
              else change_status clock id lim exp)
            (start db))
          (Touched id db
            (if lim || exp then renewed clock lim exp u (lookup id db.next_plans) else u))
  decided-Yields true exp = with_plan-Yields true exp (lookup id db.next_plans) refl refl
  decided-Yields false true = with_plan-Yields false true (lookup id db.next_plans) refl refl
  decided-Yields false false = change_status-Yields false false

  pub review_user-Yields :
      Yields
        (review_user clock id u (start db))
        (Touched id db (reviewed clock (lookup id db.next_plans) u))
  unfolding review_user
  review_user-Yields = decided-Yields (is_limited u) (is_expired clock.unix u)
