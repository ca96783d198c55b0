-- ===== src/ReviewJob.antt =====
-- internal/reviewjob/reviewjob.go over the tables that its queries read and write, which stand in
-- internal/db/queries. A table is a map from its key. Instants and seconds are integers. `left`
-- says how many queries still succeed, none that all do; notifications and log lines are left out.
pub mod Steps
pub mod Review
pub mod Limits
pub mod Tests
use rapido_go.Prelude.{
  ℕ, zero, suc, ℤ, pos, ◌+ℤ◌, ◌-ℤ◌, ltb_ℤ, leb_ℤ, beq_ℤ, int32, int_eq, Bool, true, false, not,
  ◌&&◌, ◌||◌, Option, none, some, List, [], ◌∷◌, ◌++◌, Assoc, lookup, insert, erase, if◌then◌else◌,
}

pub data Status : Type 0 where
  active : Status
  disabled : Status
  limited : Status
  expired : Status
  on_hold : Status

pub record User : Type 0 where
  pub status : Status
  pub used_traffic : ℤ
  pub data_limit : Option ℤ
  pub expire : Option ℤ
  pub created_at : ℤ
  pub edit_at : Option ℤ
  pub online_at : Option ℤ
  pub on_hold_expire_duration : Option ℤ
  pub on_hold_timeout : Option ℤ
  pub last_status_change : Option ℤ

pub record NextPlan : Type 0 where
  pub data_limit : ℤ
  pub expire : Option ℤ
  pub add_remaining_traffic : Bool
  pub fire_on_either : Bool

pub record Db : Type 0 where
  pub users : Assoc ℤ User
  pub next_plans : Assoc ℤ NextPlan
  pub usage_logs : List (ℤ × ℤ)
  pub node_usages : Assoc ℤ ℤ  -- what node_user_usages holds of a user

-- The clocks of a tick: the job's, its Unix seconds, and those of the database.
pub record Clock : Type 0 where
  pub now : ℤ
  pub unix : ℤ
  pub db_unix : ℤ

pub record State : Type 0 where
  pub db : Db
  pub left : Option ℕ

-- The result of a statement that returns nothing.
pub data Done : Type 0 where
  done : Done

pub data Outcome {ℓ} (A : Type ℓ) : Type ℓ where
  ok : A → State → Outcome A
  err : State → Outcome A

abbrev pub Job {ℓ} : Type ℓ → Type ℓ
Job A = State → Outcome A

infixl 20 ◌>>=◌
module _ {ℓ κ} {A : Type ℓ} {B : Type κ} where
  abbrev pub next : Outcome A → (A → Job B) → Outcome B
  next (ok a s) k = k a s
  next (err s) k = err s

  abbrev pub ◌>>=◌ : Job A → (A → Job B) → Job B
  ◌>>=◌ m k = λ s. next (m s) k

module _ {ℓ} {A : Type ℓ} where
  abbrev pub return : A → Job A
  return a s = ok a s

  abbrev pub answer : Db → Option ℕ → A × Db → Outcome A
  answer db left (a, d) = ok a (record { db = d; left = left })

  -- A query that succeeds while some are left.
  abbrev pub query : (Db → A × Db) → Job A
  query f s = query_at (f s.db) s.db s.left
    where
      query_at : A × Db → Db → Option ℕ → Outcome A
      query_at r db none = answer db none r
      query_at r db (some zero) = err (record { db = db; left = some zero })
      query_at r db (some (suc n)) = answer db (some n) r

-- The guards on a row; zero means no limit.
abbrev pub over : Option ℤ → ℤ → Bool
over none used = false
over (some limit) used = ltb_ℤ (pos 0) limit && leb_ℤ limit used

abbrev pub past : Option ℤ → ℤ → Bool
past none unix = false
past (some expire) unix = not (beq_ℤ expire (pos 0)) && leb_ℤ expire unix

unfoldable pub is_limited : User → Bool
is_limited u = over u.data_limit u.used_traffic

unfoldable pub is_expired : ℤ → User → Bool
is_expired unix u = past u.expire unix

abbrev pub is_active : User → Bool
is_active u = elim u.status [ active ↦ true | _ ↦ false ]

abbrev pub is_on_hold : User → Bool
is_on_hold u = elim u.status [ on_hold ↦ true | _ ↦ false ]

-- SELECT with a condition.
abbrev pub where_row : (User → Bool) → Assoc ℤ User → Assoc ℤ User
where_row p [] = []
where_row p ((id, u) ∷ us) = let rest = where_row p us in if p u then (id, u) ∷ rest else rest

-- GetUsersNeedingStatusReview
unfoldable pub needs_review : ℤ → User → Bool
unfolding is_limited is_expired
needs_review unix u = is_active u && (is_limited u || is_expired unix u)

-- UPDATE of the row with a key.
abbrev pub set_at : ℤ → (User → User) → Assoc ℤ User → Option User → Assoc ℤ User
set_at id f users none = users
set_at id f users (some u) = insert id (f u) users

abbrev pub update : ℤ → (User → User) → Db → Db
update id f db = record db { users = set_at id f db.users (lookup id db.users) }

-- UpdateUserStatusOnly
abbrev pub with_status : Clock → Status → User → User
with_status clock status u = record u { status = status; last_status_change = some clock.db_unix }

abbrev pub opt_add : ℤ → Option ℤ → Option ℤ
opt_add a none = none
opt_add a (some b) = some (a +ℤ b)

abbrev pub opt_sub : Option ℤ → ℤ → Option ℤ
opt_sub none b = none
opt_sub (some a) b = some (a -ℤ b)

-- The row that ResetUserByNextPlan makes; a sum with NULL is NULL.
unfoldable pub reset_by_next_plan : Clock → NextPlan → User → User
reset_by_next_plan clock plan u = record u {
  status = active;
  data_limit =
      opt_add plan.data_limit
        (if plan.add_remaining_traffic then some (pos 0) else opt_sub u.data_limit u.used_traffic);
  expire = opt_add clock.db_unix plan.expire;
  used_traffic = pos 0;
}

abbrev pub reset_with : Clock → ℤ → Db → Option NextPlan → Option User × Db
reset_with clock id db none = (none, db)
reset_with clock id db (some plan) =
    let d = update id (reset_by_next_plan clock plan) db in (lookup id d.users, d)

-- A query of one row, which is an error where there is none.
abbrev pub the_row {ℓ} : {A : Type ℓ} → Option A → Job A
the_row none s = err s
the_row (some a) s = ok a s

-- `fireNextPlan`
unfoldable pub fire_next_plan : Clock → ℤ → User → Job User
fire_next_plan clock id u = do
  _ ← query (λ db. (done, record db { usage_logs = db.usage_logs ++ ((id, u.used_traffic) ∷ []) }))
  _ ← query (λ db. (done, record db { node_usages = erase id db.node_usages }))
  row ← query (λ db. reset_with clock id db (lookup id db.next_plans))
  updated ← the_row row
  _ ← query (λ db. (done, record db { next_plans = erase id db.next_plans }))
  return updated

abbrev pub set_status : Clock → ℤ → Status → Job Done
set_status clock id status = query (λ db. (done, update id (with_status clock status) db))

-- The change of a status without a plan.
abbrev pub change_status : Clock → ℤ → Bool → Bool → Job Done
change_status clock id lim exp =
    if lim
    then set_status clock id limited
    else if exp
    then set_status clock id expired
    else return done

abbrev pub fires : Bool → Bool → NextPlan → Bool
fires lim exp plan = plan.fire_on_either || (lim && exp)

abbrev pub with_plan : Clock → ℤ → User → Bool → Bool → Option NextPlan → Job Done
with_plan clock id u lim exp none = change_status clock id lim exp
with_plan clock id u lim exp (some plan) =
    if fires lim exp plan
    then fire_next_plan clock id u >>= (λ updated. return done)
    else change_status clock id lim exp

-- One round of `reviewActiveUsers`.
unfoldable pub review_user : Clock → ℤ → User → Job Done
unfolding is_limited is_expired fire_next_plan
review_user clock id u =
    let lim = is_limited u in
    let exp = is_expired clock.unix u in
    if lim || exp
    then query (λ db. (lookup id db.next_plans, db)) >>= with_plan clock id u lim exp
    else change_status clock id lim exp

abbrev pub each : (ℤ → User → Job Done) → Assoc ℤ User → Job Done
each f [] = return done
each f ((id, u) ∷ us) = f id u >>= (λ _. each f us)

-- `reviewActiveUsers`: the query compares with the instant as an int32.
unfoldable pub review_active_users : Clock → Job Done
unfolding needs_review review_user
review_active_users clock =
    query (λ db. (where_row (needs_review (int32 clock.unix)) db.users, db))
    >>= each (review_user clock)

abbrev pub or_created : ℤ → Option ℤ → ℤ
or_created created none = created
or_created created (some edited) = edited

abbrev pub since : ℤ → Option ℤ → Bool
since base none = false
since base (some at) = leb_ℤ base at

abbrev pub until : ℤ → Option ℤ → Bool
until now none = false
until now (some at) = leb_ℤ at now

-- Whether a user on hold is activated.
unfoldable pub is_awaited : Clock → User → Bool
is_awaited clock u =
    since (or_created u.created_at u.edit_at) u.online_at || until clock.now u.on_hold_timeout

-- ActivateOnHoldUser
abbrev pub activated : Clock → User → User
activated clock u = record u {
  status = active;
  last_status_change = some clock.db_unix;
  expire = opt_add clock.db_unix u.on_hold_expire_duration;
  on_hold_expire_duration = none;
  on_hold_timeout = none;
}

-- One round of `reviewOnHoldUsers`.
unfoldable pub review_on_hold : Clock → ℤ → User → Job Done
unfolding is_awaited
review_on_hold clock id u =
    if is_awaited clock u then query (λ db. (done, update id (activated clock) db)) else return done

-- `reviewOnHoldUsers`
unfoldable pub review_on_hold_users : Clock → Job Done
unfolding review_on_hold
review_on_hold_users clock =
    query (λ db. (where_row is_on_hold db.users, db)) >>= each (review_on_hold clock)

-- `review`
unfoldable pub review : Clock → Job Done
unfolding review_active_users review_on_hold_users
review clock = review_active_users clock >>= (λ _. review_on_hold_users clock)
