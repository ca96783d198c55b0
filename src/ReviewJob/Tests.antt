-- ===== src/ReviewJob/Tests.antt =====
-- A tick over two users.
use rapido_go.Prelude.{
  ◌^◌, ℤ, pos, negsuc, ◌+ℤ◌, ◌-ℤ◌, int32, int_eq, true, false, Option, none, some, List, [], ◌∷◌,
  Assoc, lookup, ◌≡◌, refl, arith,
}
use rapido_go.ReviewJob.{
  Status, active, expired, on_hold, User, NextPlan, Db, Clock, State, Done, done, Outcome, ok, err,
  is_limited, is_expired, needs_review, reset_by_next_plan, fire_next_plan, review_user,
  review_active_users, is_awaited, review_on_hold, review_on_hold_users, review,
}
use rapido_go.ReviewJob.Limits.{IsUsedUp, is_limited-reset_by_next_plan}
use rapido_go.ReviewJob.Review.{after_review, review_active_users_lem}

abbrev clock : Clock
clock = record { now = pos 1000; unix = pos 1000; db_unix = pos 1001 }

-- Three used of a limit of one.
abbrev heavy : User
heavy = record {
  status = active;
  used_traffic = pos 3;
  data_limit = some (pos 1);
  expire = none;
  created_at = pos 0;
  edit_at = none;
  online_at = none;
  on_hold_expire_duration = none;
  on_hold_timeout = none;
  last_status_change = none;
}

abbrev late : User
late = record heavy { data_limit = none; expire = some (pos 900) }

abbrev waiting : User
waiting = record heavy {
  status = on_hold;
  online_at = some (pos 5);
  on_hold_expire_duration = some (pos 60);
}

abbrev plan : NextPlan
plan = record {
  data_limit = pos 1;
  expire = none;
  add_remaining_traffic = false;
  fire_on_either = true;
}

abbrev tables : Db
tables = record {
  users = (pos 1, heavy) ∷ (pos 2, late) ∷ (pos 3, waiting) ∷ [];
  next_plans = (pos 1, plan) ∷ [];
  usage_logs = [];
  node_usages = (pos 1, pos 3) ∷ [];
}

used_up : IsUsedUp plan heavy.used_traffic heavy.data_limit
unfolding ◌+ℤ◌
used_up = omega arith

is_limited-reset_by_next_plan_example :
    is_limited (record (reset_by_next_plan clock plan heavy) { used_traffic = pos 1000000 }) ≡ false
is_limited-reset_by_next_plan_example =
    is_limited-reset_by_next_plan clock plan heavy (pos 1000000) refl used_up

review_active_users_lem_example :
    (d : State) × (review_active_users clock (record { db = tables; left = none }) ≡ ok done d)
    × ((j : ℤ)
        → lookup j d.db.users
          ≡ after_review clock (lookup j tables.next_plans) (lookup j tables.users))
review_active_users_lem_example =
    review_active_users_lem clock tables 1000 refl (omega arith) (refl, (refl, (refl, tt)))

abbrev users_of : Outcome Done → List (ℤ × Status × Option ℤ)
users_of (err s) = []
users_of (ok a s) = rows s.db.users
  where
    rows : Assoc ℤ User → List (ℤ × Status × Option ℤ)
    rows [] = []
    rows ((id, u) ∷ us) = (id, u.status, u.data_limit) ∷ rows us

-- The heavy user is renewed with a limit of minus one, the late one expires, and the one on hold
-- was online.
whole_tick :
    users_of (review clock (record { db = tables; left = none }))
    ≡ (pos 1, active, some (negsuc 0)) ∷ (pos 2, expired, none) ∷ (pos 3, active, some (pos 1)) ∷ []
unfolding int32 review review_active_users review_on_hold_users review_user review_on_hold
    needs_review is_awaited is_limited is_expired fire_next_plan reset_by_next_plan ◌+ℤ◌ ◌-ℤ◌
whole_tick = refl

-- The fourth query fails: the row is renewed and its plan still there.
failed_tick : users_of (review clock (record { db = tables; left = some 4 })) ≡ []
unfolding int32 review review_active_users review_on_hold_users review_user review_on_hold
    needs_review is_awaited is_limited is_expired fire_next_plan reset_by_next_plan ◌+ℤ◌ ◌-ℤ◌
failed_tick = refl

-- Behind the int32 range the query selects nobody who is expired.
late_in_2038 :
    review_active_users
      (record clock { unix = pos (2 ^ 31) })
      (record { db = record tables { users = (pos 2, late) ∷ [] }; left = none })
    ≡ ok done (record { db = record tables { users = (pos 2, late) ∷ [] }; left = none })
unfolding int32 review_active_users review_user needs_review is_limited is_expired
late_in_2038 = refl
