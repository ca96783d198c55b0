-- ===== src/ReviewJob/Limits.antt =====
-- What a next plan makes of a data limit.
use rapido_go.Prelude.{
  ℤ, pos, ◌+ℤ◌, ◌-ℤ◌, ◌≤ℤ◌, ltb_ℤ, leb_ℤ, int_laws, false, ◌&&◌, Option, none, some, ◌≡◌, refl, ap,
}
use rapido_go.ReviewJob.{
  Clock, User, NextPlan, over, opt_add, opt_sub, reset_by_next_plan, is_limited,
}

-- A user without a limit, or one who has used at least the old limit and the plan's together.
abbrev pub IsUsedUp : NextPlan → ℤ → Option ℤ → Type 0
IsUsedUp plan used none = Unit
IsUsedUp plan used (some limit) = (limit +ℤ plan.data_limit) ≤ℤ used

not_positive :
    (gain limit used : ℤ)
    → (limit +ℤ gain) ≤ℤ used
    → ltb_ℤ (pos 0) (gain +ℤ (limit -ℤ used)) ≡ false
not_positive gain limit used h = grind (int_laws, h)

over_used_up :
    (plan : NextPlan) (used later : ℤ) (limit : Option ℤ)
    → IsUsedUp plan used limit
    → over (opt_add plan.data_limit (opt_sub limit used)) later ≡ false
over_used_up plan used later none h = refl
over_used_up plan used later (some limit) h =
    ap (λ b. b && leb_ℤ (plan.data_limit +ℤ (limit -ℤ used)) later)
      (not_positive plan.data_limit limit used h)

-- A user without a data limit, or one who has used at least the old limit and the plan's together,
-- to whom a plan is applied that keeps the remaining traffic, has no effective limit from then on:
-- however much is used, the review never finds the user limited.
pub is_limited-reset_by_next_plan :
    (clock : Clock) (plan : NextPlan) (u : User) (later : ℤ)
    → plan.add_remaining_traffic ≡ false
    → IsUsedUp plan u.used_traffic u.data_limit
    → is_limited (record (reset_by_next_plan clock plan u) { used_traffic = later }) ≡ false
unfolding is_limited reset_by_next_plan
is_limited-reset_by_next_plan clock plan u later keeps h =
    rw keeps (over_used_up plan u.used_traffic later u.data_limit h)
