-- ===== src/Subscription/Lookup.antt =====
-- internal/httpapi/subscription.go: `loadSubscriptionUser`, over the rows of the table of users, and
-- the names that internal/httpapi/user.go admits.
use rapido_go.Prelude.{
  ℕ, suc, ◌-◌, ◌^◌, Bool, true, false, not, ◌&&◌, ◌||◌, ◌==◌, nat_eq, Option, none, some, List, [],
  ◌∷◌, ltb, leb, if◌then◌else◌, ℤ, pos, ◌+ℤ◌, int64, int_eq, ltb_ℤ, leb_ℤ,
}
use rapido_go.Prelude.Bytes.{Bytes, bytes_eq}
use rapido_go.Subscription.Token.{Instant, TokenClaims, JwtClaims, parse_token}

-- The columns of a row of users that the lookup reads.
pub record User : Type 0 where
  pub id : ℤ
  pub username : Bytes
  pub created_at : Option Instant
  pub sub_revoked_at : Option Instant

-- The seconds that a time.Time keeps, counted from the year 1.
unfoldable pub internal_seconds : Instant → ℤ
internal_seconds t = int64 (t.seconds +ℤ pos 62135596800)

-- t.After(u)
unfoldable pub after : Instant → Instant → Bool
unfolding internal_seconds
after t u =
    let a = internal_seconds t in
    let b = internal_seconds u in ltb_ℤ b a || ((a == b) && ltb u.nanos t.nanos)

abbrev pub is_after : Option Instant → Instant → Bool
is_after none u = false
is_after (some t) u = after t u

-- `GetUserByID`
unfoldable pub get_user_by_id : ℤ → List User → Option User
get_user_by_id i [] = none
get_user_by_id i (u ∷ us) = let rest = get_user_by_id i us in if u.id == i then some u else rest

-- `GetUserByUsername`
unfoldable pub get_user_by_username : Bytes → List User → Option User
get_user_by_username n [] = none
get_user_by_username n (u ∷ us) =
    let rest = get_user_by_username n us in if u.username == n then some u else rest

abbrev pub is_empty : Bytes → Bool
is_empty [] = true
is_empty (c ∷ s) = false

-- The row that the claims name.
unfoldable pub named_user : TokenClaims → List User → Option User
unfolding get_user_by_id get_user_by_username
named_user claims users =
    if claims.by_id && leb_ℤ (pos 1) claims.user_id && leb_ℤ claims.user_id (pos (2 ^ 31 - 1))
    then get_user_by_id claims.user_id users
    else if not claims.by_id && not (is_empty claims.username)
    then get_user_by_username claims.username users
    else none

abbrev pub unless_outdated : Instant → Option User → Option User
unless_outdated at none = none
unless_outdated at (some u) =
    if is_after u.created_at at then none else if is_after u.sub_revoked_at at then none else some u

-- The user of the claims; the rows are none where the query fails.
abbrev pub user_of_claims : Option TokenClaims → Option (List User) → Option User
user_of_claims none rows = none
user_of_claims (some claims) none = none
user_of_claims (some claims) (some users) =
    unless_outdated claims.created_at (named_user claims users)

module _ (sha256 : Bytes → Bytes) (hmac : Bytes → Bytes → Bytes) {F : Type 0}
    (jwt : Bytes → Bytes → Option (JwtClaims F)) (float_instant : F → Instant) where
  -- `loadSubscriptionUser`: none is the answer 404.
  unfoldable pub load_subscription_user : Bytes → Bytes → Option (List User) → Option User
  unfolding named_user after
  load_subscription_user token secret rows =
      user_of_claims (parse_token sha256 hmac jwt float_instant token secret) rows

abbrev pub is_letter : ℕ → Bool
is_letter c = (leb b'a' c && leb c b'z') || (leb b'A' c && leb c b'Z')

-- \w
abbrev pub is_word : ℕ → Bool
is_word c = (c == b'_') || is_letter c || (leb b'0' c && leb c b'9')

-- `allowedUsernameChars`
abbrev pub is_allowed : ℕ → Bool
is_allowed c = is_word c || (c == b'@') || (c == b'.') || (c == b'-')

abbrev pub all_allowed : Bytes → Bool
all_allowed [] = true
all_allowed (c ∷ s) = let rest = all_allowed s in is_allowed c && rest

abbrev pub leading_run : Bytes → ℕ
leading_run [] = 0
leading_run (c ∷ s) = let rest = leading_run s in if is_word c then suc rest else 0

-- `validUsername`
unfoldable pub valid_username : Bytes → Bool
valid_username s =
    if is_empty s || not (all_allowed s)
    then false
    else leb 3 (leading_run s) && leb (leading_run s) 32
