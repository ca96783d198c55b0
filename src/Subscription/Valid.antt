-- ===== src/Subscription/Valid.antt =====
-- The link that the panel makes for a user, before and after it is revoked: `CreateToken` of
-- internal/subscription/token.go with `loadSubscriptionUser` of internal/httpapi/subscription.go.
use rapido_go.Prelude.{
  ℕ, ◌<◌, ◌^◌, ◌≡◌, refl, ap, sym, ◌∙◌, Bool, true, false, ◌&&◌, ◌||◌, ◌==◌, nat_eq, Option, none,
  some, List, [], ◌∷◌, ltb, if◌then◌else◌, arith, All, pos, negsuc, ◌≤ℤ◌, ◌<ℤ◌, ◌+ℤ◌, ltb_ℤ, int_eq,
  +ℤ_parts, int64_exact, min_int64, if_false,
}
use rapido_go.Prelude.Bytes.{Bytes, bytes_eq}
use rapido_go.Subscription.Utf8.{valid_ascii}
use rapido_go.Subscription.Pieces.{NoComma}
use rapido_go.Subscription.Token.{
  Instant, JwtClaims, create_token, token_time, unix, name_claims, comma,
}
use rapido_go.Subscription.Lookup.{
  User, internal_seconds, after, is_after, get_user_by_username, named_user, unless_outdated,
  user_of_claims, load_subscription_user, is_allowed, all_allowed, is_empty, valid_username,
}
use rapido_go.Subscription.RoundTrip.{IsDigest, parse_token-create_token}

is_allowed-IsPlain : (c : ℕ) → is_allowed c ≡ true → (c < 128) × (c ≡ comma → ⊥)
is_allowed-IsPlain c h = ground arith

and_left : (a b : Bool) → a && b ≡ true → a ≡ true
and_left true b h = refl
and_left false b h = h

and_right : (a b : Bool) → a && b ≡ true → b ≡ true
and_right true b h = h
and_right false b h = absurd (ground (arith, h))

all_allowed-ascii : (s : Bytes) → all_allowed s ≡ true → All (λ c. c < 128) s
all_allowed-ascii [] h = tt
all_allowed-ascii (c ∷ s) h = (
  (is_allowed-IsPlain c (and_left (is_allowed c) _ h)).0,
  all_allowed-ascii s (and_right (is_allowed c) _ h),
)

all_allowed-NoComma : (s : Bytes) → all_allowed s ≡ true → NoComma s
all_allowed-NoComma [] h = tt
all_allowed-NoComma (c ∷ s) h = (
  (is_allowed-IsPlain c (and_left (is_allowed c) _ h)).1,
  all_allowed-NoComma s (and_right (is_allowed c) _ h),
)

valid_username-parts :
    (s : Bytes) → valid_username s ≡ true → (is_empty s ≡ false) × (all_allowed s ≡ true)
unfolding valid_username
valid_username-parts s h = ground arith

-- The instants of the years from 1 on, to far in the future.
abbrev pub InRange : Instant → Type 0
InRange t = (negsuc 62135596799 ≤ℤ t.seconds) × (t.seconds ≤ℤ pos (2 ^ 62))

internal_seconds-InRange :
    (t : Instant) → InRange t → internal_seconds t ≡ t.seconds +ℤ pos 62135596800
unfolding internal_seconds
internal_seconds-InRange t h =
    int64_exact _ (omega (arith, +ℤ_parts t.seconds (pos 62135596800)))
      (omega (arith, +ℤ_parts t.seconds (pos 62135596800)))

-- In these years the times compare by their seconds and then by their nanoseconds.
after_exact :
    (t u : Instant)
    → InRange t
    → InRange u
    → after t u ≡ (ltb_ℤ u.seconds t.seconds || ((t.seconds == u.seconds) && ltb u.nanos t.nanos))
unfolding after
after_exact t u h k =
    rw (internal_seconds-InRange t h, internal_seconds-InRange u k)
      (ground (arith, +ℤ_parts t.seconds (pos 62135596800), +ℤ_parts u.seconds (pos 62135596800)))

token_time_cases :
    (now : Instant)
    → min_int64 ≤ℤ now.seconds
    → now.seconds ≤ℤ pos (2 ^ 61)
    → token_time now ≡ (if ltb 0 now.nanos then now.seconds +ℤ pos 1 else now.seconds)
unfolding token_time
token_time_cases now h k =
    ap (λ s. if ltb 0 now.nanos then s else now.seconds)
      (int64_exact (now.seconds +ℤ pos 1) (omega (arith, +ℤ_parts now.seconds (pos 1)))
        (omega (arith, +ℤ_parts now.seconds (pos 1))))

-- The second of a token made at an instant of these times.
pub token_time_bounds :
    (now : Instant)
    → pos 1000 ≤ℤ now.seconds
    → now.seconds ≤ℤ pos (2 ^ 61)
    → (pos 1000 ≤ℤ token_time now) × (token_time now ≤ℤ pos (2 ^ 62))
token_time_bounds now low high =
    rw (token_time_cases now (omega arith) high) (ground (arith, +ℤ_parts now.seconds (pos 1)))

-- What is not after now is not after the whole second that a token carries.
after-token_time :
    (t now : Instant)
    → InRange t
    → pos 1000 ≤ℤ now.seconds
    → now.seconds ≤ℤ pos (2 ^ 61)
    → after t now ≡ false
    → after t (unix (token_time now)) ≡ false
after-token_time t now h low high e =
    let b = token_time_bounds now low high in
    let f = sym (after_exact t now h (omega arith, omega arith)) ∙ e in
    after_exact t (unix (token_time now)) h (omega arith, omega arith)
    ∙ rw (token_time_cases now (omega arith) high) (ground (arith, f, +ℤ_parts now.seconds (pos 1)))

abbrev pub InRangeOf : Option Instant → Type 0
InRangeOf none = Unit {0}
InRangeOf (some t) = InRange t

is_after-token_time :
    (o : Option Instant) (now : Instant)
    → InRangeOf o
    → pos 1000 ≤ℤ now.seconds
    → now.seconds ≤ℤ pos (2 ^ 61)
    → is_after o now ≡ false
    → is_after o (unix (token_time now)) ≡ false
is_after-token_time none now h low high e = refl
is_after-token_time (some t) now h low high e = after-token_time t now h low high e

-- A revocation more than a second later is after the token's second.
late_revocation :
    (r now : Instant)
    → InRange r
    → pos 1000 ≤ℤ now.seconds
    → now.seconds ≤ℤ pos (2 ^ 61)
    → now.seconds +ℤ pos 1 <ℤ r.seconds
    → after r (unix (token_time now)) ≡ true
late_revocation r now h low high late =
    let b = token_time_bounds now low high in
    after_exact r (unix (token_time now)) h (omega arith, omega arith)
    ∙ rw (token_time_cases now (omega arith) high)
        (ground (arith, late, +ℤ_parts now.seconds (pos 1)))

-- A revocation in the second of the token is before the whole second that the token carries.
early_revocation :
    (r now : Instant)
    → InRange r
    → pos 1000 ≤ℤ now.seconds
    → now.seconds ≤ℤ pos (2 ^ 61)
    → 0 < now.nanos
    → r.seconds ≡ now.seconds
    → after r (unix (token_time now)) ≡ false
early_revocation r now h low high fraction same =
    let b = token_time_bounds now low high in
    after_exact r (unix (token_time now)) h (omega arith, omega arith)
    ∙ rw (token_time_cases now (omega arith) high, same)
        (ground (arith, +ℤ_parts now.seconds (pos 1)))

named_user-name :
    (n : Bytes) (at : Instant) (users : List User)
    → is_empty n ≡ false
    → named_user (name_claims n at) users ≡ get_user_by_username n users
unfolding named_user
named_user-name n at users e = rw e refl

module _ (sha256 : Bytes → Bytes) (hmac : Bytes → Bytes → Bytes) {F : Type 0}
    (jwt : Bytes → Bytes → Option (JwtClaims F)) (float_instant : F → Instant)
    (username secret : Bytes) (now : Instant) (users : List User) (u : User)
    (digest : IsDigest sha256) (named : valid_username username ≡ true)
    (stored : get_user_by_username username users ≡ some u) (low : pos 1000 ≤ℤ now.seconds)
    (high : now.seconds ≤ℤ pos (2 ^ 61)) where
  load_issued :
      load_subscription_user sha256 hmac jwt float_instant
        (create_token sha256 username secret now)
        secret
        (some users)
      ≡ unless_outdated (unix (token_time now)) (some u)
  unfolding load_subscription_user
  load_issued =
      let v = valid_username-parts username named in
      let b = token_time_bounds now low high in
      ap (λ c. user_of_claims c (some users))
        (parse_token-create_token sha256 hmac jwt float_instant username secret now digest
          (valid_ascii username (all_allowed-ascii username v.1)) (all_allowed-NoComma username v.1)
          b.0 (omega arith))
      ∙ ap (unless_outdated (unix (token_time now)))
          (named_user-name username (unix (token_time now)) users v.0 ∙ stored)

  -- The link that is made for a stored user, whose name the panel admits, finds that user, if neither
  -- the user's creation nor the revocation is after the instant at which it is made, also within the
  -- same second.
  pub load_subscription_user-create_token :
      InRangeOf u.created_at
      → InRangeOf u.sub_revoked_at
      → is_after u.created_at now ≡ false
      → is_after u.sub_revoked_at now ≡ false
      → load_subscription_user sha256 hmac jwt float_instant
          (create_token sha256 username secret now)
          secret
          (some users)
        ≡ some u
  load_subscription_user-create_token h k created revoked =
      load_issued
      ∙ if_false (is_after u.created_at (unix (token_time now))) _ _
          (is_after-token_time u.created_at now h low high created)
      ∙ if_false (is_after u.sub_revoked_at (unix (token_time now))) _ _
          (is_after-token_time u.sub_revoked_at now k low high revoked)

  -- A link is refused once it is revoked more than one second after the second in which it was made.
  pub load_subscription_user_revoked :
      (r : Instant)
      → u.sub_revoked_at ≡ some r
      → InRange r
      → now.seconds +ℤ pos 1 <ℤ r.seconds
      → load_subscription_user sha256 hmac jwt float_instant
          (create_token sha256 username secret now)
          secret
          (some users)
        ≡ none
  load_subscription_user_revoked r e h late =
      let after_it =
        ap (λ o. is_after o (unix (token_time now))) e ∙ late_revocation r now h low high late in
      load_issued ∙ ground (arith, after_it)

  -- A link that was made after the start of a second and is revoked later in the same second still
  -- finds its user.
  pub load_subscription_user_same_second :
      (r : Instant)
      → InRangeOf u.created_at
      → is_after u.created_at now ≡ false
      → u.sub_revoked_at ≡ some r
      → InRange r
      → r.seconds ≡ now.seconds
      → 0 < now.nanos
      → now.nanos < r.nanos
      → load_subscription_user sha256 hmac jwt float_instant
          (create_token sha256 username secret now)
          secret
          (some users)
        ≡ some u
  load_subscription_user_same_second r h created e k same fraction later =
      load_issued
      ∙ if_false (is_after u.created_at (unix (token_time now))) _ _
          (is_after-token_time u.created_at now h low high created)
      ∙ if_false (is_after u.sub_revoked_at (unix (token_time now))) _ _ (
          ap (λ o. is_after o (unix (token_time now))) e
          ∙ early_revocation r now k low high fraction same)
