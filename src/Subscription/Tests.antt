-- ===== src/Subscription/Tests.antt =====
-- Concrete runs of the subscription tokens.
use rapido_go.Prelude.{
  ℕ, ◌+◌, ◌≤◌, ◌≡◌, refl, true, false, Option, none, some, [], ◌∷◌, arith, length, nat_eq, ◌+ℤ◌,
  pos, int64, replicate,
}
use rapido_go.Prelude.Bytes.{Bytes, bytes}
use rapido_go.Subscription.Base64.{encode, encode_padded, hex, decode, symbol, bits_of}
use rapido_go.Subscription.Decimal.{format_int}
use rapido_go.Subscription.Utf8.{valid}
use rapido_go.Subscription.Token.{
  Instant, JwtClaims, parse_token, create_token, id_claims, unix, decode_token,
}
use rapido_go.Subscription.Lookup.{
  User, after, load_subscription_user, valid_username, get_user_by_username,
}
use rapido_go.Subscription.RoundTrip.{dotted_token, id_data, parse_token_id}
use rapido_go.Subscription.Signed.{Accepted, parse_token-Accepted}
use rapido_go.Subscription.Valid.{
  load_subscription_user-create_token, load_subscription_user_revoked,
  load_subscription_user_same_second,
}

-- The length of a text in every byte stands for its digest.
abbrev mixed : Bytes → Bytes
mixed s = replicate 32 (length s)

abbrev keyed : Bytes → Bytes → Bytes
keyed key s = replicate 32 (length key + length s)

abbrev no_jwt : Bytes → Bytes → Option (JwtClaims ℕ)
no_jwt token key = none

abbrev at_second : ℕ → Instant
at_second n = unix (pos n)

abbrev secret : Bytes
secret = 1 ∷ 2 ∷ 254 ∷ []

abbrev made : Instant
made = record { seconds = pos 1700000000; nanos = 500000000 }

abbrev alice : User
alice = record {
  id = pos 7;
  username = bytes "alice";
  created_at = some record { seconds = pos 1700000000; nanos = 250000000 };
  sub_revoked_at = none;
}

abbrev revoked_later : Instant
revoked_later = record { seconds = pos 1700000002; nanos = 0 }

abbrev revoked_soon : Instant
revoked_soon = record { seconds = pos 1700000000; nanos = 900000000 }

padded_text : encode_padded (bytes "a,1") ≡ bytes "YSwx"
unfolding encode_padded encode symbol
padded_text = refl

hex_text : hex (1 ∷ 254 ∷ []) ≡ bytes "01fe"
unfolding hex
hex_text = refl

standard_alphabet : decode_token (bytes "Pz8/Pz8+") ≡ some (bytes "?????>")
unfolding decode_token decode bits_of valid
standard_alphabet = refl

no_utf8 : valid (0xC3 ∷ 0x28 ∷ []) ≡ false
unfolding valid
no_utf8 = refl

too_short : parse_token mixed keyed no_jwt at_second (bytes "YSwxMjM0") secret ≡ none
unfolding parse_token
too_short = refl

forged :
    parse_token mixed keyed no_jwt at_second (bytes "YWxpY2UsMTcwMDAwMDAwMQAAAAAAAAAA") secret
    ≡ none
unfolding parse_token encode_padded encode symbol hex
forged = refl

parse_token_id_example :
    parse_token mixed keyed no_jwt at_second
      (dotted_token keyed (id_data (pos 7) (pos 1700000000)) secret)
      secret
    ≡ some (id_claims (pos 7) (pos 1700000000))
parse_token_id_example =
    parse_token_id mixed keyed no_jwt at_second (pos 7) (pos 1700000000) secret (λ key s. refl)
      (omega arith) (omega arith) (omega arith) (omega arith)

accepted_id :
    parse_token mixed keyed no_jwt at_second
      (dotted_token keyed (id_data (pos 7) (pos 5)) secret)
      secret
    ≡ some (id_claims (pos 7) (pos 5))
unfolding parse_token encode hex format_int symbol decode bits_of valid
accepted_id = refl

parse_token-Accepted_example :
    (15 ≤ length (dotted_token keyed (id_data (pos 7) (pos 5)) secret))
    × Accepted mixed keyed no_jwt at_second
        (dotted_token keyed (id_data (pos 7) (pos 5)) secret)
        secret
        (id_claims (pos 7) (pos 5))
parse_token-Accepted_example =
    parse_token-Accepted mixed keyed no_jwt at_second
      (dotted_token keyed (id_data (pos 7) (pos 5)) secret) secret (id_claims (pos 7) (pos 5))
      accepted_id

alice_valid : valid_username (bytes "alice") ≡ true
unfolding valid_username
alice_valid = refl

alice_stored :
    (u : User) → u.username ≡ bytes "alice" → get_user_by_username (bytes "alice") (u ∷ []) ≡ some u
unfolding get_user_by_username
alice_stored u e = rw e refl

after-made : after record { seconds = pos 1700000000; nanos = 250000000 } made ≡ false
unfolding after int64 ◌+ℤ◌
after-made = refl

load_subscription_user-create_token_example :
    load_subscription_user mixed keyed no_jwt at_second
      (create_token mixed (bytes "alice") secret made)
      secret
      (some (alice ∷ []))
    ≡ some alice
load_subscription_user-create_token_example =
    load_subscription_user-create_token mixed keyed no_jwt at_second (bytes "alice") secret made
      (alice ∷ []) alice (λ s. refl) alice_valid (alice_stored alice refl) (omega arith)
      (omega arith) (omega arith) tt after-made refl

load_subscription_user_revoked_example :
    load_subscription_user mixed keyed no_jwt at_second
      (create_token mixed (bytes "alice") secret made)
      secret
      (some (record alice { sub_revoked_at = some revoked_later } ∷ []))
    ≡ none
unfolding ◌+ℤ◌
load_subscription_user_revoked_example =
    load_subscription_user_revoked mixed keyed no_jwt at_second (bytes "alice") secret made
      (record alice { sub_revoked_at = some revoked_later } ∷ [])
      (record alice { sub_revoked_at = some revoked_later }) (λ s. refl) alice_valid
      (alice_stored _ refl) (omega arith) (omega arith) revoked_later refl (omega arith)
      (omega arith)

load_subscription_user_same_second_example :
    load_subscription_user mixed keyed no_jwt at_second
      (create_token mixed (bytes "alice") secret made)
      secret
      (some (record alice { sub_revoked_at = some revoked_soon } ∷ []))
    ≡ some (record alice { sub_revoked_at = some revoked_soon })
load_subscription_user_same_second_example =
    load_subscription_user_same_second mixed keyed no_jwt at_second (bytes "alice") secret made
      (record alice { sub_revoked_at = some revoked_soon } ∷ [])
      (record alice { sub_revoked_at = some revoked_soon }) (λ s. refl) alice_valid
      (alice_stored _ refl) (omega arith) (omega arith) revoked_soon (omega arith) after-made refl
      (omega arith) refl (omega arith) (omega arith)
