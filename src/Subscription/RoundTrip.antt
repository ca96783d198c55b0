-- ===== src/Subscription/RoundTrip.antt =====
-- The tokens that internal/subscription/token.go makes, and those of other panels, are accepted by
-- its parser.
use rapido_go.Prelude.{
  ◌-◌, ◌≤◌, ◌≡◌, refl, ap, ap₂, ◌∙◌, true, false, nat_eq, Option, none, some, [], ◌∷◌, ◌++◌, length,
  take, drop, ltb, arith, All, All-append, length-append, ℤ, pos, ◌≤ℤ◌, min_int64, max_int64,
  length-take, if_false,
}
use rapido_go.Prelude.Bytes.{Bytes, bytes, is_same_self, has_prefix}
use rapido_go.Mysqldump.Literal.{parse_int}
use rapido_go.Subscription.Base64.{
  encode, encode_padded, hex, IsSymbol, encode-IsSymbol, length-encode, symbol,
}
use rapido_go.Subscription.Decimal.{format_int, parse_int-format_int}
use rapido_go.Subscription.Utf8.{valid, valid-append, valid_ascii}
use rapido_go.Subscription.Pieces.{
  decode_token-encode, has_dot, IsSymbol-no_dot, cut_last_dot-none, cut_last_dot-append,
  has_prefix-has_dot, All-take-append, take-append, drop-append, NoComma, split_last, split-append,
  format_int-NoComma, format_int-valid, length-format_int,
}
use rapido_go.Subscription.Token.{
  Instant, JwtClaims, jwt_prefix, dot, comma, sign, parse_token_payload, parts_of, parse_dotted,
  parse_short, parse_signed, parse_token, cut_last_dot, split, parse_parts, create_token,
  token_data, token_time, unix, name_claims, id_claims, name_payload, id_payload,
}

-- The token that PasarGuard makes of a payload.
abbrev pub dotted_token : (Bytes → Bytes → Bytes) → Bytes → Bytes → Bytes
dotted_token hmac raw secret = let s = encode raw in s ++ (dot ∷ encode (hmac (hex secret) s))

-- The payload of a token that names a user by number.
abbrev pub id_data : ℤ → ℤ → Bytes
id_data id ts = bytes "v3," ++ (format_int id ++ (comma ∷ format_int ts))

abbrev pub IsDigest : (Bytes → Bytes) → Type 0
IsDigest sha256 = (s : Bytes) → length (sha256 s) ≡ 32

abbrev pub IsMac : (Bytes → Bytes → Bytes) → Type 0
IsMac hmac = (key s : Bytes) → length (hmac key s) ≡ 32

parts_of_name : (name ts : Bytes) → parse_parts (name ∷ ts ∷ []) ≡ name_payload name (parse_int ts)
unfolding parse_parts
parts_of_name name ts = refl

parts_of_id :
    (id ts : Bytes)
    → parse_parts (bytes "v3" ∷ id ∷ ts ∷ []) ≡ id_payload (parse_int id) (parse_int ts)
unfolding parse_parts
parts_of_id id ts = refl

valid_v3 : (s : Bytes) → valid s ≡ true → valid (bytes "v3," ++ s) ≡ true
valid_v3 s h = valid-append (bytes "v3,") s (valid_ascii (bytes "v3,") (omega arith)) h

valid-comma : (s : Bytes) → valid s ≡ true → valid (comma ∷ s) ≡ true
valid-comma s h = valid-append (comma ∷ []) s (valid_ascii (comma ∷ []) (omega arith)) h

v3_plain : NoComma (bytes "v3")
v3_plain = (λ e. omega arith, (λ e. omega arith, tt))

v3_not_jwt : (s t : Bytes) → has_prefix jwt_prefix (encode (bytes "v3," ++ s) ++ t) ≡ false
unfolding encode symbol
v3_not_jwt s t = refl

pub parse_token_payload-encode :
    (raw : Bytes) → valid raw ≡ true → parse_token_payload (encode raw) ≡ parse_parts (split raw)
unfolding parse_token_payload
parse_token_payload-encode raw h = ap parts_of (decode_token-encode raw h)

module _ (sha256 : Bytes → Bytes) (digest : IsDigest sha256) where
  digest_long : (s : Bytes) → 10 ≤ length (encode (sha256 s))
  digest_long s = omega (arith, length-encode (sha256 s), digest s)

  sign-IsSymbol : (s secret : Bytes) → All IsSymbol (sign sha256 s secret)
  unfolding sign encode_padded
  sign-IsSymbol s secret =
      let t = s ++ hex secret in
      All-take-append IsSymbol 10 (encode (sha256 t)) _ (digest_long t) (encode-IsSymbol (sha256 t))

  length-sign : (s secret : Bytes) → length (sign sha256 s secret) ≡ 10
  unfolding sign encode_padded
  length-sign s secret =
      let e : Bytes = encode (sha256 (s ++ hex secret)) in
      omega (
        arith,
        length-take 10 (encode_padded (sha256 (s ++ hex secret))),
        length-append e,
        digest_long (s ++ hex secret),
      )

module _ (sha256 : Bytes → Bytes) (hmac : Bytes → Bytes → Bytes) {F : Type 0}
    (jwt : Bytes → Bytes → Option (JwtClaims F)) (float_instant : F → Instant) where
  parse_short_self :
      (s secret : Bytes)
      → parse_short sha256 hmac jwt float_instant secret s (sign sha256 s secret)
        ≡ parse_token_payload s
  unfolding parse_short
  parse_short_self s secret = rw (is_same_self (sign sha256 s secret)) refl

  parse_token-signed :
      (t secret : Bytes) (cut : Option (Bytes × Bytes))
      → 15 ≤ length t
      → has_prefix jwt_prefix t ≡ false
      → cut_last_dot t ≡ cut
      → parse_token sha256 hmac jwt float_instant t secret
        ≡ parse_signed sha256 hmac jwt float_instant t secret cut
  unfolding parse_token
  parse_token-signed t secret cut long other e =
      if_false (ltb (length t) 15) _ _ (ground (arith, long))
      ∙ if_false (has_prefix jwt_prefix t) _ _ other
      ∙ ap (parse_signed sha256 hmac jwt float_instant t secret) e

  jwt_prefix_dot : has_dot jwt_prefix ≡ true
  jwt_prefix_dot = refl

  parse_signed-append :
      (s signature secret : Bytes)
      → length signature ≡ 10
      → parse_signed sha256 hmac jwt float_instant (s ++ signature) secret none
        ≡ parse_short sha256 hmac jwt float_instant secret s signature
  parse_signed-append s signature secret ten =
      let n : length (s ++ signature) - 10 ≡ length s =
        omega (arith, length-append s signature, ten) in
      ap
        (λ m.
          parse_short sha256 hmac jwt float_instant secret (take m (s ++ signature))
            (drop m (s ++ signature)))
        n
      ∙ ap₂ (parse_short sha256 hmac jwt float_instant secret) (take-append s signature)
          (drop-append s signature)

  pub parse_token_short :
      (s secret : Bytes)
      → IsDigest sha256
      → 5 ≤ length s
      → All IsSymbol s
      → parse_token sha256 hmac jwt float_instant (s ++ sign sha256 s secret) secret
        ≡ parse_token_payload s
  parse_token_short s secret digest long symbols =
      let signature : Bytes = sign sha256 s secret in
      let ten : length signature ≡ 10 = length-sign sha256 digest s secret in
      let dots : has_dot (s ++ signature) ≡ false =
        IsSymbol-no_dot _
          (All-append IsSymbol s signature symbols (sign-IsSymbol sha256 digest s secret)) in
      parse_token-signed (s ++ signature) secret none
        (omega (arith, length-append s signature, ten, long))
        (has_prefix-has_dot jwt_prefix (s ++ signature) jwt_prefix_dot dots)
        (cut_last_dot-none (s ++ signature) dots)
      ∙ parse_signed-append s signature secret ten
      ∙ parse_short_self s secret

  parse_dotted_self :
      (s secret : Bytes)
      → parse_dotted sha256 hmac jwt float_instant secret s (encode (hmac (hex secret) s))
        ≡ parse_token_payload s
  unfolding parse_dotted
  parse_dotted_self s secret = rw (is_same_self (encode (hmac (hex secret) s))) refl

  pub parse_token_dotted :
      (s secret : Bytes)
      → IsMac hmac
      → has_prefix jwt_prefix (s ++ (dot ∷ encode (hmac (hex secret) s))) ≡ false
      → parse_token sha256 hmac jwt float_instant (s ++ (dot ∷ encode (hmac (hex secret) s))) secret
        ≡ parse_token_payload s
  parse_token_dotted s secret digest other =
      let mac : Bytes = encode (hmac (hex secret) s) in
      parse_token-signed (s ++ (dot ∷ mac)) secret (some (s, mac))
        (omega (
          arith,
          length-append s (dot ∷ mac),
          length-encode (hmac (hex secret) s),
          digest (hex secret) s,
        ))
        other
        (cut_last_dot-append s mac (IsSymbol-no_dot mac (encode-IsSymbol (hmac (hex secret) s))))
      ∙ parse_dotted_self s secret

  -- A token made for a name of valid UTF-8 with no comma is accepted with that name and the second that
  -- it carries, from the second 1000 on.
  pub parse_token-create_token :
      (username secret : Bytes) (now : Instant)
      → IsDigest sha256
      → valid username ≡ true
      → NoComma username
      → pos 1000 ≤ℤ token_time now
      → token_time now ≤ℤ max_int64
      → parse_token sha256 hmac jwt float_instant (create_token sha256 username secret now) secret
        ≡ some (name_claims username (unix (token_time now)))
  unfolding create_token token_data
  parse_token-create_token username secret now digest utf8 plain low high =
      let ts : ℤ = token_time now in
      let tail : Bytes = comma ∷ format_int ts in
      let raw : Bytes = username ++ tail in
      parse_token_short (encode raw) secret digest
        (omega (arith, length-encode raw, length-append username tail, length-format_int ts low))
        (encode-IsSymbol raw)
      ∙ parse_token_payload-encode raw
          (valid-append username tail utf8 (valid-comma _ (format_int-valid ts)))
      ∙ ap parse_parts (
          split-append username (format_int ts) plain
          ∙ ap (λ r. username ∷ r) (split_last (format_int ts) (format_int-NoComma ts)))
      ∙ parts_of_name username (format_int ts)
      ∙ ap (name_payload username) (parse_int-format_int ts (omega arith) high)

  -- A token that names a user by number, as PasarGuard makes them, is accepted with that number and its
  -- time, for any int64 of both, if the HMAC has 32 bytes.
  pub parse_token_id :
      (id ts : ℤ) (secret : Bytes)
      → IsMac hmac
      → min_int64 ≤ℤ id
      → id ≤ℤ max_int64
      → min_int64 ≤ℤ ts
      → ts ≤ℤ max_int64
      → parse_token sha256 hmac jwt float_instant (dotted_token hmac (id_data id ts) secret) secret
        ≡ some (id_claims id ts)
  parse_token_id id ts secret digest id_low id_high low high =
      let tail : Bytes = comma ∷ format_int ts in
      let rest : Bytes = format_int id ++ tail in
      parse_token_dotted (encode (id_data id ts)) secret digest (v3_not_jwt rest _)
      ∙ parse_token_payload-encode (id_data id ts) (
          valid_v3 rest (
            valid-append (format_int id) tail (format_int-valid id)
              (valid-comma _ (format_int-valid ts))))
      ∙ ap parse_parts (
          split-append (bytes "v3") rest v3_plain
          ∙ ap (λ r. bytes "v3" ∷ r)
              (split-append (format_int id) (format_int ts) (format_int-NoComma id)
                ∙ ap (λ r. format_int id ∷ r) (split_last (format_int ts) (format_int-NoComma ts))))
      ∙ parts_of_id (format_int id) (format_int ts)
      ∙ ap₂ id_payload (parse_int-format_int id id_low id_high) (parse_int-format_int ts low high)
