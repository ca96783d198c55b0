-- ===== src/Subscription/Token.antt =====
-- internal/subscription/token.go. A text is the list of its bytes. SHA-256, HMAC-SHA-256, the JWT
-- library and the float of a JWT's iat are parameters.
use rapido_go.Prelude.{
  ℕ, ◌-◌, Bool, true, false, not, ◌&&◌, ◌||◌, ◌==◌, nat_eq, Option, none, some, List, [], ◌∷◌, ◌++◌,
  length, take, drop, ltb, if◌then◌else◌, ℤ, pos, ◌+ℤ◌, int64,
}
use rapido_go.Prelude.Bytes.{Bytes, bytes, is_same, has_prefix}
use rapido_go.Mysqldump.Literal.{parse_int}
use rapido_go.Subscription.Base64.{encode, encode_padded, decode, hex}
use rapido_go.Subscription.Decimal.{format_int}
use rapido_go.Subscription.Utf8.{valid}

abbrev pub comma : ℕ
comma = b','

abbrev pub dot : ℕ
dot = b'.'

-- A time.Time: the seconds since 1970 and the nanoseconds after them.
pub record Instant : Type 0 where
  pub seconds : ℤ
  pub nanos : ℕ

-- time.Unix(s, 0)
abbrev pub unix : ℤ → Instant
unix s = record { seconds = s; nanos = 0 }

pub record TokenClaims : Type 0 where
  pub by_id : Bool
  pub user_id : ℤ
  pub username : Bytes
  pub created_at : Instant

abbrev pub id_claims : ℤ → ℤ → TokenClaims
id_claims id ts = record { by_id = true; user_id = id; username = []; created_at = unix ts }

abbrev pub name_claims : Bytes → Instant → TokenClaims
name_claims name at = record { by_id = false; user_id = pos 0; username = name; created_at = at }

-- What a JWT claims; none where the claim is missing or of another type.
pub record JwtClaims (F : Type 0) : Type 0 where
  pub access : Option Bytes
  pub sub : Option Bytes
  pub iat : Option F

abbrev pub jwt_prefix : Bytes
jwt_prefix = bytes "eyJhbGciOiJIUzI1NiIsInR5cCI6IkpXVCJ9."

-- The whole second that a token made now carries.
unfoldable pub token_time : Instant → ℤ
token_time now = if ltb 0 now.nanos then int64 (now.seconds +ℤ pos 1) else now.seconds

-- The text that a token signs.
unfoldable pub token_data : Bytes → ℤ → Bytes
token_data username ts = username ++ (comma ∷ format_int ts)

abbrev pub first_with : ℕ → List Bytes → List Bytes
first_with c [] = (c ∷ []) ∷ []
first_with c (p ∷ ps) = (c ∷ p) ∷ ps

-- strings.Split(s, ",")
unfoldable pub split : Bytes → List Bytes
split [] = [] ∷ []
split (c ∷ s) = let rest = split s in if c == comma then [] ∷ rest else first_with c rest

abbrev pub id_payload : Option ℤ → Option ℤ → Option TokenClaims
id_payload (some id) (some ts) = some (id_claims id ts)
id_payload (some id) none = none
id_payload none ts = none

abbrev pub name_payload : Bytes → Option ℤ → Option TokenClaims
name_payload name none = none
name_payload name (some ts) = some (name_claims name (unix ts))

abbrev pub is_version : Bytes → Bool
is_version p = is_same p (bytes "v2") || is_same p (bytes "v3")

-- The cases of `parseTokenPayload` on the parts of a payload.
unfoldable pub parse_parts : List Bytes → Option TokenClaims
parse_parts [] = none
parse_parts (a ∷ []) = none
parse_parts (a ∷ b ∷ []) = name_payload a (parse_int b)
parse_parts (a ∷ b ∷ c ∷ []) = if is_version a then id_payload (parse_int b) (parse_int c) else none
parse_parts (a ∷ b ∷ c ∷ d ∷ rest) = none

-- strings.TrimRight(s, "=")
abbrev pub cons_unpadded : ℕ → Bytes → Bytes
cons_unpadded c [] = if c == b'=' then [] else c ∷ []
cons_unpadded c (d ∷ s) = c ∷ d ∷ s

unfoldable pub unpadded : Bytes → Bytes
unpadded [] = []
unpadded (c ∷ s) = cons_unpadded c (unpadded s)

-- strings.NewReplacer("+", "-", "/", "_").Replace
unfoldable pub to_url : Bytes → Bytes
to_url [] = []
to_url (c ∷ s) = (if c == b'+' then b'-' else if c == b'/' then b'_' else c) ∷ to_url s

abbrev pub if_valid : Option Bytes → Option Bytes
if_valid none = none
if_valid (some s) = if valid s then some s else none

-- `decodeTokenB64`
unfoldable pub decode_token : Bytes → Option Bytes
unfolding to_url unpadded
decode_token s = if_valid (decode (to_url (unpadded s)))

abbrev pub parts_of : Option Bytes → Option TokenClaims
parts_of none = none
parts_of (some raw) = parse_parts (split raw)

-- `parseTokenPayload`
unfoldable pub parse_token_payload : Bytes → Option TokenClaims
unfolding decode_token parse_parts split
parse_token_payload s = parts_of (decode_token s)

abbrev pub longer_cut : ℕ → Bytes → Option (Bytes × Bytes) → Option (Bytes × Bytes)
longer_cut c s none = if c == dot then some ([], s) else none
longer_cut c s (some (before, after)) = some (c ∷ before, after)

-- What stands before and after the last dot, none where a text has no dot.
unfoldable pub cut_last_dot : Bytes → Option (Bytes × Bytes)
cut_last_dot [] = none
cut_last_dot (c ∷ s) = longer_cut c s (cut_last_dot s)

module _ (sha256 : Bytes → Bytes) where
  -- `sign`
  unfoldable pub sign : Bytes → Bytes → Bytes
  sign s secret = take 10 (encode_padded (sha256 (s ++ hex secret)))

  -- `signHex`
  unfoldable pub sign_hex : Bytes → Bytes → Bytes
  sign_hex s secret = take 10 (hex (sha256 (s ++ hex secret)))

  -- `CreateToken`, at the instant `now`
  unfoldable pub create_token : Bytes → Bytes → Instant → Bytes
  unfolding token_data token_time sign
  create_token username secret now =
      let s = encode (token_data username (token_time now)) in s ++ sign s secret

module _ (sha256 : Bytes → Bytes) (hmac : Bytes → Bytes → Bytes) {F : Type 0}
    (jwt : Bytes → Bytes → Option (JwtClaims F)) (float_instant : F → Instant) where
  abbrev pub iat_claims : Bytes → Option F → Option TokenClaims
  iat_claims name none = none
  iat_claims name (some at) = some (name_claims name (float_instant at))

  abbrev pub sub_claims : Option Bytes → Option F → Option TokenClaims
  sub_claims none iat = none
  sub_claims (some []) iat = none
  sub_claims (some (c ∷ name)) iat = iat_claims (c ∷ name) iat

  abbrev pub access_claims : Option Bytes → JwtClaims F → Option TokenClaims
  access_claims none claims = none
  access_claims (some access) claims =
      if is_same access (bytes "subscription") then sub_claims claims.sub claims.iat else none

  abbrev pub claims_of : Option (JwtClaims F) → Option TokenClaims
  claims_of none = none
  claims_of (some claims) = access_claims claims.access claims

  -- `parseJWTToken`
  unfoldable pub parse_jwt_token : Bytes → Bytes → Option TokenClaims
  parse_jwt_token token key = claims_of (jwt token key)

  -- The branch of a signature behind a dot.
  unfoldable pub parse_dotted : Bytes → Bytes → Bytes → Option TokenClaims
  unfolding parse_token_payload
  parse_dotted secret s signature =
      if is_same signature (encode (hmac (hex secret) s)) then parse_token_payload s else none

  -- The branch of a signature of ten characters.
  unfoldable pub parse_short : Bytes → Bytes → Bytes → Option TokenClaims
  unfolding parse_token_payload sign sign_hex
  parse_short secret s signature =
      if not (is_same signature (sign sha256 s secret))
        && not (is_same signature (sign_hex sha256 s secret))
      then none
      else parse_token_payload s

  abbrev pub parse_signed : Bytes → Bytes → Option (Bytes × Bytes) → Option TokenClaims
  parse_signed token secret none =
      let n = length token - 10 in parse_short secret (take n token) (drop n token)
  parse_signed token secret (some (s, signature)) = parse_dotted secret s signature

  -- `ParseToken`
  unfoldable pub parse_token : Bytes → Bytes → Option TokenClaims
  unfolding parse_jwt_token parse_dotted parse_short cut_last_dot
  parse_token token secret =
      if ltb (length token) 15
      then none
      else if has_prefix jwt_prefix token
      then parse_jwt_token token (hex secret)
      else parse_signed token secret (cut_last_dot token)
