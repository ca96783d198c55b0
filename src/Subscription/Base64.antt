-- ===== src/Subscription/Base64.antt =====
-- What internal/subscription/token.go uses of encoding/base64 and encoding/hex: the URL alphabet,
-- with and without padding, and lowercase hexadecimals.
use rapido_go.Prelude.{
  ℕ, ◌+◌, ◌-◌, ◌*◌, ◌/◌, ◌%◌, ◌<◌, ◌≤◌, ◌≡◌, refl, ◌&&◌, ◌==◌, nat_eq, Option, none, some, [], ◌∷◌,
  ◌++◌, All, length, replicate, ltb, leb, if◌then◌else◌, arith,
}
use rapido_go.Prelude.Bytes.{Bytes}

abbrev pub IsByte : ℕ → Type 0
IsByte c = c < 256

-- The character of six bits.
unfoldable pub symbol : ℕ → ℕ
symbol i =
    if ltb i 26
    then b'A' + i
    else if ltb i 52
    then b'a' + (i - 26)
    else if ltb i 62
    then b'0' + (i - 52)
    else if i == 62
    then b'-'
    else b'_'

-- The six bits of a character.
unfoldable pub bits_of : ℕ → Option ℕ
bits_of c =
    if leb b'A' c && leb c b'Z'
    then some (c - b'A')
    else if leb b'a' c && leb c b'z'
    then some (c - b'a' + 26)
    else if leb b'0' c && leb c b'9'
    then some (c - b'0' + 52)
    else if c == b'-'
    then some 62
    else if c == b'_'
    then some 63
    else none

-- base64.RawURLEncoding.EncodeToString
unfoldable pub encode : Bytes → Bytes
encode [] = []
encode (a ∷ []) = symbol (a / 4) ∷ symbol (a % 4 * 16) ∷ []
encode (a ∷ b ∷ []) = symbol (a / 4) ∷ symbol (a % 4 * 16 + b / 16) ∷ symbol (b % 16 * 4) ∷ []
encode (a ∷ b ∷ c ∷ s) =
    symbol (a / 4)
    ∷ symbol (a % 4 * 16 + b / 16)
    ∷ symbol (b % 16 * 4 + c / 64)
    ∷ symbol (c % 64)
    ∷ encode s

-- base64.URLEncoding.EncodeToString
unfoldable pub encode_padded : Bytes → Bytes
encode_padded s = let e = encode s in e ++ replicate ((4 - length e % 4) % 4) b'='

abbrev pub after_symbols : Bytes → Option Bytes → Option Bytes
after_symbols s none = none
after_symbols s (some t) = some (s ++ t)

abbrev pub bytes_of_two : Option ℕ → Option ℕ → Option Bytes
bytes_of_two (some i) (some j) = some ((i * 4 + j / 16) ∷ [])
bytes_of_two (some i) none = none
bytes_of_two none j = none

abbrev pub bytes_of_three : Option ℕ → Option ℕ → Option ℕ → Option Bytes
bytes_of_three (some i) (some j) (some k) = some ((i * 4 + j / 16) ∷ (j % 16 * 16 + k / 4) ∷ [])
bytes_of_three (some i) (some j) none = none
bytes_of_three (some i) none k = none
bytes_of_three none j k = none

abbrev pub bytes_of_four : Option ℕ → Option ℕ → Option ℕ → Option ℕ → Option Bytes → Option Bytes
bytes_of_four (some i) (some j) (some k) (some l) rest =
    after_symbols ((i * 4 + j / 16) ∷ (j % 16 * 16 + k / 4) ∷ (k % 4 * 64 + l) ∷ []) rest
bytes_of_four (some i) (some j) (some k) none rest = none
bytes_of_four (some i) (some j) none l rest = none
bytes_of_four (some i) none k l rest = none
bytes_of_four none j k l rest = none

-- The decoder passes over line breaks.
unfoldable pub without_breaks : Bytes → Bytes
without_breaks [] = []
without_breaks (c ∷ s) =
    let rest = without_breaks s in
    if c == b'\n' then rest else if c == b'\r' then rest else c ∷ rest

unfoldable pub decode_groups : Bytes → Option Bytes
decode_groups [] = some []
decode_groups (a ∷ []) = none
decode_groups (a ∷ b ∷ []) = bytes_of_two (bits_of a) (bits_of b)
decode_groups (a ∷ b ∷ c ∷ []) = bytes_of_three (bits_of a) (bits_of b) (bits_of c)
decode_groups (a ∷ b ∷ c ∷ d ∷ s) =
    bytes_of_four (bits_of a) (bits_of b) (bits_of c) (bits_of d) (decode_groups s)

-- base64.RawURLEncoding.DecodeString, none where it returns an error
unfoldable pub decode : Bytes → Option Bytes
unfolding without_breaks decode_groups
decode s = decode_groups (without_breaks s)

abbrev hex_digit : ℕ → ℕ
hex_digit i = if ltb i 10 then b'0' + i else b'a' + (i - 10)

-- hex.EncodeToString
unfoldable pub hex : Bytes → Bytes
hex [] = []
hex (c ∷ s) = hex_digit (c / 16) ∷ hex_digit (c % 16) ∷ hex s

pub bits_of-symbol : (i : ℕ) → i < 64 → bits_of (symbol i) ≡ some i
unfolding symbol bits_of
bits_of-symbol i h = ground arith

-- A character of the alphabet.
abbrev pub IsSymbol : ℕ → Type 0
IsSymbol c = (b'-' ≤ c) × (c ≤ b'z') × (c ≡ b'.' → ⊥) × (c ≡ b'/' → ⊥) × (c ≡ b'=' → ⊥)

symbol-IsSymbol : (i : ℕ) → IsSymbol (symbol i)
unfolding symbol
symbol-IsSymbol i = ground arith

pub encode-IsSymbol : (s : Bytes) → All IsSymbol (encode s)
unfolding encode
encode-IsSymbol [] = tt
encode-IsSymbol (a ∷ []) = (symbol-IsSymbol _, (symbol-IsSymbol _, tt))
encode-IsSymbol (a ∷ b ∷ []) = (symbol-IsSymbol _, (symbol-IsSymbol _, (symbol-IsSymbol _, tt)))
encode-IsSymbol (a ∷ b ∷ c ∷ s) = (
  symbol-IsSymbol _,
  (symbol-IsSymbol _, (symbol-IsSymbol _, (symbol-IsSymbol _, encode-IsSymbol s))),
)

pub length-encode : (s : Bytes) → length s ≤ length (encode s)
unfolding encode
length-encode [] = omega arith
length-encode (a ∷ []) = omega arith
length-encode (a ∷ b ∷ []) = omega arith
length-encode (a ∷ b ∷ c ∷ s) = omega (arith, length-encode s)

pub without_breaks-IsSymbol : (s : Bytes) → All IsSymbol s → without_breaks s ≡ s
unfolding without_breaks
without_breaks-IsSymbol [] h = refl
without_breaks-IsSymbol (c ∷ s) h = ground (arith, without_breaks-IsSymbol s h.1)

decode_groups-encode : (s : Bytes) → All IsByte s → decode_groups (encode s) ≡ some s
unfolding decode_groups encode
decode_groups-encode [] h = refl
decode_groups-encode (a ∷ []) h =
    ground (arith, bits_of-symbol (a / 4), bits_of-symbol (a % 4 * 16))
decode_groups-encode (a ∷ b ∷ []) h = ground (
  arith,
  bits_of-symbol (a / 4),
  bits_of-symbol (a % 4 * 16 + b / 16),
  bits_of-symbol (b % 16 * 4),
)
decode_groups-encode (a ∷ b ∷ c ∷ s) h =
    rw
      (
        bits_of-symbol (a / 4) (omega arith),
        bits_of-symbol (a % 4 * 16 + b / 16) (omega arith),
        bits_of-symbol (b % 16 * 4 + c / 64) (omega arith),
        bits_of-symbol (c % 64) (omega arith),
        decode_groups-encode s h.1.1.1,
      )
      (ground arith)

pub decode-encode : (s : Bytes) → All IsByte s → decode (encode s) ≡ some s
unfolding decode
decode-encode s h = rw (without_breaks-IsSymbol _ (encode-IsSymbol s)) (decode_groups-encode s h)
