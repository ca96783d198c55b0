-- ===== src/Mysqldump/Literal.antt =====
-- What the scanner uses of strconv: ParseInt to base 10 and 64 bits.
use rapido_go.Prelude.{
  ℕ, ◌+◌, ◌*◌, ◌-◌, ◌^◌, ℤ, pos, ◌-ℤ◌, Bool, ◌&&◌, ◌==◌, nat_eq, Option, none, some, [], ◌∷◌, ltb,
  leb, if◌then◌else◌,
}
use rapido_go.Prelude.Bytes.{Bytes, is_same}

abbrev pub is_null : Bytes → Bool
is_null tok = is_same tok (b'N' ∷ b'U' ∷ b'L' ∷ b'L' ∷ [])

abbrev pub is_digit : ℕ → Bool
is_digit c = leb b'0' c && leb c b'9'

-- The number that digits stand for, behind the digits read so far.
abbrev pub parse_digits : ℕ → Bytes → Option ℕ
parse_digits n [] = some n
parse_digits n (c ∷ s) =
    let rest = parse_digits (10 * n + (c - b'0')) s in if is_digit c then rest else none

abbrev pub positive : Option ℕ → Option ℤ
positive none = none
positive (some n) = if ltb n (2 ^ 63) then some (pos n) else none

abbrev pub negative : Option ℕ → Option ℤ
negative none = none
negative (some n) = if leb n (2 ^ 63) then some (pos 0 -ℤ pos n) else none

-- A sign needs digits behind it.
abbrev pub digits_of : Bytes → Option ℕ
digits_of [] = none
digits_of (c ∷ s) = parse_digits 0 (c ∷ s)

-- strconv.ParseInt
abbrev pub parse_int : Bytes → Option ℤ
parse_int [] = none
parse_int (c ∷ s) =
    if c == b'+'
    then positive (digits_of s)
    else if c == b'-'
    then negative (digits_of s)
    else positive (digits_of (c ∷ s))
