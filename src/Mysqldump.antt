-- ===== src/Mysqldump.antt =====
-- The values of internal/legacyimport/mysqldump.go: quoted strings, bare literals, tuples. A text is
-- the list of its bytes, and a position in it is what is left to read. Floats are those of
-- `parse_float`, strconv.ParseFloat.
pub mod Literal
pub mod Quoted
pub mod Fuel
pub mod Tuples
pub mod Dump
pub mod Whole
pub mod Tests
use rapido_go.Prelude.{
  ℕ, zero, suc, ◌*◌, ◌+◌, ◌-◌, ℤ, pos, Bool, true, false, not, ◌&&◌, ◌||◌, ◌==◌, nat_eq, Option,
  none, some, List, [], ◌∷◌, length, any, ltb, leb, if◌then◌else◌,
}
use rapido_go.Prelude.Bytes.{Bytes, trim_space}
use rapido_go.Mysqldump.Literal.{parse_int, is_null}

abbrev pub quote : ℕ
quote = b'\''

abbrev pub backslash : ℕ
backslash = b'\\'

abbrev pub comma : ℕ
comma = b','

abbrev pub open_paren : ℕ
open_paren = b'('

abbrev pub close_paren : ℕ
close_paren = b')'

abbrev pub semicolon : ℕ
semicolon = b';'

-- The byte that a backslash and this one stand for.
abbrev pub reveal : ℕ → ℕ
reveal c =
    if c == b'n'
    then b'\n'
    else if c == b'r'
    then b'\r'
    else if c == b't'
    then b'\t'
    else if c == b'0'
    then 0
    else if c == b'Z'
    then 26
    else c

abbrev pub with_byte : ℕ → Option (Bytes × Bytes) → Option (Bytes × Bytes)
with_byte c none = none
with_byte c (some (v, rest)) = some (c ∷ v, rest)

-- `parseQuotedString`, after its opening quote: the value and what follows the closing quote. It
-- fails where no quote closes the string.
unfoldable pub parse_quoted : Bytes → Option (Bytes × Bytes)
parse_quoted [] = none
parse_quoted (c ∷ []) = if c == quote then some ([], []) else none
parse_quoted (c ∷ d ∷ s) =
    let escaped = with_byte (reveal d) (parse_quoted s) in
    let doubled = with_byte quote (parse_quoted s) in
    let plain = with_byte c (parse_quoted (d ∷ s)) in
    if c == backslash
    then escaped
    else if c == quote
    then if d == quote then doubled else some ([], d ∷ s)
    else plain

pub data Value (F : Type 0) : Type 0 where
  null : Value F
  text : Bytes → Value F
  int : ℤ → Value F
  float : F → Value F

pub data ScanError : Type 0 where
  no_open : ScanError
  ended : ScanError
  unterminated : ScanError

-- A result, an error, or no result where the fuel is used up.
pub data Scan {ℓ} (A : Type ℓ) : Type ℓ where
  ok : A → Scan A
  failed : ScanError → Scan A
  stuck : Scan A

-- `skipSpace`
abbrev pub is_blank : ℕ → Bool
is_blank c = (c == b' ') || (c == b'\t') || (c == b'\r') || (c == b'\n')

abbrev pub skip_space : Bytes → Bytes
skip_space [] = []
skip_space (c ∷ s) = let rest = skip_space s in if is_blank c then rest else c ∷ s

-- What ends a bare literal.
abbrev pub ends_bare : ℕ → Bool
ends_bare c = (c == comma) || (c == close_paren)

-- A bare literal and what follows it.
abbrev pub take_bare : Bytes → Bytes × Bytes
take_bare [] = ([], [])
take_bare (c ∷ s) = let r = take_bare s in if ends_bare c then ([], c ∷ s) else (c ∷ r.0, r.1)

module _ {F : Type 0} (parse_float : Bytes → Option F) where
  abbrev pub float_or_text : Bytes → Option F → Value F
  float_or_text tok none = text tok
  float_or_text tok (some f) = float f

  abbrev pub int_or_float : Bytes → Option ℤ → Value F
  int_or_float tok none = float_or_text tok (parse_float tok)
  int_or_float tok (some i) = int i

  -- `parseBareLiteral`
  unfoldable pub parse_bare_literal : Bytes → Value F
  parse_bare_literal tok = if is_null tok then null else int_or_float tok (parse_int tok)

  abbrev pub Row : Type 0
  Row = List (Value F)

  abbrev pub with_value : Value F → Scan (Row × Bytes) → Scan (Row × Bytes)
  with_value v (ok (row, rest)) = ok (v ∷ row, rest)
  with_value v (failed e) = failed e
  with_value v stuck = stuck

  -- What follows a value; `loop` is the next round.
  abbrev pub next_value : (Bytes → Scan (Row × Bytes)) → Value F → Bytes → Scan (Row × Bytes)
  next_value loop v [] = with_value v (loop [])
  next_value loop v (c ∷ s) =
      if c == comma
      then with_value v (loop s)
      else if c == close_paren
      then ok (v ∷ [], s)
      else with_value v (loop (c ∷ s))

  abbrev pub quoted_value :
      (Bytes → Scan (Row × Bytes)) → Option (Bytes × Bytes) → Scan (Row × Bytes)
  quoted_value loop none = failed unterminated
  quoted_value loop (some (v, rest)) = next_value loop (text v) (skip_space rest)

  abbrev pub bare_value : (Bytes → Scan (Row × Bytes)) → Bytes × Bytes → Scan (Row × Bytes)
  bare_value loop r = next_value loop (parse_bare_literal (trim_space r.0)) (skip_space r.1)

  -- One round of the loop over the values of a tuple.
  abbrev pub value_at : (Bytes → Scan (Row × Bytes)) → Bytes → Scan (Row × Bytes)
  value_at loop [] = failed ended
  value_at loop (c ∷ s) =
      if c == close_paren
      then ok ([], s)
      else if c == quote
      then quoted_value loop (parse_quoted s)
      else bare_value loop (take_bare (c ∷ s))

  -- The values of a tuple, after its opening parenthesis.
  unfoldable pub parse_row : ℕ → Bytes → Scan (Row × Bytes)
  parse_row zero s = stuck
  parse_row (suc fuel) s = value_at (parse_row fuel) (skip_space s)

  abbrev pub with_row : Row → Scan (List Row) → Scan (List Row)
  with_row row (ok rows) = ok (row ∷ rows)
  with_row row (failed e) = failed e
  with_row row stuck = stuck

  abbrev pub next_row : (Bytes → Scan (List Row)) → Row → Bytes → Scan (List Row)
  next_row loop row [] = ok (row ∷ [])
  next_row loop row (c ∷ s) =
      if c == comma
      then with_row row (loop s)
      else if c == semicolon
      then ok (row ∷ [])
      else with_row row (loop (c ∷ s))

  abbrev pub after_row : (Bytes → Scan (List Row)) → Scan (Row × Bytes) → Scan (List Row)
  after_row loop (ok (row, rest)) = next_row loop row (skip_space rest)
  after_row loop (failed e) = failed e
  after_row loop stuck = stuck

  -- One round of the loop over the tuples.
  abbrev pub row_at : (Bytes → Scan (List Row)) → Bytes → Scan (List Row)
  row_at loop [] = ok []
  row_at loop (c ∷ s) =
      if c == semicolon
      then ok []
      else if c == open_paren
      then after_row loop (parse_row (suc (length s)) s)
      else failed no_open

  unfoldable pub parse_rows : ℕ → Bytes → Scan (List Row)
  unfolding parse_row
  parse_rows zero s = stuck
  parse_rows (suc fuel) s = row_at (parse_rows fuel) (skip_space s)

  -- `parseValuesTuples`: every round reads at least a byte.
  unfoldable pub parse_values_tuples : Bytes → Scan (List Row)
  unfolding parse_rows
  parse_values_tuples s = parse_rows (suc (length s)) s
