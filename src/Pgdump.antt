-- ===== src/Pgdump.antt =====
-- internal/legacyimport/pgdump.go: the rows of a COPY block, identifiers and whole dumps. A text is
-- the list of its bytes, a reader the lines that ReadString gives without their line ends, then its
-- end or an error.
pub mod Fields
pub mod Copy
pub mod Blocks
pub mod Fuel
pub mod Tests
use rapido_go.Prelude.{
  ℕ, zero, suc, ◌+◌, ◌*◌, ◌-◌, ◌%◌, Bool, true, false, not, ◌&&◌, ◌||◌, ◌==◌, nat_eq, Option, none,
  some, List, [], ◌∷◌, ◌++◌, length, ltb, leb, nat_beq, if◌then◌else◌,
}
use rapido_go.Prelude.Bytes.{Bytes, bytes, bytes_eq}

abbrev pub backslash : ℕ
backslash = b'\\'

abbrev pub tab : ℕ
tab = b'\t'

abbrev pub is_octal : ℕ → Bool
is_octal c = leb b'0' c && leb c b'7'

-- `isHexDigit`
abbrev pub is_hex : ℕ → Bool
is_hex c = (leb b'0' c && leb c b'9') || (leb b'a' c && leb c b'f') || (leb b'A' c && leb c b'F')

abbrev pub hex_value : ℕ → ℕ
hex_value c = if leb c b'9' then c - b'0' else if leb c b'F' then c - 55 else c - 87

-- The byte that a letter behind a backslash stands for.
abbrev pub unescape_letter : ℕ → ℕ
unescape_letter e =
    if e == b'b'
    then 8
    else if e == b'f'
    then 12
    else if e == b'n'
    then 10
    else if e == b'r'
    then 13
    else if e == b't'
    then 9
    else if e == b'v'
    then 11
    else e

-- Up to three digits in all of an octal escape: the byte, and what follows.
abbrev pub take_octal : ℕ → ℕ → Bytes → ℕ × Bytes
take_octal zero n s = (n % 256, s)
take_octal (suc k) n [] = (n % 256, [])
take_octal (suc k) n (c ∷ s) =
    let more = take_octal k (8 * n + (c - b'0')) s in if is_octal c then more else (n % 256, c ∷ s)

abbrev pub take_hex : ℕ → ℕ → Bytes → ℕ × Bytes
take_hex zero n s = (n, s)
take_hex (suc k) n [] = (n, [])
take_hex (suc k) n (c ∷ s) =
    let more = take_hex k (16 * n + hex_value c) s in if is_hex c then more else (n, c ∷ s)

abbrev pub starts_hex : Bytes → Bool
starts_hex [] = false
starts_hex (c ∷ s) = is_hex c

-- The byte that the text behind a backslash stands for, and what follows.
abbrev pub escape_at : ℕ → Bytes → ℕ × Bytes
escape_at e s =
    if is_octal e
    then take_octal 2 (e - b'0') s
    else if (e == b'x') && starts_hex s
    then take_hex 2 0 s
    else (unescape_letter e, s)

abbrev pub with_byte : ℕ → Option Bytes → Option Bytes
with_byte c none = none
with_byte c (some v) = some (c ∷ v)

-- One byte of a field, and `loop` for the others.
abbrev pub unescape_at : (Bytes → Option Bytes) → Bytes → Option Bytes
unescape_at loop [] = some []
unescape_at loop (c ∷ []) = if c == backslash then none else with_byte c (loop [])
unescape_at loop (c ∷ e ∷ s) =
    if c == backslash
    then with_byte (escape_at e s).0 (loop (escape_at e s).1)
    else with_byte c (loop (e ∷ s))

-- Each round reads at least a byte.
unfoldable pub unescape : ℕ → Bytes → Option Bytes
unescape zero s = none
unescape (suc fuel) s = unescape_at (unescape fuel) s

-- `unescapeCopyField`; none for a field that ends in a lone backslash.
unfoldable pub unescape_copy_field : Bytes → Option Bytes
unfolding unescape
unescape_copy_field f = unescape (suc (length f)) f

abbrev pub first_with : ℕ → List Bytes → List Bytes
first_with c [] = (c ∷ []) ∷ []
first_with c (f ∷ fs) = (c ∷ f) ∷ fs

-- strings.Split at tabs.
abbrev pub split_tabs : Bytes → List Bytes
split_tabs [] = [] ∷ []
split_tabs (c ∷ s) = let rest = split_tabs s in if c == tab then [] ∷ rest else first_with c rest

abbrev pub Cells : Type 0
Cells = List (Option Bytes)

abbrev pub with_cell : Option Bytes → Option Cells → Option Cells
with_cell cell none = none
with_cell cell (some row) = some (cell ∷ row)

abbrev pub with_value : Option Bytes → Option Cells → Option Cells
with_value none row = none
with_value (some v) row = with_cell (some v) row

abbrev pub null_field : Bytes
null_field = backslash ∷ b'N' ∷ []

abbrev pub read_fields : List Bytes → Option Cells
read_fields [] = some []
read_fields (f ∷ fs) =
    let rest = read_fields fs in
    if f == null_field then with_cell none rest else with_value (unescape_copy_field f) rest

-- `parseCopyRow`
unfoldable pub parse_copy_row : Bytes → ℕ → Option Cells
parse_copy_row line want =
    let fields = split_tabs line in
    if nat_beq (length fields) want then read_fields fields else none

-- `readIdent`, behind an opening quote.
abbrev pub ident_byte : ℕ → Option (Bytes × Bytes) → Option (Bytes × Bytes)
ident_byte c none = none
ident_byte c (some (name, rest)) = some (c ∷ name, rest)

abbrev pub double_quote : ℕ
double_quote = b'"'

unfoldable pub read_quoted : Bytes → Option (Bytes × Bytes)
read_quoted [] = none
read_quoted (c ∷ []) = if c == double_quote then some ([], []) else none
read_quoted (c ∷ d ∷ s) =
    let doubled = ident_byte double_quote (read_quoted s) in
    let plain = ident_byte c (read_quoted (d ∷ s)) in
    if c == double_quote then if d == double_quote then doubled else some ([], d ∷ s) else plain

-- A byte of a bare identifier.
abbrev pub is_ident : ℕ → Bool
is_ident c =
    (c == b'_')
    || (c == b'$')
    || (leb b'0' c && leb c b'9')
    || (leb b'a' c && leb c b'z')
    || (leb b'A' c && leb c b'Z')
    || leb 128 c

abbrev pub take_ident : Bytes → Bytes × Bytes
take_ident [] = ([], [])
take_ident (c ∷ s) = let r = take_ident s in if is_ident c then (c ∷ r.0, r.1) else ([], c ∷ s)

abbrev pub bare_ident : Bytes × Bytes → Option (Bytes × Bytes)
bare_ident ([], rest) = none
bare_ident (c ∷ name, rest) = some (c ∷ name, rest)

-- `readIdent`
unfoldable pub read_ident : Bytes → Option (Bytes × Bytes)
unfolding read_quoted
read_ident [] = none
read_ident (c ∷ s) = if c == double_quote then read_quoted s else bare_ident (take_ident (c ∷ s))
