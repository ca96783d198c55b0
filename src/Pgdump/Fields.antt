-- ===== src/Pgdump/Fields.antt =====
-- The text of a COPY field, and that it is read back.
use rapido_go.Prelude.{
  ℕ, zero, suc, ◌≤◌, ◌<◌, false, ◌==◌, nat_eq, Option, none, some, [], ◌∷◌, ◌++◌, map, length, All,
  if◌then◌else◌, if_true, if_false, eq_false, nat_beq, nat_beq_iff, ◌≡◌, ◌≢◌, refl, ap, ◌∙◌, arith,
}
use rapido_go.Prelude.Bytes.{Bytes, bytes_eq}
use rapido_go.Pgdump.{
  backslash, tab, with_byte, unescape_at, unescape, unescape_copy_field, split_tabs, Cells,
  null_field, read_fields, parse_copy_row, with_cell, with_value,
}

-- The escapes that Postgres writes in COPY text: of the control bytes with letters and of the
-- backslash.
abbrev pub letter_of : ℕ → Option ℕ
letter_of c =
    if c == 8
    then some b'b'
    else if c == 12
    then some b'f'
    else if c == 10
    then some b'n'
    else if c == 13
    then some b'r'
    else if c == 9
    then some b't'
    else if c == 11
    then some b'v'
    else if c == backslash
    then some backslash
    else none

abbrev pub behind_backslash : ℕ → Option ℕ → Bytes → Bytes
behind_backslash c none rest = c ∷ rest
behind_backslash c (some e) rest = backslash ∷ e ∷ rest

abbrev pub escape_field : Bytes → Bytes
escape_field [] = []
escape_field (c ∷ s) = behind_backslash c (letter_of c) (escape_field s)

unescape_at-escape :
    (loop : Bytes → Option Bytes) (c : ℕ) (s : Bytes)
    → unescape_at loop (behind_backslash c (letter_of c) s) ≡ with_byte c (loop s)
unescape_at-escape loop c [] = ground arith
unescape_at-escape loop c (d ∷ s) = ground arith

length-behind_backslash :
    (c : ℕ) (o : Option ℕ) (s : Bytes) → length s < length (behind_backslash c o s)
length-behind_backslash c none s = omega arith
length-behind_backslash c (some e) s = omega arith

length-escape_field : (s : Bytes) → length s ≤ length (escape_field s)
length-escape_field [] = omega arith
length-escape_field (c ∷ s) =
    omega (arith, length-behind_backslash c (letter_of c) (escape_field s), length-escape_field s)

unescape-escape : (fuel : ℕ) (s : Bytes) → length s < fuel → unescape fuel (escape_field s) ≡ some s
unfolding unescape
unescape-escape zero s h = absurd (omega arith)
unescape-escape (suc fuel) [] h = refl
unescape-escape (suc fuel) (c ∷ s) h =
    unescape_at-escape (unescape fuel) c (escape_field s)
    ∙ ap (with_byte c) (unescape-escape fuel s (omega arith))

unescape_copy_field-escape : (s : Bytes) → unescape_copy_field (escape_field s) ≡ some s
unfolding unescape_copy_field
unescape_copy_field-escape s =
    unescape-escape (suc (length (escape_field s))) s (omega (arith, length-escape_field s))

-- A field as Postgres writes it.
abbrev pub write_cell : Option Bytes → Bytes
write_cell none = null_field
write_cell (some v) = escape_field v

abbrev pub write_row : Option Bytes → Cells → Bytes
write_row f [] = write_cell f
write_row f (g ∷ fs) = write_cell f ++ (tab ∷ write_row g fs)

differs :
    (c : ℕ) (o : Option ℕ)
    → letter_of c ≡ o
    → (s : Bytes) → (behind_backslash c o s == null_field) ≡ false
differs c none e s = ground (arith, e)
differs c (some x) e s = ground (arith, e)

not_null : (s : Bytes) → (escape_field s == null_field) ≡ false
not_null [] = refl
not_null (c ∷ s) = differs c (letter_of c) refl (escape_field s)

abbrev NoTab : Bytes → Type 0
NoTab s = All (λ c. c ≢ tab) s

behind_backslash-NoTab :
    (c : ℕ) (o : Option ℕ)
    → letter_of c ≡ o
    → (s : Bytes) → NoTab s
    → NoTab (behind_backslash c o s)
behind_backslash-NoTab c none e s h = (λ p. ground (arith, e, p), h)
behind_backslash-NoTab c (some x) e s h = (λ p. ground (arith, p), (λ p. ground (arith, e, p), h))

escape_field-NoTab : (s : Bytes) → NoTab (escape_field s)
escape_field-NoTab [] = tt
escape_field-NoTab (c ∷ s) =
    behind_backslash-NoTab c (letter_of c) refl (escape_field s) (escape_field-NoTab s)

write_cell-NoTab : (f : Option Bytes) → NoTab (write_cell f)
write_cell-NoTab none = ((λ e. ground (arith, e)), ((λ e. ground (arith, e)), tt))
write_cell-NoTab (some v) = escape_field-NoTab v

split_tabs_last : (s : Bytes) → NoTab s → split_tabs s ≡ s ∷ []
split_tabs_last [] h = refl
split_tabs_last (c ∷ s) h =
    rw (eq_false (c == tab) (λ e. h.0 (ground (arith, e)))) (rw (split_tabs_last s h.1) refl)

split_tabs_more : (s rest : Bytes) → NoTab s → split_tabs (s ++ (tab ∷ rest)) ≡ s ∷ split_tabs rest
split_tabs_more [] rest h = refl
split_tabs_more (c ∷ s) rest h =
    rw (eq_false (c == tab) (λ e. h.0 (ground (arith, e)))) (rw (split_tabs_more s rest h.1) refl)

split_tabs-write_row :
    (f : Option Bytes) (fs : Cells) → split_tabs (write_row f fs) ≡ map write_cell (f ∷ fs)
split_tabs-write_row f [] = split_tabs_last (write_cell f) (write_cell-NoTab f)
split_tabs-write_row f (g ∷ fs) =
    split_tabs_more (write_cell f) (write_row g fs) (write_cell-NoTab f)
    ∙ ap (λ r. write_cell f ∷ r) (split_tabs-write_row g fs)

read_fields-write : (fs : Cells) → read_fields (map write_cell fs) ≡ some fs
read_fields-write [] = refl
read_fields-write (none ∷ fs) = ap (with_cell none) (read_fields-write fs)
read_fields-write (some v ∷ fs) =
    if_false (escape_field v == null_field) _ _ (not_null v)
    ∙ ap (λ o. with_value o (read_fields (map write_cell fs))) (unescape_copy_field-escape v)
    ∙ ap (with_cell (some v)) (read_fields-write fs)

length-write_cells : (fs : Cells) → length (map write_cell fs) ≡ length fs
length-write_cells [] = refl
length-write_cells (f ∷ fs) = ap suc (length-write_cells fs)

-- A row of nulls and of any texts that Postgres writes as a line of a COPY block is read back, field
-- by field.
pub parse_copy_row-write :
    (f : Option Bytes) (fs : Cells)
    → parse_copy_row (write_row f fs) (suc (length fs)) ≡ some (f ∷ fs)
unfolding parse_copy_row
parse_copy_row-write f fs =
    ap (λ r. if nat_beq (length r) (suc (length fs)) then read_fields r else none)
      (split_tabs-write_row f fs)
    ∙ if_true (nat_beq (length (map write_cell (f ∷ fs))) (suc (length fs))) _ _ (
        (nat_beq_iff (length (map write_cell (f ∷ fs))) (suc (length fs))).1
          (length-write_cells (f ∷ fs)))
    ∙ read_fields-write (f ∷ fs)
