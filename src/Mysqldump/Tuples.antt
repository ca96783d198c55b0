-- ===== src/Mysqldump/Tuples.antt =====
-- What a dump writes is read back.
use rapido_go.Prelude.{
  ℕ, zero, suc, ◌+◌, ◌≤◌, ◌<◌, true, false, ◌==◌, nat_eq, Option, List, [], ◌∷◌, ◌++◌, map, length,
  length-append, All, if_false, eq_false, ◌≡◌, ◌≢◌, refl, ap, ◌∙◌, arith,
}
use rapido_go.Prelude.Bytes.{Bytes, is_space, trim_right, trim_space}
use rapido_go.Mysqldump.{
  quote, comma, close_paren, open_paren, semicolon, Value, text, Scan, ok, is_blank, skip_space,
  ends_bare, take_bare, parse_bare_literal, Row, with_value, next_value, bare_value, value_at,
  parse_row, with_row, next_row, after_row, row_at, parse_rows, parse_values_tuples,
}
use rapido_go.Mysqldump.Quoted.{Piece, write_all, meaning, tail_of, parse_quoted-write}

-- A byte of a bare literal.
abbrev pub IsPlain : ℕ → Type 0
IsPlain c = (is_space c ≡ false) × (ends_bare c ≡ false)

-- A value as it is written: a quoted string, or a bare literal of a byte that is not a quote and
-- others.
pub data Cell : Type 0 where
  quoted : List Piece → Cell
  bare : (c : ℕ) (tok : Bytes) → c ≢ quote → IsPlain c → All IsPlain tok → Cell

abbrev pub write_cell : Cell → Bytes → Bytes
write_cell (quoted ps) rest = quote ∷ tail_of ps rest
write_cell (bare c tok q p ps) rest = c ∷ (tok ++ rest)

-- The values of a tuple and its closing parenthesis.
abbrev pub write_cells : List Cell → Bytes → Bytes
write_cells [] rest = close_paren ∷ rest
write_cells (v ∷ []) rest = write_cell v (close_paren ∷ rest)
write_cells (v ∷ w ∷ vs) rest = write_cell v (comma ∷ write_cells (w ∷ vs) rest)

abbrev pub write_rows : List (List Cell) → Bytes → Bytes
write_rows [] rest = semicolon ∷ rest
write_rows (r ∷ []) rest = open_paren ∷ write_cells r (semicolon ∷ rest)
write_rows (r ∷ q ∷ rs) rest = open_paren ∷ write_cells r (comma ∷ write_rows (q ∷ rs) rest)

take_bare-plain :
    (tok : Bytes) (d : ℕ) (rest : Bytes)
    → All IsPlain tok
    → ends_bare d ≡ true
    → take_bare (tok ++ (d ∷ rest)) ≡ (tok, d ∷ rest)
take_bare-plain [] d rest h e = rw e refl
take_bare-plain (c ∷ tok) d rest h e = rw h.0.1 (rw (take_bare-plain tok d rest h.1 e) refl)

trim_right-plain : (tok : Bytes) → All IsPlain tok → trim_right tok ≡ tok
trim_right-plain [] h = refl
trim_right-plain (c ∷ []) h = rw h.0.0 refl
trim_right-plain (c ∷ d ∷ tok) h = rw (trim_right-plain (d ∷ tok) h.1) refl

trim_space-plain : (tok : Bytes) → All IsPlain tok → trim_space tok ≡ tok
trim_space-plain [] h = refl
trim_space-plain (c ∷ tok) h = rw (trim_right-plain (c ∷ tok) h) (rw h.0.0 refl)

not_close : (c : ℕ) → ends_bare c ≡ false → (c == close_paren) ≡ false
not_close c h = ground (arith, h)

length-write_cell : (v : Cell) (rest : Bytes) → length rest < length (write_cell v rest)
length-write_cell (quoted ps) rest = omega (arith, length-append (write_all ps) (quote ∷ rest))
length-write_cell (bare c tok q p ps) rest = omega (arith, length-append tok rest)

length-write_cells :
    (vs : List Cell) (rest : Bytes) → length vs + length rest ≤ length (write_cells vs rest)
length-write_cells [] rest = omega arith
length-write_cells (v ∷ []) rest = omega (arith, length-write_cell v (close_paren ∷ rest))
length-write_cells (v ∷ w ∷ vs) rest = omega (
  arith,
  length-write_cell v (comma ∷ write_cells (w ∷ vs) rest),
  length-write_cells (w ∷ vs) rest,
)

length-write_rows : (rs : List (List Cell)) (rest : Bytes) → length rs ≤ length (write_rows rs rest)
length-write_rows [] rest = omega arith
length-write_rows (r ∷ []) rest = omega arith
length-write_rows (r ∷ q ∷ rs) rest = omega (
  arith,
  length-write_cells r (comma ∷ write_rows (q ∷ rs) rest),
  length-write_rows (q ∷ rs) rest,
)

blank_of_space : (c : ℕ) → is_space c ≡ false → is_blank c ≡ false
blank_of_space c h = ground (arith, h)

module _ {F : Type 0} (parse_float : Bytes → Option F) where
  -- What a written value means.
  abbrev pub value_of : Cell → Value F
  value_of (quoted ps) = text (map meaning ps)
  value_of (bare c tok q p ps) = parse_bare_literal parse_float (c ∷ tok)

  abbrev pub Loop : Type 0
  Loop = Bytes → Scan (Row parse_float × Bytes)

  -- A value before a comma or a closing parenthesis.
  value_at-write :
      (loop : Loop) (v : Cell) (d : ℕ) (rest : Bytes)
      → ends_bare d ≡ true
      → value_at parse_float loop (skip_space (write_cell v (d ∷ rest)))
        ≡ next_value parse_float loop (value_of v) (skip_space (d ∷ rest))
  value_at-write loop (quoted ps) d rest e =
      rw (parse_quoted-write ps (d ∷ rest) (λ f. ground (arith, e, f))) refl
  value_at-write loop (bare c tok q p ps) d rest e =
      ap (value_at parse_float loop) (
        if_false (is_blank c) (skip_space (tok ++ (d ∷ rest))) (c ∷ (tok ++ (d ∷ rest)))
          (blank_of_space c p.0))
      ∙ if_false (c == close_paren) _ _ (not_close c p.1)
      ∙ if_false (c == quote) _ _ (eq_false (c == quote) (λ f. q (ground (arith, f))))
      ∙ ap (bare_value parse_float loop) (take_bare-plain (c ∷ tok) d rest (p, ps) e)
      ∙ ap
          (λ t.
            next_value parse_float loop (parse_bare_literal parse_float t) (skip_space (d ∷ rest)))
          (trim_space-plain (c ∷ tok) (p, ps))

  parse_row-write :
      (fuel : ℕ) (vs : List Cell) (rest : Bytes)
      → length vs < fuel
      → parse_row parse_float fuel (write_cells vs rest) ≡ ok (map value_of vs, rest)
  unfolding parse_row
  parse_row-write zero vs rest h = absurd (omega arith)
  parse_row-write (suc fuel) [] rest h = refl
  parse_row-write (suc fuel) (v ∷ []) rest h =
      value_at-write (parse_row parse_float fuel) v close_paren rest refl
  parse_row-write (suc fuel) (v ∷ w ∷ vs) rest h =
      value_at-write (parse_row parse_float fuel) v comma (write_cells (w ∷ vs) rest) refl
      ∙ ap (with_value parse_float (value_of v)) (parse_row-write fuel (w ∷ vs) rest (omega arith))

  row_at-write :
      (loop : Bytes → Scan (List (Row parse_float))) (vs : List Cell) (rest : Bytes)
      → row_at parse_float loop (open_paren ∷ write_cells vs rest)
        ≡ next_row parse_float loop (map value_of vs) (skip_space rest)
  row_at-write loop vs rest = ap (after_row parse_float loop) (
      parse_row-write (suc (length (write_cells vs rest))) vs rest
        (omega (arith, length-write_cells vs rest)))

  parse_rows-write :
      (fuel : ℕ) (rs : List (List Cell)) (rest : Bytes)
      → length rs < fuel
      → parse_rows parse_float fuel (write_rows rs rest) ≡ ok (map (map value_of) rs)
  unfolding parse_rows
  parse_rows-write zero rs rest h = absurd (omega arith)
  parse_rows-write (suc fuel) [] rest h = refl
  parse_rows-write (suc fuel) (r ∷ []) rest h =
      row_at-write (parse_rows parse_float fuel) r (semicolon ∷ rest)
  parse_rows-write (suc fuel) (r ∷ q ∷ rs) rest h =
      row_at-write (parse_rows parse_float fuel) r (comma ∷ write_rows (q ∷ rs) rest)
      ∙ ap (with_row parse_float (map value_of r))
          (parse_rows-write fuel (q ∷ rs) rest (omega arith))

  -- Tuples of quoted strings, of any spelling, and of bare literals, which have no blank, comma,
  -- closing parenthesis or leading quote, are read back value by value, whatever follows the
  -- semicolon behind them.
  pub parse_values_tuples-write :
      (rs : List (List Cell)) (rest : Bytes)
      → parse_values_tuples parse_float (write_rows rs rest) ≡ ok (map (map value_of) rs)
  unfolding parse_values_tuples
  parse_values_tuples-write rs rest =
      parse_rows-write (suc (length (write_rows rs rest))) rs rest
        (omega (arith, length-write_rows rs rest))
