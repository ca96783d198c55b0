-- ===== src/Mysqldump/Fuel.antt =====
-- The scanner never runs out of fuel.
use rapido_go.Prelude.{
  ℕ, zero, suc, ◌≤◌, ◌<◌, false, ◌==◌, nat_eq, Option, none, some, List, [], ◌∷◌, length, ◌≡◌, ◌≢◌,
  refl, sym, if_cases, nat_beq_iff, arith, Bool-cases, inl, inr,
}
use mathlib.Core.Path.{subst}
use rapido_go.Prelude.Bytes.{Bytes, trim_space}
use rapido_go.Mysqldump.{
  quote, comma, close_paren, open_paren, semicolon, parse_quoted, Value, text, Scan, ok, failed,
  stuck, no_open, is_blank, skip_space, ends_bare, take_bare, parse_bare_literal, Row, with_value,
  next_value, quoted_value, bare_value, value_at, parse_row, with_row, next_row, after_row, row_at,
  parse_rows, parse_values_tuples,
}
use rapido_go.Mysqldump.Quoted.{parse_quoted-length}

length-skip_space : (s : Bytes) → length (skip_space s) ≤ length s
length-skip_space [] = omega arith
length-skip_space (c ∷ s) = elim (Bool-cases (is_blank c)) [
  | inl e ↦ rw e (omega (arith, length-skip_space s))
  | inr e ↦ rw e (omega arith)
]

length-take_bare : (s : Bytes) → length (take_bare s).1 ≤ length s
length-take_bare [] = omega arith
length-take_bare (c ∷ s) = elim (Bool-cases (ends_bare c)) [
  | inl e ↦ rw e (omega arith)
  | inr e ↦ rw e (omega (arith, length-take_bare s))
]

module _ {F : Type 0} (parse_float : Bytes → Option F) where
  -- A result that leaves at most so much to read, or an error.
  abbrev Within : ℕ → Scan (Row parse_float × Bytes) → Type 0
  Within n (ok (row, rest)) = length rest ≤ n
  Within n (failed e) = Unit
  Within n stuck = ⊥

  with_value-Within :
      (n m : ℕ) (v : Value F) (r : Scan (Row parse_float × Bytes))
      → n ≤ m
      → Within n r
      → Within m (with_value parse_float v r)
  with_value-Within n m v (ok (row, rest)) k h = omega arith
  with_value-Within n m v (failed e) k h = tt
  with_value-Within n m v stuck k h = h

  module _ (n : ℕ) (loop : Bytes → Scan (Row parse_float × Bytes))
      (good : (t : Bytes) → length t ≤ n → Within (length t) (loop t)) where
    next_value-Within :
        (v : Value F) (u : Bytes) → length u ≤ n → Within n (next_value parse_float loop v u)
    next_value-Within v [] h =
        with_value-Within 0 n v (loop []) (omega arith) (good [] (omega arith))
    next_value-Within v (c ∷ s) h = elim (Bool-cases (c == comma)) [
      | inl e ↦
          rw e (with_value-Within (length s) n v (loop s) (omega arith) (good s (omega arith)))
      | inr e ↦ elim (Bool-cases (c == close_paren)) [
        | inl f ↦ rw e (rw f (omega arith))
        | inr f ↦
            rw e (rw f (with_value-Within (length (c ∷ s)) n v (loop (c ∷ s)) h (good (c ∷ s) h)))
      ]
    ]

    quoted_value-Within :
        (s : Bytes)
        → length s ≤ n
        → (o : Option (Bytes × Bytes)) → parse_quoted s ≡ o
        → Within n (quoted_value parse_float loop o)
    quoted_value-Within s h none e = tt
    quoted_value-Within s h (some (v, rest)) e =
        next_value-Within (text v) (skip_space rest)
          (omega (arith, length-skip_space rest, parse_quoted-length s v rest e))

    -- A comma that follows no value is read behind an empty one.
    bare_value-Within :
        (c : ℕ) (s : Bytes)
        → length s ≤ n
        → c == close_paren ≡ false
        → Within n (bare_value parse_float loop (take_bare (c ∷ s)))
    bare_value-Within c s h e = elim (Bool-cases (c == comma)) [
      | inl f ↦
          subst (λ x. Within n (bare_value parse_float loop (take_bare (x ∷ s))))
            (sym ((nat_beq_iff c comma).0 f))
            (with_value-Within (length s) n (parse_bare_literal parse_float []) (loop s) h
              (good s h))
      | inr f ↦ rw f (
          rw e (
            next_value-Within (parse_bare_literal parse_float (trim_space (c ∷ (take_bare s).0)))
              (skip_space (take_bare s).1)
              (omega (arith, length-skip_space (take_bare s).1, length-take_bare s))))
    ]

    value_at-Within :
        (c : ℕ) (s : Bytes) → length s ≤ n → Within n (value_at parse_float loop (c ∷ s))
    value_at-Within c s h =
        if_cases (Within n) (c == close_paren) (ok ([], s)) _ (λ e. h)
          (λ e.
            if_cases (Within n) (c == quote) (quoted_value parse_float loop (parse_quoted s))
              (bare_value parse_float loop (take_bare (c ∷ s)))
              (λ f. quoted_value-Within s h (parse_quoted s) refl) (λ f. bare_value-Within c s h e))

  raise : (n m : ℕ) (r : Scan (Row parse_float × Bytes)) → n ≤ m → Within n r → Within m r
  raise n m (ok (row, rest)) k h = omega arith
  raise n m (failed e) k h = tt
  raise n m stuck k h = h

  first_value-Within :
      (fuel : ℕ) (loop : Bytes → Scan (Row parse_float × Bytes))
      → ((t : Bytes) → length t < fuel → Within (length t) (loop t))
      → (u : Bytes) → length u ≤ fuel
      → Within (length u) (value_at parse_float loop u)
  first_value-Within fuel loop good [] k = tt
  first_value-Within fuel loop good (c ∷ u) k =
      raise (length u) (length (c ∷ u)) (value_at parse_float loop (c ∷ u)) (omega arith)
        (value_at-Within (length u) loop (λ t b. good t (omega arith)) c u (omega arith))

  parse_row-Within :
      (fuel : ℕ) (s : Bytes) → length s < fuel → Within (length s) (parse_row parse_float fuel s)
  unfolding parse_row
  parse_row-Within zero s h = omega arith
  parse_row-Within (suc fuel) s h =
      raise (length (skip_space s)) (length s)
        (value_at parse_float (parse_row parse_float fuel) (skip_space s)) (length-skip_space s)
        (first_value-Within fuel (parse_row parse_float fuel) (parse_row-Within fuel) (skip_space s)
          (omega (arith, length-skip_space s)))

  with_row_ends :
      (row : Row parse_float) (r : Scan (List (Row parse_float)))
      → r ≢ stuck
      → with_row parse_float row r ≢ stuck
  with_row_ends row (ok rows) h = λ e. cc
  with_row_ends row (failed e) h = λ f. cc
  with_row_ends row stuck h = absurd (h refl)

  module _ (n : ℕ) (loop : Bytes → Scan (List (Row parse_float)))
      (good : (t : Bytes) → length t ≤ n → loop t ≢ stuck) where
    next_row_ends :
        (row : Row parse_float) (u : Bytes) → length u ≤ n → next_row parse_float loop row u ≢ stuck
    next_row_ends row [] h = λ e. cc
    next_row_ends row (c ∷ s) h =
        if_cases (λ r. r ≢ stuck) (c == comma) (with_row parse_float row (loop s)) _
          (λ e. with_row_ends row (loop s) (good s (omega arith)))
          (λ e.
            if_cases (λ r. r ≢ stuck) (c == semicolon) (ok (row ∷ []))
              (with_row parse_float row (loop (c ∷ s))) (λ f. λ g. cc)
              (λ f. with_row_ends row (loop (c ∷ s)) (good (c ∷ s) h)))

    after_row_ends :
        (r : Scan (Row parse_float × Bytes)) → Within n r → after_row parse_float loop r ≢ stuck
    after_row_ends (ok (row, rest)) h =
        next_row_ends row (skip_space rest) (omega (arith, length-skip_space rest))
    after_row_ends (failed e) h = λ f. cc
    after_row_ends stuck h = absurd h

    row_at_ends : (c : ℕ) (s : Bytes) → length s ≤ n → row_at parse_float loop (c ∷ s) ≢ stuck
    row_at_ends c s h =
        if_cases (λ r. r ≢ stuck) (c == semicolon) (ok []) _ (λ e. λ f. cc)
          (λ e.
            if_cases (λ r. r ≢ stuck) (c == open_paren)
              (after_row parse_float loop (parse_row parse_float (suc (length s)) s))
              (failed no_open)
              (λ f. after_row_ends (parse_row parse_float (suc (length s)) s) (
                raise (length s) n (parse_row parse_float (suc (length s)) s) h
                  (parse_row-Within (suc (length s)) s (omega arith))))
              (λ f. λ g. cc))

  first_row_ends :
      (fuel : ℕ) (loop : Bytes → Scan (List (Row parse_float)))
      → ((t : Bytes) → length t < fuel → loop t ≢ stuck)
      → (u : Bytes) → length u ≤ fuel
      → row_at parse_float loop u ≢ stuck
  first_row_ends fuel loop good [] k = λ e. cc
  first_row_ends fuel loop good (c ∷ u) k =
      row_at_ends (length u) loop (λ t b. good t (omega arith)) c u (omega arith)

  parse_rows_ends : (fuel : ℕ) (s : Bytes) → length s < fuel → parse_rows parse_float fuel s ≢ stuck
  unfolding parse_rows
  parse_rows_ends zero s h = omega arith
  parse_rows_ends (suc fuel) s h =
      first_row_ends fuel (parse_rows parse_float fuel) (parse_rows_ends fuel) (skip_space s)
        (omega (arith, length-skip_space s))

  -- The scan of any text ends, with the rows or with an error: one round of the loops for each byte
  -- and one more are enough.
  pub parse_values_tuples_ends : (s : Bytes) → parse_values_tuples parse_float s ≢ stuck
  unfolding parse_values_tuples
  parse_values_tuples_ends s = parse_rows_ends (suc (length s)) s (omega arith)
