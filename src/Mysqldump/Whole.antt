-- ===== src/Mysqldump/Whole.antt =====
-- The scan of a dump ends.
use rapido_go.Prelude.{
  ℕ, zero, suc, ◌≤◌, ◌<◌, Bool, true, false, Option, none, some, List, [], ◌∷◌, length, if_cases,
  ◌≡◌, ◌≢◌, refl, arith, insert,
}
use mathlib.Core.Path.{subst}
use rapido_go.Prelude.Bytes.{has_prefix, Bytes, bytes, bytes_eq, trim_space}
use rapido_go.Mysqldump.{Scan, ok, failed, stuck, Row, parse_values_tuples}
use rapido_go.Mysqldump.Fuel.{parse_values_tuples_ends}
use rapido_go.Mysqldump.Dump.{
  with_table, DumpError, malformed_create, eof_in_create, unreadable, bad_values, Result, done,
  fails, no_fuel, add_column, read_columns, columns_behind, create_prefix, insert_prefix,
  parse_create_table, parse_insert_header, extract_backtick_name, Dump, Loop, created, rows_read,
  inserted, statement, parse_lines, parse_mysql_dump, add_rows,
}

abbrev IsError : DumpError → Type 0
IsError no_fuel = ⊥
IsError malformed_create = Unit
IsError eof_in_create = Unit
IsError unreadable = Unit
IsError (bad_values e) = Unit

-- The lines that are left, or an error.
abbrev Leaves : ℕ → Result (List Bytes × List Bytes) → Type 0
Leaves n (done (cols, rest)) = length rest ≤ n
Leaves n (fails e) = IsError e

abbrev NamedLeaves : ℕ → Result (Bytes × List Bytes × List Bytes) → Type 0
NamedLeaves n (done (name, cols, rest)) = length rest ≤ n
NamedLeaves n (fails e) = IsError e

raise : (n m : ℕ) (r : Result (List Bytes × List Bytes)) → n ≤ m → Leaves n r → Leaves m r
raise n m (done (cols, rest)) k h = omega arith
raise n m (fails e) k h = h

read_columns-Leaves :
    (broken : Bool) (cols : List Bytes) (lines : List Bytes)
    → Leaves (length lines) (read_columns broken cols lines)
read_columns-Leaves true cols [] = tt
read_columns-Leaves false cols [] = tt
read_columns-Leaves broken cols (line ∷ lines) =
    let rest = read_columns broken (add_column (trim_space line) cols) lines in
    if_cases (Leaves (length (line ∷ lines))) (has_prefix (bytes ")") (trim_space line))
      (done (cols, lines)) rest (λ e. omega arith)
      (λ e.
        raise (length lines) (length (line ∷ lines)) rest (omega arith)
          (read_columns-Leaves broken (add_column (trim_space line) cols) lines))

name-Leaves :
    (n : ℕ) (name : Bytes) (r : Result (List Bytes × List Bytes))
    → Leaves n r
    → NamedLeaves n (with_table name r)
name-Leaves n name (done (cols, rest)) h = h
name-Leaves n name (fails e) h = h

columns_behind-Leaves :
    (broken : Bool) (lines : List Bytes) (o : Option Bytes)
    → NamedLeaves (length lines) (columns_behind broken lines o)
columns_behind-Leaves broken lines none = tt
columns_behind-Leaves broken lines (some name) =
    name-Leaves (length lines) name (read_columns broken [] lines)
      (read_columns-Leaves broken [] lines)

module _ {F : Type 0} (parse_float : Bytes → Option F) where
  -- That a run ends with a dump or an error.
  abbrev Ends : Result (Dump parse_float) → Type 0
  Ends (done d) = Unit
  Ends (fails e) = IsError e

  module _ (n : ℕ) (loop : Loop parse_float)
      (good : (lines : List Bytes) (d : Dump parse_float)
        → length lines ≤ n
        → Ends (loop lines d)) where
    created-Ends :
        (d : Dump parse_float) (r : Result (Bytes × List Bytes × List Bytes))
        → NamedLeaves n r
        → Ends (created parse_float loop d r)
    created-Ends d (done (name, cols, lines)) h =
        good lines (insert name (record { name = name; columns = cols; rows = [] }) d) h
    created-Ends d (fails e) h = h

    rows_read-Ends :
        (d : Dump parse_float) (lines : List Bytes) (name : Bytes)
        (r : Scan (List (Row parse_float)))
        → r ≢ stuck
        → length lines ≤ n
        → Ends (rows_read parse_float loop d lines name r)
    rows_read-Ends d lines name (ok rows) h k = good lines (add_rows parse_float name rows d) k
    rows_read-Ends d lines name (failed e) h k = tt
    rows_read-Ends d lines name stuck h k = absurd (h refl)

    inserted-Ends :
        (d : Dump parse_float) (lines : List Bytes) (o : Option (Bytes × Bytes))
        → length lines ≤ n
        → Ends (inserted parse_float loop d lines o)
    inserted-Ends d lines none k = good lines d k
    inserted-Ends d lines (some (name, rest)) k =
        rows_read-Ends d lines name (parse_values_tuples parse_float rest)
          (parse_values_tuples_ends parse_float rest) k

    statement-Ends :
        (broken : Bool) (d : Dump parse_float) (trimmed : Bytes) (lines : List Bytes)
        → length lines ≡ n
        → Ends (statement parse_float broken loop d trimmed lines)
    unfolding parse_create_table
    statement-Ends broken d trimmed lines k =
        let table = parse_create_table broken trimmed lines in
        if_cases Ends (has_prefix create_prefix trimmed) (created parse_float loop d table) _
          (λ e. created-Ends d table (
            subst (λ m. NamedLeaves m table) k
              (columns_behind-Leaves broken lines (extract_backtick_name trimmed create_prefix))))
          (λ e.
            if_cases Ends (has_prefix insert_prefix trimmed)
              (inserted parse_float loop d lines (parse_insert_header trimmed)) (loop lines d)
              (λ f. inserted-Ends d lines (parse_insert_header trimmed) (omega (arith, k)))
              (λ f. good lines d (omega (arith, k))))

  parse_lines-Ends :
      (broken : Bool) (fuel : ℕ) (lines : List Bytes) (d : Dump parse_float)
      → length lines < fuel
      → Ends (parse_lines parse_float broken fuel lines d)
  parse_lines-Ends broken zero lines d h = absurd (omega arith)
  parse_lines-Ends true (suc fuel) [] d h = tt
  parse_lines-Ends false (suc fuel) [] d h = tt
  parse_lines-Ends broken (suc fuel) (line ∷ lines) d h =
      statement-Ends (length lines) (parse_lines parse_float broken fuel)
        (λ ls e k. parse_lines-Ends broken fuel ls e (omega arith)) broken d (trim_space line) lines
        refl

  -- The scan of any dump ends with a dump or an error, whatever its lines hold: one round for each
  -- line and one more are enough, and within a statement one for each byte and one more.
  pub parse_mysql_dump_ends :
      (broken : Bool) (lines : List Bytes)
      → parse_mysql_dump parse_float broken lines ≢ fails no_fuel
  unfolding parse_mysql_dump
  parse_mysql_dump_ends broken lines =
      ended (parse_lines parse_float broken (suc (length lines)) lines [])
        (parse_lines-Ends broken (suc (length lines)) lines [] (omega arith))
    where
      ended : (r : Result (Dump parse_float)) → Ends r → r ≢ fails no_fuel
      ended (done d) h = λ e. cc
      ended (fails no_fuel) h = absurd h
      ended (fails malformed_create) h = λ e. cc
      ended (fails eof_in_create) h = λ e. cc
      ended (fails unreadable) h = λ e. cc
      ended (fails (bad_values x)) h = λ e. cc
