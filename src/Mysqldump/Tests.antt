-- ===== src/Mysqldump/Tests.antt =====
-- A small dump.
use rapido_go.Prelude.{
  ℕ, pos, negsuc, ◌-ℤ◌, false, Option, none, some, List, [], ◌∷◌, map, ◌≡◌, ◌≢◌, ◌↔◌, refl, arith,
}
use rapido_go.Prelude.Bytes.{Bytes, bytes}
use rapido_go.Mysqldump.{
  Value, null, text, int, ok, parse_quoted, parse_values_tuples, parse_row, parse_rows,
  parse_bare_literal,
}
use rapido_go.Mysqldump.Quoted.{Piece, plain, escaped, doubled, Reads, parse_quoted_iff}
use rapido_go.Mysqldump.Tuples.{Cell, quoted, bare, write_rows, value_of, parse_values_tuples-write}
use rapido_go.Mysqldump.Dump.{
  Dump, Result, done, fails, no_fuel, parse_mysql_dump, row, parse_create_table,
}
use rapido_go.Mysqldump.Whole.{parse_mysql_dump_ends}

abbrev no_float : Bytes → Option ℕ
no_float s = none

abbrev letter : Piece
letter = plain b'a' (λ e. ground (arith, e)) (λ e. ground (arith, e))

abbrev digit : Cell
digit = bare b'7' [] (λ e. ground (arith, e)) (refl, refl) tt

-- ('a\n''',7),(7);
abbrev two_rows : List (List Cell)
two_rows = (quoted (letter ∷ escaped b'n' ∷ doubled ∷ []) ∷ digit ∷ []) ∷ (digit ∷ []) ∷ []

parse_values_tuples-write_example :
    parse_values_tuples no_float (write_rows two_rows [])
    ≡ ok (map (map (value_of no_float)) two_rows)
parse_values_tuples-write_example = parse_values_tuples-write no_float two_rows []

parse_quoted_iff_example :
    (parse_quoted (bytes "a\\n''',7") ≡ some (b'a' ∷ 10 ∷ b'\'' ∷ [], bytes ",7"))
    ↔ Reads (bytes "a\\n''',7") (b'a' ∷ 10 ∷ b'\'' ∷ []) (bytes ",7")
parse_quoted_iff_example =
    parse_quoted_iff (bytes "a\\n''',7") (b'a' ∷ 10 ∷ b'\'' ∷ []) (bytes ",7")

abbrev dump : List Bytes
dump =
    bytes "CREATE TABLE `users` (\n"
    ∷ bytes "  `id` int NOT NULL,\n"
    ∷ bytes "  `name` varchar(34),\n"
    ∷ bytes "  PRIMARY KEY (`id`)\n"
    ∷ bytes ") ENGINE=InnoDB;\n"
    ∷ bytes "INSERT INTO `users` VALUES (1,'x'),(-2,NULL);\n"
    ∷ []

parse_mysql_dump_ends_example : parse_mysql_dump no_float false dump ≢ fails no_fuel
parse_mysql_dump_ends_example = parse_mysql_dump_ends no_float false dump

abbrev users_of : Result (Dump no_float) → Option (List (List (Bytes × Value ℕ)))
users_of (done d) = row no_float d (bytes "users")
users_of (fails e) = none

parsed_dump :
    users_of (parse_mysql_dump no_float false dump)
    ≡ some (
        ((bytes "id", int (pos 1)) ∷ (bytes "name", text (bytes "x")) ∷ [])
        ∷ ((bytes "id", int (negsuc 1)) ∷ (bytes "name", null) ∷ [])
        ∷ [])
unfolding parse_mysql_dump row parse_create_table parse_values_tuples parse_rows parse_row
    parse_quoted parse_bare_literal ◌-ℤ◌
parsed_dump = refl

parsed_quoted : parse_quoted (bytes "a\\n''',7") ≡ some (b'a' ∷ 10 ∷ b'\'' ∷ [], bytes ",7")
unfolding parse_quoted
parsed_quoted = refl
