-- ===== src/Mysqldump/Quoted.antt =====
-- The ways to write a quoted string, and that the scanner reads exactly these.
use rapido_go.Prelude.{
  ℕ, ◌<◌, true, false, ◌==◌, nat_eq, Option, none, some, List, [], ◌∷◌, ◌++◌, map, length,
  length-append, ◌≡◌, ◌≢◌, ◌↔◌, refl, sym, ap, ◌∙◌, append_assoc, nat_beq_iff, arith, Bool-cases,
  inl, inr,
}
use mathlib.Core.Path.{subst}
use rapido_go.Prelude.Bytes.{Bytes}
use rapido_go.Mysqldump.{quote, backslash, reveal, with_byte, parse_quoted}

-- How one byte of a string is written: as it is, behind a backslash, or as two quotes.
pub data Piece : Type 0 where
  plain : (c : ℕ) → c ≢ quote → c ≢ backslash → Piece
  escaped : ℕ → Piece
  doubled : Piece

abbrev pub write : Piece → Bytes
write (plain c q b) = c ∷ []
write (escaped c) = backslash ∷ c ∷ []
write doubled = quote ∷ quote ∷ []

abbrev pub meaning : Piece → ℕ
meaning (plain c q b) = c
meaning (escaped c) = reveal c
meaning doubled = quote

abbrev pub write_all : List Piece → Bytes
write_all [] = []
write_all (p ∷ ps) = write p ++ write_all ps

-- A closing quote stands before anything but a quote.
abbrev pub NoQuote : Bytes → Type 0
NoQuote [] = Unit
NoQuote (c ∷ s) = c ≢ quote

abbrev pub tail_of : List Piece → Bytes → Bytes
tail_of ps rest = write_all ps ++ (quote ∷ rest)

beq_self : (c : ℕ) → (c == c) ≡ true
beq_self c = ground arith

read_plain :
    (c : ℕ) (s : Bytes)
    → c ≢ quote
    → c ≢ backslash
    → parse_quoted (c ∷ s) ≡ with_byte c (parse_quoted s)
unfolding parse_quoted
read_plain c [] q b = ground arith
read_plain c (d ∷ s) q b = ground arith

read_close : (rest : Bytes) → NoQuote rest → parse_quoted (quote ∷ rest) ≡ some ([], rest)
unfolding parse_quoted
read_close [] h = refl
read_close (c ∷ s) h = ground arith

-- A written string is read back, up to its closing quote.
pub parse_quoted-write :
    (ps : List Piece) (rest : Bytes)
    → NoQuote rest
    → parse_quoted (tail_of ps rest) ≡ some (map meaning ps, rest)
unfolding parse_quoted
parse_quoted-write [] rest h = read_close rest h
parse_quoted-write (plain c q b ∷ ps) rest h =
    rw (read_plain c (tail_of ps rest) q b) (rw (parse_quoted-write ps rest h) refl)
parse_quoted-write (escaped c ∷ ps) rest h = rw (parse_quoted-write ps rest h) refl
parse_quoted-write (doubled ∷ ps) rest h = rw (parse_quoted-write ps rest h) refl

-- That a text begins with a written string, what it means, and what follows it.
abbrev pub Reads : Bytes → Bytes → Bytes → Type 0
Reads s v rest = (ps : List Piece) × (s ≡ tail_of ps rest) × (v ≡ map meaning ps) × NoQuote rest

with_byte-some :
    (c : ℕ) (o : Option (Bytes × Bytes)) (v rest : Bytes)
    → with_byte c o ≡ some (v, rest)
    → (w : Bytes) × (o ≡ some (w, rest)) × (v ≡ c ∷ w)
with_byte-some c none v rest e = absurd (ground (arith, e))
with_byte-some c (some (w, r)) v rest e = (w, cc, cc)

more :
    (p : Piece) (s v rest : Bytes)
    → with_byte (meaning p) (parse_quoted s) ≡ some (v, rest)
    → ((w : Bytes) → parse_quoted s ≡ some (w, rest) → Reads s w rest)
    → Reads (write p ++ s) v rest
more p s v rest e k =
    let (w, f, g) = with_byte-some (meaning p) (parse_quoted s) v rest e in
    let (ps, split, mean, q) = k w f in
    (
      p ∷ ps,
      ap (λ t. write p ++ t) split ∙ sym (append_assoc (write p) (write_all ps) (quote ∷ rest)),
      g ∙ ap (λ t. meaning p ∷ t) mean,
      q,
    )

abbrev read_nothing : Bytes → Option (Bytes × Bytes)
read_nothing s = some ([], s)

closed : (s v rest : Bytes) → NoQuote s → read_nothing s ≡ some (v, rest) → Reads (quote ∷ s) v rest
closed s v rest h e =
    let same : s ≡ rest = cc in
    let empty : [] ≡ v = cc in ([], ap (λ t. quote ∷ t) same, sym empty, rw same at h)

at_byte : (c d : ℕ) (s v rest : Bytes) → c == d ≡ true → Reads (d ∷ s) v rest → Reads (c ∷ s) v rest
at_byte c d s v rest e r = subst (λ x. Reads (x ∷ s) v rest) (sym ((nat_beq_iff c d).0 e)) r

differs : (c d : ℕ) → c == d ≡ false → c ≢ d
differs c d e = λ p. ground (arith, e, p)

-- What the scanner reads as a string was written so.
pub parse_quoted-Reads : (s v rest : Bytes) → parse_quoted s ≡ some (v, rest) → Reads s v rest
unfolding parse_quoted
parse_quoted-Reads [] v rest e = absurd (ground (arith, e))
parse_quoted-Reads (c ∷ []) v rest e = elim (Bool-cases (c == quote)) [
  | inl q ↦ at_byte c quote [] v rest q (closed [] v rest tt (rw q at e))
  | inr q ↦ absurd (let nothing = rw q at e in cc)
]
parse_quoted-Reads (c ∷ d ∷ s) v rest e = elim (Bool-cases (c == backslash)) [
  | inl b ↦
      at_byte c backslash (d ∷ s) v rest b
        (more (escaped d) s v rest (rw b at e) (λ w f. parse_quoted-Reads s w rest f))
  | inr b ↦ elim (Bool-cases (c == quote)) [
    | inl q ↦ at_byte c quote (d ∷ s) v rest q (elim (Bool-cases (d == quote)) [
      | inl r ↦
          subst (λ x. Reads (quote ∷ x ∷ s) v rest) (sym ((nat_beq_iff d quote).0 r))
            (more doubled s v rest (rw r at (rw q at (rw b at e)))
              (λ w f. parse_quoted-Reads s w rest f))
      | inr r ↦ closed (d ∷ s) v rest (differs d quote r) (rw r at (rw q at (rw b at e)))
    ])
    | inr q ↦
        more (plain c (differs c quote q) (differs c backslash b)) (d ∷ s) v rest
          (rw q at (rw b at e)) (λ w f. parse_quoted-Reads (d ∷ s) w rest f)
  ]
]

-- A text is read as a quoted string exactly where it is one: bytes that stand for themselves,
-- bytes behind a backslash and doubled quotes, then a closing quote with no quote behind it.
pub parse_quoted_iff : (s v rest : Bytes) → (parse_quoted s ≡ some (v, rest)) ↔ Reads s v rest
parse_quoted_iff s v rest = (
  parse_quoted-Reads s v rest,
  λ (ps, e, f, q).
      ap parse_quoted e ∙ parse_quoted-write ps rest q ∙ ap (λ t. some (t, rest)) (sym f),
)

-- A string leaves less to read.
pub parse_quoted-length :
    (s v rest : Bytes) → parse_quoted s ≡ some (v, rest) → length rest < length s
parse_quoted-length s v rest e =
    let (ps, split, f, q) = parse_quoted-Reads s v rest e in
    rw split (rw (length-append (write_all ps) (quote ∷ rest)) (omega arith))
