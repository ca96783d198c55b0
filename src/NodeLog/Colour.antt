-- ===== src/NodeLog/Colour.antt =====
-- `StripANSI` of internal/nodelog/classify.go: what it makes of a text with colour codes.
use rapido_go.Prelude.{
  ℕ, ◌≡◌, refl, sym, ◌∙◌, true, false, ◌==◌, nat_eq, List, [], ◌∷◌, ◌++◌, All, inl, inr, Bool-cases,
  arith, ap,
}
use rapido_go.Prelude.Bytes.{Bytes}
use rapido_go.NodeLog.{
  esc, is_param, is_inter, is_final, outside, params, inters, strip_from, has_byte, strip_ansi,
}

-- A byte of the text, or a colour code with its parameters, its intermediate bytes and its last byte.
pub data Piece : Type 0 where
  plain : ℕ → Piece
  code : Bytes → Bytes → ℕ → Piece

abbrev pub IsPiece : Piece → Type 0
IsPiece (plain c) = (c == esc) ≡ false
IsPiece (code p i f) =
    All (λ c. is_param c ≡ true) p × All (λ c. is_inter c ≡ true) i × (is_final f ≡ true)

unfoldable pub write : List Piece → Bytes
write [] = []
write (plain c ∷ ps) = c ∷ write ps
write (code p i f ∷ ps) = esc ∷ b'[' ∷ (p ++ (i ++ (f ∷ write ps)))

unfoldable pub text_of : List Piece → Bytes
text_of [] = []
text_of (plain c ∷ ps) = c ∷ text_of ps
text_of (code p i f ∷ ps) = text_of ps

strip_from-inters :
    (i k : Bytes) (f : ℕ) (s : Bytes)
    → All (λ c. is_inter c ≡ true) i
    → is_final f ≡ true
    → strip_from (inters k) (i ++ (f ∷ s)) ≡ strip_from outside s
unfolding strip_from
strip_from-inters [] k f s h e = ground arith
strip_from-inters (c ∷ i) k f s h e = rw h.0 (strip_from-inters i (k ++ (c ∷ [])) f s h.1 e)

strip_from-behind :
    (i k : Bytes) (f : ℕ) (s : Bytes)
    → All (λ c. is_inter c ≡ true) i
    → is_final f ≡ true
    → strip_from (params k) (i ++ (f ∷ s)) ≡ strip_from outside s
unfolding strip_from
strip_from-behind [] k f s h e = ground arith
strip_from-behind (c ∷ i) k f s h e =
    let h0 = h.0 in ground (arith, h0, strip_from-inters i (k ++ (c ∷ [])) f s h.1 e)

strip_from-params :
    (p i k : Bytes) (f : ℕ) (s : Bytes)
    → All (λ c. is_param c ≡ true) p
    → All (λ c. is_inter c ≡ true) i
    → is_final f ≡ true
    → strip_from (params k) (p ++ (i ++ (f ∷ s))) ≡ strip_from outside s
unfolding strip_from
strip_from-params [] i k f s h g e = strip_from-behind i k f s g e
strip_from-params (c ∷ p) i k f s h g e = rw h.0 (strip_from-params p i (k ++ (c ∷ [])) f s h.1 g e)

strip_from-write : (ps : List Piece) → All IsPiece ps → strip_from outside (write ps) ≡ text_of ps
unfolding strip_from write text_of
strip_from-write [] h = refl
strip_from-write (plain c ∷ ps) h = rw h.0 (ap (λ s. c ∷ s) (strip_from-write ps h.1))
strip_from-write (code p i f ∷ ps) h =
    strip_from-params p i [] f (write ps) h.0.0 h.0.1 h.0.2 ∙ strip_from-write ps h.1

-- A text without an escape has no match.
strip_from_plain : (s : Bytes) → has_byte esc s ≡ false → strip_from outside s ≡ s
unfolding strip_from
strip_from_plain [] e = refl
strip_from_plain (c ∷ s) e = elim (Bool-cases (c == esc)) [
  | inl f ↦ absurd (let g = rw f at e in ground (arith, g))
  | inr f ↦ let g = rw f at e in rw f (ap (λ t. c ∷ t) (strip_from_plain s g))
]

-- Of a text made of bytes other than an escape and of whole colour codes, each the escape, a bracket,
-- parameters, intermediate bytes and a last byte, StripANSI keeps the former, in their order.
pub strip_ansi-write : (ps : List Piece) → All IsPiece ps → strip_ansi (write ps) ≡ text_of ps
unfolding strip_ansi
strip_ansi-write ps h = elim (Bool-cases (has_byte esc (write ps))) [
  | inl f ↦ rw f (strip_from-write ps h)
  | inr f ↦ rw f (sym (strip_from_plain (write ps) f) ∙ strip_from-write ps h)
]
