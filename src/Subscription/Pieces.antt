-- ===== src/Subscription/Pieces.antt =====
-- What internal/subscription/token.go does with the texts that it makes itself: undoing the base64,
-- looking for a dot, splitting at the commas.
use rapido_go.Prelude.{
  ℕ, zero, suc, ◌<◌, ◌≤◌, ◌≡◌, refl, ap, ◌∙◌, Bool, true, false, ◌==◌, nat_eq, none, some, [], ◌∷◌,
  ◌++◌, length, take, drop, arith, All, any, ℤ, pos, negsuc, ◌≤ℤ◌, All-map, if_true,
}
use rapido_go.Prelude.Bytes.{Bytes, has_prefix}
use rapido_go.Subscription.Base64.{encode, decode, IsSymbol, encode-IsSymbol, decode-encode}
use rapido_go.Subscription.Decimal.{format_int, decimal-IsDigit, IsDigit, length-decimal}
use rapido_go.Subscription.Utf8.{valid, valid_ascii, valid-IsByte}
use rapido_go.Subscription.Token.{
  dot, comma, decode_token, if_valid, cut_last_dot, longer_cut, split, to_url, unpadded,
  cons_unpadded,
}

pub to_url-IsSymbol : (s : Bytes) → All IsSymbol s → to_url s ≡ s
unfolding to_url
to_url-IsSymbol [] h = refl
to_url-IsSymbol (c ∷ s) h = ground (arith, to_url-IsSymbol s h.1)

pub cons_unpadded-IsSymbol : (c : ℕ) (s : Bytes) → IsSymbol c → cons_unpadded c s ≡ c ∷ s
cons_unpadded-IsSymbol c [] h = ground arith
cons_unpadded-IsSymbol c (d ∷ s) h = refl

pub unpadded-IsSymbol : (s : Bytes) → All IsSymbol s → unpadded s ≡ s
unfolding unpadded
unpadded-IsSymbol [] h = refl
unpadded-IsSymbol (c ∷ s) h =
    ap (cons_unpadded c) (unpadded-IsSymbol s h.1) ∙ cons_unpadded-IsSymbol c s h.0

pub decode_token-encode : (s : Bytes) → valid s ≡ true → decode_token (encode s) ≡ some s
unfolding decode_token
decode_token-encode s h =
    let e = encode-IsSymbol s in
    ap (λ t. if_valid (decode (to_url t))) (unpadded-IsSymbol (encode s) e)
    ∙ ap (λ t. if_valid (decode t)) (to_url-IsSymbol (encode s) e)
    ∙ ap if_valid (decode-encode s (valid-IsByte s h))
    ∙ if_true (valid s) (some s) none h

abbrev pub has_dot : Bytes → Bool
has_dot = any (λ c. c == dot)

pub IsSymbol-no_dot : (s : Bytes) → All IsSymbol s → has_dot s ≡ false
IsSymbol-no_dot [] h = refl
IsSymbol-no_dot (c ∷ s) h = ground (arith, IsSymbol-no_dot s h.1)

pub cut_last_dot-none : (s : Bytes) → has_dot s ≡ false → cut_last_dot s ≡ none
unfolding cut_last_dot
cut_last_dot-none [] h = refl
cut_last_dot-none (c ∷ s) h = ground (arith, cut_last_dot-none s)

pub cut_last_dot-append :
    (s t : Bytes) → has_dot t ≡ false → cut_last_dot (s ++ (dot ∷ t)) ≡ some (s, t)
unfolding cut_last_dot
cut_last_dot-append [] t h = ap (longer_cut dot t) (cut_last_dot-none t h)
cut_last_dot-append (c ∷ s) t h = ap (longer_cut c (s ++ (dot ∷ t))) (cut_last_dot-append s t h)

pub has_prefix-has_dot :
    (p t : Bytes) → has_dot p ≡ true → has_dot t ≡ false → has_prefix p t ≡ false
has_prefix-has_dot [] t h k = absurd (ground (arith, h))
has_prefix-has_dot (c ∷ p) [] h k = refl
has_prefix-has_dot (c ∷ p) (d ∷ t) h k = ground (arith, has_prefix-has_dot p t)

module _ {ℓ} (P : ℕ → Type ℓ) where
  pub All-take-append : (n : ℕ) (s t : Bytes) → n ≤ length s → All P s → All P (take n (s ++ t))
  All-take-append zero s t h a = tt
  All-take-append (suc n) [] t h a = elim h [ ]
  All-take-append (suc n) (c ∷ s) t h a = (a.0, All-take-append n s t (omega arith) a.1)

pub take-append : (s t : Bytes) → take (length s) (s ++ t) ≡ s
take-append [] t = refl
take-append (c ∷ s) t = ap (λ r. c ∷ r) (take-append s t)

pub drop-append : (s t : Bytes) → drop (length s) (s ++ t) ≡ t
drop-append [] t = refl
drop-append (c ∷ s) t = drop-append s t

-- A text with no comma.
abbrev pub NoComma : Bytes → Type 0
NoComma = All (λ c. c ≡ comma → ⊥)

pub split_last : (s : Bytes) → NoComma s → split s ≡ s ∷ []
unfolding split
split_last [] h = refl
split_last (c ∷ s) h = ground (arith, split_last s h.1)

pub split-append : (s t : Bytes) → NoComma s → split (s ++ (comma ∷ t)) ≡ s ∷ split t
unfolding split
split-append [] t h = refl
split-append (c ∷ s) t h = ground (arith, split-append s t h.1)

-- The characters of a printed number.
abbrev IsPlain : ℕ → Type 0
IsPlain c = (c < 128) × (c ≡ comma → ⊥)

pub format_int-IsPlain : (i : ℤ) → All IsPlain (format_int i)
unfolding format_int
format_int-IsPlain (pos n) =
    All-map IsDigit IsPlain _ (λ c d. (omega arith, λ e. omega arith)) (decimal-IsDigit n)
format_int-IsPlain (negsuc n) = (
  (omega arith, λ e. omega arith),
  All-map IsDigit IsPlain _ (λ c d. (omega arith, λ e. omega arith)) (decimal-IsDigit (suc n)),
)

pub format_int-NoComma : (i : ℤ) → NoComma (format_int i)
format_int-NoComma i = All-map IsPlain (λ c. c ≡ comma → ⊥) _ (λ c d. d.1) (format_int-IsPlain i)

pub format_int-valid : (i : ℤ) → valid (format_int i) ≡ true
format_int-valid i =
    valid_ascii _ (All-map IsPlain (λ c. c < 128) _ (λ c d. d.0) (format_int-IsPlain i))

pub length-format_int : (i : ℤ) → pos 1000 ≤ℤ i → 4 ≤ length (format_int i)
unfolding format_int
length-format_int (pos n) h = length-decimal n (omega arith)
length-format_int (negsuc n) h = absurd (omega arith)
