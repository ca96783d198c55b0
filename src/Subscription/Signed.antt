-- ===== src/Subscription/Signed.antt =====
-- What a token that `parse_token` accepts carries.
use rapido_go.Prelude.{
  ℕ, zero, suc, ◌-◌, ◌≤◌, ◌≡◌, refl, ap, ◌∙◌, Bool, true, false, not, ◌&&◌, ◌==◌, nat_eq,
  nat_beq_iff, Option, none, some, [], ◌∷◌, ◌++◌, length, take, drop, ltb, arith, ◌⊎◌, inl, inr,
  if_cases,
}
use rapido_go.Prelude.Bytes.{Bytes, is_same, is_same-path, has_prefix}
use rapido_go.Subscription.Base64.{encode, hex}
use rapido_go.Subscription.Token.{
  Instant, TokenClaims, JwtClaims, jwt_prefix, dot, sign, sign_hex, parse_token_payload,
  parse_jwt_token, parse_dotted, parse_short, parse_signed, parse_token, cut_last_dot, longer_cut,
}

take-drop : (n : ℕ) (s : Bytes) → s ≡ take n s ++ drop n s
take-drop zero s = refl
take-drop (suc n) [] = refl
take-drop (suc n) (c ∷ s) = ap (λ r. c ∷ r) (take-drop n s)

-- The text is cut at a dot.
abbrev IsCut : Bytes → Option (Bytes × Bytes) → Type 0
IsCut t none = Unit {0}
IsCut t (some (s, signature)) = t ≡ s ++ (dot ∷ signature)

longer_cut-IsCut :
    (c : ℕ) (s : Bytes) (o : Option (Bytes × Bytes)) → IsCut s o → IsCut (c ∷ s) (longer_cut c s o)
longer_cut-IsCut c s (some (before, after)) h = ap (λ r. c ∷ r) h
longer_cut-IsCut c s none h =
    if_cases {A = Option (Bytes × Bytes)} (IsCut (c ∷ s)) (c == dot) _ _
      (λ e. ap (λ d. d ∷ s) ((nat_beq_iff c dot).0 e)) (λ e. tt)

cut_last_dot-IsCut : (t : Bytes) → IsCut t (cut_last_dot t)
unfolding cut_last_dot
cut_last_dot-IsCut [] = tt
cut_last_dot-IsCut (c ∷ t) = longer_cut-IsCut c t (cut_last_dot t) (cut_last_dot-IsCut t)

is_same_not : (a b : Bool) → not a && not b ≡ false → (a ≡ true) ⊎ (b ≡ true)
is_same_not true b h = inl refl
is_same_not false true h = inr refl
is_same_not false false h = absurd (ground (arith, h))

none-ne-some : {claims : TokenClaims} → none ≡ some claims → ⊥
none-ne-some h = cc

module _ (sha256 : Bytes → Bytes) (hmac : Bytes → Bytes → Bytes) {F : Type 0}
    (jwt : Bytes → Bytes → Option (JwtClaims F)) (float_instant : F → Instant) where
  -- The three ways to be accepted.
  pub data Accepted (token secret : Bytes) (claims : TokenClaims) : Type 0 where
    by_jwt :
        has_prefix jwt_prefix token ≡ true
        → parse_jwt_token sha256 hmac jwt float_instant token (hex secret) ≡ some claims
        → Accepted token secret claims
    by_hmac :
        (s : Bytes)
        → token ≡ s ++ (dot ∷ encode (hmac (hex secret) s))
        → parse_token_payload s ≡ some claims
        → Accepted token secret claims
    by_signature :
        (s : Bytes)
        → token ≡ s ++ sign sha256 s secret
        → parse_token_payload s ≡ some claims
        → Accepted token secret claims
    by_hex_signature :
        (s : Bytes)
        → token ≡ s ++ sign_hex sha256 s secret
        → parse_token_payload s ≡ some claims
        → Accepted token secret claims

  parse_short-Accepted :
      (token secret s signature : Bytes) (claims : TokenClaims)
      → token ≡ s ++ signature
      → parse_short sha256 hmac jwt float_instant secret s signature ≡ some claims
      → Accepted token secret claims
  unfolding parse_short
  parse_short-Accepted token secret s signature claims e =
      if_cases (λ r. r ≡ some claims → Accepted token secret claims)
        (not (is_same signature (sign sha256 s secret))
          && not (is_same signature (sign_hex sha256 s secret)))
        _ _ (λ _ h. absurd (none-ne-some h))
        (λ same h. elim (is_same_not _ _ same) [
          | inl f ↦ by_signature s (e ∙ ap (λ r. s ++ r) (is_same-path _ _ f)) h
          | inr f ↦ by_hex_signature s (e ∙ ap (λ r. s ++ r) (is_same-path _ _ f)) h
        ])

  parse_dotted-Accepted :
      (token secret s signature : Bytes) (claims : TokenClaims)
      → token ≡ s ++ (dot ∷ signature)
      → parse_dotted sha256 hmac jwt float_instant secret s signature ≡ some claims
      → Accepted token secret claims
  unfolding parse_dotted
  parse_dotted-Accepted token secret s signature claims e =
      if_cases (λ r. r ≡ some claims → Accepted token secret claims)
        (is_same signature (encode (hmac (hex secret) s))) _ _
        (λ same h. by_hmac s (e ∙ ap (λ r. s ++ (dot ∷ r)) (is_same-path _ _ same)) h)
        (λ _ h. absurd (none-ne-some h))

  parse_signed-Accepted :
      (token secret : Bytes) (claims : TokenClaims) (cut : Option (Bytes × Bytes))
      → IsCut token cut
      → parse_signed sha256 hmac jwt float_instant token secret cut ≡ some claims
      → Accepted token secret claims
  parse_signed-Accepted token secret claims none e h =
      let n = length token - 10 in
      parse_short-Accepted token secret (take n token) (drop n token) claims (take-drop n token) h
  parse_signed-Accepted token secret claims (some (s, signature)) e h =
      parse_dotted-Accepted token secret s signature claims e h

  -- A token that is accepted has fifteen characters or more and was signed with the secret: it starts as
  -- a JWT does and is one of the library's, or it ends with the HMAC of what stands before a dot, or
  -- with the ten characters of the digest, in base64 or in hexadecimals, of what stands before them.
  -- The claims of the last three are those of the signed text.
  pub parse_token-Accepted :
      (token secret : Bytes) (claims : TokenClaims)
      → parse_token sha256 hmac jwt float_instant token secret ≡ some claims
      → (15 ≤ length token) × Accepted token secret claims
  unfolding parse_token
  parse_token-Accepted token secret claims =
      if_cases (λ r. r ≡ some claims → (15 ≤ length token) × Accepted token secret claims)
        (ltb (length token) 15) _ _ (λ _ h. absurd (none-ne-some h))
        (λ long.
          if_cases (λ r. r ≡ some claims → (15 ≤ length token) × Accepted token secret claims)
            (has_prefix jwt_prefix token) _ _ (λ p h. (ground (arith, long), by_jwt p h))
            (λ _ h. (
              ground (arith, long),
              parse_signed-Accepted token secret claims (cut_last_dot token)
                  (cut_last_dot-IsCut token) h,
            )))
