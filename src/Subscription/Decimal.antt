-- ===== src/Subscription/Decimal.antt =====
-- Numbers printed by fmt's %d, and read back by strconv.ParseInt.
use rapido_go.Prelude.{
  ℕ, zero, suc, ◌+◌, ◌/◌, ◌%◌, ◌<◌, ◌≤◌, ◌≡◌, refl, ap, ◌∙◌, true, false, nat_eq, some, [], ◌∷◌,
  All, length, ltb, arith, ℤ, pos, negsuc, ◌≤ℤ◌, max_int64, min_int64, ◌-ℤ◌, eq_of_parts, -ℤ_parts,
}
use rapido_go.Prelude.Bytes.{Bytes}
use rapido_go.Mysqldump.Literal.{parse_int, parse_digits, digits_of, positive, negative}

-- The digits of a number before those in `out`. One round for each digit: the number is fuel enough.
unfoldable pub digits : ℕ → ℕ → Bytes → Bytes
digits zero n out = out
digits (suc f) n out = elim (ltb n 10) [
  | true ↦ (b'0' + n) ∷ out
  | false ↦ digits f (n / 10) ((b'0' + n % 10) ∷ out)
]

unfoldable pub decimal : ℕ → Bytes
unfolding digits
decimal n = digits (suc n) n []

-- fmt.Sprintf("%d", i)
unfoldable pub format_int : ℤ → Bytes
unfolding decimal
format_int (pos n) = decimal n
format_int (negsuc n) = b'-' ∷ decimal (suc n)

abbrev pub IsDigit : ℕ → Type 0
IsDigit c = (b'0' ≤ c) × (c ≤ b'9')

digits-IsDigit : (f n : ℕ) (out : Bytes) → All IsDigit out → All IsDigit (digits f n out)
unfolding digits
digits-IsDigit zero n out h = h
digits-IsDigit (suc f) n out h = ground (arith, digits-IsDigit f (n / 10) ((b'0' + n % 10) ∷ out))

pub decimal-IsDigit : (n : ℕ) → All IsDigit (decimal n)
unfolding decimal
decimal-IsDigit n = digits-IsDigit (suc n) n [] tt

parse_digits-digits :
    (f n : ℕ) (out : Bytes) → n < f → parse_digits 0 (digits f n out) ≡ parse_digits n out
unfolding digits
parse_digits-digits zero n out h = absurd (omega arith)
parse_digits-digits (suc f) n out h =
    ground (arith, parse_digits-digits f (n / 10) ((b'0' + n % 10) ∷ out))

-- A list with an element.
abbrev IsCons : Bytes → Type 0
IsCons [] = ⊥
IsCons (c ∷ s) = Unit {0}

digits-IsCons : (f n : ℕ) (out : Bytes) → IsCons out → IsCons (digits f n out)
unfolding digits
digits-IsCons zero n out h = h
digits-IsCons (suc f) n out h = ground (arith, digits-IsCons f (n / 10) ((b'0' + n % 10) ∷ out))

decimal-IsCons : (n : ℕ) → IsCons (decimal n)
unfolding decimal digits
decimal-IsCons n = ground (arith, digits-IsCons n (n / 10) ((b'0' + n % 10) ∷ []))

digits_of-IsCons : (s : Bytes) → IsCons s → digits_of s ≡ parse_digits 0 s
digits_of-IsCons [] h = elim h [ ]
digits_of-IsCons (c ∷ s) h = refl

digits_of-decimal : (n : ℕ) → digits_of (decimal n) ≡ some n
digits_of-decimal n =
    digits_of-IsCons (decimal n) (decimal-IsCons n)
    ∙ unfold decimal in parse_digits-digits (suc n) n [] (omega arith)

parse_int_digits : (s : Bytes) → All IsDigit s → IsCons s → parse_int s ≡ positive (digits_of s)
parse_int_digits [] h k = elim k [ ]
parse_int_digits (c ∷ s) h k = ground arith

pub parse_int-format_int :
    (i : ℤ) → min_int64 ≤ℤ i → i ≤ℤ max_int64 → parse_int (format_int i) ≡ some i
unfolding format_int
parse_int-format_int (pos n) h k =
    parse_int_digits (decimal n) (decimal-IsDigit n) (decimal-IsCons n)
    ∙ ap positive (digits_of-decimal n)
    ∙ ground arith
parse_int-format_int (negsuc n) h k =
    ap negative (digits_of-decimal (suc n))
    ∙ (ground
        (arith, eq_of_parts (pos 0 -ℤ pos (suc n)) (negsuc n), -ℤ_parts (pos 0) (pos (suc n))))

digits_one : (f n : ℕ) (out : Bytes) → n < f → 1 + length out ≤ length (digits f n out)
unfolding digits
digits_one zero n out h = absurd (omega arith)
digits_one (suc f) n out h = ground (arith, digits_one f (n / 10) ((b'0' + n % 10) ∷ out))

-- One digit more than those of a tenth.
digits_more :
    (f n k : ℕ) (out : Bytes)
    → 10 ≤ n
    → k + (1 + length out) ≤ length (digits f (n / 10) ((b'0' + n % 10) ∷ out))
    → suc k + length out ≤ length (digits (suc f) n out)
unfolding digits
digits_more f n k out h g = ground arith

pub length-decimal : (n : ℕ) → 1000 ≤ n → 4 ≤ length (decimal n)
unfolding decimal
length-decimal (suc (suc (suc m))) h =
    let n : ℕ = suc (suc (suc m)) in
    let a : ℕ = n / 10 in
    let b : ℕ = a / 10 in
    let last : Bytes = (b'0' + n % 10) ∷ [] in
    let two : Bytes = (b'0' + a % 10) ∷ last in
    let three : Bytes = (b'0' + b % 10) ∷ two in
    digits_more n n 3 [] (omega arith) (
      digits_more (suc (suc m)) a 2 last (omega arith) (
        digits_more (suc m) b 1 two (omega arith)
          (digits_one (suc m) (b / 10) three (omega arith))))
length-decimal n h = absurd (omega arith)
