-- ===== src/Pgdump/Fuel.antt =====
-- The fuel of the loops over a field.
use rapido_go.Prelude.{
  ℕ, zero, suc, ◌+◌, ◌*◌, ◌-◌, ◌≤◌, ◌<◌, ◌&&◌, ◌==◌, nat_eq, Option, none, [], ◌∷◌, length,
  if◌then◌else◌, if_cases, ◌≡◌, refl, ap, arith,
}
use rapido_go.Prelude.Bytes.{Bytes}
use rapido_go.Pgdump.{
  backslash, is_octal, is_hex, hex_value, take_octal, take_hex, starts_hex, escape_at, with_byte,
  unescape_at, unescape,
}

length-take_octal : (k n : ℕ) (s : Bytes) → length (take_octal k n s).1 ≤ length s
length-take_octal zero n s = omega arith
length-take_octal (suc k) n [] = omega arith
length-take_octal (suc k) n (c ∷ s) =
    if_cases {A = ℕ × Bytes} (λ r. length r.1 ≤ length (c ∷ s)) (is_octal c) _ _
      (λ e. omega (arith, length-take_octal k (8 * n + (c - b'0')) s)) (λ e. omega arith)

length-take_hex : (k n : ℕ) (s : Bytes) → length (take_hex k n s).1 ≤ length s
length-take_hex zero n s = omega arith
length-take_hex (suc k) n [] = omega arith
length-take_hex (suc k) n (c ∷ s) =
    if_cases {A = ℕ × Bytes} (λ r. length r.1 ≤ length (c ∷ s)) (is_hex c) _ _
      (λ e. omega (arith, length-take_hex k (16 * n + hex_value c) s)) (λ e. omega arith)

length-escape_at : (e : ℕ) (s : Bytes) → length (escape_at e s).1 ≤ length s
length-escape_at e s =
    if_cases {A = ℕ × Bytes} (λ r. length r.1 ≤ length s) (is_octal e) _ _
      (λ h. length-take_octal 2 (e - b'0') s)
      (λ h.
        if_cases {A = ℕ × Bytes} (λ r. length r.1 ≤ length s) ((e == b'x') && starts_hex s) _ _
          (λ k. length-take_hex 2 0 s) (λ k. omega arith))

unescape_at_same :
    (f g : Bytes → Option Bytes) (s : Bytes)
    → ((t : Bytes) → length t < length s → f t ≡ g t)
    → unescape_at f s ≡ unescape_at g s
unescape_at_same f g [] h = refl
unescape_at_same f g (c ∷ []) h =
    ap (λ r. if c == backslash then none else with_byte c r) (h [] (omega arith))
unescape_at_same f g (c ∷ e ∷ s) h =
    rw (h (escape_at e s).1 (omega (arith, length-escape_at e s)))
      (rw (h (e ∷ s) (omega arith)) refl)

-- More fuel than a field has bytes changes nothing.
unescape_enough : (k l : ℕ) (s : Bytes) → length s < k → length s < l → unescape k s ≡ unescape l s
unfolding unescape
unescape_enough zero l s h m = absurd (omega arith)
unescape_enough (suc k) zero s h m = absurd (omega arith)
unescape_enough (suc k) (suc l) s h m =
    unescape_at_same (unescape k) (unescape l) s
      (λ t n. unescape_enough k l t (omega (arith, h, n)) (omega (arith, m, n)))
