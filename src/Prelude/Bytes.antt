-- ===== src/Prelude/Bytes.antt =====
-- Texts as lists of bytes, with strings.TrimSpace for texts whose blanks are ASCII.
use Prim.Native.Char.{code}
use Prim.Native.Nat.{ℕ}
use Prim.Native.String.{String}
use mathlib.Core.Path.{◌≡◌, refl, sym, ap, ap₂, ◌∙◌}
use mathlib.Core.Logic.{inl, inr}
use mathlib.Core.Bool.{Bool, true, false, ◌&&◌, ◌||◌}
use mathlib.Core.Option.{Option, none, some}
use mathlib.Core.List.{List, [], ◌∷◌}
use native.Mathlib.Omega.{arith}
use rapido_go.Prelude.Tests.{Comparable, ◌==◌, nat_eq, nat_beq_iff, leb, if◌then◌else◌, Bool-cases}

abbrev pub Bytes : Type 0
Bytes = List ℕ

-- Equality of texts.
abbrev pub is_same : Bytes → Bytes → Bool
is_same [] [] = true
is_same [] (d ∷ t) = false
is_same (c ∷ s) [] = false
is_same (c ∷ s) (d ∷ t) = (c == d) && is_same s t

abbrev pub is_space : ℕ → Bool
is_space c = (c == b' ') || (leb 9 c && leb c 13)

-- Blanks are taken off the end where nothing else follows.
abbrev pub cons_trimmed : ℕ → Bytes → Bytes
cons_trimmed c [] = if is_space c then [] else c ∷ []
cons_trimmed c (d ∷ s) = c ∷ d ∷ s

abbrev pub trim_right : Bytes → Bytes
trim_right [] = []
trim_right (c ∷ s) = cons_trimmed c (trim_right s)

abbrev pub trim_left : Bytes → Bytes
trim_left [] = []
trim_left (c ∷ s) = let rest = trim_left s in if is_space c then rest else c ∷ s

-- strings.TrimSpace
abbrev pub trim_space : Bytes → Bytes
trim_space s = trim_left (trim_right s)

-- The bytes of an ASCII text.
abbrev pub bytes : String → Bytes
bytes String.[] = []
bytes (String.◌∷◌ c s) = code c ∷ bytes s

pub is_same-path : (s t : Bytes) → is_same s t ≡ true → s ≡ t
is_same-path [] [] e = refl
is_same-path [] (d ∷ t) e = absurd (ground (arith, e))
is_same-path (c ∷ s) [] e = absurd (ground (arith, e))
is_same-path (c ∷ s) (d ∷ t) e = elim (Bool-cases (c == d)) [
  | inl f ↦ ap₂ (λ x y. x ∷ y) ((nat_beq_iff c d).0 f) (is_same-path s t (rw f at e))
  | inr f ↦ absurd (let g = rw f at e in ground (arith, g))
]

pub is_same_self : (s : Bytes) → is_same s s ≡ true
is_same_self [] = refl
is_same_self (c ∷ s) = rw ((nat_beq_iff c c).1 refl) (is_same_self s)

instance abbrev pub bytes_eq : Comparable Bytes
bytes_eq = record {
  beq = is_same;
  beq_path = λ s t. (is_same-path s t, λ e. ap (is_same s) (sym e) ∙ is_same_self s);
}

-- What follows a prefix of a text.
abbrev pub strip_prefix : Bytes → Bytes → Option Bytes
strip_prefix [] s = some s
strip_prefix (c ∷ p) [] = none
strip_prefix (c ∷ p) (d ∷ s) = let rest = strip_prefix p s in if c == d then rest else none

-- strings.HasPrefix
abbrev pub has_prefix : Bytes → Bytes → Bool
has_prefix [] s = true
has_prefix (c ∷ p) [] = false
has_prefix (c ∷ p) (d ∷ s) = let rest = has_prefix p s in (c == d) && rest
