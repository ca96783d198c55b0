-- ===== src/Prelude/Int.antt =====
-- Signed integers over the native numbers, and the wrap-around of Go's int64.
use Prim.Native.Nat.{ℕ, suc, ◌+◌, ◌-◌, ◌%◌, ◌^◌, ◌≤◌, ◌<◌, compare, Ordering}
use mathlib.Core.Path.{◌≡◌, ap, ◌∙◌}
use mathlib.Core.Bool.{Bool, true, false}
use mathlib.Core.Logic.{◌↔◌}
use native.Mathlib.Omega.{arith}
use rapido_go.Prelude.Tests.{Comparable, ltb, leb, if◌then◌else◌}

-- `negsuc n` is -(n + 1).
pub data ℤ : Type 0 where
  pos : ℕ → ℤ
  negsuc : ℕ → ℤ

abbrev pub pos_part : ℤ → ℕ
pos_part (pos n) = n
pos_part (negsuc n) = 0

abbrev pub neg_part : ℤ → ℕ
neg_part (pos n) = 0
neg_part (negsuc n) = suc n

-- a - b, as an integer.
abbrev pub sub_ℕ : ℕ → ℕ → ℤ
sub_ℕ a b = if leb b a then pos (a - b) else negsuc (b - a - 1)

infixl 65 ◌+ℤ◌ ◌-ℤ◌
infix 50 ◌≤ℤ◌ ◌<ℤ◌
unfoldable pub ◌+ℤ◌ : ℤ → ℤ → ℤ
a +ℤ b = sub_ℕ (pos_part a + pos_part b) (neg_part a + neg_part b)

unfoldable pub ◌-ℤ◌ : ℤ → ℤ → ℤ
a -ℤ b = sub_ℕ (pos_part a + neg_part b) (neg_part a + pos_part b)

abbrev pub ◌≤ℤ◌ : ℤ → ℤ → Type 0
a ≤ℤ b = pos_part a + neg_part b ≤ pos_part b + neg_part a

abbrev pub ◌<ℤ◌ : ℤ → ℤ → Type 0
a <ℤ b = pos_part a + neg_part b < pos_part b + neg_part a

abbrev pub ltb_ℤ : ℤ → ℤ → Bool
ltb_ℤ a b = ltb (pos_part a + neg_part b) (pos_part b + neg_part a)

abbrev pub leb_ℤ : ℤ → ℤ → Bool
leb_ℤ a b = leb (pos_part a + neg_part b) (pos_part b + neg_part a)

abbrev pub beq_ℤ : ℤ → ℤ → Bool
beq_ℤ a b = elim (compare (pos_part a + neg_part b) (pos_part b + neg_part a)) [
  | Ordering.eq ↦ true
  | _ ↦ false
]

pub eq_of_parts : (a b : ℤ) → pos_part a + neg_part b ≡ pos_part b + neg_part a → a ≡ b
eq_of_parts a b h = ground arith

pub beq_ℤ_iff : (a b : ℤ) → (beq_ℤ a b ≡ true) ↔ (a ≡ b)
beq_ℤ_iff a b = ground (arith, eq_of_parts a b)

instance abbrev pub int_eq : Comparable ℤ
int_eq = record { beq = beq_ℤ; beq_path = beq_ℤ_iff }

pub +ℤ_parts :
    (a b : ℤ)
    → pos_part (a +ℤ b) + neg_part a + neg_part b ≡ neg_part (a +ℤ b) + pos_part a + pos_part b
unfolding ◌+ℤ◌
+ℤ_parts a b = ground arith

pub -ℤ_parts :
    (a b : ℤ)
    → pos_part (a -ℤ b) + neg_part a + pos_part b ≡ neg_part (a -ℤ b) + pos_part a + neg_part b
unfolding ◌-ℤ◌
-ℤ_parts a b = ground arith

pub ruleset int_laws = (arith, +ℤ_parts, -ℤ_parts, eq_of_parts)

abbrev pub max_int64 : ℤ
max_int64 = pos (2 ^ 63 - 1)

abbrev pub min_int64 : ℤ
min_int64 = negsuc (2 ^ 63 - 1)

-- The residue of an integer modulo 2^64.
abbrev pub word64 : ℤ → ℕ
word64 (pos n) = n % 2 ^ 64
word64 (negsuc n) = 2 ^ 64 - 1 - n % 2 ^ 64

-- The int64 that a word stands for, in two's complement.
abbrev pub signed64 : ℕ → ℤ
signed64 w = if ltb w (2 ^ 63) then pos w else negsuc (2 ^ 64 - 1 - w)

-- The int64 that the result of an exact operation wraps round to.
unfoldable pub int64 : ℤ → ℤ
int64 a = signed64 (word64 a)

pub IsInt64 : ℤ → Type 0
IsInt64 a = (min_int64 ≤ℤ a) × (a ≤ℤ max_int64)

pub int64_exact : (a : ℤ) → min_int64 ≤ℤ a → a ≤ℤ max_int64 → int64 a ≡ a
unfolding int64
int64_exact a h k = ground arith

-- Words add modulo 2^64, so wrapping early changes nothing.
word64-signed64 : (w : ℕ) → w < 2 ^ 64 → word64 (signed64 w) ≡ w
word64-signed64 w h = ground arith

word64-lt : (a : ℤ) → word64 a < 2 ^ 64
word64-lt (pos n) = omega arith
word64-lt (negsuc n) = omega arith

word64_parts : (a : ℤ) → (word64 a + neg_part a) % 2 ^ 64 ≡ pos_part a % 2 ^ 64
word64_parts (pos n) = omega arith
word64_parts (negsuc n) = omega arith

word64_cong :
    (a b : ℤ)
    → (pos_part a + neg_part b) % 2 ^ 64 ≡ (pos_part b + neg_part a) % 2 ^ 64
    → word64 a ≡ word64 b
word64_cong a b h = omega (arith, word64_parts a, word64_parts b, word64-lt a, word64-lt b)

word64-+ℤ : (s a b : ℤ) → word64 s ≡ word64 a → word64 (s +ℤ b) ≡ word64 (a +ℤ b)
word64-+ℤ s a b h =
    word64_cong (s +ℤ b) (a +ℤ b)
      (omega (arith, h, word64_parts s, word64_parts a, +ℤ_parts s b, +ℤ_parts a b))

pub int64-+ℤ : (a b : ℤ) → int64 (int64 a +ℤ b) ≡ int64 (a +ℤ b)
unfolding int64
int64-+ℤ a b =
    ap signed64 (word64-+ℤ (signed64 (word64 a)) a b (word64-signed64 (word64 a) (word64-lt a)))

-- A counter that holds a number of things goes up and down with it.
pub int64_up : (n : ℕ) → int64 (int64 (pos n) +ℤ pos 1) ≡ int64 (pos (n + 1))
int64_up n =
    int64-+ℤ (pos n) (pos 1) ∙ ap int64 (eq_of_parts _ _ (omega (arith, +ℤ_parts (pos n) (pos 1))))

pub int64_down : (n m : ℕ) → m ≡ n + 1 → int64 (int64 (pos m) +ℤ negsuc 0) ≡ int64 (pos n)
int64_down n m e =
    int64-+ℤ (pos m) (negsuc 0)
    ∙ ap int64 (eq_of_parts _ _ (omega (arith, +ℤ_parts (pos m) (negsuc 0))))

pub int64_small : (n : ℕ) → n < 2 ^ 63 → int64 (pos n) ≡ pos n
int64_small n h = int64_exact (pos n) (omega arith) (omega arith)

-- The conversion int32(a).
abbrev pub word32 : ℤ → ℕ
word32 (pos n) = n % 2 ^ 32
word32 (negsuc n) = 2 ^ 32 - 1 - n % 2 ^ 32

abbrev pub signed32 : ℕ → ℤ
signed32 w = if ltb w (2 ^ 31) then pos w else negsuc (2 ^ 32 - 1 - w)

unfoldable pub int32 : ℤ → ℤ
int32 a = signed32 (word32 a)

pub int32_small : (n : ℕ) → n < 2 ^ 31 → int32 (pos n) ≡ pos n
unfolding int32
int32_small n h = ground arith
