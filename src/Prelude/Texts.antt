-- ===== src/Prelude/Texts.antt =====
-- Lengths of cut texts, in bytes.
use Prim.Native.Nat.{ℕ, ◌-◌, ◌≤◌, compare, Ordering}
use Prim.Native.Char.{Char, len_utf8}
use Prim.Native.String.{String, len, slice, fits}
use Prim.Native.String.len
use Prim.Native.String.slice
use mathlib.Core.Path.{◌≡◌, refl}
use native.Mathlib.Omega.{arith}

len-fits :
    (c : Char) (s : String) (n : ℕ) (o : Ordering)
    → compare (len_utf8 c) n ≡ o
    → len s ≤ n - len_utf8 c
    → len (fits o c s) ≤ n
len-fits c s n Ordering.lt e h = rw len.cons (ground arith)
len-fits c s n Ordering.eq e h = rw len.cons (ground arith)
len-fits c s n Ordering.gt e h = rw len.nil (omega arith)

-- A cut text is no longer than the cut.
pub len-slice : (s : String) (n : ℕ) → len (slice s 0 n) ≤ n
len-slice String.[] n = rw (slice.nil, len.nil) (omega arith)
len-slice (String.◌∷◌ c s) n = rw slice.cons-zero (
    len-fits c (slice s 0 (n - len_utf8 c)) n (compare (len_utf8 c) n) refl
      (len-slice s (n - len_utf8 c)))
