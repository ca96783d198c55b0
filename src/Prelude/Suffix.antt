-- ===== src/Prelude/Suffix.antt =====
-- The newest elements of a list that grows at its end.
use Prim.Native.Nat.{ℕ, zero, suc, ◌+◌, ◌-◌, ◌≤◌, ◌<◌, min}
use native.Mathlib.Nat.{suc-le-suc_iff}
use mathlib.Core.Path.{◌≡◌, refl, ap, ◌∙◌, sym}
use mathlib.Core.List.{List, [], ◌∷◌, ◌++◌}
use native.Mathlib.Decide.{dec_le}
use native.Mathlib.Omega.{arith}
use rapido_go.Prelude.Lists.{length, length-append, length-drop, get_or, drop, keep_last}

module _ {ℓ} {A : Type ℓ} where
  pub drop-append_le :
      (k : ℕ) (xs ys : List A) → k ≤ length xs → drop k (xs ++ ys) ≡ drop k xs ++ ys
  drop-append_le zero xs ys h = refl
  drop-append_le (suc k) [] ys h = elim h [ ]
  drop-append_le (suc k) (x ∷ xs) ys h = drop-append_le k xs ys (omega arith)

  pub drop-drop : (a b m : ℕ) (xs : List A) → b + a ≡ m → drop a (drop b xs) ≡ drop m xs
  drop-drop a zero m xs e = let e' : a ≡ m = omega arith in rw e'
  drop-drop zero (suc b) m [] e = let e' : m ≡ suc (m - 1) = omega arith in rw e'
  drop-drop (suc a) (suc b) m [] e = let e' : m ≡ suc (m - 1) = omega arith in rw e'
  drop-drop a (suc b) m (x ∷ xs) e =
      let e' : m ≡ suc (m - 1) = omega arith in rw e' (drop-drop a b (m - 1) xs (omega arith))

  pub drop-append_add :
      (k m : ℕ) (xs ys : List A) → length xs + k ≡ m → drop m (xs ++ ys) ≡ drop k ys
  drop-append_add k m [] ys e = let e' : m ≡ k = omega arith in rw e'
  drop-append_add k m (x ∷ xs) ys e =
      let e' : m ≡ suc (m - 1) = omega arith in
      rw e' (drop-append_add k (m - 1) xs ys (omega arith))

  pub length-keep_last : (c : ℕ) (xs : List A) → length (keep_last c xs) ≡ min c (length xs)
  length-keep_last c xs = omega (arith, length-drop (length xs - c) xs)

  pub keep_last_short : (c : ℕ) (xs : List A) → length xs ≤ c → keep_last c xs ≡ xs
  keep_last_short c xs h = let e : length xs - c ≡ 0 = omega arith in rw e

  -- What an earlier cut dropped would be dropped by the later one too.
  pub keep_last-append :
      (c : ℕ) (xs ys : List A) → keep_last c (keep_last c xs ++ ys) ≡ keep_last c (xs ++ ys)
  keep_last-append c xs ys =
      let d = length xs - c in
      let sizes : d + (length (drop d xs ++ ys) - c) ≡ length (xs ++ ys) - c =
        omega (arith, length-append xs ys, length-append (drop d xs) ys, length-drop d xs) in
      ap (drop (length (drop d xs ++ ys) - c)) (sym (drop-append_le d xs ys (omega arith)))
      ∙ drop-drop (length (drop d xs ++ ys) - c) d (length (xs ++ ys) - c) (xs ++ ys) sizes

  -- Cutting the new elements first changes nothing.
  pub keep_last-append_right :
      (c : ℕ) (xs ys : List A) → keep_last c (xs ++ keep_last c ys) ≡ keep_last c (xs ++ ys)
  keep_last-append_right c xs ys =
      let d = length ys - c in
      elim (dec_le (length ys) c) [
        | yes h ↦ rw (keep_last_short c ys h)
        | no h ↦
            drop-append_add 0 (length (xs ++ drop d ys) - c) xs (drop d ys)
              (omega (arith, length-append xs (drop d ys), length-drop d ys))
            ∙ sym (
                drop-append_add d (length (xs ++ ys) - c) xs ys
                  (omega (arith, length-append xs ys)))
      ]

  -- Dropping from the front leaves the last element.
  pub get_or-drop_last :
      (k : ℕ) (xs : List A) (d : A)
      → k < length xs
      → get_or (drop k xs) (length (drop k xs) - 1) d ≡ get_or xs (length xs - 1) d
  get_or-drop_last zero xs d h = refl
  get_or-drop_last (suc k) [] d h = elim h [ ]
  get_or-drop_last (suc k) (x ∷ []) d h = elim (suc-le-suc_iff.0 h) [ ]
  get_or-drop_last (suc k) (x ∷ y ∷ xs) d h =
      let e : length (x ∷ y ∷ xs) - 1 ≡ suc (length (y ∷ xs) - 1) = omega arith in
      rw e (get_or-drop_last k (y ∷ xs) d (omega arith))
