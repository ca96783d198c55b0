-- ===== src/Prelude/Circular.antt =====
-- A slice used as a circular buffer: the element `i` places round from `s`, and the run of `k`
-- elements that starts `i` places round.
use Prim.Native.Nat.{ℕ, zero, suc, ◌+◌, ◌-◌, ◌%◌, ◌≤◌, ◌<◌, min}
use mathlib.Core.Bool.{Bool, true, false}
use mathlib.Core.Path.{◌≡◌, refl, ap, ap₂, ◌∙◌, sym}
use mathlib.Core.Logic.{◌≢◌, inl, inr}
use rapido_go.Prelude.Tests.{ltb, if◌then◌else◌, Bool-cases}
use mathlib.Core.List.{List, [], ◌∷◌, ◌++◌}
use native.Mathlib.Nat.{mod-add-mod, zero-add, suc-add, div-add-mod, mod-lt}
use native.Mathlib.Omega.{arith}
use rapido_go.Prelude.Lists.{
  take, drop, select, select-append, length, length-append, keep_last, get_or, set, get_or-set_self,
  get_or-set_ne, length-set,
}

module _ {ℓ} {A : Type ℓ} (d : A) where
  abbrev pub at_circular : List A → ℕ → ℕ → A
  at_circular buf s i = get_or buf ((s + i) % length buf) d

  abbrev pub window : List A → ℕ → ℕ → ℕ → List A
  window buf s i zero = []
  window buf s i (suc k) = at_circular buf s i ∷ window buf s (i + 1) k

  pub length-window : (buf : List A) (s i k : ℕ) → length (window buf s i k) ≡ k
  length-window buf s i zero = refl
  length-window buf s i (suc k) = ap suc (length-window buf s (i + 1) k)

-- Two places less than a full turn apart are different.
pub mod-ne : (a b c : ℕ) → a < b → b < a + c → a % c ≢ b % c
mod-ne a b c h k e = grind (arith, div-add-mod a c, div-add-mod b c)

module _ {ℓ} {A : Type ℓ} (d : A) where
  -- Writing at place `j` and reading there.
  pub at_circular-set_self :
      (buf : List A) (s j : ℕ) (v : A)
      → 0 < length buf
      → at_circular d (set buf ((s + j) % length buf) v) s j ≡ v
  at_circular-set_self buf s j v h =
      rw (length-set buf) (get_or-set_self buf ((s + j) % length buf) v d (mod-lt (s + j) h))

  -- Writing at place `j` leaves the places less than a turn before it.
  pub at_circular-set_ne :
      (buf : List A) (s i j : ℕ) (v : A)
      → i < j
      → j < i + length buf
      → at_circular d (set buf ((s + j) % length buf) v) s i ≡ at_circular d buf s i
  at_circular-set_ne buf s i j v h k = rw (length-set buf) (
      get_or-set_ne buf ((s + j) % length buf) ((s + i) % length buf) v d
        (λ e. mod-ne (s + i) (s + j) (length buf) (omega arith) (omega arith) (sym e)))

  -- Moving the start one place round moves every place by one.
  pub at_circular-suc :
      (buf : List A) (s i : ℕ)
      → at_circular d buf ((s + 1) % length buf) i ≡ at_circular d buf s (i + 1)
  at_circular-suc buf s i =
      ap (λ t. get_or buf t d)
        (mod-add-mod (s + 1) (length buf) i ∙ ap (λ t. t % length buf) (omega arith))

  pub window-suc :
      (buf : List A) (s i k : ℕ)
      → window d buf ((s + 1) % length buf) i k ≡ window d buf s (i + 1) k
  window-suc buf s i zero = refl
  window-suc buf s i (suc k) = ap₂ ◌∷◌ (at_circular-suc buf s i) (window-suc buf s (i + 1) k)

  -- Writing right behind a run extends it.
  pub window-set :
      (buf : List A) (s i k j : ℕ) (v : A)
      → i + k ≡ j
      → 0 < length buf
      → j < i + length buf
      → window d (set buf ((s + j) % length buf) v) s i (suc k) ≡ window d buf s i k ++ (v ∷ [])
  window-set buf s i zero j v e h b =
      ap (λ x. x ∷ []) (let e' : i ≡ j = omega arith in rw e' (at_circular-set_self buf s j v h))
  window-set buf s i (suc k) j v e h b =
      ap₂ ◌∷◌ (at_circular-set_ne buf s i j v (omega arith) b)
        (window-set buf s (i + 1) k j v (omega arith) h (omega arith))

  pub window_split :
      (buf : List A) (s i j k m : ℕ)
      → i + j ≡ m
      → window d buf s i (j + k) ≡ window d buf s i j ++ window d buf s m k
  window_split buf s i zero k m e = let e' : i ≡ m = omega arith in rw (e', zero-add)
  window_split buf s i (suc j) k m e =
      rw suc-add
        (ap (λ r. at_circular d buf s i ∷ r) (window_split buf s (i + 1) j k m (omega arith)))

-- A full turn leads back to the start.
mod_turn : (s c : ℕ) → s < c → (s + c) % c ≡ s
mod_turn s c h = grind (arith, div-add-mod (s + c) c, mod-lt (s + c))

-- Writing into a buffer that holds `n` elements from `s` on: behind the newest while there is room,
-- over the oldest when there is none.
module _ {ℓ} {A : Type ℓ} (d : A) (buf : List A) (s : ℕ) (v : A) (start_in : s < length buf) where
  pub window-push_room :
      (n : ℕ)
      → n < length buf
      → window d (set buf ((s + n) % length buf) v) s 0 (n + 1) ≡ window d buf s 0 n ++ (v ∷ [])
  window-push_room n h =
      let e' : n + 1 ≡ suc n = omega arith in
      rw e' (window-set d buf s 0 n n v (omega arith) (omega arith) (omega arith))

  overwrite_as_turn : set buf s v ≡ set buf ((s + length buf) % length buf) v
  overwrite_as_turn = ap (λ t. set buf t v) (sym (mod_turn s (length buf) start_in))

  length-turn : length (set buf ((s + length buf) % length buf) v) ≡ length buf
  length-turn = length-set buf ((s + length buf) % length buf) v

  pub window-push_full :
      window d (set buf s v) ((s + 1) % length buf) 0 (length buf)
      ≡ window d buf s 1 (length buf - 1) ++ (v ∷ [])
  window-push_full =
      let turned = set buf ((s + length buf) % length buf) v in
      rw overwrite_as_turn (
        ap (λ c. window d turned ((s + 1) % c) 0 (length buf)) (sym length-turn)
        ∙ window-suc d turned s 0 (length buf)
        ∙ ap (λ k. window d turned s 1 k) {y = suc (length buf - 1)} (omega arith)
        ∙ window-set d buf s 1 (length buf - 1) (length buf) v (omega arith) (omega arith)
            (omega arith))

  pub at-push_room :
      (n i : ℕ)
      → n < length buf
      → i ≤ n
      → at_circular d (set buf ((s + n) % length buf) v) s i
        ≡ (if ltb i n then at_circular d buf s i else v)
  at-push_room n i h k = elim (Bool-cases (ltb i n)) [
    | inl e ↦ rw e (at_circular-set_ne d buf s i n v (ground arith) (omega arith))
    | inr e ↦
        let e' : i ≡ n = ground arith in
        rw e (rw e' (at_circular-set_self d buf s n v (omega arith)))
  ]

  pub at-push_full :
      (i : ℕ)
      → i < length buf
      → at_circular d (set buf s v) ((s + 1) % length buf) i
        ≡ (if ltb (i + 1) (length buf) then at_circular d buf s (i + 1) else v)
  at-push_full i h =
      let turned = set buf ((s + length buf) % length buf) v in
      rw overwrite_as_turn (
        ap (λ c. at_circular d turned ((s + 1) % c) i) (sym length-turn)
        ∙ at_circular-suc d turned s i
        ∙ elim (Bool-cases (ltb (i + 1) (length buf))) [
          | inl e ↦
              rw e (at_circular-set_ne d buf s (i + 1) (length buf) v (ground arith) (omega arith))
          | inr e ↦
              let e' : i + 1 ≡ length buf = ground arith in
              rw e (rw e' (at_circular-set_self d buf s (length buf) v (omega arith)))
        ])

-- What the buffer holds after such a write: the elements before it with the new one behind, as
-- many of the newest as there is room for.
module _ {ℓ} {A : Type ℓ} (d : A) (buf : List A) (s : ℕ) (v : A) (start_in : s < length buf) where
  keep_last_room :
      (xs : List A) (c : ℕ) → length xs < c → keep_last c (xs ++ (v ∷ [])) ≡ xs ++ (v ∷ [])
  keep_last_room xs c h =
      let e : length (xs ++ (v ∷ [])) - c ≡ 0 = omega (arith, length-append xs (v ∷ [])) in rw e

  pub window-push_room_kept :
      (n : ℕ)
      → n < length buf
      → window d (set buf ((s + n) % length buf) v) s 0 (n + 1)
        ≡ keep_last (length buf) (window d buf s 0 n ++ (v ∷ []))
  window-push_room_kept n h =
      window-push_room d buf s v start_in n h
      ∙ sym (keep_last_room (window d buf s 0 n) (length buf) (rw (length-window d buf s 0 n) h))

  window_head :
      (n : ℕ) → 0 < n → window d buf s 0 n ≡ at_circular d buf s 0 ∷ window d buf s 1 (n - 1)
  window_head zero h = elim h [ ]
  window_head (suc n) h = ap (λ k. at_circular d buf s 0 ∷ window d buf s 1 k) (omega arith)

  pub window-push_full_kept :
      window d (set buf s v) ((s + 1) % length buf) 0 (length buf)
      ≡ keep_last (length buf) (window d buf s 0 (length buf) ++ (v ∷ []))
  window-push_full_kept =
      let rest = window d buf s 1 (length buf - 1) in
      let one_over : length ((at_circular d buf s 0 ∷ rest) ++ (v ∷ [])) - length buf ≡ 1 =
        omega (arith, length-append rest (v ∷ []), length-window d buf s 1 (length buf - 1)) in
      window-push_full d buf s v start_in
      ∙ sym (rw (window_head (length buf) (omega arith)) (rw one_over))

-- Selecting from a run on which the test is constant, and cutting a run short.
module _ {ℓ} {A : Type ℓ} (d : A) (buf : List A) (s : ℕ) where
  pub take-window : (l i k : ℕ) → take l (window d buf s i k) ≡ window d buf s i (min l k)
  take-window zero i k = let e : min zero k ≡ 0 = omega arith in rw e
  take-window (suc l) i zero = let e : min (suc l) zero ≡ 0 = omega arith in rw e
  take-window (suc l) i (suc k) =
      let e : min (suc l) (suc k) ≡ suc (min l k) = omega arith in
      rw e (ap (λ r. at_circular d buf s i ∷ r) (take-window l (i + 1) k))

  pub drop-window :
      (l i k m : ℕ) → l ≤ k → i + l ≡ m → drop l (window d buf s i k) ≡ window d buf s m (k - l)
  drop-window zero i k m h e =
      let e' : i ≡ m = omega arith in let e'' : k - zero ≡ k = omega arith in rw (e', e'')
  drop-window (suc l) i zero m h e = elim h [ ]
  drop-window (suc l) i (suc k) m h e =
      let e' : suc k - suc l ≡ k - l = omega arith in
      rw e' (drop-window l (i + 1) k m (omega arith) (omega arith))

  pub get_or-window :
      (i j k m : ℕ) → j < k → i + j ≡ m → get_or (window d buf s i k) j d ≡ at_circular d buf s m
  get_or-window i j zero m h e = elim h [ ]
  get_or-window i zero (suc k) m h e = let e' : i ≡ m = omega arith in rw e'
  get_or-window i (suc j) (suc k) m h e = get_or-window (i + 1) j k m (omega arith) (omega arith)

  module _ (p : A → Bool) where
    pub select-window_none :
        (i k : ℕ)
        → ((x : ℕ) → i ≤ x → x < i + k → p (at_circular d buf s x) ≡ false)
        → select p (window d buf s i k) ≡ []
    select-window_none i zero h = refl
    select-window_none i (suc k) h =
        rw (h i (omega arith) (omega arith))
          (select-window_none (i + 1) k (λ x a b. h x (omega arith) (omega arith)))

    pub select-window_all :
        (i k : ℕ)
        → ((x : ℕ) → i ≤ x → x < i + k → p (at_circular d buf s x) ≡ true)
        → select p (window d buf s i k) ≡ window d buf s i k
    select-window_all i zero h = refl
    select-window_all i (suc k) h = rw (h i (omega arith) (omega arith)) (
        ap (λ r. at_circular d buf s i ∷ r)
          (select-window_all (i + 1) k (λ x a b. h x (omega arith) (omega arith))))

    -- A test that first holds at place `m` selects what stands from there on.
    pub select-window_from :
        (n m : ℕ)
        → m ≤ n
        → ((x : ℕ) → x < m → p (at_circular d buf s x) ≡ false)
        → ((x : ℕ) → m ≤ x → x < n → p (at_circular d buf s x) ≡ true)
        → select p (window d buf s 0 n) ≡ window d buf s m (n - m)
    select-window_from n m h lo hi =
        let e : n ≡ m + (n - m) = omega arith in
        ap (λ k. select p (window d buf s 0 k)) e
        ∙ ap (select p) (window_split d buf s 0 m (n - m) m (omega arith))
        ∙ select-append p (window d buf s 0 m) (window d buf s m (n - m))
        ∙ rw (select-window_none 0 m (λ x a b. lo x (omega arith)))
            (select-window_all m (n - m) (λ x a b. hi x a (omega arith)))
