-- ===== src/Prelude/Search.antt =====
-- `sort.Search` of Go's standard library: a binary search for the first index in [0, n) at which
-- a monotone test holds.
use Prim.Native.Nat.{ℕ, zero, suc, ◌+◌, ◌/◌, ◌≤◌, ◌<◌}
use mathlib.Core.Path.{◌≡◌}
use mathlib.Core.Logic.{inl, inr}
use mathlib.Core.Bool.{Bool, true, false}
use native.Mathlib.Omega.{arith}
use rapido_go.Prelude.Tests.{ltb, Bool-cases}

-- for i < j { h := (i + j) / 2; if !f(h) { i = h + 1 } else { j = h } }
pub search_loop : ℕ → (ℕ → Bool) → ℕ → ℕ → ℕ
search_loop zero f i j = i
search_loop (suc fuel) f i j = elim (ltb i j) [
  | true ↦ elim (f ((i + j) / 2)) [
    | true ↦ search_loop fuel f i ((i + j) / 2)
    | false ↦ search_loop fuel f ((i + j) / 2 + 1) j
  ]
  | false ↦ i
]

-- A round at least halves j - i, so n rounds are enough.
unfoldable pub search : ℕ → (ℕ → Bool) → ℕ
unfolding search_loop
search n f = search_loop n f 0 n

-- `k` is the first index in [0, n) at which the test holds, or n.
pub record IsFirst (n : ℕ) (f : ℕ → Bool) (k : ℕ) : Type 0 where
  pub within : k ≤ n
  pub before : (x : ℕ) → x < k → f x ≡ false
  pub from : (x : ℕ) → k ≤ x → x < n → f x ≡ true

module _ (n : ℕ) (f : ℕ → Bool) (mono : (x y : ℕ) → x ≤ y → y < n → f x ≡ true → f y ≡ true) where
  below_false : (h x : ℕ) → h < n → f h ≡ false → x ≤ h → f x ≡ false
  below_false h x hn e le = elim (Bool-cases (f x)) [
    | inl t ↦ absurd (ground (arith, mono x h le hn t))
    | inr e' ↦ e'
  ]

  search_loop-IsFirst :
      (fuel i j : ℕ)
      → i ≤ j
      → j ≤ n
      → j ≤ i + fuel
      → ((x : ℕ) → x < i → f x ≡ false)
      → ((x : ℕ) → j ≤ x → x < n → f x ≡ true)
      → IsFirst n f (search_loop fuel f i j)
  unfolding search_loop
  search_loop-IsFirst zero i j ij jn fu lo hi = record {
    within = omega arith;
    before = lo;
    from = λ x h k. hi x (omega arith) k;
  }
  search_loop-IsFirst (suc fuel) i j ij jn fu lo hi = elim (Bool-cases (ltb i j)) [
    | inr e ↦
        rw (e, search_loop)
          (record { within = omega arith; before = lo; from = λ x h k. hi x (ground arith) k })
    | inl e ↦ elim (Bool-cases (f ((i + j) / 2))) [
      | inl t ↦
          rw (e, t, search_loop)
            (search_loop-IsFirst fuel i ((i + j) / 2) (ground arith) (ground arith) (ground arith)
              lo (λ x h k. mono ((i + j) / 2) x h k t))
      | inr t ↦
          rw (e, t, search_loop)
            (search_loop-IsFirst fuel ((i + j) / 2 + 1) j (ground arith) jn (ground arith)
              (λ x h. below_false ((i + j) / 2) x (ground arith) t (omega arith)) hi)
    ]
  ]

  pub search-IsFirst : IsFirst n f (search n f)
  unfolding search
  search-IsFirst =
      search_loop-IsFirst n 0 n (omega arith) (omega arith) (omega arith) (λ x h. elim h [ ])
        (λ x h k. absurd (omega arith))
