-- ===== src/Logstream/Ring/Order.antt =====
-- Ids in the log ring: those handed out grow, so the entries held are sorted by id.
use rapido_go.Prelude.{
  ℕ, ◌+◌, ◌<◌, ◌≡◌, ℤ, pos, ◌≤ℤ◌, ◌<ℤ◌, max_int64, min_int64, int64_exact, ◌+ℤ◌, +ℤ_parts, int_laws,
  length, arith, ltb, if◌then◌else◌, Bool-cases, inl, inr,
}
use native.Mathlib.Nat.{add-zero}
use rapido_go.Prelude.Circular.{at-push_room, at-push_full}
use rapido_go.Logstream.Ring.{Entry, zero_entry, Ring, store, next_id, at}
use rapido_go.Logstream.Ring.Valid.{IsValid}

pub record IsOrdered (r : Ring) : Type 0 where
  pub sorted : (i j : ℕ) → i < j → j < r.n → (at r i).id <ℤ (at r j).id
  pub below : (i : ℕ) → i < r.n → (at r i).id ≤ℤ r.last_id

-- How many entries the next `store` drops.
abbrev dropped : Ring → ℕ
dropped r = if ltb r.n (length r.buf) then 0 else 1

module _ (r : Ring) (e : Entry) (v : IsValid r) where
  n-store : (store r e).n + dropped r ≡ r.n + 1
  unfolding store
  n-store = ground arith

  at-store :
      (i : ℕ)
      → i < (store r e).n
      → at (store r e) i ≡ (if ltb (i + dropped r) r.n then at r (i + dropped r) else e)
  unfolding store
  at-store i h = elim (Bool-cases (ltb r.n (length r.buf))) [
    | inl b ↦
        let in_room : r.n < length r.buf = ground arith in
        rw b (
          rw add-zero
            (at-push_room zero_entry r.buf r.start e v.start_in r.n i in_room (ground arith)))
    | inr b ↦
        let full : r.n ≡ length r.buf = ground (arith, v.n_in) in
        rw b (rw full (at-push_full zero_entry r.buf r.start e v.start_in i (ground arith)))
  ]

  pub last_id-store : (store r e).last_id ≡ e.id
  unfolding store
  last_id-store = ground arith

  pub store-IsOrdered : r.last_id <ℤ e.id → IsOrdered r → IsOrdered (store r e)
  store-IsOrdered h o = record {
    sorted = λ i j ij jn. ground (
      arith,
      n-store,
      last_id-store,
      at-store i (omega arith),
      at-store j jn,
      o.sorted (i + dropped r) (j + dropped r),
      o.below (i + dropped r),
    );
    below = λ i hi. ground (arith, n-store, last_id-store, at-store i hi, o.below (i + dropped r));
  }

-- The id given to a line is above the last one, unless the last one is the largest int64.
pub next_id-gt : (id last : ℤ) → min_int64 ≤ℤ last → last <ℤ max_int64 → last <ℤ next_id id last
unfolding next_id
next_id-gt id last lo hi =
    ground
      (arith, int64_exact (last +ℤ pos 1) (omega int_laws) (omega int_laws), +ℤ_parts last (pos 1))

-- It is the clock's reading where that is above the last id.
pub next_id_clock : (id last : ℤ) → last <ℤ id → next_id id last ≡ id
unfolding next_id
next_id_clock id last h = ground arith
