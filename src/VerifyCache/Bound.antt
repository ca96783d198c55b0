-- ===== src/VerifyCache/Bound.antt =====
-- The cache stays within its bound, and keeps what it has while there is room.
use rapido_go.Prelude.{
  ℕ, zero, suc, ◌≤◌, ◌<◌, ℤ, pos, ◌+ℤ◌, ltb_ℤ, ltb, Bool, Comparable, ◌==◌, none, some, [], ◌∷◌,
  Assoc, lookup-insert, length-insert, length, if◌then◌else◌, ◌≡◌, refl, arith, Bool-cases, inl,
  inr,
}
use rapido_go.VerifyCache.{
  VerifyEntry, drop_expired, drop_one, evict, cached, remember, ttl_of, verify_max_entries,
}

module _ {ℓ} {K : Type ℓ} where
  length-drop_expired : (now : ℤ) (m : Assoc K VerifyEntry) → length (drop_expired now m) ≤ length m
  length-drop_expired now [] = omega arith
  length-drop_expired now ((k, e) ∷ m) = ground (arith, length-drop_expired now m)

  length-drop_one :
      (i : ℕ) (x : K × VerifyEntry) (m : Assoc K VerifyEntry)
      → length (drop_one i (x ∷ m)) ≡ length m
  length-drop_one zero x m = refl
  length-drop_one (suc i) x [] = refl
  length-drop_one (suc i) x (y ∷ m) = omega (arith, length-drop_one i y m)

  drop_one-lt :
      (i : ℕ) (m : Assoc K VerifyEntry)
      → length m ≤ verify_max_entries
      → length (drop_one i m) < verify_max_entries
  drop_one-lt i [] h = omega arith
  drop_one-lt i (x ∷ m) h = omega (arith, length-drop_one i x m)

  length-evict :
      (now : ℤ) (i : ℕ) (m : Assoc K VerifyEntry)
      → length m ≤ verify_max_entries
      → length (evict now i m) < verify_max_entries
  unfolding evict
  length-evict now i m h =
      ground (arith, length-drop_expired now m, drop_one-lt i (drop_expired now m))

module _ {ℓ} {K : Type ℓ} ⦃c : Comparable K⦄ where
  pub length-remember :
      (i : ℕ) (k : K) (ok : Bool) (now : ℤ) (m : Assoc K VerifyEntry)
      → length m ≤ verify_max_entries
      → length (remember i k ok now m) ≤ verify_max_entries
  unfolding remember
  length-remember i k ok now m h =
      let e : VerifyEntry = record { ok = ok; expires = now +ℤ pos (ttl_of ok) } in
      elim (Bool-cases (ltb (length m) verify_max_entries)) [
        | inl t ↦
            let fits : length m < verify_max_entries = ground arith in
            rw t (omega (arith, length-insert k e m))
        | inr t ↦ rw t (omega (arith, length-insert k e (evict now i m), length-evict now i m h))
      ]

  -- While the cache has room, a remembered verdict answers for its key until it expires, and
  -- every other key is answered as before.
  pub cached-remember :
      (i : ℕ) (k j : K) (ok : Bool) (now t : ℤ) (m : Assoc K VerifyEntry)
      → length m < verify_max_entries
      → cached (remember i k ok now m) j t ≡ (
          if k == j
          then (if ltb_ℤ t (now +ℤ pos (ttl_of ok)) then some ok else none)
          else cached m j t)
  unfolding remember cached
  cached-remember i k j ok now t m h =
      let e : VerifyEntry = record { ok = ok; expires = now +ℤ pos (ttl_of ok) } in
      ground (arith, lookup-insert k j e m)
