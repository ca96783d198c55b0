-- ===== src/VerifyCache/Verdicts.antt =====
-- Whatever calls ran before, at whatever times, an answer of `Verify` is the comparison's verdict.
use rapido_go.Prelude.{
  ℕ, zero, suc, ◌≤◌, ℤ, ltb_ℤ, ltb, String, Bool, Comparable, ◌==◌, Option, none, some, List, [],
  ◌∷◌, Assoc, insert, length, ◌≡◌, refl, ap, ◌∙◌, arith, Bool-cases, inl, inr, All,
}
use rapido_go.VerifyCache.{
  VerifyEntry, Crypto, drop_expired, drop_one, evict, cached, remember, answer, verify,
  verify_max_entries,
}
use rapido_go.VerifyCache.Bound.{length-remember}

module _ {ℓ} {K : Type ℓ} ⦃c : Comparable K⦄ (k : K) (ok : Bool) where
  -- Every entry of the key has the verdict.
  abbrev pub Agrees : Assoc K VerifyEntry → Type ℓ
  Agrees m = All (λ p. p.0 ≡ k → p.1.ok ≡ ok) m

  drop_expired-Agrees : (now : ℤ) (m : Assoc K VerifyEntry) → Agrees m → Agrees (drop_expired now m)
  drop_expired-Agrees now [] h = tt
  drop_expired-Agrees now ((j, e) ∷ m) h = elim (Bool-cases (ltb_ℤ now e.expires)) [
    | inl t ↦ rw t (h.0, drop_expired-Agrees now m h.1)
    | inr t ↦ rw t (drop_expired-Agrees now m h.1)
  ]

  drop_one-Agrees : (i : ℕ) (m : Assoc K VerifyEntry) → Agrees m → Agrees (drop_one i m)
  drop_one-Agrees i [] h = tt
  drop_one-Agrees zero (x ∷ m) h = h.1
  drop_one-Agrees (suc i) (x ∷ []) h = tt
  drop_one-Agrees (suc i) (x ∷ y ∷ m) h = (h.0, drop_one-Agrees i (y ∷ m) h.1)

  evict-Agrees : (now : ℤ) (i : ℕ) (m : Assoc K VerifyEntry) → Agrees m → Agrees (evict now i m)
  unfolding evict
  evict-Agrees now i m h =
      let live : Agrees (drop_expired now m) = drop_expired-Agrees now m h in
      elim (Bool-cases (ltb (length (drop_expired now m)) verify_max_entries)) [
        | inl t ↦ rw t live
        | inr t ↦ rw t (drop_one-Agrees i (drop_expired now m) live)
      ]

  insert-Agrees :
      (j : K) (e : VerifyEntry) (m : Assoc K VerifyEntry)
      → (j ≡ k → e.ok ≡ ok)
      → Agrees m
      → Agrees (insert j e m)
  insert-Agrees j e [] a h = (a, tt)
  insert-Agrees j e ((i, d) ∷ m) a h = elim (Bool-cases (i == j)) [
    | inl t ↦ rw t (a, h.1)
    | inr t ↦ rw t (h.0, insert-Agrees j e m a h.1)
  ]

  remember-Agrees :
      (i : ℕ) (j : K) (b : Bool) (now : ℤ) (m : Assoc K VerifyEntry)
      → (j ≡ k → b ≡ ok)
      → Agrees m
      → Agrees (remember i j b now m)
  unfolding remember
  remember-Agrees i j b now m a h = elim (Bool-cases (ltb (length m) verify_max_entries)) [
    | inl t ↦ rw t (insert-Agrees j _ m a h)
    | inr t ↦ rw t (insert-Agrees j _ (evict now i m) a (evict-Agrees now i m h))
  ]

  cached-Agrees :
      (m : Assoc K VerifyEntry) (now : ℤ) (b : Bool) → Agrees m → cached m k now ≡ some b → b ≡ ok
  unfolding cached
  cached-Agrees [] now b h e = absurd (ground arith)
  cached-Agrees ((j, d) ∷ m) now b h e = elim (Bool-cases (j == k)) [
    | inl t ↦ let same : d.ok ≡ ok = h.0 ((c.beq_path j k).0 t) in ground (arith, e, t, same)
    | inr t ↦ cached-Agrees m now b h.1 (rw t at e)
  ]

-- One call that found no verdict and remembers the comparison's.
pub record Call : Type 0 where
  pub victim : ℕ
  pub username : String
  pub plain : String
  pub hashed : String
  pub now : ℤ

module _ (x : Crypto) where
  abbrev pub remember_all : List Call → Assoc x.Key VerifyEntry → Assoc x.Key VerifyEntry
  remember_all [] m = m
  remember_all (r ∷ rs) m = remember_all rs (
      remember ⦃c = x.keys⦄ r.victim (x.key r.username r.plain r.hashed) (x.verify r.plain r.hashed)
        r.now m)

  -- Nothing else than the same password and hash has the key of the triple.
  abbrev pub IsUnshared : String → String → String → Call → Type 0
  IsUnshared u p h r =
      x.key r.username r.plain r.hashed ≡ x.key u p h → (r.plain ≡ p) × (r.hashed ≡ h)

  remember_all-Agrees :
      (rs : List Call) (u p h : String) (m : Assoc x.Key VerifyEntry)
      → All (IsUnshared u p h) rs
      → Agrees ⦃c = x.keys⦄ (x.key u p h) (x.verify p h) m
      → Agrees ⦃c = x.keys⦄ (x.key u p h) (x.verify p h) (remember_all rs m)
  remember_all-Agrees [] u p h m a g = g
  remember_all-Agrees (r ∷ rs) u p h m a g = remember_all-Agrees rs u p h _ a.1 (
      remember-Agrees ⦃c = x.keys⦄ (x.key u p h) (x.verify p h) r.victim
        (x.key r.username r.plain r.hashed) (x.verify r.plain r.hashed) r.now m
        (λ e. ap (λ q. x.verify q r.hashed) (a.0 e).0 ∙ ap (x.verify p) (a.0 e).1) g)

  answer_lem :
      (victim : ℕ) (u p h : String) (now : ℤ) (m : Assoc x.Key VerifyEntry) (o : Option Bool)
      → Agrees ⦃c = x.keys⦄ (x.key u p h) (x.verify p h) m
      → cached ⦃c = x.keys⦄ m (x.key u p h) now ≡ o
      → (answer x victim u p h now m o).1 ≡ x.verify p h
  answer_lem victim u p h now m none g e = refl
  answer_lem victim u p h now m (some b) g e =
      cached-Agrees ⦃c = x.keys⦄ (x.key u p h) (x.verify p h) m now b g e

  pub verify_lem :
      (rs : List Call) (victim : ℕ) (u p h : String) (now : ℤ)
      → All (IsUnshared u p h) rs
      → (verify x victim u p h now (remember_all rs [])).1 ≡ x.verify p h
  unfolding verify
  verify_lem rs victim u p h now a =
      answer_lem victim u p h now (remember_all rs []) _ (remember_all-Agrees rs u p h [] a tt) refl

  -- Calls of `Verify` in any interleaving leave at most 4096 entries in a cache that had no
  -- more.
  pub length-remember_all :
      (rs : List Call) (m : Assoc x.Key VerifyEntry)
      → length m ≤ verify_max_entries
      → length (remember_all rs m) ≤ verify_max_entries
  length-remember_all [] m h = h
  length-remember_all (r ∷ rs) m h =
      length-remember_all rs _ (length-remember ⦃c = x.keys⦄ r.victim _ _ r.now m h)
