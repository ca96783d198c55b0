-- ===== src/VerifyCache.antt =====
-- internal/auth/verifycache.go: remembered verdicts of password checks. The HMAC key of a triple
-- and bcrypt come from libraries and are parameters. Instants are integers of nanoseconds. `Verify`
-- holds the mutex twice, with bcrypt between: each time is one step, `cached` and `remember`.
pub mod Verdicts
pub mod Bound
mod Tests
use rapido_go.Prelude.{
  ℕ, zero, suc, ◌*◌, ℤ, pos, ◌+ℤ◌, ltb_ℤ, ltb, String, Bool, true, false, not, Comparable, ◌==◌,
  Option, none, some, List, [], ◌∷◌, Assoc, lookup, insert, length, if◌then◌else◌,
}

-- time.Minute
abbrev pub minute : ℕ
minute = 60 * (1000 * 1000 * 1000)

abbrev pub verify_hit_ttl : ℕ
verify_hit_ttl = 5 * minute

abbrev pub verify_miss_ttl : ℕ
verify_miss_ttl = minute

abbrev pub verify_max_entries : ℕ
verify_max_entries = 4096

pub record VerifyEntry : Type 0 where
  pub ok : Bool
  pub expires : ℤ

-- What the cache is made with: the keys, the HMAC over user name, password and stored hash, and
-- the comparison of a password with a hash.
pub record Crypto : Type 1 where
  pub Key : Type 0
  pub keys : Comparable Key
  pub key : String → String → String → Key
  pub verify : String → String → Bool

-- The entries that have not expired.
abbrev pub drop_expired {ℓ} : {K : Type ℓ} → ℤ → Assoc K VerifyEntry → Assoc K VerifyEntry
drop_expired now [] = []
drop_expired now ((k, e) ∷ m) =
    let rest = drop_expired now m in if not (ltb_ℤ now e.expires) then rest else (k, e) ∷ rest

-- An arbitrary entry goes: the one at the index, or the last where there are fewer.
abbrev pub drop_one {ℓ} : {K : Type ℓ} → ℕ → Assoc K VerifyEntry → Assoc K VerifyEntry
drop_one i [] = []
drop_one zero (x ∷ m) = m
drop_one (suc i) (x ∷ []) = []
drop_one (suc i) (x ∷ y ∷ m) = x ∷ drop_one i (y ∷ m)

-- `evictLocked`; `victim` is the map's own choice.
pub evict {ℓ} : {K : Type ℓ} → ℤ → ℕ → Assoc K VerifyEntry → Assoc K VerifyEntry
evict now victim m =
    let live = drop_expired now m in
    if ltb (length live) verify_max_entries then live else drop_one victim live

abbrev pub verdict_at : ℤ → Option VerifyEntry → Option Bool
verdict_at now none = none
verdict_at now (some e) = if ltb_ℤ now e.expires then some e.ok else none

-- The lookup at the head of `Verify`.
pub cached {ℓ} : {K : Type ℓ} ⦃c : Comparable K⦄ → Assoc K VerifyEntry → K → ℤ → Option Bool
cached entries k now = verdict_at now (lookup k entries)

abbrev pub ttl_of : Bool → ℕ
ttl_of ok = if ok then verify_hit_ttl else verify_miss_ttl

-- What `Verify` does with a verdict of the comparison.
unfoldable pub remember {ℓ} :
    {K : Type ℓ} ⦃c : Comparable K⦄ → ℕ → K → Bool → ℤ → Assoc K VerifyEntry → Assoc K VerifyEntry
unfolding evict
remember victim k ok now entries =
    let room =
      if ltb (length entries) verify_max_entries then entries else evict now victim entries in
    insert k (record { ok = ok; expires = now +ℤ pos (ttl_of ok) }) room

-- `Verify` on a cache that no other call changes meanwhile: the cache after it, and its answer.
module _ (x : Crypto) where
  abbrev pub answer :
      ℕ
      → String
      → String
      → String
      → ℤ
      → Assoc x.Key VerifyEntry
      → Option Bool
      → Assoc x.Key VerifyEntry × Bool
  answer victim username plain hashed now entries (some ok) = (entries, ok)
  answer victim username plain hashed now entries none =
      let ok = x.verify plain hashed in
      (remember ⦃c = x.keys⦄ victim (x.key username plain hashed) ok now entries, ok)

  pub verify :
      ℕ → String → String → String → ℤ → Assoc x.Key VerifyEntry → Assoc x.Key VerifyEntry × Bool
  unfolding cached
  verify victim username plain hashed now entries =
      answer victim username plain hashed now entries
        (cached ⦃c = x.keys⦄ entries (x.key username plain hashed) now)
