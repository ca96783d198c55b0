-- ===== src/LoadMap/Cache.antt =====
-- `Map.Snapshot` and `startRefresh` of internal/loadmap/loadmap.go: a cached snapshot and at most
-- one rebuild of it. `at` reads the time of a snapshot. A rebuild first stores its snapshot and
-- then ends; both are steps, and so are the two halves of a caller that waits.
use rapido_go.Prelude.{
  ℕ, ◌*◌, ◌+◌, ℤ, pos, ◌-ℤ◌, ◌<ℤ◌, ◌≤ℤ◌, ltb_ℤ, Bool, true, false, Option, none, some, List, [],
  ◌∷◌, if◌then◌else◌, ◌≡◌, ◌⊎◌, refl, sym, arith, Bool-cases, inl, inr,
}
use mathlib.Core.Path.{subst}
use rapido_go.Prelude.Count.{bit}

abbrev pub max_stale : ℕ
max_stale = 10 * (1000 * 1000 * 1000)

-- What a request does at once: it has its snapshot, or waits for the rebuild that runs.
pub data Served {ℓ} (S : Type ℓ) : Type ℓ where
  served : S → Served S
  waits : Served S

-- `started` and `ended` count the rebuilds.
pub record MapState {ℓ} (S : Type ℓ) : Type ℓ where
  pub snap : Option S
  pub flight : Bool
  pub started : ℕ
  pub ended : ℕ

module _ {ℓ} {S : Type ℓ} (at : S → ℤ) (ttl : ℤ) where
  -- `startRefresh`: joins the running rebuild or starts one.
  pub start_refresh : MapState S → MapState S
  start_refresh m = if m.flight then m else record m { flight = true; started = m.started + 1 }

  -- `Snapshot`, up to the point where it returns or waits.
  pub request_at : MapState S → ℤ → Option S → MapState S × Served S
  unfolding start_refresh
  request_at m now none = (start_refresh m, waits)
  request_at m now (some s) =
      if ltb_ℤ (now -ℤ at s) ttl
      then (m, served s)
      else if ltb_ℤ (now -ℤ at s) (pos max_stale)
      then (start_refresh m, served s)
      else (start_refresh m, waits)

  pub request : MapState S → ℤ → MapState S × Served S
  request m now = request_at m now m.snap

  -- m.snap.Store(...)
  abbrev pub stored : MapState S → S → MapState S
  stored m s = record m { snap = some s }

  -- The deferred end of a rebuild.
  abbrev pub landed : MapState S → MapState S
  landed m = record m { flight = false; ended = m.ended + 1 }

  -- What a caller that waited returns, once the rebuild ended or its context did.
  abbrev pub after_wait : S → Option S → S
  after_wait empty none = empty
  after_wait empty (some s) = s

  pub data Event : Type ℓ where
    requests : ℤ → Event
    stores : S → Event
    lands : Event

  -- Only a rebuild that runs stores and ends.
  abbrev pub step : MapState S → Event → MapState S
  step m (requests now) = (request m now).0
  step m (stores s) = if m.flight then stored m s else m
  step m lands = if m.flight then landed m else m

  abbrev pub run : MapState S → List Event → MapState S
  run m [] = m
  run m (e ∷ es) = run (step m e) es

  -- Of the rebuilds that were started all but the one that runs have ended.
  abbrev pub IsSingle : MapState S → Type 0
  IsSingle m = m.started ≡ m.ended + bit m.flight

  start_refresh-IsSingle : (m : MapState S) → IsSingle m → IsSingle (start_refresh m)
  unfolding start_refresh
  start_refresh-IsSingle m h = elim (Bool-cases m.flight) [
    | inl e ↦ rw e (rw e at h)
    | inr e ↦ rw e (omega (arith, rw e at h))
  ]

  request_at-IsSingle :
      (m : MapState S) (now : ℤ) (o : Option S) → IsSingle m → IsSingle (request_at m now o).0
  unfolding request_at
  request_at-IsSingle m now none h = start_refresh-IsSingle m h
  request_at-IsSingle m now (some s) h = elim (Bool-cases (ltb_ℤ (now -ℤ at s) ttl)) [
    | inl e ↦ rw e h
    | inr e ↦ elim (Bool-cases (ltb_ℤ (now -ℤ at s) (pos max_stale))) [
      | inl f ↦ rw e (rw f (start_refresh-IsSingle m h))
      | inr f ↦ rw e (rw f (start_refresh-IsSingle m h))
    ]
  ]

  stores-IsSingle : (m : MapState S) (s : S) → IsSingle m → IsSingle (step m (stores s))
  stores-IsSingle m s h = elim (Bool-cases m.flight) [
    | inl e ↦ rw e (rw e at h)
    | inr e ↦ rw e (rw e at h)
  ]

  lands-IsSingle : (m : MapState S) → IsSingle m → IsSingle (step m lands)
  lands-IsSingle m h = elim (Bool-cases m.flight) [
    | inl e ↦ rw e (omega (arith, rw e at h))
    | inr e ↦ rw e (rw e at h)
  ]

  -- Any requests, stores and ends leave at most one rebuild running.
  pub run-IsSingle : (es : List Event) (m : MapState S) → IsSingle m → IsSingle (run m es)
  unfolding request
  run-IsSingle [] m h = h
  run-IsSingle (requests now ∷ es) m h =
      run-IsSingle es (request m now).0 (request_at-IsSingle m now m.snap h)
  run-IsSingle (stores s ∷ es) m h = run-IsSingle es (step m (stores s)) (stores-IsSingle m s h)
  run-IsSingle (lands ∷ es) m h = run-IsSingle es (step m lands) (lands-IsSingle m h)

  start_refresh_runs : (m : MapState S) → (start_refresh m).flight ≡ true
  unfolding start_refresh
  start_refresh_runs m = elim (Bool-cases m.flight) [ inl e ↦ rw e refl | inr e ↦ rw e refl ]

  -- Served at once while younger than the TTL or than ten seconds; a rebuild runs afterwards unless
  -- the snapshot is younger than the TTL.
  abbrev pub IsTimely : S → ℤ → MapState S × Served S → Type ℓ
  IsTimely s age r =
      ((r.1 ≡ served s) × (age <ℤ ttl))
      ⊎ ((r.1 ≡ served s) × (ttl ≤ℤ age) × (age <ℤ pos max_stale) × (r.0.flight ≡ true))
      ⊎ ((r.1 ≡ waits) × (ttl ≤ℤ age) × (pos max_stale ≤ℤ age) × (r.0.flight ≡ true))

  request_at_lem :
      (m : MapState S) (now : ℤ) (s : S) → IsTimely s (now -ℤ at s) (request_at m now (some s))
  unfolding request_at
  request_at_lem m now s = elim (Bool-cases (ltb_ℤ (now -ℤ at s) ttl)) [
    | inl e ↦ rw e (inl (refl, ground arith))
    | inr e ↦ elim (Bool-cases (ltb_ℤ (now -ℤ at s) (pos max_stale))) [
      | inl f ↦ rw e (rw f (inr (inl (refl, ground arith, ground arith, start_refresh_runs m))))
      | inr f ↦ rw e (rw f (inr (inr (refl, ground arith, ground arith, start_refresh_runs m))))
    ]
  ]

  -- A request that finds a cached snapshot younger than the TTL is served it; one that finds an
  -- older one younger than ten seconds is served it with a rebuild running; any other waits for a
  -- running rebuild.
  pub request_lem :
      (m : MapState S) (now : ℤ) (s : S)
      → m.snap ≡ some s
      → IsTimely s (now -ℤ at s) (request m now)
  unfolding request
  request_lem m now s e =
      subst (λ o. IsTimely s (now -ℤ at s) (request_at m now o)) (sym e) (request_at_lem m now s)
