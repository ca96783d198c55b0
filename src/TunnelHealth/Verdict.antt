-- ===== src/TunnelHealth/Verdict.antt =====
-- The verdict on one tunnel as a function of its probe results, newest first.
use rapido_go.Prelude.{
  ℕ, suc, ◌≡◌, ◌≢◌, ◌<ℤ◌, ◌↔◌, ◌⊎◌, inl, inr, refl, ◌∙◌, ℤ, pos, ◌≤ℤ◌, String, Bool, true, false,
  Option, none, some, List, [], ◌∷◌, ◌++◌, arith, Bool-cases, eq_false,
}
use rapido_go.TunnelHealth.{
  Options, Entry, ProbeResult, reached, missing, unreached, update, updated, verdict_of,
}

abbrev pub is_ok : ProbeResult → Bool
is_ok (reached rtt) = true
is_ok _ = false

-- Whether the interface did not exist.
abbrev pub is_absent : ProbeResult → Bool
is_absent (missing message) = true
is_absent _ = false

-- A result with the time at which it was recorded.
abbrev pub History : Type 0
History = List (ProbeResult × ℤ)

-- How many of the newest results in a row are successes, or failures.
abbrev pub run_of : Bool → History → ℕ
run_of good [] = 0
run_of true ((reached rtt, t) ∷ h) = suc (run_of true h)
run_of true (r ∷ h) = 0
run_of false ((reached rtt, t) ∷ h) = 0
run_of false (r ∷ h) = suc (run_of false h)

-- Results that take turns, with the interface present, the first of them unlike the newest of the
-- history `h` before them.
abbrev pub Flaps : History → History → Type 0
Flaps h [] = Unit
Flaps h ((r, t) ∷ g) = (is_absent r ≡ false) × (run_of (is_ok r) (g ++ h) ≡ 0) × Flaps h g

append-ne-nil : (g h : History) → h ≢ [] → g ++ h ≢ []
append-ne-nil [] h ne = ne
append-ne-nil (x ∷ g) h ne = λ e. cc

module _ (o : Options) (name : String) where
  -- The entry that `record` has built from a history.
  unfoldable pub entry_after : History → Option Entry
  entry_after [] = none
  entry_after ((r, t) ∷ h) = some (updated o name t r (entry_after h))

  -- What `Up` answers after a history.
  unfoldable pub verdict : History → Bool
  verdict h = verdict_of (entry_after h)

  abbrev Tracks : History → Option Entry → Type 0
  Tracks h none = h ≡ []
  Tracks h (some e) =
      (e.ok_streak ≡ run_of true h) × (e.fail_streak ≡ run_of false h) × (e.status.probed ≡ true)

  updated-Tracks :
      (h : History) (r : ProbeResult) (t : ℤ) (m : Option Entry)
      → Tracks h m
      → Tracks ((r, t) ∷ h) (some (updated o name t r m))
  unfolding updated update
  updated-Tracks h (reached rtt) t none k = rw k (refl, refl, refl)
  updated-Tracks h (missing x) t none k = rw k (refl, refl, refl)
  updated-Tracks h (unreached x) t none k = rw k (refl, refl, refl)
  updated-Tracks h (reached rtt) t (some e) k = (omega arith, omega arith, refl)
  updated-Tracks h (missing x) t (some e) k = (omega arith, omega arith, refl)
  updated-Tracks h (unreached x) t (some e) k = (omega arith, omega arith, refl)

  entry_after-Tracks : (h : History) → Tracks h (entry_after h)
  unfolding entry_after
  entry_after-Tracks [] = refl
  entry_after-Tracks ((r, t) ∷ h) = updated-Tracks h r t (entry_after h) (entry_after-Tracks h)

  verdict_step_from :
      (h : History) (r : ProbeResult) (t : ℤ) (m : Option Entry)
      → h ≢ []
      → Tracks h m
      → (verdict_of (some (updated o name t r m)) ≡ true) ↔ (
          (is_ok r ≡ true)
            × ((verdict_of m ≡ true) ⊎ (o.up_after ≤ℤ pos (run_of true ((r, t) ∷ h))))
          ⊎ (is_absent r ≡ false)
            × (is_ok r ≡ false)
            × (verdict_of m ≡ true)
            × (pos (run_of false ((r, t) ∷ h)) <ℤ o.down_after))
  unfolding updated update
  verdict_step_from h r t none ne k = absurd (ne k)
  verdict_step_from h (reached rtt) t (some e) ne k = ground arith
  verdict_step_from h (missing x) t (some e) ne k = ground arith
  verdict_step_from h (unreached x) t (some e) ne k = ground arith

  -- After the first probe a tunnel is up exactly when the newest probe succeeded and either the
  -- tunnel was up or UpAfter probes in a row have succeeded, or the newest probe failed with the
  -- interface present, the tunnel was up and fewer than DownAfter probes in a row have failed.
  pub verdict_step :
      (h : History) (r : ProbeResult) (t : ℤ)
      → h ≢ []
      → (verdict ((r, t) ∷ h) ≡ true) ↔ (
          (is_ok r ≡ true) × ((verdict h ≡ true) ⊎ (o.up_after ≤ℤ pos (run_of true ((r, t) ∷ h))))
          ⊎ (is_absent r ≡ false)
            × (is_ok r ≡ false)
            × (verdict h ≡ true)
            × (pos (run_of false ((r, t) ∷ h)) <ℤ o.down_after))
  unfolding verdict entry_after
  verdict_step h r t ne = verdict_step_from h r t (entry_after h) ne (entry_after-Tracks h)

  -- The first probe alone decides.
  pub verdict_first : (r : ProbeResult) (t : ℤ) → verdict ((r, t) ∷ []) ≡ is_ok r
  unfolding verdict entry_after updated update
  verdict_first (reached rtt) t = refl
  verdict_first (missing x) t = refl
  verdict_first (unreached x) t = refl

  -- After UpAfter successes in a row a tunnel is up, whatever came before.
  pub up_of_run :
      (h : History) → pos 0 <ℤ o.up_after → o.up_after ≤ℤ pos (run_of true h) → verdict h ≡ true
  up_of_run [] p k = absurd (omega arith)
  up_of_run ((reached rtt, t) ∷ []) p k = verdict_first (reached rtt) t
  up_of_run ((reached rtt, t) ∷ q ∷ h) p k =
      (verdict_step (q ∷ h) (reached rtt) t (λ e. cc)).1 (inl (refl, inr k))
  up_of_run ((missing x, t) ∷ h) p k = absurd (omega arith)
  up_of_run ((unreached x, t) ∷ h) p k = absurd (omega arith)

  down_step :
      (h : History) (r : ProbeResult) (t : ℤ)
      → h ≢ []
      → is_ok r ≡ false
      → o.down_after ≤ℤ pos (run_of false ((r, t) ∷ h))
      → verdict ((r, t) ∷ h) ≡ false
  down_step h r t ne bad k = elim (Bool-cases (verdict ((r, t) ∷ h))) [
    | inl up ↦ absurd (ground (arith, (verdict_step h r t ne).0 up))
    | inr down ↦ down
  ]

  -- After DownAfter failures in a row a tunnel is down, whatever came before.
  pub down_of_run :
      (h : History)
      → pos 0 <ℤ o.down_after
      → o.down_after ≤ℤ pos (run_of false h)
      → verdict h ≡ false
  down_of_run [] p k = absurd (omega arith)
  down_of_run ((reached rtt, t) ∷ h) p k = absurd (omega arith)
  down_of_run ((missing x, t) ∷ []) p k = verdict_first (missing x) t
  down_of_run ((unreached x, t) ∷ []) p k = verdict_first (unreached x) t
  down_of_run ((missing x, t) ∷ q ∷ h) p k = down_step (q ∷ h) (missing x) t (λ e. cc) refl k
  down_of_run ((unreached x, t) ∷ q ∷ h) p k = down_step (q ∷ h) (unreached x) t (λ e. cc) refl k

  flap_step :
      (h : History) (r : ProbeResult) (t : ℤ)
      → h ≢ []
      → pos 1 <ℤ o.up_after
      → pos 1 <ℤ o.down_after
      → is_absent r ≡ false
      → run_of (is_ok r) h ≡ 0
      → verdict ((r, t) ∷ h) ≡ verdict h
  flap_step h (missing x) t ne u d a k = cc
  flap_step h (reached rtt) t ne u d a k =
      let step = verdict_step h (reached rtt) t ne in
      elim (Bool-cases (verdict h)) [
        | inl up ↦ rw up (step.1 (inl (refl, inl up)))
        | inr down ↦ rw down (eq_false _ (λ up'. ground (arith, step.0 up')))
      ]
  flap_step h (unreached x) t ne u d a k =
      let step = verdict_step h (unreached x) t ne in
      elim (Bool-cases (verdict h)) [
        | inl up ↦ rw up (step.1 (inr (refl, refl, up, omega arith)))
        | inr down ↦ rw down (eq_false _ (λ up'. ground (arith, step.0 up')))
      ]

  -- A tunnel whose results take turns keeps its verdict, if neither setting is one.
  pub flapping_keeps :
      (h g : History)
      → h ≢ []
      → pos 1 <ℤ o.up_after
      → pos 1 <ℤ o.down_after
      → Flaps h g
      → verdict (g ++ h) ≡ verdict h
  flapping_keeps h [] ne u d f = refl
  flapping_keeps h ((r, t) ∷ g) ne u d f =
      flap_step (g ++ h) r t (append-ne-nil g h ne) u d f.0 f.1 ∙ flapping_keeps h g ne u d f.2
