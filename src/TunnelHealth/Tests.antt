-- ===== src/TunnelHealth/Tests.antt =====
-- The monitor at concrete settings and histories.
use rapido_go.Prelude.{
  pos, ◌≤ℤ◌, ◌<ℤ◌, true, false, none, List, [], ◌∷◌, ◌≡◌, refl, ◌↔◌, ◌⊎◌, lookup, string_eq, arith,
  if◌then◌else◌,
}
use rapido_go.TunnelHealth.{Options, Arrival, ProbeResult, reached, unreached, new_monitor, tick}
use rapido_go.TunnelHealth.Verdict.{
  History, verdict, verdict_step, up_of_run, down_of_run, flapping_keeps,
}
use rapido_go.TunnelHealth.Rounds.{tick_lem, entry_then, is_tracked}

abbrev opts : Options
opts = record { interval = pos 5; down_after = pos 2; up_after = pos 3; probe_timeout = pos 4 }

abbrev good : ProbeResult
good = reached (pos 7)

abbrev bad : ProbeResult
bad = unreached "refused"

abbrev steady : History
steady = (good, pos 1) ∷ []

verdict_step_example : (verdict opts "wg0" ((bad, pos 2) ∷ steady) ≡ true) ↔ (
    (false ≡ true) × ((verdict opts "wg0" steady ≡ true) ⊎ (pos 3 ≤ℤ pos 0))
    ⊎ (false ≡ false) × (false ≡ false) × (verdict opts "wg0" steady ≡ true) × (pos 1 <ℤ pos 2))
verdict_step_example = verdict_step opts "wg0" steady bad (pos 2) (λ e. cc)

up_of_run_example :
    verdict opts "wg0" ((good, pos 4) ∷ (good, pos 3) ∷ (good, pos 2) ∷ (bad, pos 1) ∷ []) ≡ true
up_of_run_example =
    up_of_run opts "wg0" ((good, pos 4) ∷ (good, pos 3) ∷ (good, pos 2) ∷ (bad, pos 1) ∷ [])
      (omega arith) (omega arith)

down_of_run_example : verdict opts "wg0" ((bad, pos 3) ∷ (bad, pos 2) ∷ steady) ≡ false
down_of_run_example =
    down_of_run opts "wg0" ((bad, pos 3) ∷ (bad, pos 2) ∷ steady) (omega arith) (omega arith)

flapping_keeps_example :
    verdict opts "wg0" ((good, pos 3) ∷ (bad, pos 2) ∷ steady) ≡ verdict opts "wg0" steady
flapping_keeps_example =
    flapping_keeps opts "wg0" steady ((good, pos 3) ∷ (bad, pos 2) ∷ []) (λ e. cc) (omega arith)
      (omega arith) (refl, refl, (refl, refl, tt))

abbrev arrivals : List Arrival
arrivals = record { name = "wg0"; result = good; now = pos 1 } ∷ []

tick_lem_example : lookup "wg0" (tick (new_monitor opts) ("wg0" ∷ []) arrivals).entries ≡ (
    if is_tracked (new_monitor opts) ("wg0" ∷ []) "wg0"
    then entry_then (new_monitor opts).opts "wg0" arrivals (lookup "wg0" (new_monitor opts).entries)
    else none)
tick_lem_example = tick_lem (new_monitor opts) ("wg0" ∷ []) arrivals "wg0"
