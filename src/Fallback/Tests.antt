-- ===== src/Fallback/Tests.antt =====
-- The supervisor over a core of two selectors.
use rapido_go.Prelude.{
  String, Bool, ◌&&◌, ◌==◌, string_eq, Option, none, some, List, [], ◌∷◌, ◌≡◌, ◌≢◌, ◌⊎◌, refl, sym,
  ◌∙◌, ap, All, any, lookup, if◌then◌else◌, eq_iff, beq_refl, eq_false,
}
use mathlib.Core.Option.{some-injective}
use mathlib.Core.Bool.{false≢true}
use rapido_go.Fallback.{
  FallbackGroup, Selectors, State, active_by_interface, active_key, flag, reconcile, wanted,
}
use rapido_go.Fallback.Reconcile.{
  IsSettled, AreApart, reconcile-IsSettled, active_by_interface-reconcile,
}

-- A core whose selectors have every member.
abbrev point : (String → String) → String → String → String → String
point b g m j = if g == j then m else b j

point_self :
    (b b' : String → String) (g m : String)
    → some (point b g m) ≡ some b'
    → ◌≡◌ {A = Option String} (some (b' g)) (some m)
point_self b b' g m e =
    ap (λ (f : String → String). some (f g)) (sym (some-injective (point b g m) b' e))
    ∙ ap some (rw (beq_refl g) refl)

point_ne :
    (b b' : String → String) (g m j : String)
    → some (point b g m) ≡ some b'
    → g ≢ j
    → ◌≡◌ {A = Option String} (some (b' j)) (some (b j))
point_ne b b' g m j e ne =
    ap (λ (f : String → String). some (f j)) (sym (some-injective (point b g m) b' e))
    ∙ ap some (rw (eq_false (g == j) (λ t. ne ((eq_iff g j).0 t))) refl)

abbrev core : Selectors
core = record {
  Box = String → String;
  selected = λ b g. some (b g);
  select = λ b g m. some (point b g m);
  selected-select = point_self;
  selected-select_ne = point_ne;
}

abbrev up : String → Bool
up iface = iface == "wg0"

abbrev groups : List FallbackGroup
groups =
    record { group = "de"; primary = "de-wg"; fallback = "de-direct"; interface = "wg0" }
    ∷ record { group = "nl"; primary = "nl-wg"; fallback = "nl-direct"; interface = "wg1" }
    ∷ []

abbrev fresh : State core up
fresh = record { box = λ g. ""; active = [] }

-- What the pass leaves.
pass_runs :
    ((reconcile core up fresh groups).box "de" ≡ "de-wg")
    × ((reconcile core up fresh groups).box "nl" ≡ "nl-direct")
unfolding reconcile
pass_runs = (refl, refl)

groups-AreApart : AreApart groups
unfolding active_key
groups-AreApart = (
  (
    (λ e. false≢true ((eq_iff "nl" "de").1 e), λ e. false≢true ((eq_iff "wg1\0nl" "wg0\0de").1 e)),
    tt,
  ),
  (tt, tt),
)

groups-switchable :
    All
      (λ g.
        (b : String → String)
        → (m : String) → ((m ≡ g.primary) ⊎ (m ≡ g.fallback))
        → (◌≢◌ {A = Option String} (some (b g.group)) none)
          × (◌≢◌ {A = Option (String → String)} (some (point b g.group m)) none))
      groups
groups-switchable = ((λ b m h. (λ e. cc, λ e. cc)), ((λ b m h. (λ e. cc, λ e. cc)), tt))

reconcile-IsSettled_example : All (IsSettled core up (reconcile core up fresh groups)) groups
reconcile-IsSettled_example =
    reconcile-IsSettled core up groups fresh groups-switchable groups-AreApart

active_by_interface-reconcile_example :
    flag (lookup "wg1" (active_by_interface (reconcile core up fresh groups).active groups))
    ≡ any (λ g. g.interface == "wg1" && (wanted up g == g.fallback)) groups
active_by_interface-reconcile_example =
    active_by_interface-reconcile core up groups fresh "wg1" groups-switchable groups-AreApart
