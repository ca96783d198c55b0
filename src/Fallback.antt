-- ===== src/Fallback.antt =====
-- internal/nodecore/fallback.go: the supervisor keeps every fallback group pointed at its primary
-- member while the tunnel is healthy, and at its fallback member while it is not. The selectors
-- belong to sing-box and are an interface; the health of a tunnel is a function, which
-- `TunnelHealth.is_up` provides. The mutex makes each access to the `active` map one step.
pub mod Reconcile
mod Tests
use Prim.Native.Char.{nul}
use Prim.Native.String
use Prim.Native.String.{◌++◌ as append}
use rapido_go.Prelude.{
  String, Bool, true, false, not, ◌==◌, string_eq, Option, none, some, List, [], ◌∷◌, Assoc, lookup,
  insert, if◌then◌else◌, ◌≡◌, ◌≢◌,
}

pub record FallbackGroup : Type 0 where
  pub group : String
  pub primary : String
  pub fallback : String
  pub interface : String

-- What the supervisor uses of the running core: Now of a selector, and SelectOutbound, which fails
-- where the group is no selector or has no such member.
pub record Selectors : Type 1 where
  pub Box : Type 0
  pub selected : Box → String → Option String
  pub select : Box → String → String → Option Box
  pub selected-select :
      (b b' : Box) (g m : String) → select b g m ≡ some b' → selected b' g ≡ some m
  pub selected-select_ne :
      (b b' : Box) (g m j : String) → select b g m ≡ some b' → g ≢ j → selected b' j ≡ selected b j

abbrev pub Active : Type 0
Active = Assoc String Bool

-- iface + "\x00" + group
pub active_key : FallbackGroup → String
active_key g = append g.interface (append (String.◌∷◌ nul "") g.group)

-- The member that a group should run over.
abbrev pub wanted : (String → Bool) → FallbackGroup → String
wanted up g = if up g.interface then g.primary else g.fallback

-- `setActive`
abbrev pub set_active : FallbackGroup → Bool → Active → Active
set_active g fallback active = insert (active_key g) fallback active

module _ (c : Selectors) (up : String → Bool) where
  open c use {Box, selected, select}

  pub record State : Type 0 where
    pub box : Box
    pub active : Active

  -- Point the group at `want`, or leave the state where that fails.
  pub switch : State → FallbackGroup → String → Option Box → State
  switch s g want none = s
  switch s g want (some box) = record {
    box = box;
    active = set_active g (want == g.fallback) s.active;
  }

  pub reconcile_at : State → FallbackGroup → String → Option String → State
  reconcile_at s g want none = s
  reconcile_at s g want (some current) =
      if current == want
      then record s { active = set_active g (want == g.fallback) s.active }
      else switch s g want (select s.box g.group want)

  -- One round of the loop of `Reconcile`.
  unfoldable pub reconcile_group : State → FallbackGroup → State
  unfolding reconcile_at switch
  reconcile_group s g = reconcile_at s g (wanted up g) (selected s.box g.group)

  -- `Reconcile`
  unfoldable pub reconcile : State → List FallbackGroup → State
  unfolding reconcile_group
  reconcile s [] = s
  reconcile s (g ∷ gs) = reconcile (reconcile_group s g) gs

-- m[k] of a map to bool: false where the key is missing.
abbrev pub flag : Option Bool → Bool
flag none = false
flag (some b) = b

-- `ActiveByInterface`: a set, as a map to true.
pub active_by_interface : Active → List FallbackGroup → Assoc String Bool
active_by_interface active [] = []
active_by_interface active (g ∷ gs) =
    let rest = active_by_interface active gs in
    if flag (lookup (active_key g) active) then insert g.interface true rest else rest
