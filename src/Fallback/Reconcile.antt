-- ===== src/Fallback/Reconcile.antt =====
-- One pass of the supervisor over the groups.
use rapido_go.Prelude.{
  String, Bool, true, false, ◌&&◌, ◌==◌, string_eq, Option, none, some, List, [], ◌∷◌, ◌≡◌, ◌≢◌,
  ◌⊎◌, refl, ◌∙◌, ap, lookup, lookup-insert, any, All, arith, eq_false, eq_iff, beq_refl,
  Bool-cases, inl, inr,
}
use rapido_go.Fallback.{
  FallbackGroup, Selectors, State, Active, set_active, active_key, wanted, switch, reconcile_at,
  reconcile_group, reconcile, flag, active_by_interface,
}

-- The tunnels on fallback are those of which some group is active.
pub active_by_interface_lem :
    (active : Active) (gs : List FallbackGroup) (k : String)
    → flag (lookup k (active_by_interface active gs))
      ≡ any (λ g. g.interface == k && flag (lookup (active_key g) active)) gs
unfolding active_by_interface
active_by_interface_lem active [] k = refl
active_by_interface_lem active (g ∷ gs) k =
    let ih = active_by_interface_lem active gs k in
    let at = lookup-insert g.interface k true (active_by_interface active gs) in
    ground (arith, ih, at)

-- Two groups of different names, kept apart in the `active` map too.
abbrev pub IsApart : FallbackGroup → FallbackGroup → Type 0
IsApart g j = (g.group ≢ j.group) × (active_key g ≢ active_key j)

abbrev pub AreApart : List FallbackGroup → Type 0
AreApart [] = Unit
AreApart (g ∷ gs) = All (λ h. IsApart h g) gs × AreApart gs

lookup-set_active_self :
    (g : FallbackGroup) (b : Bool) (active : Active)
    → lookup (active_key g) (set_active g b active) ≡ some b
lookup-set_active_self g b active = rw lookup-insert (rw beq_refl refl)

lookup-set_active_other :
    (g j : FallbackGroup) (b : Bool) (active : Active)
    → active_key g ≢ active_key j
    → lookup (active_key j) (set_active g b active) ≡ lookup (active_key j) active
lookup-set_active_other g j b active ne =
    let differ : (active_key g == active_key j) ≡ false =
      eq_false _ (λ t. ne ((eq_iff (active_key g) (active_key j)).0 t)) in
    rw lookup-insert (rw differ refl)

module _ (c : Selectors) (up : String → Bool) where
  open c use {Box, selected, select}

  -- The group runs over the member that it should, and is marked so.
  pub record IsSettled (s : State c up) (g : FallbackGroup) : Type 0 where
    pub points : selected s.box g.group ≡ some (wanted up g)
    pub marked : lookup (active_key g) s.active ≡ some (wanted up g == g.fallback)

  -- The core has a selector of that name with both members.
  abbrev pub IsSwitchable : FallbackGroup → Type 0
  IsSwitchable g =
      (b : Box)
      → (m : String) → ((m ≡ g.primary) ⊎ (m ≡ g.fallback))
      → (selected b g.group ≢ none) × (select b g.group m ≢ none)

  wanted-member : (g : FallbackGroup) → (wanted up g ≡ g.primary) ⊎ (wanted up g ≡ g.fallback)
  wanted-member g = elim (Bool-cases (up g.interface)) [ inl h ↦ inl (rw h) | inr h ↦ inr (rw h) ]

  switch-IsSettled :
      (s : State c up) (g : FallbackGroup) (x : Option Box)
      → IsSwitchable g
      → select s.box g.group (wanted up g) ≡ x
      → IsSettled (switch c up s g (wanted up g) x) g
  unfolding switch
  switch-IsSettled s g none sw e = absurd ((sw s.box (wanted up g) (wanted-member g)).1 e)
  switch-IsSettled s g (some b) sw e = record {
    points = c.selected-select s.box b g.group (wanted up g) e;
    marked = lookup-set_active_self g (wanted up g == g.fallback) s.active;
  }

  reconcile_at-IsSettled :
      (s : State c up) (g : FallbackGroup) (x : Option String)
      → IsSwitchable g
      → selected s.box g.group ≡ x
      → IsSettled (reconcile_at c up s g (wanted up g) x) g
  unfolding reconcile_at
  reconcile_at-IsSettled s g none sw e = absurd ((sw s.box (wanted up g) (wanted-member g)).0 e)
  reconcile_at-IsSettled s g (some current) sw e = elim (Bool-cases (current == wanted up g)) [
    | inl t ↦ rw t (record {
      points = e ∙ ap some ((eq_iff current (wanted up g)).0 t);
      marked = lookup-set_active_self g (wanted up g == g.fallback) s.active;
    })
    | inr t ↦ rw t (switch-IsSettled s g (select s.box g.group (wanted up g)) sw refl)
  ]

  reconcile_group-IsSettled :
      (s : State c up) (g : FallbackGroup) → IsSwitchable g → IsSettled (reconcile_group c up s g) g
  unfolding reconcile_group
  reconcile_group-IsSettled s g sw = reconcile_at-IsSettled s g (selected s.box g.group) sw refl

  switch-IsSettled_other :
      (s : State c up) (g j : FallbackGroup) (want : String) (x : Option Box)
      → IsApart g j
      → IsSettled s j
      → select s.box g.group want ≡ x
      → IsSettled (switch c up s g want x) j
  unfolding switch
  switch-IsSettled_other s g j want none a h e = h
  switch-IsSettled_other s g j want (some b) a h e = record {
    points = c.selected-select_ne s.box b g.group want j.group e a.0 ∙ h.points;
    marked = lookup-set_active_other g j (want == g.fallback) s.active a.1 ∙ h.marked;
  }

  reconcile_at-IsSettled_other :
      (s : State c up) (g j : FallbackGroup) (want : String) (x : Option String)
      → IsApart g j
      → IsSettled s j
      → IsSettled (reconcile_at c up s g want x) j
  unfolding reconcile_at
  reconcile_at-IsSettled_other s g j want none a h = h
  reconcile_at-IsSettled_other s g j want (some current) a h = elim (Bool-cases (current == want)) [
    | inl t ↦ rw t (record {
      points = h.points;
      marked = lookup-set_active_other g j (want == g.fallback) s.active a.1 ∙ h.marked;
    })
    | inr t ↦ rw t (switch-IsSettled_other s g j want (select s.box g.group want) a h refl)
  ]

  reconcile_group-IsSettled_other :
      (s : State c up) (g j : FallbackGroup)
      → IsApart g j
      → IsSettled s j
      → IsSettled (reconcile_group c up s g) j
  unfolding reconcile_group
  reconcile_group-IsSettled_other s g j =
      reconcile_at-IsSettled_other s g j (wanted up g) (selected s.box g.group)

  reconcile-IsSettled_other :
      (gs : List FallbackGroup) (s : State c up) (j : FallbackGroup)
      → All (λ g. IsApart g j) gs
      → IsSettled s j
      → IsSettled (reconcile c up s gs) j
  unfolding reconcile
  reconcile-IsSettled_other [] s j a h = h
  reconcile-IsSettled_other (g ∷ gs) s j a h =
      reconcile-IsSettled_other gs (reconcile_group c up s g) j a.1
        (reconcile_group-IsSettled_other s g j a.0 h)

  -- After one pass every group runs over its primary member where its tunnel is up and over its
  -- fallback member where it is not, and is marked so, if each group is a selector that has both
  -- members and the groups are apart.
  pub reconcile-IsSettled :
      (gs : List FallbackGroup) (s : State c up)
      → All IsSwitchable gs
      → AreApart gs
      → All (IsSettled (reconcile c up s gs)) gs
  unfolding reconcile
  reconcile-IsSettled [] s sw a = tt
  reconcile-IsSettled (g ∷ gs) s sw a = (
    reconcile-IsSettled_other gs (reconcile_group c up s g) g a.0
        (reconcile_group-IsSettled s g sw.0),
    reconcile-IsSettled gs (reconcile_group c up s g) sw.1 a.1,
  )

  any-settled :
      (s : State c up) (k : String) (gs : List FallbackGroup)
      → All (IsSettled s) gs
      → any (λ g. g.interface == k && flag (lookup (active_key g) s.active)) gs
        ≡ any (λ g. g.interface == k && (wanted up g == g.fallback)) gs
  any-settled s k [] h = refl
  any-settled s k (g ∷ gs) h = rw h.0.marked (ground (arith, any-settled s k gs h.1))

  -- After one pass a tunnel is reported as on fallback exactly when some group over it should run
  -- over its fallback member, if each group is a selector that has both members and the groups are
  -- apart.
  pub active_by_interface-reconcile :
      (gs : List FallbackGroup) (s : State c up) (k : String)
      → All IsSwitchable gs
      → AreApart gs
      → flag (lookup k (active_by_interface (reconcile c up s gs).active gs))
        ≡ any (λ g. g.interface == k && (wanted up g == g.fallback)) gs
  active_by_interface-reconcile gs s k sw a =
      active_by_interface_lem (reconcile c up s gs).active gs k
      ∙ any-settled (reconcile c up s gs) k gs (reconcile-IsSettled gs s sw a)
