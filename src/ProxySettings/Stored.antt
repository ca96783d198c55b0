-- ===== src/ProxySettings/Stored.antt =====
-- What is stored is read back, and what comes in is complete.
use rapido_go.Prelude.{
  String, true, false, not, ◌&&◌, ◌==◌, string_eq, eq_iff, Option, none, some, [], ◌∷◌,
  if◌then◌else◌, if_false, eq_false, Bool-cases, inl, inr, ◌≡◌, ◌≢◌, refl, sym, ap, ap₂, ◌∙◌, arith,
}
use mathlib.Core.Path.{subst}
use rapido_go.Prelude.Bytes.{Bytes, bytes, is_same, trim_left, trim_right, cons_trimmed}
use rapido_go.ProxySettings.{
  ProxyType, vmess, vless, trojan, shadowsocks, hysteria2, tuic, snell, anytls, other, Settings,
  for_vmess, for_vless, for_trojan, for_shadowsocks, for_hysteria2, for_tuic, for_snell, for_anytls,
  type_of, Json, Codecs, Fresh, has_settings, read, or_fresh, built, fill_vmess, fill_vless,
  fill_trojan, fill_shadowsocks, fill_hysteria2, fill_tuic, fill_snell, fill_anytls, parse,
  from_wire, from_stored, marshal, revoke, flow_none, flow_vision, chacha20_poly1305,
  TrojanSettings,
}

-- No identity, secret or method is empty.
abbrev pub IsComplete : Settings → Type 0
IsComplete (for_vmess s) = s.id ≢ ""
IsComplete (for_vless s) = s.id ≢ ""
IsComplete (for_trojan s) = s.password ≢ ""
IsComplete (for_shadowsocks s) = (s.password ≢ "") × (s.method ≢ "")
IsComplete (for_hysteria2 s) = s.password ≢ ""
IsComplete (for_tuic s) = (s.id ≢ "") × (s.password ≢ "")
IsComplete (for_snell s) = s.user_key ≢ ""
IsComplete (for_anytls s) = s.password ≢ ""

abbrev pub HasFlow : Settings → Type 0
HasFlow (for_vless s) = s.flow ≢ flow_none
HasFlow (for_vmess s) = Unit
HasFlow (for_trojan s) = Unit
HasFlow (for_shadowsocks s) = Unit
HasFlow (for_hysteria2 s) = Unit
HasFlow (for_tuic s) = Unit
HasFlow (for_snell s) = Unit
HasFlow (for_anytls s) = Unit

-- The random values are not empty.
abbrev pub IsFresh : Fresh → Type 0
IsFresh f = (f.uuid ≢ "") × (f.password ≢ "")

or_fresh_kept : (s f : String) → s ≢ "" → or_fresh s f ≡ s
or_fresh_kept s f h = if_false (s == "") f s (eq_false (s == "") (λ e. h ((eq_iff s "").0 e)))

or_fresh_ne : (s f : String) → f ≢ "" → or_fresh s f ≢ ""
or_fresh_ne s f h = elim (Bool-cases (s == "")) [
  | inl e ↦ rw e h
  | inr e ↦ rw e (λ p. ground (arith, e, (eq_iff s "").1 p))
]

object_is_settings :
    (t : Bytes) → not (is_same (trim_left (cons_trimmed b'{' t)) (bytes "[]")) ≡ true
object_is_settings [] = refl
object_is_settings (c ∷ t) = refl

object_has_settings : (rest : Bytes) → has_settings (b'{' ∷ rest) ≡ true
unfolding has_settings
object_has_settings rest = object_is_settings (trim_right rest)

read-encode : {S : Type 0} (json : Json S) (zero s : S) → read json zero (json.encode s) ≡ some s
read-encode json zero s =
    let (rest, e) = json.encode_object s in
    ap (λ b. if b then json.decode (json.encode s) else some zero)
      (ap has_settings e ∙ object_has_settings rest)
    ∙ json.decode-encode s

built-some :
    {S : Type 0} (f : S → Settings) (o : Option S) (s : Settings)
    → built f o ≡ some s
    → (x : S) × (f x ≡ s)
built-some f none s e = absurd (ground (arith, e))
built-some f (some x) s e = (x, cc)

stored :
    {S : Type 0} (json : Json S) (zero s : S) (f : S → Settings) (t : Settings)
    → f s ≡ t
    → built f (read json zero (json.encode s)) ≡ some t
stored json zero s f t e = ap (built f) (read-encode json zero s) ∙ ap some e

module _ (codecs : Codecs) where
  -- Complete settings that are stored are read back as they are, whatever the random values.
  pub from_stored-marshal :
      (fresh : Fresh) (s : Settings)
      → IsComplete s
      → from_stored codecs fresh (type_of s) (marshal codecs s) ≡ some s
  unfolding parse marshal
  from_stored-marshal fresh (for_vmess s) h =
      stored codecs.vmess_json _ s (fill_vmess fresh) (for_vmess s)
        (ap (λ x. for_vmess (record { id = x })) (or_fresh_kept s.id fresh.uuid h))
  from_stored-marshal fresh (for_vless s) h =
      stored codecs.vless_json _ s (fill_vless fresh false) (for_vless s)
        (ap (λ x. for_vless (record s { id = x })) (or_fresh_kept s.id fresh.uuid h))
  from_stored-marshal fresh (for_trojan s) h =
      stored codecs.trojan_json _ s (fill_trojan fresh) (for_trojan s) (
        ap (λ x. for_trojan (record s { password = x }))
          (or_fresh_kept s.password fresh.password h))
  from_stored-marshal fresh (for_shadowsocks s) h =
      stored codecs.shadowsocks_json _ s (fill_shadowsocks fresh) (for_shadowsocks s) (
        ap₂ (λ x y. for_shadowsocks (record { password = x; method = y }))
          (or_fresh_kept s.password fresh.password h.0)
          (or_fresh_kept s.method chacha20_poly1305 h.1))
  from_stored-marshal fresh (for_hysteria2 s) h =
      stored codecs.hysteria2_json _ s (fill_hysteria2 fresh) (for_hysteria2 s) (
        ap (λ x. for_hysteria2 (record { password = x }))
          (or_fresh_kept s.password fresh.password h))
  from_stored-marshal fresh (for_tuic s) h =
      stored codecs.tuic_json _ s (fill_tuic fresh) (for_tuic s) (
        ap₂ (λ x y. for_tuic (record { id = x; password = y })) (or_fresh_kept s.id fresh.uuid h.0)
          (or_fresh_kept s.password fresh.password h.1))
  from_stored-marshal fresh (for_snell s) h =
      stored codecs.snell_json _ s (fill_snell fresh) (for_snell s)
        (ap (λ x. for_snell (record { user_key = x })) (or_fresh_kept s.user_key fresh.password h))
  from_stored-marshal fresh (for_anytls s) h =
      stored codecs.anytls_json _ s (fill_anytls fresh) (for_anytls s)
        (ap (λ x. for_anytls (record { password = x })) (or_fresh_kept s.password fresh.password h))

  revoke-IsComplete :
      (fresh : Fresh) (s : Settings) → IsFresh fresh → IsComplete s → IsComplete (revoke fresh s)
  unfolding revoke
  revoke-IsComplete fresh (for_vmess s) f h = f.0
  revoke-IsComplete fresh (for_vless s) f h = f.0
  revoke-IsComplete fresh (for_trojan s) f h = f.1
  revoke-IsComplete fresh (for_shadowsocks s) f h = (f.1, h.1)
  revoke-IsComplete fresh (for_hysteria2 s) f h = f.1
  revoke-IsComplete fresh (for_tuic s) f h = (f.0, f.1)
  revoke-IsComplete fresh (for_snell s) f h = f.1
  revoke-IsComplete fresh (for_anytls s) f h = f.1

  type_of-revoke : (fresh : Fresh) (s : Settings) → type_of (revoke fresh s) ≡ type_of s
  unfolding revoke
  type_of-revoke fresh (for_vmess s) = refl
  type_of-revoke fresh (for_vless s) = refl
  type_of-revoke fresh (for_trojan s) = refl
  type_of-revoke fresh (for_shadowsocks s) = refl
  type_of-revoke fresh (for_hysteria2 s) = refl
  type_of-revoke fresh (for_tuic s) = refl
  type_of-revoke fresh (for_snell s) = refl
  type_of-revoke fresh (for_anytls s) = refl

  revoke-revoke : (g f : Fresh) (s : Settings) → revoke g (revoke f s) ≡ revoke g s
  unfolding revoke
  revoke-revoke g f (for_vmess s) = refl
  revoke-revoke g f (for_vless s) = refl
  revoke-revoke g f (for_trojan s) = refl
  revoke-revoke g f (for_shadowsocks s) = refl
  revoke-revoke g f (for_hysteria2 s) = refl
  revoke-revoke g f (for_tuic s) = refl
  revoke-revoke g f (for_snell s) = refl
  revoke-revoke g f (for_anytls s) = refl

  -- Complete settings whose secret is rotated, stored and read back under their type are the
  -- rotated ones, with a secret again and all else kept: rotating them once more gives what
  -- rotating the old ones gives.
  pub revoke_stored :
      (fresh g : Fresh) (s : Settings)
      → IsFresh g
      → IsComplete s
      → (from_stored codecs fresh (type_of s) (marshal codecs (revoke g s)) ≡ some (revoke g s))
        × IsComplete (revoke g s)
        × ((f : Fresh) → revoke f (revoke g s) ≡ revoke f s)
  revoke_stored fresh g s f h =
      let complete = revoke-IsComplete g s f h in
      (
        subst (λ t. from_stored codecs fresh t (marshal codecs (revoke g s)) ≡ some (revoke g s))
            (type_of-revoke g s) (from_stored-marshal fresh (revoke g s) complete),
        complete,
        λ k. revoke-revoke k g s,
      )

  flow_kept :
      (flow : String) → (if true && (flow == flow_none) then flow_vision else flow) ≢ flow_none
  flow_kept flow = elim (Bool-cases (flow == "")) [
    | inl e ↦ rw e (λ p. ground (arith, p, (eq_iff flow_vision flow_none).1 p))
    | inr e ↦ rw e (λ p. ground (arith, e, (eq_iff flow "").1 p))
  ]

  abbrev pub IsSound : ProxyType → Settings → Type 0
  IsSound t s = (type_of s ≡ t) × IsComplete s × HasFlow s

  sound :
      {S : Type 0} (f : S → Settings) (o : Option S) (s : Settings) (t : ProxyType)
      → ((x : S) → IsSound t (f x))
      → built f o ≡ some s
      → IsSound t s
  sound f o s t h e = let (x, p) = built-some f o s e in subst (IsSound t) p (h x)

  -- What comes in has the type that it was sent for, an identity or secret that is not empty, and
  -- a flow where it is for VLESS.
  pub from_wire_lem :
      (fresh : Fresh) (t : ProxyType) (raw : Bytes) (s : Settings)
      → IsFresh fresh
      → from_wire codecs fresh t raw ≡ some s
      → (type_of s ≡ t) × IsComplete s × HasFlow s
  unfolding parse
  from_wire_lem fresh vmess raw s f e =
      sound (fill_vmess fresh) _ s vmess (λ x. (refl, or_fresh_ne x.id fresh.uuid f.0, tt)) e
  from_wire_lem fresh vless raw s f e =
      sound (fill_vless fresh true) _ s vless
        (λ x. (refl, or_fresh_ne x.id fresh.uuid f.0, flow_kept x.flow)) e
  from_wire_lem fresh trojan raw s f e =
      sound (fill_trojan fresh) _ s trojan
        (λ x. (refl, or_fresh_ne x.password fresh.password f.1, tt)) e
  from_wire_lem fresh shadowsocks raw s f e =
      sound (fill_shadowsocks fresh) _ s shadowsocks
        (λ x. (
          refl,
          (
            or_fresh_ne x.password fresh.password f.1,
            or_fresh_ne x.method chacha20_poly1305
                (λ p. ground (arith, (eq_iff chacha20_poly1305 "").1 p)),
          ),
          tt,
        ))
        e
  from_wire_lem fresh hysteria2 raw s f e =
      sound (fill_hysteria2 fresh) _ s hysteria2
        (λ x. (refl, or_fresh_ne x.password fresh.password f.1, tt)) e
  from_wire_lem fresh tuic raw s f e =
      sound (fill_tuic fresh) _ s tuic
        (λ x.
          (refl, (or_fresh_ne x.id fresh.uuid f.0, or_fresh_ne x.password fresh.password f.1), tt))
        e
  from_wire_lem fresh snell raw s f e =
      sound (fill_snell fresh) _ s snell
        (λ x. (refl, or_fresh_ne x.user_key fresh.password f.1, tt)) e
  from_wire_lem fresh anytls raw s f e =
      sound (fill_anytls fresh) _ s anytls
        (λ x. (refl, or_fresh_ne x.password fresh.password f.1, tt)) e
  from_wire_lem fresh (other name) raw s f e = absurd (ground (arith, e))

  -- A stored Trojan row with no password is read with a random one: two readings with different
  -- random values disagree.
  pub from_stored_random :
      (f g : Fresh) (flow : String)
      → f.password ≢ g.password
      → from_stored codecs f trojan
          (marshal codecs (for_trojan (record { password = ""; flow = flow })))
        ≢ from_stored codecs g trojan
            (marshal codecs (for_trojan (record { password = ""; flow = flow })))
  unfolding parse marshal
  from_stored_random f g flow h e =
      let row : TrojanSettings = record { password = ""; flow = flow } in
      let zero : TrojanSettings = record { password = ""; flow = "" } in
      let left = stored codecs.trojan_json zero row (fill_trojan f) (fill_trojan f row) refl in
      let right = stored codecs.trojan_json zero row (fill_trojan g) (fill_trojan g row) refl in
      h (ap password_of (sym left ∙ e ∙ right))
    where
      password_of : Option Settings → String
      password_of (some (for_trojan s)) = s.password
      password_of o = ""
