-- ===== src/ProxySettings.antt =====
-- internal/proxysettings/proxysettings.go: the settings of a user's proxies. Encoding and decoding
-- a struct as JSON are the libraries', and so are the random values, of which an operation uses at
-- most one of each kind. A value of Settings has the one struct that its type names.
pub mod Stored
pub mod Tests
use rapido_go.Prelude.{
  ℕ, String, Bool, true, false, not, ◌&&◌, ◌==◌, string_eq, Option, none, some, List, [], ◌∷◌,
  if◌then◌else◌, ◌≡◌,
}
use rapido_go.Prelude.Bytes.{Bytes, bytes, is_same, trim_space}

pub data ProxyType : Type 0 where
  vmess : ProxyType
  vless : ProxyType
  trojan : ProxyType
  shadowsocks : ProxyType
  hysteria2 : ProxyType
  tuic : ProxyType
  snell : ProxyType
  anytls : ProxyType
  other : String → ProxyType

-- `ProxyType.Valid`
pub is_valid : ProxyType → Bool
is_valid (other name) = false
is_valid vmess = true
is_valid vless = true
is_valid trojan = true
is_valid shadowsocks = true
is_valid hysteria2 = true
is_valid tuic = true
is_valid snell = true
is_valid anytls = true

abbrev pub flow_none : String
flow_none = ""

abbrev pub flow_vision : String
flow_vision = "xtls-rprx-vision"

abbrev pub chacha20_poly1305 : String
chacha20_poly1305 = "chacha20-ietf-poly1305"

pub record VmessSettings : Type 0 where
  pub id : String

pub record VlessSettings : Type 0 where
  pub id : String
  pub flow : String

pub record TrojanSettings : Type 0 where
  pub password : String
  pub flow : String

pub record ShadowsocksSettings : Type 0 where
  pub password : String
  pub method : String

pub record Hysteria2Settings : Type 0 where
  pub password : String

pub record TuicSettings : Type 0 where
  pub id : String
  pub password : String

pub record SnellSettings : Type 0 where
  pub user_key : String

pub record AnytlsSettings : Type 0 where
  pub password : String

pub data Settings : Type 0 where
  for_vmess : VmessSettings → Settings
  for_vless : VlessSettings → Settings
  for_trojan : TrojanSettings → Settings
  for_shadowsocks : ShadowsocksSettings → Settings
  for_hysteria2 : Hysteria2Settings → Settings
  for_tuic : TuicSettings → Settings
  for_snell : SnellSettings → Settings
  for_anytls : AnytlsSettings → Settings

abbrev pub type_of : Settings → ProxyType
type_of (for_vmess s) = vmess
type_of (for_vless s) = vless
type_of (for_trojan s) = trojan
type_of (for_shadowsocks s) = shadowsocks
type_of (for_hysteria2 s) = hysteria2
type_of (for_tuic s) = tuic
type_of (for_snell s) = snell
type_of (for_anytls s) = anytls

-- encoding/json on a struct: what is encoded is an object, and is decoded to the struct.
pub record Json (S : Type 0) : Type 0 where
  pub encode : S → Bytes
  pub decode : Bytes → Option S
  pub decode-encode : (s : S) → decode (encode s) ≡ some s
  pub encode_object : (s : S) → (rest : Bytes) × (encode s ≡ b'{' ∷ rest)

pub record Codecs : Type 0 where
  pub vmess_json : Json VmessSettings
  pub vless_json : Json VlessSettings
  pub trojan_json : Json TrojanSettings
  pub shadowsocks_json : Json ShadowsocksSettings
  pub hysteria2_json : Json Hysteria2Settings
  pub tuic_json : Json TuicSettings
  pub snell_json : Json SnellSettings
  pub anytls_json : Json AnytlsSettings

-- What uuid.NewString and `randomPassword` return.
pub record Fresh : Type 0 where
  pub uuid : String
  pub password : String

abbrev pub is_empty : Bytes → Bool
is_empty [] = true
is_empty (c ∷ s) = false

-- `hasSettings`
unfoldable pub has_settings : Bytes → Bool
has_settings raw = not (is_empty raw) && not (is_same (trim_space raw) (bytes "[]"))

-- The struct that raw settings hold, the zero value where they hold none.
abbrev pub read : {S : Type 0} → Json S → S → Bytes → Option S
read json zero raw = if has_settings raw then json.decode raw else some zero

abbrev pub or_fresh : String → String → String
or_fresh s fresh = if s == "" then fresh else s

abbrev pub built : {S : Type 0} → (S → Settings) → Option S → Option Settings
built f none = none
built f (some s) = some (f s)

module _ (fresh : Fresh) where
  abbrev pub fill_vmess : VmessSettings → Settings
  fill_vmess s = for_vmess (record { id = or_fresh s.id fresh.uuid })

  abbrev pub fill_vless : Bool → VlessSettings → Settings
  fill_vless coerce s = for_vless (record {
    id = or_fresh s.id fresh.uuid;
    flow = if coerce && (s.flow == flow_none) then flow_vision else s.flow;
  })

  abbrev pub fill_trojan : TrojanSettings → Settings
  fill_trojan s = for_trojan (record s { password = or_fresh s.password fresh.password })

  abbrev pub fill_shadowsocks : ShadowsocksSettings → Settings
  fill_shadowsocks s = for_shadowsocks (record {
    password = or_fresh s.password fresh.password;
    method = or_fresh s.method chacha20_poly1305;
  })

  abbrev pub fill_hysteria2 : Hysteria2Settings → Settings
  fill_hysteria2 s = for_hysteria2 (record { password = or_fresh s.password fresh.password })

  abbrev pub fill_tuic : TuicSettings → Settings
  fill_tuic s =
      for_tuic
        (record { id = or_fresh s.id fresh.uuid; password = or_fresh s.password fresh.password })

  abbrev pub fill_snell : SnellSettings → Settings
  fill_snell s = for_snell (record { user_key = or_fresh s.user_key fresh.password })

  abbrev pub fill_anytls : AnytlsSettings → Settings
  fill_anytls s = for_anytls (record { password = or_fresh s.password fresh.password })

module _ (codecs : Codecs) (fresh : Fresh) where
  -- `parse`
  unfoldable pub parse : Bool → ProxyType → Bytes → Option Settings
  parse coerce vmess raw =
      built (fill_vmess fresh) (read codecs.vmess_json (record { id = "" }) raw)
  parse coerce vless raw =
      built (fill_vless fresh coerce) (read codecs.vless_json (record { id = ""; flow = "" }) raw)
  parse coerce trojan raw =
      built (fill_trojan fresh) (read codecs.trojan_json (record { password = ""; flow = "" }) raw)
  parse coerce shadowsocks raw =
      built (fill_shadowsocks fresh)
        (read codecs.shadowsocks_json (record { password = ""; method = "" }) raw)
  parse coerce hysteria2 raw =
      built (fill_hysteria2 fresh) (read codecs.hysteria2_json (record { password = "" }) raw)
  parse coerce tuic raw =
      built (fill_tuic fresh) (read codecs.tuic_json (record { id = ""; password = "" }) raw)
  parse coerce snell raw =
      built (fill_snell fresh) (read codecs.snell_json (record { user_key = "" }) raw)
  parse coerce anytls raw =
      built (fill_anytls fresh) (read codecs.anytls_json (record { password = "" }) raw)
  parse coerce (other name) raw = none

  -- `FromWire`
  abbrev pub from_wire : ProxyType → Bytes → Option Settings
  from_wire t raw = parse true t raw

  -- `FromStored`
  abbrev pub from_stored : ProxyType → Bytes → Option Settings
  from_stored t raw = parse false t raw

-- `Settings.MarshalJSON`
unfoldable pub marshal : Codecs → Settings → Bytes
marshal codecs (for_vmess s) = codecs.vmess_json.encode s
marshal codecs (for_vless s) = codecs.vless_json.encode s
marshal codecs (for_trojan s) = codecs.trojan_json.encode s
marshal codecs (for_shadowsocks s) = codecs.shadowsocks_json.encode s
marshal codecs (for_hysteria2 s) = codecs.hysteria2_json.encode s
marshal codecs (for_tuic s) = codecs.tuic_json.encode s
marshal codecs (for_snell s) = codecs.snell_json.encode s
marshal codecs (for_anytls s) = codecs.anytls_json.encode s

-- `Settings.Revoke`
unfoldable pub revoke : Fresh → Settings → Settings
revoke fresh (for_vmess s) = for_vmess (record { id = fresh.uuid })
revoke fresh (for_vless s) = for_vless (record s { id = fresh.uuid })
revoke fresh (for_trojan s) = for_trojan (record s { password = fresh.password })
revoke fresh (for_shadowsocks s) = for_shadowsocks (record s { password = fresh.password })
revoke fresh (for_hysteria2 s) = for_hysteria2 (record { password = fresh.password })
revoke fresh (for_tuic s) = for_tuic (record { id = fresh.uuid; password = fresh.password })
revoke fresh (for_snell s) = for_snell (record { user_key = fresh.password })
revoke fresh (for_anytls s) = for_anytls (record { password = fresh.password })
