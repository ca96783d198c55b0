-- ===== src/Marzban.antt =====
-- What internal/legacyimport/marzban.go makes of the tables of a dump, into the shape of
-- internal/legacyimport/types.go. The truncation of a float and time.Parse are parameters. A warning
-- holds what its text names.
pub mod Import
pub mod Dump
pub mod Proxies
pub mod Warnings
pub mod Owners
pub mod Tests
use rapido_go.Prelude.{
  ℕ, ◌+◌, ◌-◌, ◌%◌, ◌^◌, ℤ, pos, negsuc, int_eq, Bool, true, false, not, ◌==◌, Option, none, some,
  List, [], ◌∷◌, ltb, if◌then◌else◌, Assoc, lookup, int32,
}
use rapido_go.Prelude.Bytes.{Bytes, bytes, bytes_eq}
use rapido_go.Mysqldump.{Value, null, text, int, float}

-- A time of the source panel, or that of the import where it has none.
pub data CreatedAt (T : Type 0) : Type 0 where
  at : T → CreatedAt T
  import_time : CreatedAt T

pub record Admin (T : Type 0) : Type 0 where
  pub source_id : ℤ
  pub username : Bytes
  pub hashed_password : Bytes
  pub created_at : CreatedAt T
  pub is_sudo : Bool
  pub password_reset_at : Option T
  pub telegram_id : Option ℤ
  pub discord_webhook : Option Bytes
  pub users_usage : ℤ

pub record Proxy : Type 0 where
  pub type : Bytes
  pub settings : Bytes
  pub excluded_inbounds : List Bytes

pub record User (T : Type 0) : Type 0 where
  pub source_id : ℤ
  pub source_admin_id : Option ℤ
  pub username : Bytes
  pub status : Bytes
  pub used_traffic : ℤ
  pub data_limit : Option ℤ
  pub data_limit_reset_strategy : Bytes
  pub expire : Option ℤ
  pub created_at : CreatedAt T
  pub note : Option Bytes
  pub sub_revoked_at : Option T
  pub sub_updated_at : Option T
  pub sub_last_user_agent : Option Bytes
  pub online_at : Option T
  pub edit_at : Option T
  pub on_hold_timeout : Option T
  pub on_hold_expire_duration : Option ℤ
  pub auto_delete_in_days : Option ℤ
  pub last_status_change : Option T
  pub proxies : List Proxy

pub record UserTemplate : Type 0 where
  pub name : Bytes
  pub data_limit : Option ℤ
  pub expire_duration : Option ℤ
  pub username_prefix : Option Bytes
  pub username_suffix : Option Bytes
  pub inbound_tags : List Bytes

pub record Host : Type 0 where
  pub remark : Bytes
  pub address : Bytes
  pub port : Option ℤ
  pub inbound_tag : Bytes
  pub sni : Option Bytes
  pub host_header : Option Bytes
  pub security : Bytes
  pub alpn : Bytes
  pub fingerprint : Bytes
  pub allow_insecure : Option Bool
  pub is_disabled : Option Bool
  pub path : Option Bytes
  pub mux_enable : Bool
  pub fragment_setting : Option Bytes
  pub random_user_agent : Bool
  pub noise_setting : Option Bytes
  pub use_sni_as_host : Bool

pub record NextPlan : Type 0 where
  pub source_user_id : ℤ
  pub data_limit : ℤ
  pub expire : Option ℤ
  pub add_remaining_traffic : Bool
  pub fire_on_either : Bool

pub data Warning : Type 0 where
  missing_created_at : Bytes → ℤ → Warning
  unknown_tag_excluded : ℤ → Bytes → Warning
  unrecognized_type : ℤ → Bytes → Warning
  unknown_admin : Bytes → ℤ → Warning
  unknown_tag_of_host : Bytes → Bytes → Warning
  placeholder_inbounds : ℕ → Warning

pub record ImportedData (T : Type 0) : Type 0 where
  pub admins : List (Admin T)
  pub users : List (User T)
  pub user_templates : List UserTemplate
  pub hosts : List Host
  pub inbounds : List Bytes
  pub next_plans : List NextPlan
  pub subscription_secret : Bytes
  pub warnings : List Warning

abbrev pub or_zero : Option ℤ → ℤ
or_zero none = pos 0
or_zero (some v) = v

abbrev pub is_nonzero : ℤ → Bool
is_nonzero v = not (v == pos 0)

abbrev pub or_empty : Option Bytes → Bytes
or_empty none = []
or_empty (some s) = s

abbrev pub SourceRow : Type 0 → Type 0
SourceRow F = Assoc Bytes (Value F)

module _ {F : Type 0} where
  abbrev pub text_of : Option (Value F) → Option Bytes
  text_of none = none
  text_of (some null) = none
  text_of (some (text s)) = some s
  text_of (some (int v)) = none
  text_of (some (float f)) = none

  -- `optStringPtr`
  unfoldable pub opt_string : SourceRow F → Bytes → Option Bytes
  opt_string r col = text_of (lookup col r)

  -- `reqString`
  unfoldable pub req_string : SourceRow F → Bytes → Bytes
  req_string r col = or_empty (text_of (lookup col r))

-- `truncate` is the conversion of a float to an int64.
module _ {F : Type 0} (truncate : F → ℤ) where
  abbrev pub number_of : Option (Value F) → Option ℤ
  number_of none = none
  number_of (some null) = none
  number_of (some (text s)) = none
  number_of (some (int v)) = some v
  number_of (some (float f)) = some (truncate f)

  -- `optInt64` and `optInt64Ptr`
  unfoldable pub opt_int64 : SourceRow F → Bytes → Option ℤ
  opt_int64 r col = number_of (lookup col r)

  -- `reqInt64`, and `optInt64Or` with a fallback of 0
  unfoldable pub req_int64 : SourceRow F → Bytes → ℤ
  unfolding opt_int64
  req_int64 r col = or_zero (opt_int64 r col)

  abbrev pub to_int32 : Option ℤ → Option ℤ
  to_int32 none = none
  to_int32 (some v) = some (int32 v)

  -- `optInt32Ptr`
  unfoldable pub opt_int32 : SourceRow F → Bytes → Option ℤ
  unfolding opt_int64 int32
  opt_int32 r col = to_int32 (opt_int64 r col)

  abbrev pub to_bool : Option ℤ → Option Bool
  to_bool none = none
  to_bool (some v) = some (is_nonzero v)

  -- `optBoolPtr`
  unfoldable pub opt_bool : SourceRow F → Bytes → Option Bool
  unfolding opt_int64
  opt_bool r col = to_bool (opt_int64 r col)

abbrev pub or_import_time : {T : Type 0} → Option T → CreatedAt T
or_import_time none = import_time
or_import_time (some t) = at t

abbrev pub missing_time : {T : Type 0} → Bytes → ℤ → Option T → List Warning
missing_time table id none = missing_created_at table id ∷ []
missing_time table id (some t) = []

abbrev pub time_of : {T : Type 0} → (Bytes → Option T) → Option Bytes → Option T
time_of parse_time none = none
time_of parse_time (some []) = none
time_of parse_time (some (c ∷ s)) = parse_time (c ∷ s)

-- `parse_time` is time.Parse with the layout of MySQL, none where it returns an error.
module _ {F T : Type 0} (parse_time : Bytes → Option T) where
  -- `optTimePtr`
  unfoldable pub opt_time : SourceRow F → Bytes → Option T
  unfolding opt_string
  opt_time r col = time_of parse_time (opt_string r col)

  -- `optTime` of the column created_at, and its warning
  unfoldable pub created_at_of : SourceRow F → CreatedAt T
  unfolding opt_time
  created_at_of r = or_import_time (opt_time r (bytes "created_at"))

  unfoldable pub created_at_warning : Bytes → ℤ → SourceRow F → List Warning
  unfolding opt_time
  created_at_warning table id r = missing_time table id (opt_time r (bytes "created_at"))
