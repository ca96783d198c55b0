-- ===== src/Marzban/Import.antt =====
-- The loops of `FromMarzbanMySQLDump` over the tables of a dump.
use rapido_go.Prelude.{
  ℤ, int_eq, Bool, ◌==◌, Option, none, some, List, [], ◌∷◌, ◌++◌, any, length, if◌then◌else◌, Assoc,
  lookup, insert,
}
use rapido_go.Prelude.Bytes.{Bytes, bytes, bytes_eq}
use rapido_go.Marzban.{
  Admin, Proxy, User, Warning, unknown_tag_excluded, unrecognized_type, unknown_admin,
  placeholder_inbounds, SourceRow, opt_string, req_string, opt_int64, req_int64, opt_int32,
  opt_time, created_at_of, created_at_warning, is_nonzero,
}

-- `marzbanProxyTypeMap`
unfoldable pub marzban_proxy_type : Bytes → Option Bytes
marzban_proxy_type t =
    if t == bytes "VMess"
    then some (bytes "vmess")
    else if t == bytes "VLESS"
    then some (bytes "vless")
    else if t == bytes "Trojan"
    then some (bytes "trojan")
    else if t == bytes "Shadowsocks"
    then some (bytes "shadowsocks")
    else none

abbrev pub or_none_of {ℓ} : {A : Type ℓ} → Option (List A) → List A
or_none_of none = []
or_none_of (some xs) = xs

-- m[k] = append(m[k], v)
abbrev pub push {ℓ} : {A : Type ℓ} → ℤ → A → Assoc ℤ (List A) → Assoc ℤ (List A)
push k v m = insert k (or_none_of (lookup k m) ++ (v ∷ [])) m

abbrev pub first_key : Option Bytes → Bytes → Bytes
first_key none later = later
first_key (some []) later = later
first_key (some (c ∷ s)) later = c ∷ s

-- The signing key.
unfoldable pub secret_of : {F : Type 0} → List (SourceRow F) → Bytes
unfolding opt_string
secret_of [] = []
secret_of (r ∷ rows) = first_key (opt_string r (bytes "secret_key")) (secret_of rows)

abbrev pub is_known_tag : List Bytes → Bytes → Bool
is_known_tag tags tag = any (λ t. t == tag) tags

-- What a row adds where it names a proxy, a user or a template.
abbrev pub push_at {ℓ} : {A : Type ℓ} → Option ℤ → A → Assoc ℤ (List A) → Assoc ℤ (List A)
push_at none v m = m
push_at (some k) v m = push k v m

abbrev pub is_admin : {T : Type 0} → List (Admin T) → ℤ → Bool
is_admin admins aid = any (λ a. a.source_id == aid) admins

abbrev pub owner_of : {T : Type 0} → List (Admin T) → Option ℤ → Option ℤ
owner_of admins none = none
owner_of admins (some aid) = if is_admin admins aid then some aid else none

abbrev pub owner_warning : {T : Type 0} → List (Admin T) → Bytes → Option ℤ → List Warning
owner_warning admins name none = []
owner_warning admins name (some aid) =
    if is_admin admins aid then [] else unknown_admin name aid ∷ []

abbrev pub placeholders : List Bytes → List Warning
placeholders [] = []
placeholders (t ∷ tags) = placeholder_inbounds (length (t ∷ tags)) ∷ []

-- A table that the dump does not have has no rows to go through.
abbrev pub warn {ℓ} : {A : Type ℓ} → (A → List Warning) → List A → List Warning
warn f [] = []
warn f (a ∷ rows) = f a ++ warn f rows

abbrev pub unknown_tag : List Bytes → Bytes → Option ℤ → List Warning
unknown_tag tags tag none = []
unknown_tag tags tag (some pid) =
    if is_known_tag tags tag then [] else unknown_tag_excluded pid tag ∷ []

abbrev pub tags_of : Assoc ℤ (List Bytes) → ℤ → List Bytes
tags_of m id = or_none_of (lookup id m)

module _ {F : Type 0} where
  abbrev pub tag_of : SourceRow F → Bytes
  tag_of r = req_string r (bytes "inbound_tag")

  abbrev pub type_of : SourceRow F → Option Bytes
  type_of r = marzban_proxy_type (req_string r (bytes "type"))

module _ {F : Type 0} (truncate : F → ℤ) where
  abbrev pub id_of : SourceRow F → ℤ
  id_of r = req_int64 truncate r (bytes "id")

  -- The tags that each proxy excludes.
  unfoldable pub excluded_by_proxy :
      List (SourceRow F) → Assoc ℤ (List Bytes) → Assoc ℤ (List Bytes)
  unfolding req_string opt_int64
  excluded_by_proxy [] m = m
  excluded_by_proxy (r ∷ rows) m =
      excluded_by_proxy rows (push_at (opt_int64 truncate r (bytes "proxy_id")) (tag_of r) m)

  abbrev pub excluded_warning : List Bytes → SourceRow F → List Warning
  excluded_warning tags r = unknown_tag tags (tag_of r) (opt_int64 truncate r (bytes "proxy_id"))

  unfoldable pub proxy_of : Assoc ℤ (List Bytes) → SourceRow F → Bytes → Proxy
  unfolding req_string req_int64
  proxy_of excluded r type = record {
    type = type;
    settings = req_string r (bytes "settings");
    excluded_inbounds = tags_of excluded (id_of r);
  }

  abbrev pub push_proxy :
      Assoc ℤ (List Bytes)
      → SourceRow F
      → Option ℤ
      → Option Bytes
      → Assoc ℤ (List Proxy)
      → Assoc ℤ (List Proxy)
  push_proxy excluded r uid none m = m
  push_proxy excluded r uid (some type) m = push_at uid (proxy_of excluded r type) m

  -- The proxies of each user.
  unfoldable pub proxies_by_user :
      Assoc ℤ (List Bytes) → List (SourceRow F) → Assoc ℤ (List Proxy) → Assoc ℤ (List Proxy)
  unfolding req_string opt_int64 proxy_of marzban_proxy_type
  proxies_by_user excluded [] m = m
  proxies_by_user excluded (r ∷ rows) m =
      proxies_by_user excluded rows
        (push_proxy excluded r (opt_int64 truncate r (bytes "user_id")) (type_of r) m)

  abbrev pub unrecognized : SourceRow F → Option ℤ → Option Bytes → List Warning
  unrecognized r none type = []
  unrecognized r (some uid) none = unrecognized_type (id_of r) (req_string r (bytes "type")) ∷ []
  unrecognized r (some uid) (some type) = []

  unfoldable pub proxy_warning : SourceRow F → List Warning
  unfolding req_string req_int64 opt_int64 marzban_proxy_type
  proxy_warning r = unrecognized r (opt_int64 truncate r (bytes "user_id")) (type_of r)

module _ {F T : Type 0} (truncate : F → ℤ) (parse_time : Bytes → Option T) where
  unfoldable pub admin_of : SourceRow F → Admin T
  unfolding opt_string req_string opt_int64 req_int64 opt_time created_at_of
  admin_of r = record {
    source_id = req_int64 truncate r (bytes "id");
    username = req_string r (bytes "username");
    hashed_password = req_string r (bytes "hashed_password");
    created_at = created_at_of parse_time r;
    is_sudo = is_nonzero (req_int64 truncate r (bytes "is_sudo"));
    password_reset_at = opt_time parse_time r (bytes "password_reset_at");
    telegram_id = opt_int64 truncate r (bytes "telegram_id");
    discord_webhook = opt_string r (bytes "discord_webhook");
    users_usage = req_int64 truncate r (bytes "users_usage");
  }

  abbrev pub admin_warning : SourceRow F → List Warning
  admin_warning r = created_at_warning parse_time (bytes "admins") (id_of truncate r) r

  unfoldable pub user_of : List (Admin T) → Assoc ℤ (List Proxy) → SourceRow F → User T
  unfolding opt_string req_string opt_int64 req_int64 opt_int32 opt_time created_at_of
  user_of admins proxies r = record {
    source_id = req_int64 truncate r (bytes "id");
    source_admin_id = owner_of admins (opt_int64 truncate r (bytes "admin_id"));
    username = req_string r (bytes "username");
    status = req_string r (bytes "status");
    used_traffic = req_int64 truncate r (bytes "used_traffic");
    data_limit = opt_int64 truncate r (bytes "data_limit");
    data_limit_reset_strategy = req_string r (bytes "data_limit_reset_strategy");
    expire = opt_int32 truncate r (bytes "expire");
    created_at = created_at_of parse_time r;
    note = opt_string r (bytes "note");
    sub_revoked_at = opt_time parse_time r (bytes "sub_revoked_at");
    sub_updated_at = opt_time parse_time r (bytes "sub_updated_at");
    sub_last_user_agent = opt_string r (bytes "sub_last_user_agent");
    online_at = opt_time parse_time r (bytes "online_at");
    edit_at = opt_time parse_time r (bytes "edit_at");
    on_hold_timeout = opt_time parse_time r (bytes "on_hold_timeout");
    on_hold_expire_duration = opt_int64 truncate r (bytes "on_hold_expire_duration");
    auto_delete_in_days = opt_int32 truncate r (bytes "auto_delete_in_days");
    last_status_change = opt_time parse_time r (bytes "last_status_change");
    proxies = or_none_of (lookup (req_int64 truncate r (bytes "id")) proxies);
  }

  abbrev pub user_warning : List (Admin T) → SourceRow F → List Warning
  user_warning admins r =
      owner_warning admins (req_string r (bytes "username"))
        (opt_int64 truncate r (bytes "admin_id"))
      ++ created_at_warning parse_time (bytes "users") (id_of truncate r) r
