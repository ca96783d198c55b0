-- ===== src/Marzban/Dump.antt =====
-- `FromMarzbanMySQLDump` of internal/legacyimport/marzban.go, on the tables that
-- internal/legacyimport/mysqldump.go has read.
use rapido_go.Prelude.{
  ℤ, int_eq, Option, none, some, List, [], ◌∷◌, ◌++◌, map, if◌then◌else◌, Assoc, lookup,
}
use rapido_go.Prelude.Bytes.{Bytes, bytes, bytes_eq}
use rapido_go.Mysqldump.Dump.{Dump, row}
use rapido_go.Marzban.{
  Admin, Proxy, UserTemplate, Host, NextPlan, Warning, unknown_tag_of_host, ImportedData, SourceRow,
  opt_string, req_string, opt_int64, req_int64, opt_int32, opt_bool, is_nonzero,
}
use rapido_go.Marzban.Import.{
  or_none_of, push_at, secret_of, is_known_tag, placeholders, warn, admin_of, admin_warning,
  excluded_by_proxy, excluded_warning, proxies_by_user, proxy_warning, user_of, user_warning,
}

module _ {F : Type 0} (truncate : F → ℤ) where
  unfoldable pub host_of : SourceRow F → Host
  unfolding opt_string req_string opt_int32 opt_bool req_int64
  host_of r = record {
    remark = req_string r (bytes "remark");
    address = req_string r (bytes "address");
    port = opt_int32 truncate r (bytes "port");
    inbound_tag = req_string r (bytes "inbound_tag");
    sni = opt_string r (bytes "sni");
    host_header = opt_string r (bytes "host");
    security = req_string r (bytes "security");
    alpn = req_string r (bytes "alpn");
    fingerprint = req_string r (bytes "fingerprint");
    allow_insecure = opt_bool truncate r (bytes "allowinsecure");
    is_disabled = opt_bool truncate r (bytes "is_disabled");
    path = opt_string r (bytes "path");
    mux_enable = is_nonzero (req_int64 truncate r (bytes "mux_enable"));
    fragment_setting = opt_string r (bytes "fragment_setting");
    random_user_agent = is_nonzero (req_int64 truncate r (bytes "random_user_agent"));
    noise_setting = opt_string r (bytes "noise_setting");
    use_sni_as_host = is_nonzero (req_int64 truncate r (bytes "use_sni_as_host"));
  }

  abbrev pub host_warning : List Bytes → SourceRow F → List Warning
  host_warning tags r =
      let tag = req_string r (bytes "inbound_tag") in
      if is_known_tag tags tag
      then []
      else unknown_tag_of_host (req_string r (bytes "remark")) tag ∷ []

  -- The tags of each template.
  unfoldable pub template_inbound_tags :
      List (SourceRow F) → Assoc ℤ (List Bytes) → Assoc ℤ (List Bytes)
  unfolding req_string opt_int64
  template_inbound_tags [] m = m
  template_inbound_tags (r ∷ rows) m = template_inbound_tags rows (
      push_at (opt_int64 truncate r (bytes "user_template_id")) (req_string r (bytes "inbound_tag"))
        m)

  unfoldable pub template_of : Assoc ℤ (List Bytes) → SourceRow F → UserTemplate
  unfolding opt_string req_string opt_int64 req_int64
  template_of tags r = record {
    name = req_string r (bytes "name");
    data_limit = opt_int64 truncate r (bytes "data_limit");
    expire_duration = opt_int64 truncate r (bytes "expire_duration");
    username_prefix = opt_string r (bytes "username_prefix");
    username_suffix = opt_string r (bytes "username_suffix");
    inbound_tags = or_none_of (lookup (req_int64 truncate r (bytes "id")) tags);
  }

  abbrev pub plan_of_user : SourceRow F → Option ℤ → List NextPlan → List NextPlan
  plan_of_user r none plans = plans
  plan_of_user r (some uid) plans =
      record {
        source_user_id = uid;
        data_limit = req_int64 truncate r (bytes "data_limit");
        expire = opt_int32 truncate r (bytes "expire");
        add_remaining_traffic = is_nonzero (req_int64 truncate r (bytes "add_remaining_traffic"));
        fire_on_either = is_nonzero (req_int64 truncate r (bytes "fire_on_either"));
      }
      ∷ plans

  unfoldable pub next_plans_of : List (SourceRow F) → List NextPlan
  unfolding opt_int64 req_int64 opt_int32
  next_plans_of [] = []
  next_plans_of (r ∷ rows) =
      plan_of_user r (opt_int64 truncate r (bytes "user_id")) (next_plans_of rows)

-- The rows of a table, none where the dump does not have it.
abbrev pub rows_of_table :
    {F : Type 0} (parse_float : Bytes → Option F) → Dump parse_float → Bytes → List (SourceRow F)
rows_of_table parse_float dump name = or_none_of (row parse_float dump name)

module _ {F : Type 0} (parse_float : Bytes → Option F) (truncate : F → ℤ) where
  abbrev pub excluded_of : Dump parse_float → Assoc ℤ (List Bytes)
  excluded_of dump =
      excluded_by_proxy truncate
        (rows_of_table parse_float dump (bytes "exclude_inbounds_association")) []

  abbrev pub proxies_of : Dump parse_float → Assoc ℤ (List Proxy)
  proxies_of dump =
      proxies_by_user truncate (excluded_of dump) (rows_of_table parse_float dump (bytes "proxies"))
        []

module _ {F T : Type 0} (parse_float : Bytes → Option F) (truncate : F → ℤ)
    (parse_time : Bytes → Option T) where
  abbrev pub admins_of : Dump parse_float → List (Admin T)
  admins_of dump =
      map (admin_of truncate parse_time) (rows_of_table parse_float dump (bytes "admins"))

  abbrev pub inbounds_of : Dump parse_float → List Bytes
  inbounds_of dump =
      map (λ r. req_string r (bytes "tag")) (rows_of_table parse_float dump (bytes "inbounds"))

  -- `FromMarzbanMySQLDump`
  unfoldable pub from_marzban_mysql_dump : Dump parse_float → ImportedData T
  unfolding req_string secret_of admin_of excluded_by_proxy proxies_by_user proxy_warning user_of
      host_of template_inbound_tags template_of next_plans_of
  from_marzban_mysql_dump dump =
      let admins = admins_of dump in
      let tags = inbounds_of dump in
      record {
        admins = admins;
        users =
            map (user_of truncate parse_time admins (proxies_of parse_float truncate dump))
              (rows_of_table parse_float dump (bytes "users"));
        user_templates =
            map
              (template_of truncate (
                template_inbound_tags truncate
                  (rows_of_table parse_float dump (bytes "template_inbounds_association")) []))
              (rows_of_table parse_float dump (bytes "user_templates"));
        hosts = map (host_of truncate) (rows_of_table parse_float dump (bytes "hosts"));
        inbounds = tags;
        next_plans = next_plans_of truncate (rows_of_table parse_float dump (bytes "next_plans"));
        subscription_secret = secret_of (rows_of_table parse_float dump (bytes "jwt"));
        warnings =
            warn (admin_warning truncate parse_time)
              (rows_of_table parse_float dump (bytes "admins"))
            ++ warn (excluded_warning truncate tags)
                (rows_of_table parse_float dump (bytes "exclude_inbounds_association"))
            ++ warn (proxy_warning truncate) (rows_of_table parse_float dump (bytes "proxies"))
            ++ warn (user_warning truncate parse_time admins)
                (rows_of_table parse_float dump (bytes "users"))
            ++ warn (host_warning truncate tags) (rows_of_table parse_float dump (bytes "hosts"))
            ++ placeholders tags;
      }
