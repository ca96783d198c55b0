-- ===== src/Marzban/Proxies.antt =====
-- The grouping maps of internal/legacyimport/marzban.go hold for each key what a search of the table
-- finds.
use rapido_go.Prelude.{
  ℤ, int_eq, Bool, false, ◌==◌, Option, none, some, List, [], ◌∷◌, ◌++◌, map, if◌then◌else◌, Assoc,
  lookup, lookup-insert, ◌≡◌, refl, ap, ap₂, sym, ◌∙◌, append-nil, append_assoc, Bool-cases,
  beq_ℤ_iff, inl, inr,
}
use rapido_go.Prelude.Bytes.{Bytes, bytes, bytes_eq}
use rapido_go.Mysqldump.Dump.{Dump}
use rapido_go.Marzban.{Admin, Proxy, User, SourceRow, req_string, opt_int64}
use rapido_go.Marzban.Import.{
  or_none_of, push, push_at, id_of, tag_of, type_of, push_proxy, proxy_of, excluded_by_proxy,
  proxies_by_user, user_of,
}
use rapido_go.Marzban.Dump.{rows_of_table, from_marzban_mysql_dump}

abbrev pub is_key : ℤ → Option ℤ → Bool
is_key k none = false
is_key k (some j) = j == k

-- A row's value in front of the others, where its key is the one searched for.
abbrev pub found {ℓ} : {A : Type ℓ} → Bool → A → List A → List A
found mine v rest = if mine then v ∷ rest else rest

module _ {ℓ} {A : Type ℓ} where
  of_push :
      (k j : ℤ) (v : A) (m : Assoc ℤ (List A)) (rest : List A)
      → or_none_of (lookup j (push k v m)) ++ rest
        ≡ or_none_of (lookup j m) ++ found (k == j) v rest
  of_push k j v m rest = elim (Bool-cases (k == j)) [
    | inl e ↦
        rw (lookup-insert k j (or_none_of (lookup k m) ++ (v ∷ [])) m, e)
          (rw ((beq_ℤ_iff k j).0 e) (append_assoc (or_none_of (lookup j m)) (v ∷ []) rest))
    | inr e ↦ rw (lookup-insert k j (or_none_of (lookup k m) ++ (v ∷ [])) m, e) refl
  ]

  pub of_push_at :
      (o : Option ℤ) (j : ℤ) (v : A) (m : Assoc ℤ (List A)) (rest : List A)
      → or_none_of (lookup j (push_at o v m)) ++ rest
        ≡ or_none_of (lookup j m) ++ found (is_key j o) v rest
  of_push_at none j v m rest = refl
  of_push_at (some k) j v m rest = of_push k j v m rest

module _ {F : Type 0} (truncate : F → ℤ) where
  -- The tags of the rows that name a proxy, in their order.
  pub excluded_tags : ℤ → List (SourceRow F) → List Bytes
  excluded_tags pid [] = []
  excluded_tags pid (r ∷ rows) =
      found (is_key pid (opt_int64 truncate r (bytes "proxy_id"))) (tag_of r)
        (excluded_tags pid rows)

  excluded_by_proxy-tags :
      (rows : List (SourceRow F)) (m : Assoc ℤ (List Bytes)) (pid : ℤ)
      → or_none_of (lookup pid (excluded_by_proxy truncate rows m))
        ≡ or_none_of (lookup pid m) ++ excluded_tags pid rows
  unfolding excluded_by_proxy excluded_tags
  excluded_by_proxy-tags [] m pid = sym (append-nil _)
  excluded_by_proxy-tags (r ∷ rows) m pid =
      excluded_by_proxy-tags rows _ pid
      ∙ of_push_at (opt_int64 truncate r (bytes "proxy_id")) pid (tag_of r) m
          (excluded_tags pid rows)

  -- A row of the table proxies, with the tags that are excluded for it.
  abbrev pub listed_proxy : List (SourceRow F) → SourceRow F → Bytes → Proxy
  listed_proxy exclusions r type = record {
    type = type;
    settings = req_string r (bytes "settings");
    excluded_inbounds = excluded_tags (id_of truncate r) exclusions;
  }

  abbrev pub owned_proxy :
      List (SourceRow F) → ℤ → SourceRow F → Option Bytes → List Proxy → List Proxy
  owned_proxy exclusions uid r none rest = rest
  owned_proxy exclusions uid r (some type) rest =
      found (is_key uid (opt_int64 truncate r (bytes "user_id"))) (listed_proxy exclusions r type)
        rest

  -- The proxies of known types that the rows give a user, in their order.
  pub owned_proxies : List (SourceRow F) → ℤ → List (SourceRow F) → List Proxy
  owned_proxies exclusions uid [] = []
  owned_proxies exclusions uid (r ∷ rows) =
      owned_proxy exclusions uid r (type_of r) (owned_proxies exclusions uid rows)

  module _ (exclusions : List (SourceRow F)) where
    excluded : Assoc ℤ (List Bytes)
    excluded = excluded_by_proxy truncate exclusions []

    proxy_of-listed :
        (r : SourceRow F) (type : Bytes)
        → proxy_of truncate excluded r type ≡ listed_proxy exclusions r type
    unfolding proxy_of excluded
    proxy_of-listed r type =
        ap
          (λ tags. record {
            type = type;
            settings = req_string r (bytes "settings");
            excluded_inbounds = tags;
          })
          (excluded_by_proxy-tags exclusions [] (id_of truncate r))

    of_push_proxy :
        (r : SourceRow F) (type : Option Bytes) (m : Assoc ℤ (List Proxy)) (uid : ℤ)
        (rest : List Proxy)
        → or_none_of (
              lookup uid
                (push_proxy truncate excluded r (opt_int64 truncate r (bytes "user_id")) type m))
            ++ rest
          ≡ or_none_of (lookup uid m) ++ owned_proxy exclusions uid r type rest
    of_push_proxy r none m uid rest = refl
    of_push_proxy r (some type) m uid rest =
        of_push_at (opt_int64 truncate r (bytes "user_id")) uid (proxy_of truncate excluded r type)
          m rest
        ∙ ap
            (λ p.
              or_none_of (lookup uid m)
              ++ found (is_key uid (opt_int64 truncate r (bytes "user_id"))) p rest)
            (proxy_of-listed r type)

    proxies_by_user-owned :
        (rows : List (SourceRow F)) (m : Assoc ℤ (List Proxy)) (uid : ℤ)
        → or_none_of (lookup uid (proxies_by_user truncate excluded rows m))
          ≡ or_none_of (lookup uid m) ++ owned_proxies exclusions uid rows
    unfolding proxies_by_user owned_proxies
    proxies_by_user-owned [] m uid = sym (append-nil _)
    proxies_by_user-owned (r ∷ rows) m uid =
        proxies_by_user-owned rows _ uid
        ∙ of_push_proxy r (type_of r) m uid (owned_proxies exclusions uid rows)

abbrev pub id_and_proxies : {T : Type 0} → User T → ℤ × List Proxy
id_and_proxies u = (u.source_id, u.proxies)

module _ {F T : Type 0} (truncate : F → ℤ) (parse_time : Bytes → Option T) where
  user_of-proxies :
      (admins : List (Admin T)) (m : Assoc ℤ (List Proxy)) (spec : ℤ → List Proxy)
      → ((uid : ℤ) → or_none_of (lookup uid m) ≡ spec uid)
      → (rows : List (SourceRow F))
      → map id_and_proxies (map (user_of truncate parse_time admins m) rows)
        ≡ map (λ r. (id_of truncate r, spec (id_of truncate r))) rows
  unfolding user_of
  user_of-proxies admins m spec h [] = refl
  user_of-proxies admins m spec h (r ∷ rows) =
      ap₂ (λ p ps. (id_of truncate r, p) ∷ ps) (h (id_of truncate r))
        (user_of-proxies admins m spec h rows)

module _ {F T : Type 0} (parse_float : Bytes → Option F) (truncate : F → ℤ)
    (parse_time : Bytes → Option T) where
  -- Each row of the table of users gives one imported user, in order, whose proxies are those rows of
  -- the table of proxies, in order, that name the user and have a known type, each with the inbounds
  -- that the rows of exclusions name for it, in order.
  pub from_marzban_mysql_dump-proxies :
      (dump : Dump parse_float)
      → map id_and_proxies (from_marzban_mysql_dump parse_float truncate parse_time dump).users
        ≡ map
            (λ r. (
              id_of truncate r,
              owned_proxies truncate
                  (rows_of_table parse_float dump (bytes "exclude_inbounds_association"))
                  (id_of truncate r)
                  (rows_of_table parse_float dump (bytes "proxies")),
            ))
            (rows_of_table parse_float dump (bytes "users"))
  unfolding from_marzban_mysql_dump excluded
  from_marzban_mysql_dump-proxies dump =
      let exclusions = rows_of_table parse_float dump (bytes "exclude_inbounds_association") in
      let rows = rows_of_table parse_float dump (bytes "proxies") in
      user_of-proxies truncate parse_time _ _ (λ uid. owned_proxies truncate exclusions uid rows)
        (λ uid. proxies_by_user-owned truncate exclusions rows [] uid)
        (rows_of_table parse_float dump (bytes "users"))
