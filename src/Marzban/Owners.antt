-- ===== src/Marzban/Owners.antt =====
-- What internal/legacyimport/marzban.go cannot carry over is warned about: owners that are not in the
-- dump, and proxies of other types.
use rapido_go.Prelude.{
  ℕ, ℤ, int_eq, Bool, true, false, Option, none, some, List, [], ◌∷◌, ◌++◌, map, any, ◌==◌,
  if◌then◌else◌, select, select-append, append-nil, Assoc, ◌≡◌, refl, ap, ap₂, sym, ◌∙◌, Bool-cases,
  arith, inl, inr,
}
use rapido_go.Prelude.Count.{count}
use rapido_go.Prelude.Bytes.{Bytes, bytes, bytes_eq}
use rapido_go.Mysqldump.Dump.{Dump}
use rapido_go.Marzban.{
  Admin, Proxy, User, Warning, missing_created_at, missing_time, opt_time, unknown_tag_excluded,
  unrecognized_type, unknown_admin, unknown_tag_of_host, placeholder_inbounds, ImportedData,
  SourceRow, req_string, opt_int64, created_at_warning,
}
use rapido_go.Marzban.Import.{
  id_of, tag_of, type_of, is_admin, owner_of, owner_warning, warn, placeholders, unrecognized,
  proxy_warning, user_of, user_warning, admin_of, admin_warning, excluded_warning,
  marzban_proxy_type,
}
use rapido_go.Marzban.Dump.{
  rows_of_table, proxies_of, admins_of, inbounds_of, host_warning, from_marzban_mysql_dump,
}
use rapido_go.Marzban.Warnings.{
  is_unknown_admin, is_unrecognized_type, count-warn, count_missing, count-unknown_tag,
  count-placeholders, count-host_warning, count-proxy_warning, count-user_warning,
}

module _ {ℓ} {A : Type ℓ} (p : A → Bool) where
  select-none : (xs : List A) → count p xs ≡ 0 → select p xs ≡ []
  unfolding count
  select-none [] h = refl
  select-none (x ∷ xs) h = elim (Bool-cases (p x)) [
    | inl e ↦ absurd (let g = rw e at h in omega (arith, g))
    | inr e ↦ rw e (select-none xs (let g = rw e at h in omega (arith, g)))
  ]

  -- What stands on both sides of two lists is not selected.
  select_between :
      (a b c d e f : List A)
      → count p a ≡ 0
      → count p b ≡ 0
      → count p e ≡ 0
      → count p f ≡ 0
      → select p (a ++ b ++ c ++ d ++ e ++ f) ≡ select p c ++ select p d
  select_between a b c d e f ha hb he hf =
      select-append p (a ++ b ++ c ++ d ++ e) f
      ∙ ap₂ (λ s t. s ++ t) (select-append p (a ++ b ++ c ++ d) e) (select-none f hf)
      ∙ append-nil _
      ∙ ap (λ t. select p (a ++ b ++ c ++ d) ++ t) (select-none e he)
      ∙ append-nil _
      ∙ select-append p (a ++ b ++ c) d
      ∙ ap (λ s. s ++ select p d)
          (select-append p (a ++ b) c
            ∙ ap (λ s. s ++ select p c)
                (select-append p a b ∙ ap₂ (λ s t. s ++ t) (select-none a ha) (select-none b hb)))

-- Whether a row of the table of admins has an id.
abbrev pub is_listed : {F : Type 0} (truncate : F → ℤ) → List (SourceRow F) → ℤ → Bool
is_listed truncate rows aid = any (λ r. id_of truncate r == aid) rows

-- The owner of a user whose row names an admin, or none: that admin, where it is listed.
abbrev pub IsOwner :
    {F : Type 0} (truncate : F → ℤ) → List (SourceRow F) → Option ℤ → Option ℤ → Type 0
IsOwner truncate rows none none = Unit {0}
IsOwner truncate rows none (some aid) = ⊥
IsOwner truncate rows (some aid) none = is_listed truncate rows aid ≡ false
IsOwner truncate rows (some aid) (some owner) = (owner ≡ aid) × (is_listed truncate rows aid ≡ true)

abbrev pub lost_owner : Bytes → Option ℤ → Option ℤ → List Warning
lost_owner name none owner = []
lost_owner name (some aid) (some owner) = []
lost_owner name (some aid) none = unknown_admin name aid ∷ []

-- The types of proxies that the panel knows.
abbrev pub is_known_type : Bytes → Bool
is_known_type type =
    any (λ t. type == t) (bytes "VMess" ∷ bytes "VLESS" ∷ bytes "Trojan" ∷ bytes "Shadowsocks" ∷ [])

abbrev pub skipped_proxy : ℤ → Bytes → Option ℤ → List Warning
skipped_proxy id type none = []
skipped_proxy id type (some uid) = if is_known_type type then [] else unrecognized_type id type ∷ []

module _ {F : Type 0} (truncate : F → ℤ) where
  -- The rows of users stand beside the users that they give.
  abbrev pub AreOwners :
      {T : Type 0} → List (SourceRow F) → List (SourceRow F) → List (User T) → Type 0
  AreOwners admins [] [] = Unit {0}
  AreOwners admins [] (u ∷ users) = ⊥
  AreOwners admins (r ∷ rows) [] = ⊥
  AreOwners admins (r ∷ rows) (u ∷ users) =
      IsOwner truncate admins (opt_int64 truncate r (bytes "admin_id")) u.source_admin_id
      × AreOwners admins rows users

  abbrev pub lost_owners : {T : Type 0} → List (SourceRow F) → List (User T) → List Warning
  lost_owners [] users = []
  lost_owners (r ∷ rows) [] = []
  lost_owners (r ∷ rows) (u ∷ users) =
      lost_owner (req_string r (bytes "username")) (opt_int64 truncate r (bytes "admin_id"))
        u.source_admin_id
      ++ lost_owners rows users

  abbrev pub skipped_proxies : List (SourceRow F) → List Warning
  skipped_proxies [] = []
  skipped_proxies (r ∷ rows) =
      skipped_proxy (id_of truncate r) (req_string r (bytes "type"))
        (opt_int64 truncate r (bytes "user_id"))
      ++ skipped_proxies rows

  select_unrecognized :
      (r : SourceRow F) (uid : ℤ) (type : Bytes)
      → select is_unrecognized_type (unrecognized truncate r (some uid) (marzban_proxy_type type))
        ≡ (if is_known_type type
            then []
            else unrecognized_type (id_of truncate r) (req_string r (bytes "type")) ∷ [])
  unfolding marzban_proxy_type
  select_unrecognized r uid type = elim (Bool-cases (type == bytes "VMess")) [
    | inl a ↦ rw a refl
    | inr a ↦ elim (Bool-cases (type == bytes "VLESS")) [
      | inl b ↦ rw a (rw b refl)
      | inr b ↦ elim (Bool-cases (type == bytes "Trojan")) [
        | inl c ↦ rw a (rw b (rw c refl))
        | inr c ↦ elim (Bool-cases (type == bytes "Shadowsocks")) [
          | inl d ↦ rw a (rw b (rw c (rw d refl)))
          | inr d ↦ rw a (rw b (rw c (rw d refl)))
        ]
      ]
    ]
  ]

  select_skipped :
      (r : SourceRow F) (uid : Option ℤ)
      → select is_unrecognized_type (unrecognized truncate r uid (type_of r))
        ≡ skipped_proxy (id_of truncate r) (req_string r (bytes "type")) uid
  select_skipped r none = refl
  select_skipped r (some uid) = select_unrecognized r uid (req_string r (bytes "type"))

module _ {F T : Type 0} (truncate : F → ℤ) (parse_time : Bytes → Option T) where
  is_admin_listed :
      (rows : List (SourceRow F)) (aid : ℤ)
      → is_admin (map (admin_of truncate parse_time) rows) aid ≡ is_listed truncate rows aid
  unfolding admin_of
  is_admin_listed [] aid = refl
  is_admin_listed (r ∷ rows) aid =
      ap (λ b. if id_of truncate r == aid then true else b) (is_admin_listed rows aid)

  owner_of-IsOwner :
      (rows : List (SourceRow F)) (o : Option ℤ)
      → IsOwner truncate rows o (owner_of (map (admin_of truncate parse_time) rows) o)
  owner_of-IsOwner rows none = tt
  owner_of-IsOwner rows (some aid) =
      let same = is_admin_listed rows aid in
      elim (Bool-cases (is_admin (map (admin_of truncate parse_time) rows) aid)) [
        | inl e ↦ rw e (refl, sym same ∙ e)
        | inr e ↦ rw e (sym same ∙ e)
      ]

  users-AreOwners :
      (admins : List (SourceRow F)) (proxies : Assoc ℤ (List Proxy)) (rows : List (SourceRow F))
      → AreOwners truncate admins rows (
          map
            (user_of truncate parse_time (map (admin_of truncate parse_time) admins) proxies)
            rows)
  unfolding user_of
  users-AreOwners admins proxies [] = tt
  users-AreOwners admins proxies (r ∷ rows) = (
    owner_of-IsOwner admins (opt_int64 truncate r (bytes "admin_id")),
    users-AreOwners admins proxies rows,
  )

  select_owner :
      (admins : List (Admin T)) (name : Bytes) (o : Option ℤ)
      → select is_unknown_admin (owner_warning admins name o)
        ≡ lost_owner name o (owner_of admins o)
  select_owner admins name none = refl
  select_owner admins name (some aid) = elim (Bool-cases (is_admin admins aid)) [
    | inl e ↦ rw e refl
    | inr e ↦ rw e refl
  ]

  select_lost_owners :
      (admins : List (Admin T)) (proxies : Assoc ℤ (List Proxy)) (rows : List (SourceRow F))
      → select is_unknown_admin (warn (user_warning truncate parse_time admins) rows)
        ≡ lost_owners truncate rows (map (user_of truncate parse_time admins proxies) rows)
  unfolding user_of created_at_warning
  select_lost_owners admins proxies [] = refl
  select_lost_owners admins proxies (r ∷ rows) =
      let o = opt_int64 truncate r (bytes "admin_id") in
      let name = req_string r (bytes "username") in
      let late =
        missing_time (bytes "users") (id_of truncate r)
          (opt_time parse_time r (bytes "created_at")) in
      select-append is_unknown_admin (owner_warning admins name o ++ late)
        (warn (user_warning truncate parse_time admins) rows)
      ∙ ap₂ (λ s t. s ++ t)
          (select-append is_unknown_admin (owner_warning admins name o) late
            ∙ ap₂ (λ s t. s ++ t) (select_owner admins name o)
                (select-none is_unknown_admin late (
                  count_missing is_unknown_admin (λ table id. refl) (bytes "users")
                    (id_of truncate r) (opt_time parse_time r (bytes "created_at"))))
            ∙ append-nil _)
          (select_lost_owners admins proxies rows)

  select_skipped_proxies :
      (rows : List (SourceRow F))
      → select is_unrecognized_type (warn (proxy_warning truncate) rows)
        ≡ skipped_proxies truncate rows
  unfolding proxy_warning
  select_skipped_proxies [] = refl
  select_skipped_proxies (r ∷ rows) =
      select-append is_unrecognized_type (proxy_warning truncate r)
        (warn (proxy_warning truncate) rows)
      ∙ ap₂ (λ s t. s ++ t) (select_skipped truncate r (opt_int64 truncate r (bytes "user_id")))
          (select_skipped_proxies rows)

module _ {F T : Type 0} (parse_float : Bytes → Option F) (truncate : F → ℤ)
    (parse_time : Bytes → Option T) (dump : Dump parse_float) where
  abbrev pub imported : ImportedData T
  imported = from_marzban_mysql_dump parse_float truncate parse_time dump

  abbrev table : Bytes → List (SourceRow F)
  table name = rows_of_table parse_float dump name

  warnings_split :
      (p : Warning → Bool)
      → ((table : Bytes) (id : ℤ) → p (missing_created_at table id) ≡ false)
      → ((pid : ℤ) (tag : Bytes) → p (unknown_tag_excluded pid tag) ≡ false)
      → ((remark tag : Bytes) → p (unknown_tag_of_host remark tag) ≡ false)
      → ((n : ℕ) → p (placeholder_inbounds n) ≡ false)
      → select p imported.warnings
        ≡ select p (warn (proxy_warning truncate) (table (bytes "proxies")))
          ++ select p (
              warn
                (user_warning truncate parse_time (admins_of parse_float truncate parse_time dump))
                (table (bytes "users")))
  unfolding from_marzban_mysql_dump created_at_warning
  warnings_split p late tag host placeholder =
      let admins = admins_of parse_float truncate parse_time dump in
      let tags = inbounds_of parse_float truncate parse_time dump in
      select_between p (warn (admin_warning truncate parse_time) (table (bytes "admins")))
        (warn (excluded_warning truncate tags) (table (bytes "exclude_inbounds_association")))
        (warn (proxy_warning truncate) (table (bytes "proxies")))
        (warn (user_warning truncate parse_time admins) (table (bytes "users")))
        (warn (host_warning truncate tags) (table (bytes "hosts"))) (placeholders tags)
        (count-warn p (admin_warning truncate parse_time)
          (λ r.
            count_missing p late (bytes "admins") (id_of truncate r)
              (opt_time parse_time r (bytes "created_at")))
          (table (bytes "admins")))
        (count-warn p (excluded_warning truncate tags)
          (λ r. count-unknown_tag p tag tags (tag_of r) (opt_int64 truncate r (bytes "proxy_id")))
          (table (bytes "exclude_inbounds_association")))
        (count-warn p (host_warning truncate tags) (λ r. count-host_warning p host truncate tags r)
          (table (bytes "hosts")))
        (count-placeholders p placeholder tags)

  -- Row by row of the table of users: the user has an owner exactly where the row names an admin whose
  -- id a row of the table of admins has, and that admin is the owner. The warnings of an unknown admin
  -- are, in order, one for each user whose row names an admin and who has no owner, and those of an
  -- unrecognized type one for each row of the table of proxies that names a user and has none of the
  -- four known types.
  pub from_marzban_mysql_dump-warned :
      AreOwners truncate
        (rows_of_table parse_float dump (bytes "admins"))
        (rows_of_table parse_float dump (bytes "users"))
        imported.users
      × (select is_unknown_admin imported.warnings
          ≡ lost_owners truncate (rows_of_table parse_float dump (bytes "users")) imported.users)
      × (select is_unrecognized_type imported.warnings
          ≡ skipped_proxies truncate (rows_of_table parse_float dump (bytes "proxies")))
  unfolding from_marzban_mysql_dump
  from_marzban_mysql_dump-warned =
      let admins = admins_of parse_float truncate parse_time dump in
      let proxies = proxies_of parse_float truncate dump in
      (
        users-AreOwners truncate parse_time (table (bytes "admins")) proxies
            (table (bytes "users")),
        warnings_split is_unknown_admin (λ t i. refl) (λ p t. refl) (λ r t. refl) (λ n. refl)
            ∙ ap₂ (λ s t. s ++ t)
                (select-none is_unknown_admin
                  (warn (proxy_warning truncate) (table (bytes "proxies")))
                  (count-proxy_warning truncate is_unknown_admin (λ p t. refl)
                    (table (bytes "proxies"))))
                (select_lost_owners truncate parse_time admins proxies (table (bytes "users"))),
        warnings_split is_unrecognized_type (λ t i. refl) (λ p t. refl) (λ r t. refl) (λ n. refl)
            ∙ ap₂ (λ s t. s ++ t)
                (select_skipped_proxies truncate parse_time (table (bytes "proxies")))
                (select-none is_unrecognized_type
                  (warn (user_warning truncate parse_time admins) (table (bytes "users")))
                  (count-user_warning truncate parse_time is_unrecognized_type (λ t i. refl)
                    (λ n a. refl) admins (table (bytes "users"))))
            ∙ append-nil _,
      )
