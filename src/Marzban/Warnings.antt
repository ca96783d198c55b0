-- ===== src/Marzban/Warnings.antt =====
-- Counting the warnings of internal/legacyimport/marzban.go by their kind.
use rapido_go.Prelude.{
  ℕ, ◌+◌, ℤ, int_eq, Bool, true, false, Option, none, some, List, [], ◌∷◌, ◌++◌, length, ◌≡◌, refl,
  ◌∙◌, Bool-cases, arith, inl, inr,
}
use rapido_go.Prelude.Count.{count, count-append}
use rapido_go.Prelude.Bytes.{Bytes, bytes, bytes_eq}
use rapido_go.Marzban.{
  Admin, Warning, missing_created_at, missing_time, opt_time, unknown_tag_excluded,
  unrecognized_type, unknown_admin, unknown_tag_of_host, placeholder_inbounds, SourceRow,
  req_string, opt_int64, created_at_warning,
}
use rapido_go.Marzban.Import.{
  id_of, type_of, is_admin, owner_warning, warn, placeholders, is_known_tag, unknown_tag,
  unrecognized, proxy_warning, user_warning,
}
use rapido_go.Marzban.Dump.{host_warning}

abbrev pub is_unknown_admin : Warning → Bool
is_unknown_admin (unknown_admin name aid) = true
is_unknown_admin (missing_created_at table id) = false
is_unknown_admin (unknown_tag_excluded pid tag) = false
is_unknown_admin (unrecognized_type pid type) = false
is_unknown_admin (unknown_tag_of_host remark tag) = false
is_unknown_admin (placeholder_inbounds n) = false

abbrev pub is_unrecognized_type : Warning → Bool
is_unrecognized_type (unrecognized_type pid type) = true
is_unrecognized_type (missing_created_at table id) = false
is_unrecognized_type (unknown_tag_excluded pid tag) = false
is_unrecognized_type (unknown_admin name aid) = false
is_unrecognized_type (unknown_tag_of_host remark tag) = false
is_unrecognized_type (placeholder_inbounds n) = false

abbrev pub is_some {ℓ} : {A : Type ℓ} → Option A → Bool
is_some none = false
is_some (some a) = true

module _ {ℓ} {A : Type ℓ} where
  pub count-warn :
      (p : Warning → Bool) (f : A → List Warning)
      → ((a : A) → count p (f a) ≡ 0)
      → (rows : List A) → count p (warn f rows) ≡ 0
  unfolding count
  count-warn p f h [] = refl
  count-warn p f h (a ∷ rows) =
      count-append p (f a) (warn f rows) ∙ omega (arith, h a, count-warn p f h rows)

pub count_missing :
    {T : Type 0} (p : Warning → Bool)
    → ((table : Bytes) (id : ℤ) → p (missing_created_at table id) ≡ false)
    → (table : Bytes) (id : ℤ) (o : Option T) → count p (missing_time table id o) ≡ 0
unfolding count
count_missing p h table id none = rw (h table id) refl
count_missing p h table id (some t) = refl

pub count_six :
    (p : Warning → Bool) (a b c d e f : List Warning)
    → count p (a ++ b ++ c ++ d ++ e ++ f)
      ≡ count p a + count p b + count p c + count p d + count p e + count p f
count_six p a b c d e f = omega (
  arith,
  count-append p (a ++ b ++ c ++ d ++ e) f,
  count-append p (a ++ b ++ c ++ d) e,
  count-append p (a ++ b ++ c) d,
  count-append p (a ++ b) c,
  count-append p a b,
)

-- A test that no warning of these kinds passes.
module _ (p : Warning → Bool) where
  pub count-unknown_tag :
      ((pid : ℤ) (tag : Bytes) → p (unknown_tag_excluded pid tag) ≡ false)
      → (tags : List Bytes) (tag : Bytes) (o : Option ℤ) → count p (unknown_tag tags tag o) ≡ 0
  unfolding count
  count-unknown_tag h tags tag none = refl
  count-unknown_tag h tags tag (some pid) = elim (Bool-cases (is_known_tag tags tag)) [
    | inl e ↦ rw e refl
    | inr e ↦ rw e (rw (h pid tag) refl)
  ]

  pub count-placeholders :
      ((n : ℕ) → p (placeholder_inbounds n) ≡ false)
      → (tags : List Bytes) → count p (placeholders tags) ≡ 0
  unfolding count
  count-placeholders h [] = refl
  count-placeholders h (t ∷ tags) = rw (h (length (t ∷ tags))) refl

  pub count-host_warning :
      ((remark tag : Bytes) → p (unknown_tag_of_host remark tag) ≡ false)
      → {F : Type 0} (truncate : F → ℤ) (tags : List Bytes) (r : SourceRow F)
      → count p (host_warning truncate tags r) ≡ 0
  unfolding count
  count-host_warning h truncate tags r =
      elim (Bool-cases (is_known_tag tags (req_string r (bytes "inbound_tag")))) [
        | inl e ↦ rw e refl
        | inr e ↦
            rw e (rw (h (req_string r (bytes "remark")) (req_string r (bytes "inbound_tag"))) refl)
      ]

  pub count-owner_warning :
      ((name : Bytes) (aid : ℤ) → p (unknown_admin name aid) ≡ false)
      → {T : Type 0} (admins : List (Admin T)) (name : Bytes) (o : Option ℤ)
      → count p (owner_warning admins name o) ≡ 0
  unfolding count
  count-owner_warning h admins name none = refl
  count-owner_warning h admins name (some aid) = elim (Bool-cases (is_admin admins aid)) [
    | inl e ↦ rw e refl
    | inr e ↦ rw e (rw (h name aid) refl)
  ]

  pub count-unrecognized :
      ((pid : ℤ) (type : Bytes) → p (unrecognized_type pid type) ≡ false)
      → {F : Type 0} (truncate : F → ℤ) (r : SourceRow F) (uid : Option ℤ) (type : Option Bytes)
      → count p (unrecognized truncate r uid type) ≡ 0
  unfolding count
  count-unrecognized h truncate r none type = refl
  count-unrecognized h truncate r (some uid) none = rw (h _ _) refl
  count-unrecognized h truncate r (some uid) (some type) = refl

pub count-proxy_warning :
    {F : Type 0} (truncate : F → ℤ) (p : Warning → Bool)
    → ((pid : ℤ) (type : Bytes) → p (unrecognized_type pid type) ≡ false)
    → (rows : List (SourceRow F)) → count p (warn (proxy_warning truncate) rows) ≡ 0
unfolding proxy_warning
count-proxy_warning truncate p h =
    count-warn p (proxy_warning truncate)
      (λ r. count-unrecognized p h truncate r (opt_int64 truncate r (bytes "user_id")) (type_of r))

pub count-user_warning :
    {F T : Type 0} (truncate : F → ℤ) (parse_time : Bytes → Option T) (p : Warning → Bool)
    → ((table : Bytes) (id : ℤ) → p (missing_created_at table id) ≡ false)
    → ((name : Bytes) (aid : ℤ) → p (unknown_admin name aid) ≡ false)
    → (admins : List (Admin T)) (rows : List (SourceRow F))
    → count p (warn (user_warning truncate parse_time admins) rows) ≡ 0
unfolding created_at_warning
count-user_warning truncate parse_time p late unknown admins =
    count-warn p (user_warning truncate parse_time admins) (λ r.
      let name = req_string r (bytes "username") in
      let o = opt_int64 truncate r (bytes "admin_id") in
      let time = opt_time parse_time r (bytes "created_at") in
      count-append p (owner_warning admins name o)
        (missing_time (bytes "users") (id_of truncate r) time)
      ∙ omega (
        arith,
        count-owner_warning p unknown admins name o,
        count_missing p late (bytes "users") (id_of truncate r) time,
      ))
