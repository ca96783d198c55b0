-- ===== src/Marzban/Tests.antt =====
-- A small dump of a Marzban panel.
use rapido_go.Prelude.{
  ℕ, ℤ, pos, negsuc, int32, Option, none, some, List, [], ◌∷◌, map, ◌≡◌, refl, select, int_eq,
}
use rapido_go.Prelude.Bytes.{Bytes, bytes}
use rapido_go.Mysqldump.{Value, null, text, int, Row}
use rapido_go.Mysqldump.Dump.{Dump, Table, row}
use rapido_go.Marzban.{
  ImportedData, unrecognized_type, unknown_admin, unknown_tag_excluded, placeholder_inbounds,
  created_at_warning, missing_created_at,
}
use rapido_go.Marzban.Import.{id_of}
use rapido_go.Marzban.Dump.{rows_of_table, from_marzban_mysql_dump}
use rapido_go.Marzban.Proxies.{id_and_proxies, owned_proxies, from_marzban_mysql_dump-proxies}
use rapido_go.Marzban.Warnings.{is_unknown_admin, is_unrecognized_type}
use rapido_go.Marzban.Owners.{
  AreOwners, lost_owners, skipped_proxies, from_marzban_mysql_dump-warned,
}

abbrev no_float : Bytes → Option ℕ
no_float s = none

abbrev whole : ℕ → ℤ
whole n = pos n

abbrev as_text : Bytes → Option Bytes
as_text s = some s

abbrev table : Bytes → List Bytes → List (Row no_float) → Table no_float
table name columns rows = record { name = name; columns = columns; rows = rows }

abbrev cell : Bytes → Value ℕ
cell s = text s

abbrev number : ℕ → Value ℕ
number n = int (pos n)

abbrev panel : Dump no_float
panel =
    (
      bytes "admins",
      table (bytes "admins") (bytes "id" ∷ bytes "username" ∷ bytes "created_at" ∷ [])
          ((number 1 ∷ cell (bytes "root") ∷ cell (bytes "2024-01-01 00:00:00") ∷ []) ∷ []),
    )
    ∷ (
      bytes "inbounds",
      table (bytes "inbounds") (bytes "id" ∷ bytes "tag" ∷ [])
          ((number 1 ∷ cell (bytes "vless-in") ∷ []) ∷ []),
    )
    ∷ (
      bytes "exclude_inbounds_association",
      table (bytes "exclude_inbounds_association") (bytes "proxy_id" ∷ bytes "inbound_tag" ∷ []) (
          (number 11 ∷ cell (bytes "vless-in") ∷ []) ∷ (number 11 ∷ cell (bytes "gone") ∷ []) ∷ []),
    )
    ∷ (
      bytes "proxies",
      table (bytes "proxies") (bytes "id" ∷ bytes "user_id" ∷ bytes "type" ∷ bytes "settings" ∷ [])
          ((number 10 ∷ number 5 ∷ cell (bytes "VMess") ∷ cell (bytes "{}") ∷ [])
            ∷ (number 11 ∷ number 5 ∷ cell (bytes "VLESS") ∷ cell (bytes "{}") ∷ [])
            ∷ (number 12 ∷ number 6 ∷ cell (bytes "Hysteria") ∷ cell (bytes "{}") ∷ [])
            ∷ []),
    )
    ∷ (
      bytes "users",
      table (bytes "users")
          (bytes "id" ∷ bytes "username" ∷ bytes "admin_id" ∷ bytes "created_at" ∷ [])
          ((number 5 ∷ cell (bytes "alice") ∷ number 1 ∷ cell (bytes "2024-01-02 00:00:00") ∷ [])
            ∷ (number 6 ∷ cell (bytes "bob") ∷ number 9 ∷ null ∷ [])
            ∷ []),
    )
    ∷ []

abbrev out : ImportedData Bytes
out = from_marzban_mysql_dump no_float whole as_text panel

warned :
    out.warnings
    ≡ unknown_tag_excluded (pos 11) (bytes "gone")
      ∷ unrecognized_type (pos 12) (bytes "Hysteria")
      ∷ unknown_admin (bytes "bob") (pos 9)
      ∷ missing_created_at (bytes "users") (pos 6)
      ∷ placeholder_inbounds 1
      ∷ []
unfolding from_marzban_mysql_dump row created_at_warning
warned = refl

wrapped : int32 (pos 2147483648) ≡ negsuc 2147483647
unfolding int32
wrapped = refl

from_marzban_mysql_dump-proxies_example :
    map id_and_proxies out.users
    ≡ map
        (λ r. (
          id_of whole r,
          owned_proxies whole
              (rows_of_table no_float panel (bytes "exclude_inbounds_association"))
              (id_of whole r)
              (rows_of_table no_float panel (bytes "proxies")),
        ))
        (rows_of_table no_float panel (bytes "users"))
from_marzban_mysql_dump-proxies_example =
    from_marzban_mysql_dump-proxies no_float whole as_text panel

from_marzban_mysql_dump-warned_example :
    AreOwners whole
      (rows_of_table no_float panel (bytes "admins"))
      (rows_of_table no_float panel (bytes "users"))
      out.users
    × (select is_unknown_admin out.warnings
        ≡ lost_owners whole (rows_of_table no_float panel (bytes "users")) out.users)
    × (select is_unrecognized_type out.warnings
        ≡ skipped_proxies whole (rows_of_table no_float panel (bytes "proxies")))
from_marzban_mysql_dump-warned_example = from_marzban_mysql_dump-warned no_float whole as_text panel
