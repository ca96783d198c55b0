-- ===== src/NodeLive/Online.antt =====
-- internal/httpapi/presence.go: who is online, read from the keys that the requests of the nodes keep.
-- Instants are nanoseconds; the clock of Redis is that of the panel.
use rapido_go.Prelude.{
  ℕ, ◌+◌, ◌*◌, ◌/◌, ℤ, pos, int_eq, Bool, true, false, ◌&&◌, ◌||◌, ◌==◌, Option, none, some, List,
  [], ◌∷◌, select, map, any, length, ltb, leb, if◌then◌else◌, Assoc, lookup, insert,
}
use rapido_go.Prelude.Bytes.{Bytes, bytes_eq}
use rapido_go.NodeLive.{Store, read_key, is_nil}

abbrev pub milli : ℕ
milli = 1000000

abbrev pub second : ℕ
second = 1000000000

-- `presenceOnlineWindow` and `onlineWindow`
abbrev pub presence_online_window : ℕ
presence_online_window = 15 * second

abbrev pub online_window : ℕ
online_window = 180 * second

abbrev pub is_some {ℓ} : {A : Type ℓ} → Option A → Bool
is_some none = false
is_some (some a) = true

-- `presenceView`
pub record View : Type 0 where
  pub live : Bool
  pub seen : Assoc Bytes ℕ

abbrev pub zero_view : View
zero_view = record { live = false; seen = [] }

abbrev pub is_live : ℕ → Option ℕ → Bool
is_live now none = false
is_live now (some until) = ltb now until

-- The answers to the checks of `queuePresenceLive`, and `authoritative` of them, at a millisecond.
abbrev pub reports_now : ℕ → Store → ℤ → Bool
reports_now now s id = is_some (read_key now id s.totals)

abbrev pub all_report : ℕ → Store → List ℤ → Bool
all_report now s [] = true
all_report now s (id ∷ ids) = let rest = all_report now s ids in reports_now now s id && rest

unfoldable pub authoritative : ℕ → List ℤ → Store → Bool
authoritative now ids s = is_live now s.live && all_report now s ids

-- A missing member has the score 0.
abbrev pub see : Bytes → Option ℕ → Assoc Bytes ℕ → Assoc Bytes ℕ
see name none m = m
see name (some score) m = if ltb 0 score then insert name (score * milli) m else m

unfoldable pub seen_of : List Bytes → Assoc Bytes ℕ → Assoc Bytes ℕ → Assoc Bytes ℕ
seen_of [] users m = m
seen_of (name ∷ names) users m = seen_of names users (see name (lookup name users) m)

-- `loadPresence`; `works` says that the pipeline does.
unfoldable pub load_presence : Bool → ℕ → List ℤ → List Bytes → Store → View
unfolding authoritative seen_of
load_presence works now ids names s =
    if is_nil names
    then zero_view
    else if works
    then record { live = authoritative now ids s; seen = seen_of names s.users [] }
    else zero_view

abbrev pub later_of : Option ℕ → Option ℕ → Option ℕ
later_of none db = db
later_of (some seen) none = some seen
later_of (some seen) (some db) = if ltb db seen then some seen else some db

-- Not before `now` less the window.
abbrev pub is_within : ℕ → ℕ → Option ℕ → Bool
is_within window now none = false
is_within window now (some t) = leb now (t + window)

-- `userStatus`: the flag and the time that are shown.
unfoldable pub user_status : View → Bytes → Option ℕ → ℕ → Bool × Option ℕ
user_status v name db now =
    let seen = lookup name v.seen in
    (
      if v.live then is_within presence_online_window now seen else is_within online_window now db,
      later_of seen db,
    )

-- `connectedNodesCache`; the time is none where it is zero.
pub record NodesCache : Type 0 where
  pub ids : List ℤ
  pub at : Option ℕ

pub record NodeRow : Type 0 where
  pub id : ℤ
  pub is_connected : Bool

abbrev pub fresh_ids : ℕ → Option ℕ → Bool
fresh_ids now none = false
fresh_ids now (some at) = ltb now (at + 5 * second)

abbrev pub ids_read : ℕ → NodesCache → Option (List NodeRow) → NodesCache
ids_read now c none = c
ids_read now c (some rows) = record {
  ids = map (λ r. r.id) (select (λ r. r.is_connected) rows);
  at = some now;
}

-- `connectedNodeIDs`: the cache that it leaves, whose ids it returns. The rows are none where the
-- query fails.
unfoldable pub connected_node_ids : ℕ → Option (List NodeRow) → NodesCache → NodesCache
connected_node_ids now rows c = if fresh_ids now c.at then c else ids_read now c rows

-- `onlineCountEntry`
pub record CountEntry : Type 0 where
  pub count : ℕ
  pub at : ℕ

abbrev pub fresh_count : ℕ → Option CountEntry → Option ℕ
fresh_count now none = none
fresh_count now (some e) = if leb (e.at + second) now || ltb now e.at then none else some e.count

-- `get`, `put` and `clear` of onlineCountCache
unfoldable pub get_count : ℤ → ℕ → Assoc ℤ CountEntry → Option ℕ
get_count scope now c = fresh_count now (lookup scope c)

unfoldable pub put_count : ℤ → ℕ → ℕ → Assoc ℤ CountEntry → Assoc ℤ CountEntry
put_count scope count now c = insert scope (record { count = count; at = now }) c

abbrev pub clear_counts : Assoc ℤ CountEntry → Assoc ℤ CountEntry
clear_counts c = []

-- The columns of a user that the counts read.
pub record CountedUser : Type 0 where
  pub username : Bytes
  pub admin_id : Option ℤ
  pub online_at : Option ℕ

abbrev pub is_admin_of : ℤ → Option ℤ → Bool
is_admin_of scope none = false
is_admin_of scope (some id) = id == scope

-- `CountAdminUsersByUsernames`
unfoldable pub count_admin_users : List Bytes → ℤ → List CountedUser → ℕ
count_admin_users names scope users =
    length (select (λ u. any (λ n. n == u.username) names && is_admin_of scope u.admin_id) users)

abbrev pub in_scope : Option ℤ → Option ℤ → Bool
in_scope none admin = true
in_scope (some scope) admin = is_admin_of scope admin

-- `CountOnlineUsersSince`, with the cutoff at the legacy window before now
unfoldable pub count_online_since : ℕ → Option ℤ → List CountedUser → ℕ
count_online_since now scope users =
    length
      (select (λ u. is_within online_window now u.online_at && in_scope scope u.admin_id) users)

-- The members whose score is in the window, in milliseconds.
abbrev pub in_window : ℕ → Bytes × ℕ → Bool
in_window now p = leb (now / milli) (p.1 + 15000)

-- A count, no count, or an error of the database; the rows are none where the query fails.
pub data Count : Type 0 where
  counted : ℕ → Count
  not_live : Count
  database_error : Count

abbrev pub admin_count : List Bytes → ℤ → Option (List CountedUser) → Count
admin_count [] scope rows = counted 0
admin_count (n ∷ names) scope none = database_error
admin_count (n ∷ names) scope (some users) = counted (count_admin_users (n ∷ names) scope users)

abbrev pub scoped_count : ℕ → Option ℤ → Option (List CountedUser) → Assoc Bytes ℕ → Count
scoped_count now none rows users = counted (length (select (in_window now) users))
scoped_count now (some scope) rows users =
    admin_count (map (λ p. p.0) (select (in_window now) users)) scope rows

-- `presenceOnlineCount`
unfoldable pub presence_online_count :
    Bool → ℕ → List ℤ → Option ℤ → Option (List CountedUser) → Store → Count
unfolding authoritative count_admin_users
presence_online_count works now ids scope rows s =
    if works && authoritative (now / milli) ids s
    then scoped_count now scope rows s.users
    else not_live

abbrev pub scope_key : Option ℤ → ℤ
scope_key none = pos 0
scope_key (some id) = id

abbrev pub stored_count : ℤ → ℕ → Assoc ℤ CountEntry → Option ℕ → Assoc ℤ CountEntry × Option ℕ
stored_count scope now c none = (c, none)
stored_count scope now c (some n) = (put_count scope n now c, some n)

abbrev pub legacy_count : ℕ → Option ℤ → Option (List CountedUser) → Option ℕ
legacy_count now scope none = none
legacy_count now scope (some users) = some (count_online_since now scope users)

abbrev pub count_or_legacy : ℕ → Option ℤ → Option (List CountedUser) → Count → Option ℕ
count_or_legacy now scope rows (counted n) = some n
count_or_legacy now scope rows not_live = legacy_count now scope rows
count_or_legacy now scope rows database_error = none

abbrev pub count_behind :
    ℕ
    → ℕ
    → Option ℤ
    → Option (List CountedUser)
    → Assoc ℤ CountEntry
    → Count
    → Option ℕ
    → Assoc ℤ CountEntry × Option ℕ
count_behind now later scope rows c fresh none =
    stored_count (scope_key scope) later c (count_or_legacy now scope rows fresh)
count_behind now later scope rows c fresh (some n) = (c, some n)

-- `onlineUsersCount` at `now`, whose count is stored at `later`; none is an error.
unfoldable pub online_users_count :
    Bool
    → ℕ
    → ℕ
    → List ℤ
    → Option ℤ
    → Option (List CountedUser)
    → Store
    → Assoc ℤ CountEntry
    → Assoc ℤ CountEntry × Option ℕ
unfolding presence_online_count get_count put_count count_online_since
online_users_count works now later ids scope rows s c =
    count_behind now later scope rows c (presence_online_count works now ids scope rows s)
      (get_count (scope_key scope) now c)

-- A round of `RunPresenceTrim` keeps the members of the last six hours.
unfoldable pub trim_presence : ℕ → Assoc Bytes ℕ → Assoc Bytes ℕ
trim_presence now users = select (λ p. leb (now / milli) (p.1 + 6 * 3600 * 1000)) users
