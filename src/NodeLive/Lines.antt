-- ===== src/NodeLive/Lines.antt =====
-- `prepareNodeLogs` of internal/httpapi/nodelive.go: which lines of a node are stored.
use rapido_go.Prelude.{
  ℤ, pos, int_eq, leb_ℤ, String, string_eq, Bool, not, ◌||◌, ◌==◌, List, [], ◌∷◌, keep_last,
  if◌then◌else◌,
}
use rapido_go.Prelude.Bytes.{bytes_eq}
use rapido_go.Logstream.Ring.{Entry, clip, ring_size}
use rapido_go.Logstream.Level.{normalize_level}

-- A line of a node, `nodeLiveLog`.
pub record NodeLog : Type 0 where
  pub id : ℤ
  pub ts : String
  pub level : String
  pub line : String

-- `prepareNodeLogs`
abbrev pub is_new : ℤ → NodeLog → Bool
is_new stored l = not (leb_ℤ l.id stored || leb_ℤ l.id (pos 0))

module _ (fold : String → String) (ts_from_id : ℤ → String) where
  unfoldable pub entry_of : NodeLog → Entry
  unfolding clip normalize_level
  entry_of l = record {
    id = l.id;
    ts = if l.ts == "" then ts_from_id l.id else l.ts;
    level = normalize_level fold l.level;
    line = clip l.line;
  }

  unfoldable pub new_entries : ℤ → List NodeLog → List Entry
  unfolding entry_of
  new_entries stored [] = []
  new_entries stored (l ∷ ls) =
      let rest = new_entries stored ls in if is_new stored l then entry_of l ∷ rest else rest

-- sort.SliceStable by the ids
unfoldable pub insert_entry : Entry → List Entry → List Entry
insert_entry e [] = e ∷ []
insert_entry e (f ∷ es) =
    let rest = insert_entry e es in if leb_ℤ e.id f.id then e ∷ f ∷ es else f ∷ rest

unfoldable pub sort_entries : List Entry → List Entry
unfolding insert_entry
sort_entries [] = []
sort_entries (e ∷ es) = insert_entry e (sort_entries es)

-- The entries whose id is not that of the one kept before.
unfoldable pub dedup_after : ℤ → List Entry → List Entry
dedup_after last [] = []
dedup_after last (e ∷ es) =
    let skipped = dedup_after last es in
    let kept = dedup_after e.id es in if last == e.id then skipped else e ∷ kept

unfoldable pub dedup : List Entry → List Entry
unfolding dedup_after
dedup [] = []
dedup (e ∷ es) = e ∷ dedup_after e.id es

module _ (fold : String → String) (ts_from_id : ℤ → String) where
  unfoldable pub prepare_node_logs : List NodeLog → ℤ → List Entry
  unfolding dedup sort_entries new_entries
  prepare_node_logs logs stored =
      keep_last ring_size (dedup (sort_entries (new_entries fold ts_from_id stored logs)))
