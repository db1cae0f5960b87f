-- ===== src/Metadata/Edit.antt =====
-- internal/rewrite/metadata_write.go, `ApplyMetadataJSONMapping`: the edits of a document.
pub mod Laws
pub mod Settled
pub mod Document
pub mod Hits
pub mod Made
pub mod Frame
pub mod Described
pub mod Predicted
use bergrebase.Base.{
  Bool, Bytes, List, String, [], codes, false, if◌then◌else◌, int_eq, list_eq, nat_eq, none, not,
  some, suc, ℕ, ◌++◌, ◌==◌, ◌||◌, ◌∷◌,
}
use bergrebase.Prefix.{PrefixMapping, apply, matches}
use bergrebase.Json.{
  Json, Items, nil, cons, Fields, end, field, string, array, object, get_field, set_field,
}
use bergrebase.Metadata.{PathHit, indexed, manifest_field}

-- The variables that the closure `mutString` captures.
pub record Progress : Type 0 where
  pub hits : List PathHit
  pub changed : Bool

abbrev pub fresh : Progress
fresh = record { hits = []; changed = false }

-- A part of the document is replaced, and the progress is updated.
abbrev pub Edit : Type 0 → Type 0
Edit X = X → Progress → X × Progress

module _ (m : PrefixMapping) where
  unfoldable pub mut_string : Bytes → Edit Bytes
  mut_string name current st =
      let next = apply m current in
      (
        next,
        record {
          hits = st.hits ++ record { field = name; old = current; new = next } ∷ [];
          changed = st.changed || not (next == current);
        },
      )

  -- `if s, ok := v.(string); ok { … mutString(name, s) }`
  unfoldable pub on_string : Bytes → Edit Json
  unfolding mut_string
  on_string name (string s) st = let (s', st') = mut_string name s st in (string s', st')
  on_string name v st = (v, st)

-- `if fs, ok := v.(map[string]any); ok { … }`
unfoldable pub on_object : Edit Fields → Edit Json
on_object f (object fs) st = let (fs', st') = f fs st in (object fs', st')
on_object f v st = (v, st)

-- `for i, x := range xs { … }`
unfoldable pub each_item : (ℕ → Edit Json) → ℕ → Edit Items
each_item f i nil st = (nil, st)
each_item f i (cons x xs) st =
    let (x', st') = f i x st in let (xs', st'') = each_item f (suc i) xs st' in (cons x' xs', st'')

-- `if xs, ok := v.([]any); ok { for i, x := range xs { … } }`
unfoldable pub on_array : (ℕ → Edit Json) → Edit Json
unfolding each_item
on_array f (array xs) st = let (xs', st') = each_item f 0 xs st in (array xs', st')
on_array f v st = (v, st)

-- `if v, ok := m[key]…; ok { m[key] = … }`
unfoldable pub at_key : Bytes → Edit Json → Edit Fields
at_key key f fs st = elim (get_field key fs) [
  | none ↦ (fs, st)
  | some v ↦ let (v', st') = f v st in (set_field key v' fs, st')
]

-- Statements at several keys, one after the other.
unfoldable pub in_order : List (Bytes × Edit Json) → Edit Fields
unfolding at_key
in_order [] fs st = (fs, st)
in_order ((key, f) ∷ rest) fs st = let (fs', st') = at_key key f fs st in in_order rest fs' st'

-- `quote` is the `%q` of `fmt`.
module _ (quote : Bytes → Bytes) (m : PrefixMapping) where
  abbrev pub summary_field : ℕ → Bytes → Bytes
  summary_field i key = indexed "snapshots[" i "].summary[" ++ (quote key ++ codes "]")

  -- `if s, ok := v.(string); ok && mapping.Matches(s) { … }`
  unfoldable pub in_scope : Bytes → Edit Json
  unfolding on_string
  in_scope name (string s) st =
      if matches m s then on_string m name (string s) st else (string s, st)
  in_scope name v st = (v, st)

  -- `for k, v := range summary { … }`
  unfoldable pub each_summary : ℕ → Edit Fields
  unfolding in_scope
  each_summary i end st = (end, st)
  each_summary i (field key v fs) st =
      let (v', st') = in_scope (summary_field i key) v st in
      let (fs', st'') = each_summary i fs st' in (field key v' fs', st'')

  abbrev pub snapshot_edits : ℕ → List (Bytes × Edit Json)
  snapshot_edits i =
      (codes "manifest-list", on_string m (indexed "snapshots[" i "].manifest-list"))
      ∷ (codes "manifests", on_array (λ j. on_string m (manifest_field i j)))
      ∷ (codes "summary", on_object (each_summary i))
      ∷ []

  abbrev pub log_edits : ℕ → List (Bytes × Edit Json)
  log_edits i =
      (codes "metadata-file", on_string m (indexed "metadata-log[" i "].metadata-file")) ∷ []

  abbrev pub statistics_edits : String → ℕ → List (Bytes × Edit Json)
  statistics_edits key i =
      (codes "statistics-path", on_string m (codes key ++ indexed "[" i "].statistics-path")) ∷ []

  abbrev pub property_edit : Bytes → Bytes × Edit Json
  property_edit key = (key, on_string m (codes "properties[" ++ (quote key ++ codes "]")))

  abbrev pub property_edits : List (Bytes × Edit Json)
  property_edits =
      property_edit (codes "write.object-storage.path")
      ∷ property_edit (codes "write.folder-storage.path")
      ∷ property_edit (codes "write.metadata.path")
      ∷ property_edit (codes "write.data.path")
      ∷ []

  abbrev pub document_edits : List (Bytes × Edit Json)
  document_edits =
      (codes "location", on_string m (codes "location"))
      ∷ (codes "snapshots", on_array (λ i. on_object (in_order (snapshot_edits i))))
      ∷ (codes "metadata-log", on_array (λ i. on_object (in_order (log_edits i))))
      ∷ (codes "statistics", on_array (λ i. on_object (in_order (statistics_edits "statistics" i))))
      ∷ (
        codes "partition-statistics",
        on_array (λ i. on_object (in_order (statistics_edits "partition-statistics" i))),
      )
      ∷ (codes "properties", on_object (in_order property_edits))
      ∷ []

  -- `ApplyMetadataJSONMapping`: the document afterwards, the hits, and whether a value changed
  unfoldable pub apply_metadata_json_mapping : Fields → Fields × Progress
  unfolding in_order on_object on_array each_summary on_string
  apply_metadata_json_mapping doc = in_order document_edits doc fresh
