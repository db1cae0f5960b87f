-- ===== src/Metadata/Edit/Predicted.antt =====
-- The hits of `ApplyMetadataJSONMapping` against those of `WalkMetadataJSON`.
use bergrebase.Base.{
  Bytes, List, String, [], append-nil, append_assoc, arith, codes, inl, inr, none, refl, some, suc,
  sym, ◌++◌, ◌∷◌, ◌≡◌, ◌⊎◌,
}
use bergrebase.Prefix.{PrefixMapping}
use bergrebase.Json.{Json, Fields, string, object, get_field}
use bergrebase.Metadata.{
  Snapshot, MetadataLogEntry, StatisticsFile, Metadata, hit, indexed, find_property, walk_manifests,
  walk_snapshots, walk_log, walk_statistics, walk_properties, walk_metadata_json,
  metadata_path_properties,
}
use bergrebase.Metadata.Edit.{
  Edit, fresh, on_object, on_array, in_order, snapshot_edits, log_edits, statistics_edits,
  property_edit, property_edits, document_edits, apply_metadata_json_mapping,
}
use bergrebase.Metadata.Edit.Hits.{AddsAt, AllAdd, on_object-Adds, in_order-Adds}
use bergrebase.Metadata.Edit.Described.{
  ListAt, HasString, IsSnapshot, Describes, list-AddsAt, string-AddsAt, field-Adds, list_hits,
  snapshot-Adds,
}

module _ (quote : Bytes → Bytes) (m : PrefixMapping) where
  snapshots-AddsAt :
      (doc : Fields) (snaps : List Snapshot)
      → ListAt (IsSnapshot m) (codes "snapshots") doc snaps
      → AddsAt
          (codes "snapshots")
          (on_array (λ i. on_object (in_order (snapshot_edits quote m i))))
          doc
          (walk_snapshots quote m 0 snaps)
  snapshots-AddsAt doc snaps =
      unfold walk_snapshots in
      list-AddsAt (IsSnapshot m) _ (walk_snapshots quote m)
        (λ i snap.
          list_hits quote m i snap.manifest_list ++ walk_manifests quote m i 0 snap.manifests)
        (λ i. refl)
        (λ i x xs. sym (
          append_assoc (list_hits quote m i x.manifest_list)
            (walk_manifests quote m i 0 x.manifests) (walk_snapshots quote m (suc i) xs)))
        (snapshot-Adds quote m) _ doc snaps

  log-AddsAt :
      (doc : Fields) (log : List MetadataLogEntry)
      → ListAt
          (λ v (e : MetadataLogEntry). HasString (codes "metadata-file") v e.metadata_file)
          (codes "metadata-log")
          doc
          log
      → AddsAt
          (codes "metadata-log")
          (on_array (λ i. on_object (in_order (log_edits quote m i))))
          doc
          (walk_log quote m 0 log)
  log-AddsAt doc log =
      unfold walk_log in
      list-AddsAt _ _ (walk_log quote m)
        (λ i e. hit m (indexed "metadata-log[" i "].metadata-file") e.metadata_file ∷ [])
        (λ i. refl) (λ i x xs. refl) (λ i v e. field-Adds quote m _ _ e.metadata_file v) _ doc log

  statistics-AddsAt :
      (name : String) (doc : Fields) (files : List StatisticsFile)
      → ListAt
          (λ v (s : StatisticsFile). HasString (codes "statistics-path") v s.statistics_path)
          (codes name)
          doc
          files
      → AddsAt
          (codes name)
          (on_array (λ i. on_object (in_order (statistics_edits quote m name i))))
          doc
          (walk_statistics quote m name 0 files)
  statistics-AddsAt name doc files =
      unfold walk_statistics in
      list-AddsAt _ _ (walk_statistics quote m name)
        (λ i s. hit m (codes name ++ indexed "[" i "].statistics-path") s.statistics_path ∷ [])
        (λ i. refl) (λ i x xs. refl) (λ i v s. field-Adds quote m _ _ s.statistics_path v) _ doc
        files

  -- The property is in the object exactly if it is in the map.
  abbrev SameProperties : Fields → List (Bytes × Bytes) → Type 0
  SameProperties props kept =
      (key : Bytes)
      → ((get_field key props ≡ none) × (find_property key kept ≡ none))
        ⊎ ((v : Bytes) × (get_field key props ≡ some (string v))
            × (find_property key kept ≡ some v))

  abbrev edits_of : List Bytes → List (Bytes × Edit Json)
  edits_of [] = []
  edits_of (key ∷ keys) = property_edit quote m key ∷ edits_of keys

  properties-AllAdd :
      (props : Fields) (kept : List (Bytes × Bytes)) (keys : List Bytes)
      → SameProperties props kept
      → AllAdd (edits_of keys) props (walk_properties quote m keys kept)
  unfolding walk_properties
  properties-AllAdd props kept [] same = refl
  properties-AllAdd props kept (key ∷ keys) same =
      let later = properties-AllAdd props kept keys same in
      elim (same key) [
        | inl (missing, e) ↦ ([], _, inl (missing, refl), later, rw (e, walk_properties) refl)
        | inr (v, there, e) ↦
            (_, _, string-AddsAt quote m _ _ v props there, later, rw (e, walk_properties) refl)
      ]

  properties-AddsAt :
      (doc props : Fields) (kept : List (Bytes × Bytes))
      → get_field (codes "properties") doc ≡ some (object props)
      → SameProperties props kept
      → AddsAt
          (codes "properties")
          (on_object (in_order (property_edits quote m)))
          doc
          (walk_properties quote m metadata_path_properties kept)
  properties-AddsAt doc props kept there same = inr (
    object props,
    there,
    on_object-Adds (in_order (property_edits quote m)) props _ (
        in_order-Adds (property_edits quote m) props _ (ground arith)
          (properties-AllAdd props kept metadata_path_properties same)),
  )

  document-AllAdd :
      (doc : Fields) (meta : Metadata)
      → Describes m doc meta
      → AllAdd (document_edits quote m) doc (walk_metadata_json quote m meta)
  unfolding walk_metadata_json
  document-AllAdd doc meta d =
      let (props, there, same) = d.properties_at in
      let properties = properties-AddsAt doc props meta.properties there same in
      let more =
        statistics-AddsAt "partition-statistics" doc meta.partition_statistics
          d.partition_statistics_at in
      let tables = statistics-AddsAt "statistics" doc meta.statistics d.statistics_at in
      let log = log-AddsAt doc meta.metadata_log d.log_at in
      let snapshots = snapshots-AddsAt doc meta.snapshots d.snapshots_at in
      let location = string-AddsAt quote m _ (codes "location") meta.location doc d.location_at in
      (
        _,
        _,
        location,
        (
          _,
          _,
          snapshots,
          (
            _,
            _,
            log,
            (_, _, tables, (_, _, more, (_, [], properties, refl, sym (append-nil _)), refl), refl),
            refl,
          ),
          refl,
        ),
        refl,
      )

  -- On a document that holds the fields of the record, with no summary value in the scope of the
  -- mapping, the rewrite reports exactly the hits that the walk of the record reports, in the same
  -- order.
  pub apply_metadata_json_mapping-walk_metadata_json :
      (doc : Fields) (meta : Metadata)
      → Describes m doc meta
      → (apply_metadata_json_mapping quote m doc).1.hits ≡ walk_metadata_json quote m meta
  unfolding apply_metadata_json_mapping
  apply_metadata_json_mapping-walk_metadata_json doc meta d =
      in_order-Adds (document_edits quote m) doc (walk_metadata_json quote m meta) (ground arith)
        (document-AllAdd doc meta d) fresh
