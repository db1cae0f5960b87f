-- ===== src/Metadata/Edit/Document.antt =====
-- What `ApplyMetadataJSONMapping` does to a document as a whole.
use bergrebase.Base.{Bytes, String, arith, false, refl, ℕ, ◌≡◌}
use bergrebase.Prefix.{PrefixMapping}
use bergrebase.Prefix.Laws.{NotNested}
use bergrebase.Json.{Fields}
use bergrebase.Metadata.Edit.{
  Edit, fresh, on_string, on_object, on_array, in_order, apply_metadata_json_mapping,
  document_edits, snapshot_edits, log_edits, statistics_edits, property_edits,
}
use bergrebase.Metadata.Edit.Laws.{
  Tracks, IsFaithful, on_string-IsFaithful, on_object-IsFaithful, on_array-IsFaithful,
  in_order-IsFaithful, each_summary-IsFaithful,
}
use bergrebase.Metadata.Edit.Settled.{
  Settles, on_string-Settles, on_object-Settles, on_array-Settles, in_order-Settles,
  each_summary-Settles,
}

module _ (quote : Bytes → Bytes) (m : PrefixMapping) where
  snapshot-IsFaithful : (i : ℕ) → IsFaithful m (in_order (snapshot_edits quote m i))
  snapshot-IsFaithful i = in_order-IsFaithful m (snapshot_edits quote m i) (
    on_string-IsFaithful m _,
    (
      on_array-IsFaithful m _ (λ j. on_string-IsFaithful m _),
      (on_object-IsFaithful m _ (each_summary-IsFaithful m quote i), tt),
    ),
  )

  log-IsFaithful : (i : ℕ) → IsFaithful m (in_order (log_edits quote m i))
  log-IsFaithful i = in_order-IsFaithful m (log_edits quote m i) (on_string-IsFaithful m _, tt)

  statistics-IsFaithful :
      (key : String) (i : ℕ) → IsFaithful m (in_order (statistics_edits quote m key i))
  statistics-IsFaithful key i =
      in_order-IsFaithful m (statistics_edits quote m key i) (on_string-IsFaithful m _, tt)

  properties-IsFaithful : IsFaithful m (in_order (property_edits quote m))
  properties-IsFaithful = in_order-IsFaithful m (property_edits quote m) (
    on_string-IsFaithful m _,
    (on_string-IsFaithful m _, (on_string-IsFaithful m _, (on_string-IsFaithful m _, tt))),
  )

  objects-IsFaithful :
      (f : ℕ → Edit Fields)
      → ((i : ℕ) → IsFaithful m (f i))
      → IsFaithful m (on_array (λ i. on_object (f i)))
  objects-IsFaithful f h = on_array-IsFaithful m _ (λ i. on_object-IsFaithful m (f i) (h i))

  document-IsFaithful : IsFaithful m (in_order (document_edits quote m))
  document-IsFaithful = in_order-IsFaithful m (document_edits quote m) (
    on_string-IsFaithful m _,
    (
      objects-IsFaithful _ snapshot-IsFaithful,
      (
        objects-IsFaithful _ log-IsFaithful,
        (
          objects-IsFaithful _ (statistics-IsFaithful "statistics"),
          (
            objects-IsFaithful _ (statistics-IsFaithful "partition-statistics"),
            (on_object-IsFaithful m _ properties-IsFaithful, tt),
          ),
        ),
      ),
    ),
  )

  -- Every hit of the rewrite holds the substitution of its old value, and the flag is set exactly
  -- if some hit differs from its old value.
  pub apply_metadata_json_mapping-Tracks :
      (doc : Fields) → Tracks m (apply_metadata_json_mapping quote m doc).1
  unfolding apply_metadata_json_mapping
  apply_metadata_json_mapping-Tracks doc =
      document-IsFaithful.tracks doc fresh (record { applied = tt; flagged = refl })

  -- A document for which no change is reported is the document that was given.
  pub apply_metadata_json_mapping_unchanged :
      (doc : Fields)
      → (apply_metadata_json_mapping quote m doc).1.changed ≡ false
      → (apply_metadata_json_mapping quote m doc).0 ≡ doc
  unfolding apply_metadata_json_mapping
  apply_metadata_json_mapping_unchanged doc h = (document-IsFaithful.unchanged doc fresh h).0

module _ (quote : Bytes → Bytes) (m : PrefixMapping) (n : NotNested m) where
  strings-Settle : (name : Bytes) → Settles (on_string m name)
  strings-Settle name = on_string-Settles m n name

  snapshot-Settles : (i : ℕ) → Settles (in_order (snapshot_edits quote m i))
  snapshot-Settles i = in_order-Settles (snapshot_edits quote m i) (ground arith) (
    strings-Settle _,
    (
      on_array-Settles _ (λ j. strings-Settle _),
      (on_object-Settles _ (each_summary-Settles m n quote i), tt),
    ),
  )

  log-Settles : (i : ℕ) → Settles (in_order (log_edits quote m i))
  log-Settles i = in_order-Settles (log_edits quote m i) (tt, tt) (strings-Settle _, tt)

  statistics-Settles : (key : String) (i : ℕ) → Settles (in_order (statistics_edits quote m key i))
  statistics-Settles key i =
      in_order-Settles (statistics_edits quote m key i) (tt, tt) (strings-Settle _, tt)

  properties-Settles : Settles (in_order (property_edits quote m))
  properties-Settles =
      in_order-Settles (property_edits quote m) (ground arith)
        (strings-Settle _, (strings-Settle _, (strings-Settle _, (strings-Settle _, tt))))

  objects-Settle :
      (f : ℕ → Edit Fields) → ((i : ℕ) → Settles (f i)) → Settles (on_array (λ i. on_object (f i)))
  objects-Settle f h = on_array-Settles _ (λ i. on_object-Settles (f i) (h i))

  document-Settles : Settles (in_order (document_edits quote m))
  document-Settles = in_order-Settles (document_edits quote m) (ground arith) (
    strings-Settle _,
    (
      objects-Settle _ snapshot-Settles,
      (
        objects-Settle _ log-Settles,
        (
          objects-Settle _ (statistics-Settles "statistics"),
          (
            objects-Settle _ (statistics-Settles "partition-statistics"),
            (on_object-Settles _ properties-Settles, tt),
          ),
        ),
      ),
    ),
  )

  -- With prefixes that are not nested, a second rewrite of a document reports no change and
  -- returns the document that the first one produced.
  pub apply_metadata_json_mapping_twice :
      (doc : Fields)
      → let once = (apply_metadata_json_mapping quote m doc).0 in
        ((apply_metadata_json_mapping quote m once).1.changed ≡ false)
        × ((apply_metadata_json_mapping quote m once).0 ≡ once)
  unfolding apply_metadata_json_mapping
  apply_metadata_json_mapping_twice doc =
      let once = (in_order (document_edits quote m) doc fresh).0 in
      let quiet = document-Settles doc fresh fresh in
      (quiet, ((document-IsFaithful quote m).unchanged once fresh quiet).0)
