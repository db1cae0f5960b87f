-- ===== src/Metadata/Edit/Described.antt =====
-- Documents that hold the fields of `MetadataJSON`, and the hits that the edits of one field add.
use bergrebase.Base.{
  Bool-cases, Bytes, List, [], append-nil, arith, codes, if◌then◌else◌, inl, inr, int_eq, list_beq,
  list_beq_iff, list_eq, nat_eq, none, refl, some, suc, sym, ℕ, ◌++◌, ◌==◌, ◌∷◌, ◌≡◌, ◌≢◌, ◌⊎◌,
}
use bergrebase.Prefix.{PrefixMapping}
use bergrebase.Json.{Json, Items, Fields, string, array, object, get_field}
use bergrebase.Metadata.{
  Snapshot, MetadataLogEntry, StatisticsFile, Metadata, PathHit, hit, indexed, find_property,
  manifest_field, walk_manifests,
}
use bergrebase.Metadata.Edit.{
  Edit, on_string, on_object, on_array, in_order, each_summary, snapshot_edits,
}
use bergrebase.Metadata.Edit.Hits.{
  Adds, AddsAt, on_string-Adds, on_object-Adds, in_order-Adds, Listed, each_item-Adds, OutOfScope,
  each_summary-Adds,
}

-- The key holds a list that stands for the values, or is missing where there are none.
abbrev pub ListAt : {A : Type 0} → (Json → A → Type 0) → Bytes → Fields → List A → Type 0
ListAt R key fs xs =
    ((get_field key fs ≡ none) × (xs ≡ []))
    ⊎ ((js : Items) × (get_field key fs ≡ some (array js)) × Listed R js xs)

-- The value is an object with the string at the key.
abbrev pub HasString : Bytes → Json → Bytes → Type 0
HasString key v s = (fs : Fields) × (v ≡ object fs) × (get_field key fs ≡ some (string s))

-- The key holds a string, or is missing where the string is empty.
abbrev pub OptionalString : Bytes → Fields → Bytes → Type 0
OptionalString key fs s =
    ((get_field key fs ≡ none) × (s ≡ [])) ⊎ ((get_field key fs ≡ some (string s)) × (s ≢ []))

-- The values of the summary, if there is one, are out of the scope of the mapping.
abbrev pub QuietSummary : PrefixMapping → Fields → Type 0
QuietSummary m fs =
    (get_field (codes "summary") fs ≡ none)
    ⊎ ((sum : Fields) × (get_field (codes "summary") fs ≡ some (object sum)) × OutOfScope m sum)

abbrev pub IsSnapshot : PrefixMapping → Json → Snapshot → Type 0
IsSnapshot m v snap =
    (fs : Fields) × (v ≡ object fs)
    × OptionalString (codes "manifest-list") fs snap.manifest_list
    × ListAt (λ u uri. u ≡ string uri) (codes "manifests") fs snap.manifests
    × QuietSummary m fs

-- The document holds the fields of the record.
pub record Describes (m : PrefixMapping) (doc : Fields) (meta : Metadata) : Type 0 where
  pub location_at : get_field (codes "location") doc ≡ some (string meta.location)
  pub snapshots_at : ListAt (IsSnapshot m) (codes "snapshots") doc meta.snapshots
  pub log_at :
      ListAt
        (λ v (e : MetadataLogEntry). HasString (codes "metadata-file") v e.metadata_file)
        (codes "metadata-log")
        doc
        meta.metadata_log
  pub statistics_at :
      ListAt
        (λ v (s : StatisticsFile). HasString (codes "statistics-path") v s.statistics_path)
        (codes "statistics")
        doc
        meta.statistics
  pub partition_statistics_at :
      ListAt
        (λ v (s : StatisticsFile). HasString (codes "statistics-path") v s.statistics_path)
        (codes "partition-statistics")
        doc
        meta.partition_statistics
  pub properties_at :
      (props : Fields) × (get_field (codes "properties") doc ≡ some (object props))
      × ((key : Bytes)
          → ((get_field key props ≡ none) × (find_property key meta.properties ≡ none))
            ⊎ ((v : Bytes) × (get_field key props ≡ some (string v))
                × (find_property key meta.properties ≡ some v)))

-- A list that is there or missing adds what the walk of its values reports.
pub list-AddsAt :
    {A : Type 0} (R : Json → A → Type 0) (f : ℕ → Edit Json) (walk : ℕ → List A → List PathHit)
    (step : ℕ → A → List PathHit)
    → ((i : ℕ) → walk i [] ≡ [])
    → ((i : ℕ) (x : A) (xs : List A) → walk i (x ∷ xs) ≡ step i x ++ walk (suc i) xs)
    → ((i : ℕ) (j : Json) (x : A) → R j x → Adds (f i) j (step i x))
    → (key : Bytes) (fs : Fields) (xs : List A) → ListAt R key fs xs
    → AddsAt key (on_array f) fs (walk 0 xs)
unfolding on_array
list-AddsAt R f walk step empty more one key fs xs (inl (missing, none_there)) =
    inl (missing, rw none_there (empty 0))
list-AddsAt R f walk step empty more one key fs xs (inr (js, there, l)) =
    inr (array js, there, each_item-Adds R f walk step empty more one 0 js xs l)

module _ (quote : Bytes → Bytes) (m : PrefixMapping) where
  pub string-AddsAt :
      (key name s : Bytes) (fs : Fields)
      → get_field key fs ≡ some (string s)
      → AddsAt key (on_string m name) fs (hit m name s ∷ [])
  string-AddsAt key name s fs e = inr (string s, e, on_string-Adds m name s)

  -- An object with one string to edit.
  pub field-Adds :
      (key name s : Bytes) (v : Json)
      → HasString key v s
      → Adds (on_object (in_order ((key, on_string m name) ∷ []))) v (hit m name s ∷ [])
  field-Adds key name s v (fs, e, there) = rw e (
      on_object-Adds _ fs _ (
        in_order-Adds ((key, on_string m name) ∷ []) fs _ (tt, tt)
          (_, [], string-AddsAt key name s fs there, refl, refl)))

  abbrev pub list_hits : ℕ → Bytes → List PathHit
  list_hits i s = if s == [] then [] else hit m (indexed "snapshots[" i "].manifest-list") s ∷ []

  list-Adds :
      (i : ℕ) (fs : Fields) (s : Bytes)
      → OptionalString (codes "manifest-list") fs s
      → AddsAt
          (codes "manifest-list")
          (on_string m (indexed "snapshots[" i "].manifest-list"))
          fs
          (list_hits i s)
  unfolding list_beq
  list-Adds i fs s (inl (missing, e)) = inl (missing, rw e refl)
  list-Adds i fs s (inr (there, ne)) = elim (Bool-cases (s == [])) [
    | inl e ↦ absurd (ne ((list_beq_iff s []).0 e))
    | inr e ↦ rw e (string-AddsAt _ _ s fs there)
  ]

  summary-AddsAt :
      (i : ℕ) (fs : Fields)
      → QuietSummary m fs
      → AddsAt (codes "summary") (on_object (each_summary quote m i)) fs []
  summary-AddsAt i fs (inl missing) = inl (missing, refl)
  summary-AddsAt i fs (inr (sum, there, out)) =
      inr (object sum, there, on_object-Adds _ sum [] (each_summary-Adds quote m i sum out))

  pub snapshot-Adds :
      (i : ℕ) (v : Json) (snap : Snapshot)
      → IsSnapshot m v snap
      → Adds
          (on_object (in_order (snapshot_edits quote m i)))
          v
          (list_hits i snap.manifest_list ++ walk_manifests quote m i 0 snap.manifests)
  snapshot-Adds i v snap (fs, e, named, listed, quiet) = rw e (
      on_object-Adds _ fs _ (
        in_order-Adds (snapshot_edits quote m i) fs _ (ground arith) (
          _,
          _,
          list-Adds i fs snap.manifest_list named,
          (
            _,
            [],
            manifests fs listed,
            (_, _, summary-AddsAt i fs quiet, refl, refl),
            sym (append-nil _),
          ),
          refl,
        )))
    where
      manifests :
          (fs : Fields)
          → ListAt (λ u uri. u ≡ string uri) (codes "manifests") fs snap.manifests
          → AddsAt
              (codes "manifests")
              (on_array (λ j. on_string m (manifest_field i j)))
              fs
              (walk_manifests quote m i 0 snap.manifests)
      manifests fs =
          unfold walk_manifests in
          list-AddsAt _ _ (walk_manifests quote m i) (λ j uri. hit m (manifest_field i j) uri ∷ [])
            (λ j. refl) (λ j x xs. refl) (λ j u uri r. rw r (on_string-Adds m _ uri)) _ fs
            snap.manifests
