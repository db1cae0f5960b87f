-- ===== src/Tests/Hits.antt =====
-- The hits of the rewrite and of the walk, on a document with one snapshot and two properties.
use bergrebase.Base.{
  Bool-cases, Bytes, [], ap, arith, codes, has_prefix, inl, inr, int_eq, length, list_beq, list_eq,
  nat_eq, none, number, pos, refl, some, ◌==◌, ◌≡◌, ◌≢◌, ◌⊎◌,
}
use bergrebase.Prefix.{matches}
use bergrebase.Json.{Fields, end, field, string, array, object, number, cons, nil, get_field}
use bergrebase.Metadata.{find_property, walk_metadata_json}
use bergrebase.Metadata.Edit.{apply_metadata_json_mapping}
use bergrebase.Metadata.Edit.Described.{Describes}
use bergrebase.Metadata.Edit.Predicted.{apply_metadata_json_mapping-walk_metadata_json}
use bergrebase.Tests.Toy.{old_to_new, described}

abbrev snapshot : Fields
snapshot =
    field (codes "manifest-list") (string (codes "s3://old/l")) (
      field (codes "summary") (object (field (codes "operation") (string (codes "append")) end))
        end)

abbrev properties : Fields
properties = field (codes "write.data.path") (string (codes "s3://other/x")) end

abbrev plain_document : Fields
plain_document = field (codes "location") (string (codes "s3://old/t")) (
    field (codes "current-snapshot-id") (number (pos 7)) (
      field (codes "snapshots") (array (cons (object snapshot) nil))
        (field (codes "properties") (object properties) end)))

codes-ne-empty : codes "s3://old/l" ≢ []
codes-ne-empty h = omega (arith, ap length h)

properties_same :
    (key : Bytes)
    → ((get_field key properties ≡ none) × (find_property key described.properties ≡ none))
      ⊎ ((v : Bytes) × (get_field key properties ≡ some (string v))
          × (find_property key described.properties ≡ some v))
unfolding get_field find_property
properties_same key = elim (Bool-cases (codes "write.data.path" == key)) [
  | inl e ↦ inr (codes "s3://other/x", rw e refl, rw e refl)
  | inr e ↦ inl (rw e refl, rw e refl)
]

plain_document-Describes : Describes old_to_new plain_document described
unfolding get_field list_beq matches has_prefix
plain_document-Describes = record {
  location_at = refl;
  snapshots_at = inr (
    _,
    refl,
    ((snapshot, refl, inr (refl, codes-ne-empty), inl (refl, refl), inr (_, refl, (refl, tt))), tt),
  );
  log_at = inl (refl, refl);
  statistics_at = inl (refl, refl);
  partition_statistics_at = inl (refl, refl);
  properties_at = (properties, refl, properties_same);
}

apply_metadata_json_mapping-walk_metadata_json_example :
    (apply_metadata_json_mapping (λ s. s) old_to_new plain_document).1.hits
    ≡ walk_metadata_json (λ s. s) old_to_new described
apply_metadata_json_mapping-walk_metadata_json_example =
    apply_metadata_json_mapping-walk_metadata_json (λ s. s) old_to_new plain_document described
      plain_document-Describes
