-- ===== src/Tests/Documents.antt =====
-- Metadata documents.
use bergrebase.Base.{false, has_prefix, int_eq, list_beq, list_eq, nat_eq, refl, ◌≡◌}
use bergrebase.Json.{get_field, set_field}
use bergrebase.Prefix.{apply, matches}
use bergrebase.Metadata.Edit.{apply_metadata_json_mapping}
use bergrebase.Metadata.Edit.Laws.{Tracks}
use bergrebase.Metadata.Edit.Document.{
  apply_metadata_json_mapping-Tracks, apply_metadata_json_mapping_unchanged,
  apply_metadata_json_mapping_twice,
}
use bergrebase.Tests.Paths.{old_to_new-NotNested}
use bergrebase.Tests.Toy.{old_to_new, new_to_old, document, toy_text}

apply_metadata_json_mapping-Tracks_example :
    Tracks old_to_new (apply_metadata_json_mapping toy_text.quote old_to_new document).1
apply_metadata_json_mapping-Tracks_example =
    apply_metadata_json_mapping-Tracks toy_text.quote old_to_new document

apply_metadata_json_mapping_unchanged_example :
    (apply_metadata_json_mapping toy_text.quote new_to_old document).0 ≡ document
unfolding apply_metadata_json_mapping get_field list_beq set_field matches has_prefix apply
apply_metadata_json_mapping_unchanged_example =
    apply_metadata_json_mapping_unchanged toy_text.quote new_to_old document refl

apply_metadata_json_mapping_twice_example :
    let once = (apply_metadata_json_mapping toy_text.quote old_to_new document).0 in
    ((apply_metadata_json_mapping toy_text.quote old_to_new once).1.changed ≡ false)
    × ((apply_metadata_json_mapping toy_text.quote old_to_new once).0 ≡ once)
apply_metadata_json_mapping_twice_example =
    apply_metadata_json_mapping_twice toy_text.quote old_to_new old_to_new-NotNested document
