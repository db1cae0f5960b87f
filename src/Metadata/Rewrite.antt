-- ===== src/Metadata/Rewrite.antt =====
-- internal/rewrite/metadata_write.go, `RewriteMetadataJSON`.
use bergrebase.Base.{
  Action, Bytes, List, Result, [], context, errorf, fail, if◌then◌else◌, lift, pure, text, wrap,
  ◌>>=◌, ◌>>◌, ◌∷◌,
}
use bergrebase.Prefix.{PrefixMapping, apply, matches}
use bergrebase.Storage.{Storage, put_and_verify}
use bergrebase.Json.{Fields, as_any_fields}
use bergrebase.Metadata.{Metadata, PathHit}
use bergrebase.Metadata.Edit.{Progress, apply_metadata_json_mapping}

-- encoding/json: `decode` is `json.Unmarshal` into a `MetadataJSON`, `parse` reads the text of an
-- object as a tree, `marshal` is `json.MarshalIndent`; `quote` is the `%q` of `fmt`.
pub record Text : Type 0 where
  pub quote : Bytes → Bytes
  pub decode : Bytes → Result Metadata
  pub parse : Bytes → Result Fields
  pub marshal : Fields → Result Bytes

-- `ParseMetadataJSON`
unfoldable pub parse_metadata_json : Text → Bytes → Result Metadata
parse_metadata_json t raw = wrap "parse metadata.json: %w" [] (t.decode raw)

module _ {W : Type 0} (t : Text) (source target : Storage W) (m : PrefixMapping) where
  -- What `RewriteMetadataJSON` does with the document once it is read.
  unfoldable pub write_document : Bytes → Fields × Progress → Action W (Bytes × List PathHit)
  write_document old_uri (doc, st) =
      if st.changed
      then (do
        new_raw ← lift (wrap "marshal metadata.json: %w" [] (t.marshal doc))
        context "metadata.json %s: %w" (text (apply m old_uri) ∷ [])
            (put_and_verify target (apply m old_uri) new_raw)
        pure (apply m old_uri, st.hits))
      else pure (old_uri, st.hits)

  unfoldable pub rewrite_metadata_json : Bytes → Action W (Bytes × List PathHit)
  unfolding write_document
  rewrite_metadata_json old_uri =
      if matches m old_uri
      then (do
        raw ← context "read metadata.json %s: %w" (text old_uri ∷ []) (source.get_object old_uri)
        doc ← lift (wrap "parse metadata.json %s: %w" (text old_uri ∷ []) (t.parse raw))
        write_document old_uri (apply_metadata_json_mapping t.quote m (as_any_fields doc)))
      else fail (
          errorf "metadata location %q does not start with source prefix %q"
            (text old_uri ∷ text m.source ∷ []))
