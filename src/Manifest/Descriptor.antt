-- ===== src/Manifest/Descriptor.antt =====
-- The descriptor that `RewriteManifest` returns for a manifest that it wrote.
use bergrebase.Base.{
  >>=-eq-ok, Action, Bool-cases, Bytes, List, [], context, context-eq-ok, fail, inl, inr, length,
  lift, lift-eq-ok, ok, pos, pure, pure-eq-ok, refl, text, wrap, wrap-eq-ok, ◌>>=◌, ◌>>◌, ◌∙◌, ◌∷◌,
  ◌≡◌,
}
use bergrebase.Prefix.{PrefixMapping, apply, matches}
use bergrebase.Storage.{Storage, put_and_verify}
use bergrebase.Storage.Put.{Verified, put_and_verify-eq-ok}
use bergrebase.Iceberg.{ManifestFile, Entry, Descriptors}
use bergrebase.Manifest.Encode.{encode_manifest, encode_manifest-length, preserve_sequence_numbers}
use bergrebase.Manifest.Rewrite.{Formats, write_manifest}

-- The new descriptor names the new path and the length of the body that is stored there, and it
-- keeps the sequence numbers and the content of the old one.
pub record Describes (m : PrefixMapping) (old new : ManifestFile) (body : Bytes) : Type 0 where
  pub path_moved : new.path ≡ apply m old.path
  pub size_written : new.size ≡ pos (length body)
  pub sequence_kept : new.sequence_num ≡ old.sequence_num
  pub min_sequence_kept : new.min_sequence_num ≡ old.min_sequence_num
  pub content_kept : new.content ≡ old.content

module _ (lib : Formats) (d : Descriptors lib.ice) (m : PrefixMapping) where
  preserve-Describes :
      (mf made : ManifestFile) (body : Bytes) (w : lib.ice.Writer)
      → lib.ice.to_manifest_file w (apply m mf.path) (pos (length body)) mf.content ≡ ok made
      → Describes m mf (preserve_sequence_numbers lib.ice made mf) body
  unfolding preserve_sequence_numbers
  preserve-Describes mf made body w h = record {
    path_moved =
        d.built_path made.version made.path made.size made.partition_spec_id made.snapshot_id
        ∙ d.written_path w (apply m mf.path) _ mf.content made h;
    size_written =
        d.built_size made.version made.path made.size made.partition_spec_id made.snapshot_id
        ∙ d.written_size w (apply m mf.path) _ mf.content made h;
    sequence_kept = refl;
    min_sequence_kept = refl;
    content_kept = refl;
  }

  module _ {W : Type 0} (source target : Storage W) where
    -- what is done with the encoded manifest
    abbrev store_encoded : ManifestFile → ManifestFile × Bytes → Action W ManifestFile
    store_encoded mf (made, body) = do
      context "manifest %s: %w" (text (apply m mf.path) ∷ [])
          (put_and_verify target (apply m mf.path) body)
      pure (preserve_sequence_numbers lib.ice made mf)

    store_encoded-Describes :
        (mf new_mf made : ManifestFile) (body : Bytes) (aw : lib.ice.Writer) (w w' : W)
        → lib.ice.to_manifest_file aw (apply m mf.path) (pos (length body)) mf.content ≡ ok made
        → store_encoded mf (made, body) w ≡ (ok new_mf, w')
        → Verified target (apply m mf.path) body w w' × Describes m mf new_mf body
    store_encoded-Describes mf new_mf made body aw w w' made_ok h =
        let (_, between, stored, rest) = >>=-eq-ok _ _ w new_mf w' h in
        let (same, stays) = pure-eq-ok _ between new_mf w' rest in
        let stored' = context-eq-ok _ _ _ w tt between stored in
        rw (← stays, ← same)
          (
            (put_and_verify-eq-ok target (apply m mf.path) body w between).0 stored',
            preserve-Describes mf made body aw made_ok,
          )

    written :
        (mf new_mf : ManifestFile) (spec : lib.ice.PartitionSpec) (schema : lib.ice.TableSchema)
        (es : List Entry) (w w' : W)
        → (do
          made ← lift (
              wrap "write manifest %s -> %s: %w"
                (text mf.path ∷ text (apply m mf.path) ∷ [])
                (encode_manifest lib.ice mf spec schema (apply m mf.path) es))
          store_encoded mf made)
            w
          ≡ (ok new_mf, w')
        → (body : Bytes) × Verified target (apply m mf.path) body w w' × Describes m mf new_mf body
    written mf new_mf spec schema es w w' h =
        let ((made, body), between, lifted, rest) = >>=-eq-ok _ _ w new_mf w' h in
        let (encoded, stays) = lift-eq-ok _ w (made, body) between lifted in
        let (aw, made_ok) =
          encode_manifest-length lib.ice mf spec schema (apply m mf.path) es made body
            (wrap-eq-ok _ _ _ _ encoded) in
        let (stored, new_is) =
          store_encoded-Describes mf new_mf made body aw w w' made_ok (rw (← stays) at rest) in
        (body, stored, new_is)

    -- Where descriptors have the path and the length that they are built with, and a manifest is
    -- written, the body of which the new descriptor gives the length was stored under the
    -- substituted path by a verified PUT, and the descriptor has that path, and the sequence numbers
    -- and the content of the old one.
    pub write_manifest-Describes :
        (mf new_mf : ManifestFile) (spec : lib.ice.PartitionSpec) (schema : lib.ice.TableSchema)
        (es : List Entry) (w w' : W)
        → write_manifest lib source target m mf spec schema es w ≡ (ok new_mf, w')
        → (body : Bytes) × Verified target (apply m mf.path) body w w' × Describes m mf new_mf body
    unfolding write_manifest
    write_manifest-Describes mf new_mf spec schema es w w' h =
        elim (Bool-cases (matches m mf.path)) [
          | inr e ↦ absurd (unfold fail in cc (rw e at h))
          | inl e ↦ written mf new_mf spec schema es w w' (rw e at h)
        ]
