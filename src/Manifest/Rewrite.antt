-- ===== src/Manifest/Rewrite.antt =====
-- internal/rewrite/manifest.go, `WalkManifest`, and manifest_write.go, `RewriteManifest`.
use bergrebase.Base.{
  Action, Bool, Bytes, List, Option, [], context, fail, false, if◌then◌else◌, int_eq, lift, list_eq,
  nat_eq, none, not, outside_prefix, pure, sentinel, some, suc, text, wrap, wrapf, ℕ, ◌++◌, ◌==◌,
  ◌>>=◌, ◌>>◌, ◌||◌, ◌∷◌,
}
use bergrebase.Prefix.{PrefixMapping, apply, matches}
use bergrebase.Storage.{Storage, put_and_verify}
use bergrebase.PositionDelete.{Parquet, rewrite_position_delete_file, walk_position_delete_file}
use bergrebase.Iceberg.{
  Iceberg, ManifestFile, DataFile, Entry, EntryContent, content_data, content_pos_deletes,
  content_eq_deletes, content_other,
}
use bergrebase.Metadata.{PathHit}
use bergrebase.Manifest.{is_puffin_path, entry_hits, puffin_refusal, content_refusal}
use bergrebase.Manifest.Stats.{fixup_entry_stats}
use bergrebase.Manifest.Encode.{encode_manifest, preserve_sequence_numbers}

-- The code outside the repository that reads and writes table files.
pub record Formats : Type 1 where
  pub ice : Iceberg
  pub parquet : Parquet

module _ (m : PrefixMapping) where
  -- `if ref := df.ReferencedDataFile(); ref != nil && *ref != "" { … }`
  unfoldable pub substitute_reference : Option Bytes → Option Bytes × Bool
  substitute_reference none = (none, false)
  substitute_reference (some ref) =
      if ref == [] then (some ref, false) else (some (apply m ref), not (ref == apply m ref))

  -- The part of the loop of `RewriteManifest` after the switch: the entry's paths are substituted.
  unfoldable pub substitute_paths : DataFile → DataFile × Bool
  unfolding substitute_reference
  substitute_paths df =
      let (ref, c) = substitute_reference df.referenced_data_file in
      (
        record df { path = apply m df.path; referenced_data_file = ref },
        not (df.path == apply m df.path) || c,
      )

module _ (lib : Formats) {W : Type 0} (source target : Storage W) (m : PrefixMapping) where
  -- `case EntryContentPosDeletes` of `RewriteManifest`, for a file that is no Puffin file
  unfoldable pub rewrite_deletes : DataFile → Action W (DataFile × Bool)
  unfolding fixup_entry_stats
  rewrite_deletes df = do
    pd ←
        context "rewrite position-delete %s: %w" (text df.path ∷ [])
          (rewrite_position_delete_file lib.parquet source m target df.path)
    pure (fixup_entry_stats m df pd)

  -- The switch on the content type in `RewriteManifest`: the entry, and whether it changed.
  unfoldable pub prepare_entry :
      ManifestFile → ℕ → EntryContent → DataFile → Action W (DataFile × Bool)
  unfolding rewrite_deletes is_puffin_path
  prepare_entry mf i content_data df = pure (df, false)
  prepare_entry mf i content_eq_deletes df = pure (df, false)
  prepare_entry mf i content_pos_deletes df =
      if is_puffin_path df.path then fail (puffin_refusal mf i df) else rewrite_deletes df
  prepare_entry mf i (content_other n) df = fail (content_refusal mf i)

  -- one round of the loop: the entry, its hits, and whether it changed
  unfoldable pub rewrite_entry : ManifestFile → ℕ → Entry → Action W (Entry × List PathHit × Bool)
  unfolding prepare_entry substitute_paths
  rewrite_entry mf i e = do
    (df, aligned) ← prepare_entry mf i e.data_file.content e.data_file
    let (df', moved) = substitute_paths m df
    pure (record e { data_file = df' }, entry_hits m mf i df, aligned || moved)

  -- `for i, e := range entries { … }`, from entry `i` on
  unfoldable pub rewrite_entries :
      ManifestFile → ℕ → List Entry → Action W (List Entry × List PathHit × Bool)
  unfolding rewrite_entry
  rewrite_entries mf i [] = pure ([], [], false)
  rewrite_entries mf i (e ∷ rest) = do
    (e', hits, changed) ← rewrite_entry mf i e
    (rest', later_hits, later) ← rewrite_entries mf (suc i) rest
    pure (e' ∷ rest', hits ++ later_hits, changed || later)

  -- `RewriteManifest` after the loop, where an entry changed
  unfoldable pub write_manifest :
      ManifestFile
      → lib.ice.PartitionSpec
      → lib.ice.TableSchema
      → List Entry
      → Action W ManifestFile
  write_manifest mf spec schema entries =
      if matches m mf.path
      then (do
        (new_mf, body) ← lift (
            wrap "write manifest %s -> %s: %w" (text mf.path ∷ text (apply m mf.path) ∷ [])
              (encode_manifest lib.ice mf spec schema (apply m mf.path) entries))
        context "manifest %s: %w" (text (apply m mf.path) ∷ [])
            (put_and_verify target (apply m mf.path) body)
        pure (preserve_sequence_numbers lib.ice new_mf mf))
      else fail (
          wrapf
            "%w: manifest %s is outside source prefix %q but references in-prefix paths; rewriting would overwrite the original in place"
            (text mf.path ∷ text m.source ∷ []) (sentinel outside_prefix))

  -- `if !mutated { return mf, hits, nil }`, and the write otherwise
  unfoldable pub finish_manifest :
      ManifestFile
      → lib.ice.PartitionSpec
      → lib.ice.TableSchema
      → List Entry × List PathHit × Bool
      → Action W (ManifestFile × List PathHit)
  unfolding write_manifest
  finish_manifest mf spec schema (entries, hits, mutated) =
      if mutated
      then (do new_mf ← write_manifest mf spec schema entries; pure (new_mf, hits))
      else pure (mf, hits)

  -- `RewriteManifest`
  unfoldable pub rewrite_manifest : ManifestFile → Action W (ManifestFile × List PathHit)
  unfolding rewrite_entries finish_manifest
  rewrite_manifest mf = do
    raw ← context "read manifest %s: %w" (text mf.path ∷ []) (source.get_object mf.path)
    reader ←
        lift
          (wrap "decode manifest %s: %w" (text mf.path ∷ []) (lib.ice.new_manifest_reader mf raw))
    schema ←
        lift
          (wrap "manifest %s: read schema: %w" (text mf.path ∷ []) (lib.ice.reader_schema reader))
    spec ← lift (
        wrap "manifest %s: read partition spec: %w" (text mf.path ∷ [])
          (lib.ice.reader_partition_spec reader))
    entries ←
        lift (wrap "decode manifest %s: %w" (text mf.path ∷ []) (lib.ice.read_manifest mf raw))
    rewritten ← rewrite_entries mf 0 entries
    finish_manifest mf spec schema rewritten

module _ (lib : Formats) {W : Type 0} (source : Storage W) (m : PrefixMapping) where
  -- the switch on the content type in `WalkManifest`
  unfoldable pub walk_content : ManifestFile → ℕ → EntryContent → DataFile → Action W (Unit {0})
  unfolding is_puffin_path
  walk_content mf i content_data df = pure tt
  walk_content mf i content_eq_deletes df = pure tt
  walk_content mf i content_pos_deletes df =
      if is_puffin_path df.path
      then fail (puffin_refusal mf i df)
      else context "dry-run position-delete %s: %w" (text df.path ∷ [])
          (walk_position_delete_file lib.parquet source m df.path)
  walk_content mf i (content_other n) df = fail (content_refusal mf i)

  -- the loop of `WalkManifest`, from entry `i` on
  unfoldable pub walk_entries : ManifestFile → ℕ → List Entry → Action W (List PathHit)
  unfolding walk_content entry_hits
  walk_entries mf i [] = pure []
  walk_entries mf i (e ∷ rest) = do
    walk_content mf i e.data_file.content e.data_file
    later ← walk_entries mf (suc i) rest
    pure (entry_hits m mf i e.data_file ++ later)

  -- `WalkManifest`
  unfoldable pub walk_manifest : ManifestFile → Action W (List PathHit)
  unfolding walk_entries
  walk_manifest mf = do
    raw ← context "read manifest %s: %w" (text mf.path ∷ []) (source.get_object mf.path)
    entries ←
        lift (wrap "decode manifest %s: %w" (text mf.path ∷ []) (lib.ice.read_manifest mf raw))
    walk_entries mf 0 entries
