-- ===== src/Engine.antt =====
-- internal/rewrite/walker.go, `Engine.RewriteTable`. The loop over the hits of a dry run only logs
-- them. The result that is returned beside an error is not modelled: its callers drop it.
pub mod Writes
use bergrebase.Base.{
  Action, Bool, Bytes, List, Option, [], codes, contains, context, errorf, fail, false,
  if◌then◌else◌, int_eq, lift, list_eq, nat_eq, none, not, outside_prefix, pos, pure, sentinel,
  some, text, true, wrapf, ℕ, ℤ, ◌&&◌, ◌++◌, ◌+◌, ◌==◌, ◌>>=◌, ◌>>◌, ◌||◌, ◌∷◌,
}
use bergrebase.Prefix.{PrefixMapping, apply, matches}
use bergrebase.Storage.{Storage}
use bergrebase.Iceberg.{ManifestFile}
use bergrebase.Metadata.{
  Metadata, Snapshot, PathHit, rewritten, walk_metadata_json, select_snapshots,
}
use bergrebase.Metadata.Rewrite.{Text, parse_metadata_json, rewrite_metadata_json}
use bergrebase.Manifest.Rewrite.{Formats, rewrite_manifest, walk_manifest}
use bergrebase.Manifest.ManifestList.{
  ManifestListHeader, WalkedList, walk_manifest_list, rewrite_manifest_list,
}

-- `Options`
pub record Options : Type 0 where
  pub mapping : PrefixMapping
  pub current_snapshot_only : Bool
  pub dry_run : Bool

-- `RewriteResult`; `Skipped` is never set.
pub record RewriteResult : Type 0 where
  pub old_metadata_location : Bytes
  pub new_metadata_location : Bytes
  pub manifest_lists_rewritten : ℕ
  pub manifests_rewritten : ℕ
  pub stats_files_rewritten : ℕ
  pub hits : List PathHit

abbrev pub add_hits : RewriteResult → List PathHit → RewriteResult
add_hits res hits = record res { hits = res.hits ++ hits }

-- `Engine`, with the code outside the repository that it uses
pub record Engine (W : Type 0) : Type 1 where
  pub source : Storage W
  pub target : Storage W
  pub opts : Options
  pub lib : Formats
  pub text_format : Text

-- `newMF.FilePath() != mf.FilePath() || newMF.Length() != mf.Length()`
unfoldable pub differs : ManifestFile → ManifestFile → Bool
differs new_mf mf = not (new_mf.path == mf.path) || not (new_mf.size == mf.size)

-- `for _, h := range metaHits { if strings.Contains(h.Field, "statistics-path") && … }`
unfoldable pub count_statistics : List PathHit → ℕ
count_statistics [] = 0
count_statistics (h ∷ hits) =
    (if contains h.field (codes "statistics-path") && rewritten h then 1 else 0)
    + count_statistics hits

module _ {W : Type 0} (e : Engine W) where
  abbrev pub mapping : PrefixMapping
  mapping = e.opts.mapping

  -- one manifest, walked or rewritten; `none` stands for the dry run
  unfoldable pub visit_manifest : ManifestFile → Action W (Option ManifestFile × List PathHit)
  visit_manifest mf =
      if e.opts.dry_run
      then (do hits ← walk_manifest e.lib e.source mapping mf; pure (none, hits))
      else (do
        (new_mf, hits) ← rewrite_manifest e.lib e.source e.target mapping mf
        pure (some new_mf, hits))

  -- `subtreeChanged = true; res.ManifestsRewritten++`, where the manifest differs
  unfoldable pub record_manifest :
      ManifestFile
      → RewriteResult × List ManifestFile × Bool
      → Option ManifestFile × List PathHit
      → RewriteResult × List ManifestFile × Bool
  unfolding differs
  record_manifest mf (res, files, changed) (none, hits) = (add_hits res hits, files, changed)
  record_manifest mf (res, files, changed) (some new_mf, hits) =
      let res' = add_hits res hits in
      if differs new_mf mf
      then (
        record res' { manifests_rewritten = res.manifests_rewritten + 1 },
        files ++ new_mf ∷ [],
        true,
      )
      else (res', files ++ new_mf ∷ [], changed)

  -- `for i, mf := range files { … }`, with `res`, `rewrittenFiles` and `subtreeChanged`
  unfoldable pub visit_manifests :
      List ManifestFile
      → RewriteResult × List ManifestFile × Bool
      → Action W (RewriteResult × List ManifestFile × Bool)
  unfolding visit_manifest record_manifest
  visit_manifests [] st = pure st
  visit_manifests (mf ∷ rest) st = do
    visited ← visit_manifest mf
    visit_manifests rest (record_manifest mf st visited)

  -- the refusal and the write of the manifest list
  unfoldable pub write_list :
      Bytes → WalkedList → RewriteResult × List ManifestFile × Bool → Action W RewriteResult
  write_list uri walked (res, files, subtree_changed) =
      if not e.opts.dry_run && (subtree_changed || not (apply mapping uri == uri))
      then (if subtree_changed && not (matches mapping uri)
          then fail (
              wrapf "%w: manifest list %s is outside source prefix %q but its manifests changed"
                (text uri ∷ text mapping.source ∷ []) (sentinel outside_prefix))
          else (do
            rewrite_manifest_list e.lib.ice mapping e.target uri walked.version walked.header files
            pure (record res { manifest_lists_rewritten = res.manifest_lists_rewritten + 1 })))
      else pure res

  -- the part of the loop for `snap.ManifestList`
  unfoldable pub visit_list : Bytes → RewriteResult → Action W RewriteResult
  unfolding visit_manifests write_list
  visit_list uri res = if uri == [] then pure res else (do
    walked ← walk_manifest_list e.lib.ice mapping e.source uri
    st ← visit_manifests walked.files (add_hits res walked.hits, [], false)
    write_list uri walked st)

  -- `loadV1ManifestDescriptor`
  unfoldable pub load_v1_manifest_descriptor : Bytes → ℤ → Action W ManifestFile
  load_v1_manifest_descriptor uri snapshot_id = do
    size ← context "HEAD V1 manifest %s: %w" (text uri ∷ []) (e.source.head_object uri)
    pure (e.lib.ice.new_manifest_file 1 uri size (pos 0) snapshot_id)

  -- `for _, mURI := range snap.Manifests { … }`
  unfoldable pub visit_flat : ℤ → List Bytes → RewriteResult → Action W RewriteResult
  unfolding load_v1_manifest_descriptor visit_manifest record_manifest
  visit_flat snapshot_id [] res = pure res
  visit_flat snapshot_id (uri ∷ rest) res = do
    mf ← load_v1_manifest_descriptor uri snapshot_id
    visited ← visit_manifest mf
    visit_flat snapshot_id rest (record_manifest mf (res, [], false) visited).0

  -- `for _, snap := range selectSnapshots(…) { … }`
  unfoldable pub visit_snapshots : List Snapshot → RewriteResult → Action W RewriteResult
  unfolding visit_list visit_flat
  visit_snapshots [] res = pure res
  visit_snapshots (snap ∷ rest) res = do
    listed ← visit_list snap.manifest_list res
    flat ← visit_flat snap.snapshot_id snap.manifests listed
    visit_snapshots rest flat

  -- the end of `RewriteTable`: the metadata document is written last
  unfoldable pub finish_table : Bytes → RewriteResult → Action W RewriteResult
  unfolding count_statistics
  finish_table old res = if e.opts.dry_run then pure res else (do
    (new_uri, hits) ← rewrite_metadata_json e.text_format e.source e.target mapping old
    pure (record (add_hits res hits) {
      new_metadata_location = new_uri;
      stats_files_rewritten = res.stats_files_rewritten + count_statistics hits;
    }))

  abbrev pub initial_result : Bytes → RewriteResult
  initial_result old = record {
    old_metadata_location = old;
    new_metadata_location = apply mapping old;
    manifest_lists_rewritten = 0;
    manifests_rewritten = 0;
    stats_files_rewritten = 0;
    hits = [];
  }

  -- `RewriteTable`
  unfoldable pub rewrite_table : Bytes → Action W RewriteResult
  unfolding visit_snapshots finish_table
  rewrite_table old =
      if matches mapping old
      then (do
        raw ← context "read metadata.json: %w" [] (e.source.get_object old)
        meta ← lift (parse_metadata_json e.text_format raw)
        res ←
            visit_snapshots (select_snapshots meta e.opts.current_snapshot_only)
              (add_hits (initial_result old) (walk_metadata_json e.text_format.quote mapping meta))
        finish_table old res)
      else fail (
          errorf "metadata location %q does not start with source prefix %q"
            (text old ∷ text mapping.source ∷ []))
