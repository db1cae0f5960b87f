-- ===== src/Engine/Writes.antt =====
-- Where `RewriteTable` writes, and where its result points.
use bergrebase.Base.{
  Always, Bool, Bytes, Ensures, Ensures-bind, Ensures-context, Ensures-fail, Ensures-if,
  Ensures-lift, Ensures-pure, Keeps, Keeps-of_Ensures, List, [], arith, false, inl, inr, int_eq,
  list_beq_iff, list_eq, nat_eq, not, refl, sym, true, ℤ, ◌&&◌, ◌==◌, ◌||◌, ◌∙◌, ◌∷◌, ◌≡◌, ◌⊎◌,
}
use mathlib.Core.Bool.{false≢true}
use bergrebase.Prefix.{PrefixMapping, apply, matches}
use bergrebase.Prefix.Laws.{apply_outside}
use bergrebase.Storage.{Reads, WritesUnder}
use bergrebase.Iceberg.{ManifestFile}
use bergrebase.PositionDelete.Writes.{store-Keeps}
use bergrebase.Json.{Fields}
use bergrebase.Metadata.{Snapshot, PathHit}
use bergrebase.Metadata.Edit.{Progress}
use bergrebase.Metadata.Rewrite.{write_document, rewrite_metadata_json}
use bergrebase.Manifest.Writes.{
  walk_manifest-Keeps, walk_manifest_list-Keeps, rewrite_manifest-Keeps,
  rewrite_manifest_list-Keeps,
}
use bergrebase.Manifest.ManifestList.{WalkedList}
use bergrebase.Engine.{
  Engine, RewriteResult, mapping, visit_manifest, visit_manifests, write_list, visit_list,
  visit_flat, visit_snapshots, finish_table, rewrite_table,
}

-- The URI was returned unchanged, or lies where the mapping takes it.
abbrev pub Moved : PrefixMapping → Bytes → Bytes → Type 0
Moved m old new = (new ≡ old) ⊎ (new ≡ apply m old)

module _ {W : Type 0} {P : W → Type 0} (e : Engine W) (reads : Reads P e.source) where
  module _ (writes : e.opts.dry_run ≡ false → WritesUnder P (mapping e).target e.target)
      (target_reads : e.opts.dry_run ≡ false → Reads P e.target) where
    visit_manifest-Keeps : (mf : ManifestFile) → Keeps P (visit_manifest e mf)
    unfolding visit_manifest
    visit_manifest-Keeps mf =
        Ensures-if e.opts.dry_run _ _
          (λ _.
            Ensures-bind _ _ (walk_manifest-Keeps e.lib e.source (mapping e) reads mf)
              λ _ _. Ensures-pure _ tt)
          (λ live.
            Ensures-bind _ _
              (rewrite_manifest-Keeps e.lib e.source (mapping e) reads e.target (target_reads live)
                (writes live) mf)
              λ _ _. Ensures-pure _ tt)

    visit_manifests-Keeps :
        (files : List ManifestFile) (st : RewriteResult × List ManifestFile × Bool)
        → Keeps P (visit_manifests e files st)
    unfolding visit_manifests
    visit_manifests-Keeps [] st = Ensures-pure _ tt
    visit_manifests-Keeps (mf ∷ rest) st =
        Ensures-bind _ _ (visit_manifest-Keeps mf) λ visited _. visit_manifests-Keeps rest _

    -- the URI of a list that is written lies under the source prefix
    list_in_scope :
        (uri : Bytes) (changed : Bool)
        → (changed || not (apply (mapping e) uri == uri)) ≡ true
        → (changed && not (matches (mapping e) uri)) ≡ false
        → matches (mapping e) uri ≡ true
    list_in_scope uri changed h k =
        ground (arith, apply_outside (mapping e) uri, list_beq_iff (apply (mapping e) uri) uri)

    write_list-Keeps :
        (uri : Bytes) (walked : WalkedList) (st : RewriteResult × List ManifestFile × Bool)
        → Keeps P (write_list e uri walked st)
    unfolding write_list
    write_list-Keeps uri walked (res, files, changed) =
        Ensures-if (not e.opts.dry_run && (changed || not (apply (mapping e) uri == uri))) _ _
          (λ h.
            Ensures-if (changed && not (matches (mapping e) uri)) _ _ (λ _. Ensures-fail _)
              λ k.
                Ensures-bind _ _
                  (rewrite_manifest_list-Keeps e.lib e.source (mapping e) reads e.target
                    (target_reads (ground arith)) (writes (ground arith)) uri walked.version
                    walked.header files (list_in_scope uri changed (ground arith) k))
                  λ _ _. Ensures-pure _ tt)
          (λ _. Ensures-pure _ tt)

    visit_list-Keeps : (uri : Bytes) (res : RewriteResult) → Keeps P (visit_list e uri res)
    unfolding visit_list
    visit_list-Keeps uri res =
        Ensures-if (uri == []) _ _ (λ _. Ensures-pure _ tt)
          λ _.
            Ensures-bind _ _ (walk_manifest_list-Keeps e.lib e.source (mapping e) reads uri)
              λ walked _.
                Ensures-bind _ _ (visit_manifests-Keeps walked.files _)
                  λ st _. write_list-Keeps uri walked st

    visit_flat-Keeps :
        (snapshot_id : ℤ) (uris : List Bytes) (res : RewriteResult)
        → Keeps P (visit_flat e snapshot_id uris res)
    unfolding visit_flat
    visit_flat-Keeps snapshot_id [] res = Ensures-pure _ tt
    visit_flat-Keeps snapshot_id (uri ∷ rest) res =
        Ensures-bind {Q = Always} _ _
          (Ensures-bind _ _ (Ensures-context _ _ _ (reads.head_keeps uri)) λ _ _. Ensures-pure _ tt)
          λ mf _.
            Ensures-bind _ _ (visit_manifest-Keeps mf)
              λ visited _. visit_flat-Keeps snapshot_id rest _

    visit_snapshots-Keeps :
        (snaps : List Snapshot) (res : RewriteResult) → Keeps P (visit_snapshots e snaps res)
    unfolding visit_snapshots
    visit_snapshots-Keeps [] res = Ensures-pure _ tt
    visit_snapshots-Keeps (snap ∷ rest) res =
        Ensures-bind _ _ (visit_list-Keeps snap.manifest_list res) λ listed _.
          Ensures-bind _ _ (visit_flat-Keeps snap.snapshot_id snap.manifests listed)
            λ flat _. visit_snapshots-Keeps rest flat

    -- what `RewriteMetadataJSON` returns as the new URI
    write_document-Moved :
        (old : Bytes) (r : Fields × Progress)
        → matches (mapping e) old ≡ true
        → e.opts.dry_run ≡ false
        → Ensures P
            (λ (out : Bytes × List PathHit). Moved (mapping e) old out.0)
            (write_document e.text_format e.source e.target (mapping e) old r)
    unfolding write_document
    write_document-Moved old (doc, st) h live =
        Ensures-if st.changed _ _
          (λ _. Ensures-bind {Q = Always} _ _ (Ensures-lift _ (λ _ _. tt)) λ body _.
            Ensures-bind _ _
              (Ensures-context _ _ _ (
                store-Keeps e.lib.parquet e.source (mapping e) e.target (target_reads live)
                  (writes live) old body h))
              λ _ _. Ensures-pure _ (inr refl))
          (λ _. Ensures-pure _ (inl refl))

    rewrite_metadata_json-Moved :
        (old : Bytes)
        → e.opts.dry_run ≡ false
        → Ensures P
            (λ (out : Bytes × List PathHit). Moved (mapping e) old out.0)
            (rewrite_metadata_json e.text_format e.source e.target (mapping e) old)
    unfolding rewrite_metadata_json
    rewrite_metadata_json-Moved old live =
        Ensures-if (matches (mapping e) old) _ _
          (λ h. Ensures-bind _ _ (Ensures-context _ _ _ (reads.get_keeps old)) λ raw _.
            Ensures-bind {Q = Always} _ _ (Ensures-lift _ (λ _ _. tt))
              λ doc _. write_document-Moved old _ h live)
          (λ _. Ensures-fail _)

    finish_table-Moved :
        (old : Bytes) (res : RewriteResult)
        → Ensures P
            (λ (out : RewriteResult).
              e.opts.dry_run ≡ false → Moved (mapping e) old out.new_metadata_location)
            (finish_table e old res)
    unfolding finish_table
    finish_table-Moved old res =
        Ensures-if e.opts.dry_run _ _
          (λ dry. Ensures-pure _ (λ live. absurd (false≢true (sym live ∙ dry))))
          (λ live.
            Ensures-bind _ _ (rewrite_metadata_json-Moved old live)
              λ out moved. Ensures-pure _ (λ _. moved))

    rewrite_table-Moved :
        (old : Bytes)
        → Ensures P
            (λ (out : RewriteResult).
              e.opts.dry_run ≡ false → Moved (mapping e) old out.new_metadata_location)
            (rewrite_table e old)
    unfolding rewrite_table
    rewrite_table-Moved old =
        Ensures-if (matches (mapping e) old) _ _
          (λ _. Ensures-bind _ _ (Ensures-context _ _ _ (reads.get_keeps old)) λ raw _.
            Ensures-bind {Q = Always} _ _ (Ensures-lift _ (λ _ _. tt)) λ meta _.
              Ensures-bind _ _ (visit_snapshots-Keeps _ _) λ res _. finish_table-Moved old res)
          (λ _. Ensures-fail _)

  -- A live run keeps every property of the world that reads of both storages and PUTs to the target
  -- at URIs under the target prefix keep, whether it succeeds or fails. If it succeeds, the new
  -- location is the old one or the old one moved by the mapping.
  pub rewrite_table_confined :
      Reads P e.target
      → WritesUnder P (mapping e).target e.target
      → (old : Bytes) → e.opts.dry_run ≡ false
      → Ensures P
          (λ (out : RewriteResult). Moved (mapping e) old out.new_metadata_location)
          (rewrite_table e old)
  rewrite_table_confined target_reads writes old live =
      let all = rewrite_table-Moved (λ _. writes) (λ _. target_reads) old in
      record { keeps = all.keeps; returns = λ w a p h. all.returns w a p h live }

  -- A dry run keeps every property of the world that reads of the source keep.
  pub rewrite_table_dry : (old : Bytes) → e.opts.dry_run ≡ true → Keeps P (rewrite_table e old)
  rewrite_table_dry old dry =
      let no_writes = λ (live : e.opts.dry_run ≡ false).
        absurd {A = WritesUnder P (mapping e).target e.target} (false≢true (sym live ∙ dry)) in
      Keeps-of_Ensures _
        (rewrite_table-Moved no_writes (λ live. absurd (false≢true (sym live ∙ dry))) old)
