-- ===== src/Manifest/Writes.antt =====
-- What walking and rewriting manifests and manifest lists leaves alone.
use bergrebase.Base.{
  Always, Bool, Bytes, Ensures-bind, Ensures-context, Ensures-fail, Ensures-if, Ensures-lift,
  Ensures-pure, Keeps, List, [], suc, true, ℕ, ℤ, ◌∷◌, ◌≡◌,
}
use bergrebase.Prefix.{PrefixMapping, matches}
use bergrebase.Storage.{Storage, Reads, WritesUnder}
use bergrebase.Iceberg.{
  ManifestFile, DataFile, Entry, EntryContent, content_data, content_pos_deletes,
  content_eq_deletes, content_other,
}
use bergrebase.PositionDelete.Writes.{
  walk_position_delete_file-Keeps, rewrite_position_delete_file-Keeps, store-Keeps,
}
use bergrebase.Metadata.{PathHit}
use bergrebase.Manifest.{is_puffin_path}
use bergrebase.Manifest.Rewrite.{
  Formats, rewrite_deletes, prepare_entry, rewrite_entry, rewrite_entries, write_manifest,
  finish_manifest, rewrite_manifest, walk_content, walk_entries, walk_manifest,
}
use bergrebase.Manifest.ManifestList.{ManifestListHeader, walk_manifest_list, rewrite_manifest_list}

module _ (lib : Formats) {W : Type 0} {P : W → Type 0} (source : Storage W) (m : PrefixMapping)
    (reads : Reads P source) where
  walk_content-Keeps :
      (mf : ManifestFile) (i : ℕ) (c : EntryContent) (df : DataFile)
      → Keeps P (walk_content lib source m mf i c df)
  unfolding walk_content
  walk_content-Keeps mf i content_data df = Ensures-pure tt tt
  walk_content-Keeps mf i content_eq_deletes df = Ensures-pure tt tt
  walk_content-Keeps mf i content_pos_deletes df =
      Ensures-if (is_puffin_path df.path) _ _ (λ _. Ensures-fail _)
        (λ _.
          Ensures-context _ _ _
            (walk_position_delete_file-Keeps lib.parquet source m reads df.path))
  walk_content-Keeps mf i (content_other n) df = Ensures-fail _

  walk_entries-Keeps :
      (mf : ManifestFile) (i : ℕ) (es : List Entry) → Keeps P (walk_entries lib source m mf i es)
  unfolding walk_entries
  walk_entries-Keeps mf i [] = Ensures-pure [] tt
  walk_entries-Keeps mf i (e ∷ rest) =
      Ensures-bind _ _ (walk_content-Keeps mf i e.data_file.content e.data_file)
        λ _ _. Ensures-bind _ _ (walk_entries-Keeps mf (suc i) rest) λ _ _. Ensures-pure _ tt

  pub walk_manifest-Keeps : (mf : ManifestFile) → Keeps P (walk_manifest lib source m mf)
  unfolding walk_manifest
  walk_manifest-Keeps mf =
      Ensures-bind _ _ (Ensures-context _ _ _ (reads.get_keeps mf.path)) λ raw _.
        Ensures-bind {Q = Always} _ _ (Ensures-lift _ (λ _ _. tt))
          λ es _. walk_entries-Keeps mf 0 es

  pub walk_manifest_list-Keeps : (uri : Bytes) → Keeps P (walk_manifest_list lib.ice m source uri)
  unfolding walk_manifest_list
  walk_manifest_list-Keeps uri =
      Ensures-bind _ _ (Ensures-context _ _ _ (reads.get_keeps uri)) λ raw _.
        Ensures-bind {Q = Always} _ _ (Ensures-lift _ (λ _ _. tt))
          λ _ _. Ensures-bind {Q = Always} _ _ (Ensures-lift _ (λ _ _. tt)) λ _ _. Ensures-pure _ tt

  module _ (target : Storage W) (target_reads : Reads P target)
      (writes : WritesUnder P m.target target) where
    rewrite_deletes-Keeps : (df : DataFile) → Keeps P (rewrite_deletes lib source target m df)
    unfolding rewrite_deletes
    rewrite_deletes-Keeps df =
        Ensures-bind _ _
          (Ensures-context _ _ _ (
            rewrite_position_delete_file-Keeps lib.parquet source m target target_reads writes reads
              df.path))
          λ _ _. Ensures-pure _ tt

    prepare_entry-Keeps :
        (mf : ManifestFile) (i : ℕ) (c : EntryContent) (df : DataFile)
        → Keeps P (prepare_entry lib source target m mf i c df)
    unfolding prepare_entry
    prepare_entry-Keeps mf i content_data df = Ensures-pure _ tt
    prepare_entry-Keeps mf i content_eq_deletes df = Ensures-pure _ tt
    prepare_entry-Keeps mf i content_pos_deletes df =
        Ensures-if (is_puffin_path df.path) _ _ (λ _. Ensures-fail _)
          (λ _. rewrite_deletes-Keeps df)
    prepare_entry-Keeps mf i (content_other n) df = Ensures-fail _

    rewrite_entry-Keeps :
        (mf : ManifestFile) (i : ℕ) (e : Entry) → Keeps P (rewrite_entry lib source target m mf i e)
    unfolding rewrite_entry
    rewrite_entry-Keeps mf i e =
        Ensures-bind _ _ (prepare_entry-Keeps mf i e.data_file.content e.data_file)
          λ _ _. Ensures-pure _ tt

    rewrite_entries-Keeps :
        (mf : ManifestFile) (i : ℕ) (es : List Entry)
        → Keeps P (rewrite_entries lib source target m mf i es)
    unfolding rewrite_entries
    rewrite_entries-Keeps mf i [] = Ensures-pure _ tt
    rewrite_entries-Keeps mf i (e ∷ rest) =
        Ensures-bind _ _ (rewrite_entry-Keeps mf i e)
          λ _ _. Ensures-bind _ _ (rewrite_entries-Keeps mf (suc i) rest) λ _ _. Ensures-pure _ tt

    write_manifest-Keeps :
        (mf : ManifestFile) (spec : lib.ice.PartitionSpec) (schema : lib.ice.TableSchema)
        (es : List Entry)
        → Keeps P (write_manifest lib source target m mf spec schema es)
    unfolding write_manifest
    write_manifest-Keeps mf spec schema es =
        Ensures-if (matches m mf.path) _ _
          (λ h. Ensures-bind {Q = Always} _ _ (Ensures-lift _ (λ _ _. tt)) λ made _.
            Ensures-bind _ _
              (Ensures-context _ _ _
                (store-Keeps lib.parquet source m target target_reads writes mf.path made.1 h))
              λ _ _. Ensures-pure _ tt)
          (λ _. Ensures-fail _)

    finish_manifest-Keeps :
        (mf : ManifestFile) (spec : lib.ice.PartitionSpec) (schema : lib.ice.TableSchema)
        (r : List Entry × List PathHit × Bool)
        → Keeps P (finish_manifest lib source target m mf spec schema r)
    unfolding finish_manifest
    finish_manifest-Keeps mf spec schema (es, hits, mutated) =
        Ensures-if mutated _ _
          (λ _. Ensures-bind _ _ (write_manifest-Keeps mf spec schema es) λ _ _. Ensures-pure _ tt)
          (λ _. Ensures-pure _ tt)

    pub rewrite_manifest-Keeps :
        (mf : ManifestFile) → Keeps P (rewrite_manifest lib source target m mf)
    unfolding rewrite_manifest
    rewrite_manifest-Keeps mf =
        Ensures-bind _ _ (Ensures-context _ _ _ (reads.get_keeps mf.path)) λ raw _.
          Ensures-bind {Q = Always} _ _ (Ensures-lift _ (λ _ _. tt)) λ reader _.
            Ensures-bind {Q = Always} _ _ (Ensures-lift _ (λ _ _. tt)) λ schema _.
              Ensures-bind {Q = Always} _ _ (Ensures-lift _ (λ _ _. tt)) λ spec _.
                Ensures-bind {Q = Always} _ _ (Ensures-lift _ (λ _ _. tt)) λ es _.
                  Ensures-bind _ _ (rewrite_entries-Keeps mf 0 es)
                    λ r _. finish_manifest-Keeps mf spec schema r

    -- A manifest list is written only where its URI lies under the source prefix.
    pub rewrite_manifest_list-Keeps :
        (uri : Bytes) (version : ℤ) (header : ManifestListHeader) (files : List ManifestFile)
        → matches m uri ≡ true
        → Keeps P (rewrite_manifest_list lib.ice m target uri version header files)
    unfolding rewrite_manifest_list
    rewrite_manifest_list-Keeps uri version header files h =
        Ensures-bind {Q = Always} _ _ (Ensures-lift _ (λ _ _. tt)) λ body _.
          Ensures-bind _ _
            (Ensures-context _ _ _
              (store-Keeps lib.parquet source m target target_reads writes uri body h))
            λ _ _. Ensures-pure _ tt
