-- ===== src/Tests/Manifests.antt =====
-- Manifests and their entries.
use bergrebase.Base.{
  Bytes, List, [], ap, codes, cut_prefix, false, has_prefix, int_eq, list_beq, list_eq, nat_eq,
  negsuc, ok-injective, refl, sym, true, ℕ, ◌++◌, ◌>>=◌, ◌∷◌, ◌≡◌,
}
use bergrebase.PositionDelete.{PositionDeleteRewrite}
use bergrebase.Iceberg.{ManifestFile, Entry, Descriptors, content_pos_deletes, content_data}
use bergrebase.Storage.Put.{Verified}
use bergrebase.Manifest.Rewrite.{write_manifest, rewrite_entries, walk_entries}
use bergrebase.Manifest.{entry_hits}
use bergrebase.Manifest.Hits.{AllSupported, rewrite_entries-walk_entries}
use bergrebase.Manifest.Descriptor.{Describes, write_manifest-Describes}
use bergrebase.Tests.Memory.{memory, find, size_of}
use bergrebase.Prefix.{apply, matches}
use bergrebase.Storage.{put_and_verify}
use bergrebase.Manifest.Encode.{encode_manifest, preserve_sequence_numbers}
use bergrebase.Manifest.Stats.{
  rewrite_bounds, other_bounds, fixup_entry_stats, other_bounds-rewrite_bounds,
  fixup_entry_stats_unchanged,
}
use bergrebase.Tests.Toy.{old_to_new, data_file, toy_iceberg, toy_formats, manifest, entry}

abbrev bounds : List (ℕ × Bytes)
bounds = (1, codes "s3://old/user") ∷ (2147483546, codes "s3://old/a.parquet") ∷ []

other_bounds-rewrite_bounds_example :
    other_bounds 2147483546 (rewrite_bounds old_to_new 2147483546 bounds).0
    ≡ other_bounds 2147483546 bounds
other_bounds-rewrite_bounds_example = other_bounds-rewrite_bounds old_to_new 2147483546 bounds

abbrev untouched : PositionDeleteRewrite
untouched = record { new_uri = codes "s3://old/d"; new_size = negsuc 0; rewritten = false }

fixup_entry_stats_unchanged_example :
    (fixup_entry_stats old_to_new (data_file content_pos_deletes (codes "s3://old/d")) untouched).0
    ≡ data_file content_pos_deletes (codes "s3://old/d")
unfolding fixup_entry_stats
fixup_entry_stats_unchanged_example =
    fixup_entry_stats_unchanged old_to_new (data_file content_pos_deletes (codes "s3://old/d"))
      untouched refl

toy-Descriptors : Descriptors toy_iceberg
toy-Descriptors = record {
  built_path = λ v uri n spec snap. refl;
  built_size = λ v uri n spec snap. refl;
  written_path = λ w uri n c mf h. sym (ap (λ (x : ManifestFile). x.path) (ok-injective h));
  written_size = λ w uri n c mf h. sym (ap (λ (x : ManifestFile). x.size) (ok-injective h));
}

abbrev old_manifest : ManifestFile
old_manifest = manifest (codes "s3://old/x")

abbrev new_manifest : ManifestFile
new_manifest = manifest (codes "s3://new/x")

abbrev entries : List Entry
entries = entry (codes "s3://new/a") ∷ []

write_manifest-Describes_example :
    (body : Bytes) × Verified memory
      (codes "s3://new/x")
      body
      []
      ((codes "s3://new/x", codes "s3://new/a") ∷ [])
    × Describes old_to_new old_manifest new_manifest body
unfolding write_manifest matches has_prefix ◌>>=◌ encode_manifest put_and_verify size_of find
    list_beq apply preserve_sequence_numbers
write_manifest-Describes_example =
    write_manifest-Describes toy_formats toy-Descriptors old_to_new memory memory old_manifest
      new_manifest tt tt entries [] ((codes "s3://new/x", codes "s3://new/a") ∷ []) refl

rewrite_entries-walk_entries_example :
    (entry_hits old_to_new old_manifest 0 (data_file content_data (codes "s3://old/a")) ++ []
      ≡ entry_hits old_to_new old_manifest 0 (data_file content_data (codes "s3://old/a")) ++ [])
    × AllSupported (entry (codes "s3://old/a") ∷ [])
unfolding rewrite_entries walk_entries ◌>>=◌ apply list_beq cut_prefix
rewrite_entries-walk_entries_example =
    rewrite_entries-walk_entries toy_formats memory memory old_to_new old_manifest
      (entry (codes "s3://old/a") ∷ []) (entry (codes "s3://new/a") ∷ [])
      (entry_hits old_to_new old_manifest 0 (data_file content_data (codes "s3://old/a")) ++ [])
      (entry_hits old_to_new old_manifest 0 (data_file content_data (codes "s3://old/a")) ++ [])
      true [] [] [] [] refl refl
