-- ===== src/Tests/Toy.antt =====
-- Stand-ins for the libraries that read and write table files, for tests only.
use bergrebase.Base.{Bytes, List, Result, [], bind, codes, none, number, ok, pos, some, ◌++◌, ◌∷◌}
use bergrebase.Prefix.{PrefixMapping}
use bergrebase.PositionDelete.{Array, strings, other, Parquet}
use bergrebase.Iceberg.{
  Iceberg, ManifestFile, DataFile, Entry, EntryContent, content_data, data_files,
}
use bergrebase.Json.{Fields, end, field, string, array, object, number, cons, nil}
use bergrebase.Metadata.{Metadata}
use bergrebase.Metadata.Rewrite.{Text}
use bergrebase.Manifest.Rewrite.{Formats}

abbrev pub old_to_new : PrefixMapping
old_to_new = record { source = codes "s3://old/"; target = codes "s3://new/" }

-- The test documents have no path under its source prefix.
abbrev pub new_to_old : PrefixMapping
new_to_old = record { source = codes "s3://new/"; target = codes "s3://old/" }

abbrev pub manifest : Bytes → ManifestFile
manifest path = record {
  version = 2;
  path = path;
  size = pos 10;
  partition_spec_id = pos 0;
  snapshot_id = pos 7;
  sequence_num = pos 4;
  min_sequence_num = pos 3;
  content = data_files;
  added_data_files = pos 1;
  added_rows = pos 1;
  existing_data_files = pos 0;
  existing_rows = pos 0;
  deleted_data_files = pos 0;
  deleted_rows = pos 0;
  key_metadata = [];
  partitions = [];
}

abbrev pub data_file : EntryContent → Bytes → DataFile
data_file content path = record {
  content = content;
  path = path;
  file_size = pos 100;
  lower_bounds = some ((1, codes "s3://old/user") ∷ (2147483546, codes "s3://old/a.parquet") ∷ []);
  upper_bounds = none;
  splits = some [];
  col_sizes = none;
  referenced_data_file = none;
  rest = [];
}

abbrev pub entry : Bytes → Entry
entry path = record { data_file = data_file content_data path; rest = [] }

-- A manifest holds the path of its one entry; the writer writes the paths of its entries.
abbrev pub toy_iceberg : Iceberg
toy_iceberg = record {
  Reader = Unit {0};
  Writer = Unit {0};
  TableSchema = Unit {0};
  PartitionSpec = Unit {0};
  new_manifest_reader = λ _ _. ok tt;
  reader_schema = λ _. ok tt;
  reader_partition_spec = λ _. ok tt;
  read_manifest = λ _ raw. ok (entry raw ∷ []);
  new_manifest_writer = λ _ _ _ _ _. ok (tt, []);
  add = λ _ e. ok (tt, e.data_file.path);
  close = λ _. ok (tt, []);
  to_manifest_file = λ _ uri n c. ok (record (manifest uri) { size = n; content = c });
  new_manifest_file = λ v uri n spec snap. record (manifest uri) {
    version = v;
    size = n;
    partition_spec_id = spec;
    snapshot_id = snap;
  };
  read_manifest_list = λ raw. ok (manifest raw ∷ []);
  write_manifest_list = λ _ _ _ _ _ files. ok (first_path files);
  ocf_metadata =
      λ _. ok ((codes "format-version", codes "2") ∷ (codes "snapshot-id", codes "7") ∷ []);
}
  where
    first_path : List ManifestFile → Bytes
    first_path [] = []
    first_path (mf ∷ _) = mf.path

abbrev pub toy_concatenate : List Array → Result Array
toy_concatenate [] = ok (strings [])
toy_concatenate (other x ∷ rest) = ok (other x)
toy_concatenate (strings xs ∷ rest) = bind (toy_concatenate rest) λ a. ok (prepend a)
  where
    prepend : Array → Array
    prepend (strings ys) = strings (xs ++ ys)
    prepend (other y) = other y

-- A body holds one path; the writer writes the path of the first row.
abbrev pub toy_parquet : Parquet
toy_parquet = record {
  File = Bytes;
  Reader = Bytes;
  Writer = Bytes;
  new_parquet_reader = λ raw. ok raw;
  new_file_reader = λ f. ok f;
  read_table = λ r. ok (record {
    schema = record { names = codes "file_path" ∷ []; rest = [] };
    columns = (strings (some r ∷ []) ∷ []) ∷ [];
    rows = 1;
  });
  concatenate = toy_concatenate;
  new_file_writer = λ _ _. ok [];
  write = λ w cols _. ok (first_row w cols);
  close = λ w. ok w;
}
  where
    first_row : Bytes → List Array → Bytes
    first_row w (strings (some v ∷ _) ∷ _) = v
    first_row w _ = w

abbrev pub toy_formats : Formats
toy_formats = record { ice = toy_iceberg; parquet = toy_parquet }

abbrev pub document : Fields
document = field (codes "location") (string (codes "s3://old/t")) (
    field (codes "current-snapshot-id") (number (pos 7)) (
      field (codes "snapshots")
        (array (
          cons
            (object (
              field (codes "manifest-list") (string (codes "s3://old/l")) (
                field (codes "summary")
                  (object (field (codes "dir") (string (codes "s3://old/d")) end)) end)))
            nil))
        (field (codes "properties")
          (object (field (codes "write.data.path") (string (codes "s3://other/x")) end)) end)))

abbrev pub described : Metadata
described = record {
  format_version = pos 2;
  table_uuid = [];
  location = codes "s3://old/t";
  current_snapshot_id = some (pos 7);
  snapshots =
      record { snapshot_id = pos 7; manifest_list = codes "s3://old/l"; manifests = [] } ∷ [];
  metadata_log = [];
  statistics = [];
  partition_statistics = [];
  properties = (codes "write.data.path", codes "s3://other/x") ∷ [];
}

abbrev pub toy_text : Text
toy_text = record {
  quote = λ s. codes "\"" ++ (s ++ codes "\"");
  decode = λ _. ok described;
  parse = λ _. ok document;
  marshal = λ _. ok (codes "{}");
}
