-- ===== src/Iceberg.antt =====
-- What the rewriter sees of iceberg-go and of hamba/avro: manifest files, their entries, and the
-- library's readers and writers as a parameter.
use bergrebase.Base.{Bool, Bytes, List, Option, Result, ok, ℕ, ℤ, ◌≡◌}

pub data ManifestContent : Type 0 where
  data_files delete_files : ManifestContent

pub record FieldSummary : Type 0 where
  pub contains_null : Bool
  pub contains_nan : Option Bool
  pub lower_bound : Option Bytes
  pub upper_bound : Option Bytes

-- `iceberg.ManifestFile`
pub record ManifestFile : Type 0 where
  pub version : ℕ
  pub path : Bytes
  pub size : ℤ
  pub partition_spec_id : ℤ
  pub snapshot_id : ℤ
  pub sequence_num : ℤ
  pub min_sequence_num : ℤ
  pub content : ManifestContent
  pub added_data_files : ℤ
  pub added_rows : ℤ
  pub existing_data_files : ℤ
  pub existing_rows : ℤ
  pub deleted_data_files : ℤ
  pub deleted_rows : ℤ
  pub key_metadata : Bytes
  pub partitions : List FieldSummary

-- `iceberg.ManifestEntryContent`
pub data EntryContent : Type 0 where
  content_data content_pos_deletes content_eq_deletes : EntryContent
  content_other : ℕ → EntryContent

-- The struct behind `iceberg.DataFile`, which the code sets through reflection. A pointer is an
-- `Option`; `rest` stands for the fields that the code neither reads nor sets.
pub record DataFile : Type 0 where
  pub content : EntryContent
  pub path : Bytes
  pub file_size : ℤ
  pub lower_bounds : Option (List (ℕ × Bytes))
  pub upper_bounds : Option (List (ℕ × Bytes))
  pub splits : Option (List ℤ)
  pub col_sizes : Option (List (ℕ × ℤ))
  pub referenced_data_file : Option Bytes
  pub rest : Bytes

-- `iceberg.ManifestEntry`; `rest` is its status, snapshot id and sequence numbers
pub record Entry : Type 0 where
  pub data_file : DataFile
  pub rest : Bytes

-- iceberg-go and the OCF decoder. A writer's calls give the bytes that they write.
pub record Iceberg : Type 1 where
  pub Reader : Type 0
  pub Writer : Type 0
  pub TableSchema : Type 0
  pub PartitionSpec : Type 0
  pub new_manifest_reader : ManifestFile → Bytes → Result Reader
  pub reader_schema : Reader → Result TableSchema
  pub reader_partition_spec : Reader → Result PartitionSpec
  pub read_manifest : ManifestFile → Bytes → Result (List Entry)
  pub new_manifest_writer :
      ℕ → PartitionSpec → TableSchema → ℤ → ManifestContent → Result (Writer × Bytes)
  pub add : Writer → Entry → Result (Writer × Bytes)
  pub close : Writer → Result (Writer × Bytes)
  pub to_manifest_file : Writer → Bytes → ℤ → ManifestContent → Result ManifestFile
  pub new_manifest_file : ℕ → Bytes → ℤ → ℤ → ℤ → ManifestFile
  pub read_manifest_list : Bytes → Result (List ManifestFile)
  pub write_manifest_list : ℤ → ℤ → Option ℤ → Option ℤ → ℤ → List ManifestFile → Result Bytes
  pub ocf_metadata : Bytes → Result (List (Bytes × Bytes))

-- What the code relies on: a descriptor has the path and the length that it was built with.
pub record Descriptors (ice : Iceberg) : Type 0 where
  pub built_path :
      (v : ℕ) (uri : Bytes) (n spec snap : ℤ) → (ice.new_manifest_file v uri n spec snap).path ≡ uri
  pub built_size :
      (v : ℕ) (uri : Bytes) (n spec snap : ℤ) → (ice.new_manifest_file v uri n spec snap).size ≡ n
  pub written_path :
      (w : ice.Writer) (uri : Bytes) (n : ℤ) (c : ManifestContent) (mf : ManifestFile)
      → ice.to_manifest_file w uri n c ≡ ok mf
      → mf.path ≡ uri
  pub written_size :
      (w : ice.Writer) (uri : Bytes) (n : ℤ) (c : ManifestContent) (mf : ManifestFile)
      → ice.to_manifest_file w uri n c ≡ ok mf
      → mf.size ≡ n
