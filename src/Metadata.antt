-- ===== src/Metadata.antt =====
-- internal/rewrite/metadata_json.go and metadata.go: the path-bearing fields of metadata.json, the
-- hits that a walk reports, and the choice of a snapshot (walker.go, validate.go).
pub mod Edit
pub mod Rewrite
pub mod Snapshots
use bergrebase.Base.{
  Bool, Bytes, List, Option, String, [], codes, decimal, false, if◌then◌else◌, int_eq, list_eq,
  nat_eq, none, not, some, suc, true, ℕ, ℤ, ◌++◌, ◌==◌, ◌∷◌,
}
use bergrebase.Prefix.{PrefixMapping, apply}

-- `SnapshotJSON`
pub record Snapshot : Type 0 where
  pub snapshot_id : ℤ
  pub manifest_list : Bytes
  pub manifests : List Bytes

-- `MetadataLogEntryJSON`
pub record MetadataLogEntry : Type 0 where
  pub timestamp_ms : ℤ
  pub metadata_file : Bytes

-- `StatisticsFileJSON`
pub record StatisticsFile : Type 0 where
  pub snapshot_id : ℤ
  pub statistics_path : Bytes

-- `MetadataJSON`; `properties` is a map, in some order
pub record Metadata : Type 0 where
  pub format_version : ℤ
  pub table_uuid : Bytes
  pub location : Bytes
  pub current_snapshot_id : Option ℤ
  pub snapshots : List Snapshot
  pub metadata_log : List MetadataLogEntry
  pub statistics : List StatisticsFile
  pub partition_statistics : List StatisticsFile
  pub properties : List (Bytes × Bytes)

-- `MetadataPathProperties`
abbrev pub metadata_path_properties : List Bytes
metadata_path_properties =
    codes "write.object-storage.path"
    ∷ codes "write.folder-storage.path"
    ∷ codes "write.metadata.path"
    ∷ codes "write.data.path"
    ∷ []

-- `PathHit`: the field, its value as found, and its value after the substitution
pub record PathHit : Type 0 where
  pub field : Bytes
  pub old : Bytes
  pub new : Bytes

-- `h.Rewritten()`
unfoldable pub rewritten : PathHit → Bool
rewritten h = not (h.old == h.new)

-- `hit(field, old, mapping)`
unfoldable pub hit : PrefixMapping → Bytes → Bytes → PathHit
hit m name old = record { field = name; old = old; new = apply m old }

-- `prefix[%d]suffix`
abbrev pub indexed : String → ℕ → String → Bytes
indexed before i after = codes before ++ (decimal i ++ codes after)

unfoldable pub find_property : Bytes → List (Bytes × Bytes) → Option Bytes
find_property key [] = none
find_property key ((k, v) ∷ rest) = if k == key then some v else find_property key rest

-- `snapshots[%d].manifests[%d]`
abbrev pub manifest_field : ℕ → ℕ → Bytes
manifest_field i j = indexed "snapshots[" i "].manifests[" ++ (decimal j ++ codes "]")

-- The loops of `WalkMetadataJSON`. `quote` is the `%q` of `fmt`.
module _ (quote : Bytes → Bytes) (m : PrefixMapping) where
  unfoldable pub walk_manifests : ℕ → ℕ → List Bytes → List PathHit
  unfolding hit
  walk_manifests i j [] = []
  walk_manifests i j (uri ∷ rest) = hit m (manifest_field i j) uri ∷ walk_manifests i (suc j) rest

  unfoldable pub walk_snapshots : ℕ → List Snapshot → List PathHit
  unfolding walk_manifests
  walk_snapshots i [] = []
  walk_snapshots i (snap ∷ rest) =
      (if snap.manifest_list == []
        then []
        else hit m (indexed "snapshots[" i "].manifest-list") snap.manifest_list ∷ [])
      ++ (walk_manifests i 0 snap.manifests ++ walk_snapshots (suc i) rest)

  unfoldable pub walk_log : ℕ → List MetadataLogEntry → List PathHit
  unfolding hit
  walk_log i [] = []
  walk_log i (e ∷ rest) =
      hit m (indexed "metadata-log[" i "].metadata-file") e.metadata_file ∷ walk_log (suc i) rest

  unfoldable pub walk_statistics : String → ℕ → List StatisticsFile → List PathHit
  unfolding hit
  walk_statistics key i [] = []
  walk_statistics key i (s ∷ rest) =
      hit m (codes key ++ indexed "[" i "].statistics-path") s.statistics_path
      ∷ walk_statistics key (suc i) rest

  abbrev pub property_field : Bytes → Bytes
  property_field key = codes "properties[" ++ (quote key ++ codes "]")

  unfoldable pub walk_properties : List Bytes → List (Bytes × Bytes) → List PathHit
  unfolding hit find_property
  walk_properties [] props = []
  walk_properties (key ∷ keys) props = elim (find_property key props) [
    | none ↦ walk_properties keys props
    | some v ↦ hit m (property_field key) v ∷ walk_properties keys props
  ]

  -- `WalkMetadataJSON`
  unfoldable pub walk_metadata_json : Metadata → List PathHit
  unfolding walk_snapshots walk_log walk_statistics walk_properties
  walk_metadata_json meta =
      hit m (codes "location") meta.location
      ∷ (walk_snapshots 0 meta.snapshots
          ++ (walk_log 0 meta.metadata_log
              ++ (walk_statistics "statistics" 0 meta.statistics
                  ++ (walk_statistics "partition-statistics" 0 meta.partition_statistics
                      ++ walk_properties metadata_path_properties meta.properties))))

-- the loop that looks for a snapshot by its id
unfoldable pub find_snapshot : ℤ → List Snapshot → Option Snapshot
find_snapshot want [] = none
find_snapshot want (s ∷ rest) = if s.snapshot_id == want then some s else find_snapshot want rest

-- `selectSnapshots` of walker.go
unfoldable pub select_snapshots : Metadata → Bool → List Snapshot
unfolding find_snapshot
select_snapshots meta false = meta.snapshots
select_snapshots meta true = elim meta.current_snapshot_id [
  | none ↦ meta.snapshots
  | some want ↦ elim (find_snapshot want meta.snapshots) [ none ↦ meta.snapshots | some s ↦ s ∷ [] ]
]

-- `m.Snapshots[len(m.Snapshots)-1]`
unfoldable pub last_snapshot : Snapshot → List Snapshot → Snapshot
last_snapshot s [] = s
last_snapshot s (t ∷ rest) = last_snapshot t rest

-- `pickValidationSnapshot` of validate.go
unfoldable pub pick_snapshot : Option ℤ → List Snapshot → Option Snapshot
unfolding find_snapshot last_snapshot
pick_snapshot current [] = none
pick_snapshot none (s ∷ rest) = some (last_snapshot s rest)
pick_snapshot (some want) (s ∷ rest) = elim (find_snapshot want (s ∷ rest)) [
  | some found ↦ some found
  | none ↦ some (last_snapshot s rest)
]

unfoldable pub pick_validation_snapshot : Metadata → Option Snapshot
unfolding pick_snapshot
pick_validation_snapshot meta = pick_snapshot meta.current_snapshot_id meta.snapshots
