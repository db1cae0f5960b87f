-- ===== src/Metadata/Edit/Frame.antt =====
-- What `ApplyMetadataJSONMapping` leaves alone.
use bergrebase.Base.{Bytes, List, [], codes, ◌∷◌}
use bergrebase.Json.{Json, Fields}
use bergrebase.Metadata.Edit.{Edit}
use bergrebase.Metadata.Edit.Made.{SameBut, ObjectSameBut, ArrayEach, ValueAt}

-- The keys that bear paths in a snapshot, a log entry, a statistics file and the properties.
abbrev pub snapshot_keys : List Bytes
snapshot_keys = codes "manifest-list" ∷ codes "manifests" ∷ codes "summary" ∷ []

abbrev pub log_keys : List Bytes
log_keys = codes "metadata-file" ∷ []

abbrev pub statistics_keys : List Bytes
statistics_keys = codes "statistics-path" ∷ []

abbrev pub property_keys : List Bytes
property_keys =
    codes "write.object-storage.path"
    ∷ codes "write.folder-storage.path"
    ∷ codes "write.metadata.path"
    ∷ codes "write.data.path"
    ∷ []

-- A document after a change of no more than what bears a path.
pub record PathsOnly (doc doc' : Fields) : Type 0 where
  pub top :
      SameBut
        (codes "location"
          ∷ codes "snapshots"
          ∷ codes "metadata-log"
          ∷ codes "statistics"
          ∷ codes "partition-statistics"
          ∷ codes "properties"
          ∷ [])
        doc
        doc'
  pub snapshots : ValueAt (ArrayEach (ObjectSameBut snapshot_keys)) (codes "snapshots") doc doc'
  pub log : ValueAt (ArrayEach (ObjectSameBut log_keys)) (codes "metadata-log") doc doc'
  pub statistics : ValueAt (ArrayEach (ObjectSameBut statistics_keys)) (codes "statistics") doc doc'
  pub partition_statistics :
      ValueAt (ArrayEach (ObjectSameBut statistics_keys)) (codes "partition-statistics") doc doc'
  pub properties : ValueAt (ObjectSameBut property_keys) (codes "properties") doc doc'
