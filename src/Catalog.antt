-- ===== src/Catalog.antt =====
-- internal/catalog/catalog.go: the catalog as the rewriter sees it.
pub mod Contract
pub mod Pointer
use bergrebase.Base.{Action, Bytes, List, Option, ℤ}

-- `Namespace`; the empty one is the root of the warehouse
abbrev pub Namespace : Type 0
Namespace = List Bytes

-- `Identifier`
pub record Identifier : Type 0 where
  pub namespace : Namespace
  pub name : Bytes

-- `Table`
pub record Table : Type 0 where
  pub identifier : Identifier
  pub metadata_location : Bytes
  pub current_snapshot_id : Option ℤ

-- `Catalog`
pub record Catalog (W : Type 0) : Type 0 where
  pub list_namespaces : Namespace → Action W (List Namespace)
  pub list_tables : Namespace → Action W (List Identifier)
  pub load_table : Identifier → Action W Table
  pub swap_metadata_location : Identifier → Bytes → Bytes → Action W (Unit {0})
