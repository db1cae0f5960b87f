-- ===== src/Tests/Migrations.antt =====
-- A table that is migrated over the REST client, and a warehouse whose namespaces form a cycle.
use mathlib.Core.List.{Memᴰ}
use mathlib.Core.List.Memᴰ
use bergrebase.Base.{
  Bytes, Ends, List, Option, [], ap, arith, codes, err, errorf, false, inl, inr, length, ok, pos,
  refl, some, ◌↔◌, ◌∷◌, ◌≡◌,
}
use bergrebase.Storage.{Storage, Reads, WritesUnder}
use bergrebase.Catalog.{Namespace, Catalog}
use bergrebase.Catalog.Contract.{BestEffort, Contract}
use bergrebase.Engine.{Engine}
use bergrebase.Rest.{Client}
use bergrebase.Rest.Implementation.{Up, catalog_of, catalog_of-BestEffort}
use bergrebase.Rest.Rollback.{Restores}
use bergrebase.Rest.Rollback.Swaps.{catalog_of-Contract}
use bergrebase.Cli.Migrate.{migrate_one}
use bergrebase.Cli.Migrate.Outcome.{Migrated, NotMigrated, migrate_one-Ends}
use bergrebase.Cli.Namespaces.{is_visited, list_all_namespaces}
use bergrebase.Cli.Namespaces.Walk.{Reach, root, below, weight}
use bergrebase.Cli.Namespaces.Keys.{Plain, DistinctKeys}
use bergrebase.Cli.Namespaces.Complete.{list_all_namespaces_returns, list_all_namespaces_complete}
use bergrebase.Tests.Catalogs.{
  answer, answer_of, transport, table, config, base, client, transport-Serves,
}
use bergrebase.Tests.Memory.{find}
use bergrebase.Tests.Runs.{one_table}
use bergrebase.Tests.Toy.{old_to_new, toy_formats, toy_text}

abbrev World : Type 0
World = Client transport × Option Bytes

-- A storage with one document, which forgets what is written.
abbrev stored : Storage World
stored = record {
  get_object = λ uri w. (find uri ((codes "s3://old/m", codes "{ }") ∷ []), w);
  put_object = λ uri body w. (ok tt, w);
  head_object = λ uri w. (ok (pos 2), w);
}

stored-Reads : (P : World → Type 0) → Reads P stored
stored-Reads P = record {
  get_keeps = λ uri. record { keeps = λ w h. h; returns = λ w a h e. tt };
  head_keeps = λ uri. record { keeps = λ w h. h; returns = λ w a h e. tt };
}

stored-WritesUnder : (P : World → Type 0) (prefix : Bytes) → WritesUnder P prefix stored
stored-WritesUnder P prefix uri body h = record { keeps = λ w p. p; returns = λ w a p e. tt }

abbrev rest_engine : Engine World
rest_engine = record {
  source = stored;
  target = stored;
  opts = record { mapping = old_to_new; current_snapshot_only = false; dry_run = false };
  lib = toy_formats;
  text_format = toy_text;
}

abbrev start : World
start = (client, some (codes "s3://old/m"))

abbrev contract : BestEffort (catalog_of transport) (Up transport config base) table (λ (c, p). p)
contract = catalog_of-BestEffort transport config base table (λ p. p) transport-Serves

transport-Restores : Restores transport config base table (λ p. p) (λ l. Unit)
unfolding answer
transport-Restores = record {
  held = λ w l h. tt;
  accepts = λ w l v h. rw h (answer_of 200 [], some l, refl, refl);
}

catalog_of-Contract_example :
    Contract (catalog_of transport) (Up transport config base) table (λ (c, p). p)
catalog_of-Contract_example =
    catalog_of-Contract transport config base table (λ p. p) transport-Serves (λ l. Unit)
      transport-Restores

migrate_one-Ends_example :
    Ends
      (migrate_one (catalog_of transport) rest_engine one_table table)
      start
      (λ u w'.
        Migrated
          (catalog_of transport)
          rest_engine
          one_table
          table
          (Up transport config base)
          (λ (c, p). p)
          contract
          start
          w')
      (λ x w'.
        NotMigrated
          (catalog_of transport)
          rest_engine
          one_table
          table
          (Up transport config base)
          (λ (c, p). p)
          contract
          start
          x
          w')
migrate_one-Ends_example =
    migrate_one-Ends (catalog_of transport) rest_engine one_table table (Up transport config base)
      (λ (c, p). p) contract (λ p. stored-Reads _) (λ p. stored-Reads _)
      (λ p. stored-WritesUnder _ (codes "s3://new/")) refl refl start
      (record { ready_at = refl; configured = refl })

-- Every namespace lists the same two, itself perhaps among them.
abbrev children : Namespace → List Namespace
children ns = (codes "a" ∷ []) ∷ (codes "a" ∷ codes "b" ∷ []) ∷ []

abbrev cyclic : Catalog (Unit {0})
cyclic = record {
  list_namespaces = λ ns w. (ok (children ns), w);
  list_tables = λ ns w. (ok [], w);
  load_table = λ id w. (err (errorf "no table" []), w);
  swap_metadata_location = λ id old new w. (err (errorf "no table" []), w);
}

list_all_namespaces_returns_example :
    (found : List Namespace) × ((list_all_namespaces cyclic 6 tt).0 ≡ ok (some found))
unfolding weight is_visited
list_all_namespaces_returns_example =
    list_all_namespaces_returns cyclic children (λ ns w. refl) (children []) (λ ns m. m)
      (λ ns child m c. c) 6 tt (omega arith)

listed : {ns : Namespace} → Reach children ns → Memᴰ ns (children [])
listed (root m) = m
listed (below r m) = m

a-Plain : Plain (codes "a" ∷ [])
a-Plain = (λ h. omega (arith, ap length h), (((λ h. omega arith), tt), tt))

b-Plain : Plain (codes "a" ∷ codes "b" ∷ [])
b-Plain =
    (λ h. omega (arith, ap length h), (((λ h. omega arith), tt), (((λ h. omega arith), tt), tt)))

Reach-Plain : (ns : Namespace) → Reach children ns → Plain ns
Reach-Plain ns r = elim (Memᴰ.cases_cons (listed r)) [
  | inl e ↦ rw e a-Plain
  | inr later ↦ rw (Memᴰ.eq_of_singleton later) b-Plain
]

list_all_namespaces_complete_example :
    (found : List Namespace) × ((list_all_namespaces cyclic 6 tt).0 ≡ ok (some found))
    × DistinctKeys found
    × ((ns : Namespace) → Memᴰ ns found ↔ Reach children ns)
unfolding weight is_visited
list_all_namespaces_complete_example =
    list_all_namespaces_complete cyclic children (λ ns w. refl) (children []) (λ ns m. m)
      (λ ns child m c. c) 6 tt (omega arith) Reach-Plain
