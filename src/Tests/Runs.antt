-- ===== src/Tests/Runs.antt =====
-- The command line.
use bergrebase.Base.{
  Action, Bytes, Keeps, List, [], codes, err, errorf, false, has_prefix, if◌then◌else◌, int_eq,
  list_eq, nat_eq, none, ok, pos, refl, some, suc, true, ℕ, ◌==◌, ◌↔◌, ◌∷◌, ◌≡◌,
}
use bergrebase.Catalog.{Identifier, Catalog}
use bergrebase.Cli.Confined.{run_confined}
use bergrebase.Cli.DryRun.{CatalogReads, run_dry}
use bergrebase.Tests.Memory.{Objects, Holds, memory, memory-Reads, memory-WritesUnder}
use bergrebase.Tests.Toy.{toy_formats, toy_text}
use bergrebase.Cli.{Config, validate}
use bergrebase.Cli.Validate.{acceptable, validate-eq-ok}
use bergrebase.Cli.Namespaces.{NsBatch}
use bergrebase.Cli.Run.{run, run_batches, run_listed, no_tally}
use bergrebase.Cli.Run.Batches.{tables_of}
use bergrebase.Cli.Run.Policy.{outcomes, first_failure, tally_of, ending, run_listed_keep_going}

abbrev pub one_table : Config
one_table = record {
  catalog_uri = codes "http://c";
  catalog_warehouse = codes "wh";
  catalog_token_env = [];
  source_prefix = codes "s3://old/";
  source_endpoint = [];
  source_region = [];
  source_path_style = false;
  target_prefix = codes "s3://new/";
  target_endpoint = [];
  target_region = [];
  target_path_style = false;
  namespace = codes "db";
  table = codes "t";
  all_tables = false;
  all_namespaces = false;
  dry_run = false;
  current_only = false;
  keep_going = false;
  no_validate = false;
  max_object_size = pos 0;
}

validate-eq-ok_example : (validate one_table ≡ ok tt) ↔ (acceptable one_table ≡ true)
validate-eq-ok_example = validate-eq-ok one_table

abbrev pub migrate_toy : Identifier → Action ℕ (Unit {0})
migrate_toy id w = if w == 0 then (err (errorf "no" []), suc w) else (ok tt, suc w)

abbrev table : Identifier
table = record { namespace = codes "db" ∷ []; name = codes "t" }

abbrev two_batches : List NsBatch
two_batches =
    record { ns = codes "db" ∷ []; tables = table ∷ table ∷ [] }
    ∷ record { ns = codes "eb" ∷ []; tables = table ∷ [] }
    ∷ []

run_listed_keep_going_example :
    let (rs, w') = outcomes migrate_toy (tables_of two_batches) 0 in
    (run_batches migrate_toy true two_batches no_tally 0 ≡ (ok (tally_of rs), w'))
    × (run_listed migrate_toy true (some two_batches) 0
        ≡ (ending (tally_of rs) (first_failure rs), w'))
run_listed_keep_going_example = run_listed_keep_going migrate_toy two_batches 0

-- A catalog that has one table, and takes no notice of a swap.
abbrev catalog : Catalog Objects
catalog = record {
  list_namespaces = λ _ w. (ok [], w);
  list_tables = λ ns w. (ok (record { namespace = ns; name = codes "t" } ∷ []), w);
  load_table = λ id w. (
    ok (record {
      identifier = id;
      metadata_location = codes "s3://old/m";
      current_snapshot_id = none;
    }),
    w,
  );
  swap_metadata_location = λ _ _ _ w. (ok tt, w);
}

catalog-CatalogReads : (uri body : Bytes) → CatalogReads (Holds uri body) catalog
catalog-CatalogReads uri body = record {
  namespaces_keep = λ ns. record { keeps = λ w h. h; returns = λ w a h e. tt };
  tables_keep = λ ns. record { keeps = λ w h. h; returns = λ w a h e. tt };
  load_keeps = λ id. record { keeps = λ w h. h; returns = λ w a h e. tt };
}

run_dry_example : Keeps (Holds (codes "s3://old/m") (codes "{ }")) (
    run toy_formats toy_text
      (λ _. memory)
      (λ _. memory)
      (λ _. [])
      catalog
      (record one_table { dry_run = true })
      5)
run_dry_example =
    run_dry toy_formats toy_text (λ _. memory) (λ _. memory) catalog
      (catalog-CatalogReads (codes "s3://old/m") (codes "{ }"))
      (λ _. memory-Reads (codes "s3://old/m") (codes "{ }")) (λ _. [])
      (record one_table { dry_run = true }) 5 refl

run_confined_example :
    Keeps
      (Holds (codes "s3://old/m") (codes "{ }"))
      (run toy_formats toy_text (λ _. memory) (λ _. memory) (λ _. []) catalog one_table 5)
unfolding has_prefix
run_confined_example =
    run_confined toy_formats toy_text (λ _. memory) (λ _. memory) catalog
      (catalog-CatalogReads (codes "s3://old/m") (codes "{ }"))
      (λ id old new. record { keeps = λ w h. h; returns = λ w a h e. tt })
      (λ _. memory-Reads (codes "s3://old/m") (codes "{ }"))
      (λ _. memory-Reads (codes "s3://old/m") (codes "{ }")) one_table
      (λ _. memory-WritesUnder (codes "s3://old/m") (codes "{ }") (codes "s3://new/") refl)
      (λ _. []) 5
