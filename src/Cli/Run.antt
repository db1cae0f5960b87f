-- ===== src/Cli/Run.antt =====
-- cmd/bergrb/main.go, `run`.
pub mod Batches
pub mod Totals
pub mod Policy
use bergrebase.Base.{
  Action, Bool, Bytes, Error, List, Option, Result, [], attempt, codes, context, err, fail,
  if◌then◌else◌, lift, none, ok, pure, some, ℕ, ◌+◌, ◌>>=◌, ◌>>◌, ◌∷◌,
}
use bergrebase.Storage.{Storage}
use bergrebase.Catalog.{Identifier, Catalog}
use bergrebase.Metadata.Rewrite.{Text}
use bergrebase.Manifest.Rewrite.{Formats}
use bergrebase.Engine.{Engine}
use bergrebase.Cli.{Config, AwsCredentials, side_credentials}
use bergrebase.Cli.Namespaces.{NsBatch, select_batches}
use bergrebase.Cli.Migrate.{migrate_one}

-- The counters of `run`, and `firstErr`.
pub record Tally : Type 0 where
  pub rebased : ℕ
  pub failed : ℕ
  pub first_err : Option Error

abbrev pub no_tally : Tally
no_tally = record { rebased = 0; failed = 0; first_err = none }

abbrev pub first_of_errors : Option Error → Error → Option Error
first_of_errors none e = some e
first_of_errors (some d) e = some d

-- what a finished table adds to the counters
unfoldable pub count : Tally → Result (Unit {0}) → Tally
count st (ok _) = record st { rebased = st.rebased + 1 }
count st (err e) = record st { failed = st.failed + 1; first_err = first_of_errors st.first_err e }

module _ {W : Type 0} (migrate : Identifier → Action W (Unit {0})) (keep_going : Bool) where
  -- `if !cfg.keepGoing { return err }`
  unfoldable pub or_stop : Tally → Result (Unit {0}) → Action W Tally
  unfolding count
  or_stop st (ok u) = pure (count st (ok u))
  or_stop st (err e) = if keep_going then pure (count st (err e)) else fail e

  -- `for _, id := range batch.tables { … }`
  unfoldable pub run_tables : List Identifier → Tally → Action W Tally
  unfolding or_stop attempt
  run_tables [] st = pure st
  run_tables (id ∷ rest) st = do r ← attempt (migrate id); st' ← or_stop st r; run_tables rest st'

  -- `for _, batch := range batches { … }`; the counts per namespace are only logged
  unfoldable pub run_batches : List NsBatch → Tally → Action W Tally
  unfolding run_tables
  run_batches [] st = pure st
  run_batches (batch ∷ rest) st = do st' ← run_tables batch.tables st; run_batches rest st'

  -- `return firstErr`
  unfoldable pub finish : Tally → Action W (Unit {0})
  finish st = elim st.first_err [ none ↦ pure tt | some e ↦ fail e ]

unfoldable pub run_listed :
    {W : Type 0}
    → (Identifier → Action W (Unit {0}))
    → Bool
    → Option (List NsBatch)
    → Action W (Option Tally)
unfolding run_batches finish
run_listed migrate keep_going none = pure none
run_listed migrate keep_going (some batches) = do
  st ← run_batches migrate keep_going batches no_tally
  finish migrate keep_going st
  pure (some st)

module _ {W : Type 0} (lib : Formats) (t : Text)
    (source_of target_of : AwsCredentials → Storage W) where
  -- `&rewrite.Engine{…}`
  abbrev pub engine_of : Config → AwsCredentials → AwsCredentials → Engine W
  engine_of cfg source_creds target_creds = record {
    source = source_of source_creds;
    target = target_of target_creds;
    opts = record {
      mapping = record { source = cfg.source_prefix; target = cfg.target_prefix };
      current_snapshot_only = cfg.current_only;
      dry_run = cfg.dry_run;
    };
    lib = lib;
    text_format = t;
  }

  -- `run`, once the catalog client is made; `rounds` bounds the walk of the namespaces. What it
  -- gives on success is logged; `none` says that the rounds ran out.
  unfoldable pub run : (Bytes → Bytes) → Catalog W → Config → ℕ → Action W (Option Tally)
  unfolding run_listed side_credentials select_batches migrate_one
  run getenv cat cfg rounds = do
    source_creds ← lift (side_credentials getenv (codes "SOURCE"))
    target_creds ← lift (side_credentials getenv (codes "TARGET"))
    batches ← context "select tables: %w" [] (select_batches cat rounds cfg)
    run_listed (migrate_one cat (engine_of cfg source_creds target_creds) cfg) cfg.keep_going
        batches
