-- ===== src/Tests/Swaps.antt =====
-- The swap at the pointer of the toy catalog, the counters of a run, and the snapshot to validate.
use mathlib.Core.List.{Memᴰ, map}
use bergrebase.Base.{
  Action, Bytes, Keeps, List, Option, Succeeds, [], ap, arith, codes, err, errorf, false,
  if◌then◌else◌, inl, inr, int_eq, length, list_eq, nat_eq, none, ok, pos, refl, some, suc, true, ℕ,
  ◌==◌, ◌∷◌, ◌≡◌, ◌≢◌,
}
use bergrebase.Catalog.{Identifier}
use bergrebase.Rest.{Method, get_method, delete_method, post_method, RegisterBody, mode_unknown}
use bergrebase.Rest.Swap.{swap_metadata_location}
use bergrebase.Rest.Swap.Modes.{ModeStep, swap_metadata_location-ModeStep}
use bergrebase.Rest.Swap.Atomic.{InAtomic, KeptUndropped, swap_metadata_location-InAtomic}
use bergrebase.Rest.Swap.Answers.{Answers}
use bergrebase.Rest.Swap.Live.{swap_metadata_location_succeeds}
use bergrebase.Metadata.{Metadata, Snapshot, select_snapshots, pick_validation_snapshot}
use bergrebase.Metadata.Snapshots.{moved_snapshot, pick_validation_snapshot-moved}
use bergrebase.Cli.Run.{run_listed}
use bergrebase.Cli.Namespaces.{NsBatch}
use bergrebase.Cli.Run.Policy.{run_listed_stops}
use bergrebase.Tests.Catalogs.{
  answer, answer_of, transport, table, config, base, client, transport-Serves,
}
use bergrebase.Tests.Toy.{described, old_to_new}

abbrev old : Bytes
old = codes "a"

abbrev new : Bytes
new = codes "bb"

swap_metadata_location-ModeStep_example :
    ModeStep mode_unknown
      (swap_metadata_location transport table old new (client, some old)).1.0.swap_mode
swap_metadata_location-ModeStep_example =
    swap_metadata_location-ModeStep transport table old new client (some old)

-- The catalog has a table.
abbrev Present : Option Bytes → Type 0
Present p = p ≢ none

some-ne-none : (l : Bytes) → Present (some l)
some-ne-none l h = absurd (cc)

answer-Present :
    (m : Method) (b : Option RegisterBody) (p : Option Bytes)
    → m ≢ delete_method
    → Present p
    → Present (answer m b p).1
unfolding answer
answer-Present get_method b none n h = h
answer-Present get_method b (some l) n h = h
answer-Present delete_method b p n h = absurd (n refl)
answer-Present post_method none p n h = h
answer-Present post_method (some b) (some l) n h = h
answer-Present post_method (some b) none n h = some-ne-none b.metadata_location

transport-KeptUndropped : KeptUndropped transport Present
transport-KeptUndropped ctx req n = record {
  keeps = λ p h. answer-Present req.method req.body p n h;
  returns = λ w a h e. tt;
}

swap_metadata_location-InAtomic_example :
    Keeps
      (InAtomic transport Present transport-KeptUndropped)
      (swap_metadata_location transport table old new)
swap_metadata_location-InAtomic_example =
    swap_metadata_location-InAtomic transport Present transport-KeptUndropped table old new

transport-Answers : Answers transport config base table (λ p. p)
unfolding answer
transport-Answers = record {
  loads = λ w l h. rw h (
    answer_of 200 l,
    some l,
    refl,
    (refl, refl, record { metadata_location = l; current_snapshot_id = none }, refl),
  );
  drops = λ w l h. (answer_of 204 [], none, refl, refl);
  registers = λ w new h. rw h (answer_of 200 [], some new, refl, refl);
  overwrites = λ w l new h. rw h (answer_of 409 [], some l, refl, inr (inl refl));
}

old-ne-empty : old ≢ []
old-ne-empty h = omega (arith, ap length h)

swap_metadata_location_succeeds_example :
    Succeeds
      (swap_metadata_location transport table old new)
      (client, some old)
      (λ u (d, w'). w' ≡ some new)
swap_metadata_location_succeeds_example =
    swap_metadata_location_succeeds transport config base table (λ p. p) transport-Serves
      transport-Answers old new client (some old) (record { ready_at = refl; configured = refl })
      (λ h. cc) refl (λ h. omega (arith, ap length h)) (λ h. omega (arith, ap length h))
      (λ h. omega (arith, ap length h))

-- The second table fails.
abbrev migrate_once : Identifier → Action ℕ (Unit {0})
migrate_once id w = if w == 1 then (err (errorf "no" []), suc w) else (ok tt, suc w)

abbrev split_batches : List NsBatch
split_batches =
    record { ns = codes "db" ∷ []; tables = table ∷ table ∷ [] }
    ∷ record { ns = codes "eb" ∷ []; tables = table ∷ [] }
    ∷ []

run_listed_stops_example :
    run_listed migrate_once false (some split_batches) 0 ≡ (err (errorf "no" []), 2)
run_listed_stops_example =
    run_listed_stops migrate_once split_batches (table ∷ []) (table ∷ []) table 0 1 2
      (errorf "no" []) refl (1, refl, refl) refl

abbrev snapshot : Snapshot
snapshot = record { snapshot_id = pos 7; manifest_list = codes "s3://old/l"; manifests = [] }

abbrev rebased : Metadata
rebased = record described { snapshots = map (moved_snapshot old_to_new) described.snapshots }

pick_validation_snapshot-moved_example :
    (s : Snapshot) × Memᴰ s (select_snapshots described true)
    × (moved_snapshot old_to_new snapshot ≡ moved_snapshot old_to_new s)
unfolding pick_validation_snapshot
pick_validation_snapshot-moved_example =
    pick_validation_snapshot-moved old_to_new described rebased true
      (moved_snapshot old_to_new snapshot) refl refl refl
