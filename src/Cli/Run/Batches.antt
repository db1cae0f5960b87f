-- ===== src/Cli/Run/Batches.antt =====
-- The loop over the batches against the loop over all their tables.
use bergrebase.Base.{
  >>=-assoc, >>=-congr, Action, Bool, List, [], attempt, pure, refl, resume, sym, ◌++◌, ◌>>=◌, ◌∙◌,
  ◌∷◌, ◌≡◌,
}
use bergrebase.Catalog.{Identifier}
use bergrebase.Cli.Namespaces.{NsBatch}
use bergrebase.Cli.Run.{Tally, or_stop, run_tables, run_batches}

-- the tables of the batches, in the order in which they are migrated
abbrev pub tables_of : List NsBatch → List Identifier
tables_of [] = []
tables_of (b ∷ bs) = b.tables ++ tables_of bs

module _ {W : Type 0} (migrate : Identifier → Action W (Unit {0})) (kg : Bool) where
  run_tables-append :
      (xs ys : List Identifier) (st : Tally) (w : W)
      → run_tables migrate kg (xs ++ ys) st w
        ≡ (run_tables migrate kg xs st >>= run_tables migrate kg ys) w
  unfolding run_tables pure ◌>>=◌ resume
  run_tables-append [] ys st w = refl
  run_tables-append (x ∷ xs) ys st w =
      let all = run_tables migrate kg (xs ++ ys) in
      let some_of = run_tables migrate kg xs in
      let others = run_tables migrate kg ys in
      >>=-congr (attempt (migrate x)) (λ r. or_stop migrate kg st r >>= all)
        (λ r. (or_stop migrate kg st r >>= some_of) >>= others) w
        (λ r w'.
          >>=-congr (or_stop migrate kg st r) all (λ st'. some_of st' >>= others) w'
            (run_tables-append xs ys)
          ∙ sym (>>=-assoc (or_stop migrate kg st r) some_of others w'))
      ∙ sym (>>=-assoc (attempt (migrate x)) (λ r. or_stop migrate kg st r >>= some_of) others w)

  -- The batches are migrated as their tables are, one after the other.
  pub run_batches-tables_of :
      (bs : List NsBatch) (st : Tally) (w : W)
      → run_batches migrate kg bs st w ≡ run_tables migrate kg (tables_of bs) st w
  unfolding run_batches
  run_batches-tables_of [] st w = unfold run_tables in refl
  run_batches-tables_of (b ∷ bs) st w =
      >>=-congr (run_tables migrate kg b.tables st) (run_batches migrate kg bs)
        (run_tables migrate kg (tables_of bs)) w (run_batches-tables_of bs)
      ∙ sym (run_tables-append b.tables (tables_of bs) st w)
