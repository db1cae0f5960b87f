-- ===== src/Cli/Run/Policy.antt =====
-- How a run over listed batches ends, with --keep-going and without.
use bergrebase.Base.{
  >>=-of_err, >>=-of_ok, Action, Error, List, Option, Option-cases, Result, [], arith, attempt, err,
  fail, false, inl, inr, none, ok, pure, refl, resume, some, suc, true, ℕ, ◌++◌, ◌+◌, ◌>>=◌, ◌∙◌,
  ◌∷◌, ◌≡◌,
}
use bergrebase.Catalog.{Identifier}
use bergrebase.Cli.Namespaces.{NsBatch}
use bergrebase.Cli.Run.{
  Tally, no_tally, count, first_of_errors, or_stop, run_tables, run_batches, finish, run_listed,
}
use bergrebase.Cli.Run.Batches.{tables_of, run_batches-tables_of}
use bergrebase.Cli.Run.Totals.{AllMigrate}

module _ {W : Type 0} (migrate : Identifier → Action W (Unit {0})) where
  tables_stop :
      (before after : List Identifier) (id : Identifier) (st : Tally) (w w' w'' : W) (e : Error)
      → AllMigrate migrate before w w'
      → migrate id w' ≡ (err e, w'')
      → run_tables migrate false (before ++ id ∷ after) st w ≡ (err e, w'')
  unfolding run_tables attempt or_stop fail pure ◌>>=◌
  tables_stop [] after id st w w' w'' e same h = rw (same, h)
  tables_stop (b ∷ bs) after id st w w' w'' e (between, first, rest) h =
      rw first (tables_stop bs after id (count st (ok tt)) between w' w'' e rest h)

  -- Without --keep-going, a run over listed batches ends at the first table that fails, in whichever
  -- batch it is, with the error of that table and in the world that it left: no later table is
  -- touched, of its batch or of a later one.
  pub run_listed_stops :
      (bs : List NsBatch) (before after : List Identifier) (id : Identifier) (w w' w'' : W)
      (e : Error)
      → tables_of bs ≡ before ++ id ∷ after
      → AllMigrate migrate before w w'
      → migrate id w' ≡ (err e, w'')
      → run_listed migrate false (some bs) w ≡ (err e, w'')
  unfolding run_listed
  run_listed_stops bs before after id w w' w'' e order good bad =
      >>=-of_err (run_batches migrate false bs no_tally) _ w (
        run_batches-tables_of migrate false bs no_tally w
        ∙ rw order (tables_stop before after id no_tally w w' w'' e good bad))

  -- The tables one after the other, whatever becomes of each.
  pub outcomes : List Identifier → W → List (Result (Unit {0})) × W
  outcomes [] w = ([], w)
  outcomes (id ∷ rest) w =
      let (r, w') = migrate id w in let (rs, w'') = outcomes rest w' in (r ∷ rs, w'')

  count_all : Tally → List (Result (Unit {0})) → Tally
  count_all st [] = st
  count_all st (r ∷ rs) = count_all (count st r) rs

  or_stop_keep_going :
      (st : Tally) (r : Result (Unit {0})) (w : W)
      → or_stop migrate true st r w ≡ (ok (count st r), w)
  unfolding or_stop pure
  or_stop_keep_going st (ok u) w = refl
  or_stop_keep_going st (err e) w = refl

  run_tables_keep_going :
      (ids : List Identifier) (st : Tally) (w : W)
      → run_tables migrate true ids st w
        ≡ (ok (count_all st (outcomes ids w).0), (outcomes ids w).1)
  unfolding run_tables outcomes count_all ◌>>=◌
  run_tables_keep_going [] st w = refl
  run_tables_keep_going (id ∷ rest) st w =
      rw (or_stop_keep_going st (migrate id w).0 (migrate id w).1)
        (run_tables_keep_going rest (count st (migrate id w).0) (migrate id w).1)

-- the number of tables that have been migrated
pub successes : List (Result (Unit {0})) → ℕ
successes [] = 0
successes (ok u ∷ rs) = suc (successes rs)
successes (err e ∷ rs) = successes rs

-- the number of tables that have failed
pub failures : List (Result (Unit {0})) → ℕ
failures [] = 0
failures (ok u ∷ rs) = failures rs
failures (err e ∷ rs) = suc (failures rs)

pub first_failure : List (Result (Unit {0})) → Option Error
first_failure [] = none
first_failure (ok u ∷ rs) = first_failure rs
first_failure (err e ∷ rs) = some e

-- the counters for the outcomes
abbrev pub tally_of : List (Result (Unit {0})) → Tally
tally_of rs = record { rebased = successes rs; failed = failures rs; first_err = first_failure rs }

-- what `run` returns for the counters and the first error
abbrev pub ending : Tally → Option Error → Result (Option Tally)
ending st none = ok (some st)
ending st (some e) = err e

abbrev or_first : Option Error → Option Error → Option Error
or_first none f = f
or_first (some d) f = some d

count_all-rebased :
    {W : Type 0} (migrate : Identifier → Action W (Unit {0})) (rs : List (Result (Unit {0})))
    (st : Tally)
    → (count_all migrate st rs).rebased ≡ st.rebased + successes rs
unfolding count_all successes count
count_all-rebased migrate [] st = omega arith
count_all-rebased migrate (ok u ∷ rs) st =
    omega (arith, count_all-rebased migrate rs (count st (ok u)))
count_all-rebased migrate (err e ∷ rs) st = count_all-rebased migrate rs (count st (err e))

count_all-failed :
    {W : Type 0} (migrate : Identifier → Action W (Unit {0})) (rs : List (Result (Unit {0})))
    (st : Tally)
    → (count_all migrate st rs).failed ≡ st.failed + failures rs
unfolding count_all failures count
count_all-failed migrate [] st = omega arith
count_all-failed migrate (ok u ∷ rs) st = count_all-failed migrate rs (count st (ok u))
count_all-failed migrate (err e ∷ rs) st =
    omega (arith, count_all-failed migrate rs (count st (err e)))

first_of_errors-or_first :
    (f : Option Error) (e : Error) (later : Option Error)
    → or_first (first_of_errors f e) later ≡ or_first f (some e)
first_of_errors-or_first none e later = refl
first_of_errors-or_first (some d) e later = refl

or_first-none : (f : Option Error) → f ≡ or_first f none
or_first-none none = refl
or_first-none (some d) = refl

count_all-first_err :
    {W : Type 0} (migrate : Identifier → Action W (Unit {0})) (rs : List (Result (Unit {0})))
    (st : Tally)
    → (count_all migrate st rs).first_err ≡ or_first st.first_err (first_failure rs)
unfolding count_all first_failure count
count_all-first_err migrate [] st = or_first-none st.first_err
count_all-first_err migrate (ok u ∷ rs) st = count_all-first_err migrate rs (count st (ok u))
count_all-first_err migrate (err e ∷ rs) st =
    count_all-first_err migrate rs (count st (err e))
    ∙ first_of_errors-or_first st.first_err e (first_failure rs)

module _ {W : Type 0} (migrate : Identifier → Action W (Unit {0})) where
  count_all-tally_of : (rs : List (Result (Unit {0}))) → count_all migrate no_tally rs ≡ tally_of rs
  count_all-tally_of rs =
      let a = count_all-rebased migrate rs no_tally in
      let b = count_all-failed migrate rs no_tally in
      let c = count_all-first_err migrate rs no_tally in
      let rebased : (count_all migrate no_tally rs).rebased ≡ successes rs = omega arith in
      let failed : (count_all migrate no_tally rs).failed ≡ failures rs = omega arith in
      λ i. record { rebased = rebased i; failed = failed i; first_err = c i }

  finished :
      (st : Tally) (w : W)
      → (finish migrate true st >>= λ _. pure (some st)) w ≡ (ending st st.first_err, w)
  unfolding finish pure fail ◌>>=◌ resume
  finished st w = elim (Option-cases st.first_err) [
    | inl e ↦ rw (e, finish) refl
    | inr (x, e) ↦ rw (e, finish) refl
  ]

  -- With --keep-going, a run over listed batches migrates every table of every batch in turn, each
  -- from the world that the one before it left, whatever became of that one. It counts the tables
  -- that succeeded and those that failed, and returns the error of the first one that failed, if
  -- there is one.
  pub run_listed_keep_going :
      (bs : List NsBatch) (w : W)
      → let (rs, w') = outcomes migrate (tables_of bs) w in
        (run_batches migrate true bs no_tally w ≡ (ok (tally_of rs), w'))
        × (run_listed migrate true (some bs) w ≡ (ending (tally_of rs) (first_failure rs), w'))
  unfolding run_listed
  run_listed_keep_going bs w =
      let (rs, w') = outcomes migrate (tables_of bs) w in
      let tallied = count_all-tally_of rs in
      let ran : run_batches migrate true bs no_tally w ≡ (ok (tally_of rs), w') =
        run_batches-tables_of migrate true bs no_tally w
        ∙ run_tables_keep_going migrate (tables_of bs) no_tally w
        ∙ (λ i. (ok (tallied i), w')) in
      (ran, >>=-of_ok (run_batches migrate true bs no_tally) _ w ran ∙ finished (tally_of rs) w')
