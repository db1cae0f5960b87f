-- ===== src/Cli/Run/Totals.antt =====
-- What a run without an error in the end has done.
use bergrebase.Base.{
  >>=-eq-ok, Action, Bool, Error, List, Option, Option-cases, Result, [], ap, arith, attempt,
  attempt-eq-ok, err, fail, false, inl, inr, length, length-append, none, ok, pure-eq-ok, refl,
  some, sym, true, ◌++◌, ◌+◌, ◌∙◌, ◌∷◌, ◌≡◌,
}
use bergrebase.Catalog.{Identifier}
use bergrebase.Cli.Namespaces.{NsBatch}
use bergrebase.Cli.Run.Batches.{tables_of}
use bergrebase.Cli.Run.{
  Tally, no_tally, count, first_of_errors, or_stop, run_tables, run_batches, finish, run_listed,
}

-- The tables are migrated one after the other, and each succeeds.
abbrev pub AllMigrate :
    {W : Type 0} → (Identifier → Action W (Unit {0})) → List Identifier → W → W → Type 0
AllMigrate migrate [] w w' = w ≡ w'
AllMigrate {W} migrate (id ∷ rest) w w' =
    (between : W) × (migrate id w ≡ (ok tt, between)) × AllMigrate migrate rest between w'

module _ {W : Type 0} (migrate : Identifier → Action W (Unit {0})) where
  -- Between two tallies each of the tables has been migrated, and counted.
  abbrev pub Succeeded : List Identifier → Tally → W → Tally → W → Type 0
  Succeeded ids st w st' w' =
      (st.first_err ≡ none)
      × AllMigrate migrate ids w w'
      × (st'.rebased ≡ st.rebased + length ids)
      × (st'.failed ≡ st.failed)

  AllMigrate-append :
      (xs ys : List Identifier) (w w1 w2 : W)
      → AllMigrate migrate xs w w1
      → AllMigrate migrate ys w1 w2
      → AllMigrate migrate (xs ++ ys) w w2
  AllMigrate-append [] ys w w1 w2 same q = rw same q
  AllMigrate-append (x ∷ xs) ys w w1 w2 (between, e, p) q =
      (between, e, AllMigrate-append xs ys between w1 w2 p q)

  Succeeded-append :
      (xs ys : List Identifier) (st st1 st2 : Tally) (w w1 w2 : W)
      → Succeeded xs st w st1 w1
      → Succeeded ys st1 w1 st2 w2
      → Succeeded (xs ++ ys) st w st2 w2
  Succeeded-append xs ys st st1 st2 w w1 w2 (clean, p, n, f) (clean', q, n', f') =
      (clean, AllMigrate-append xs ys w w1 w2 p q, omega (arith, length-append xs ys), f' ∙ f)

  module _ (kg : Bool) where
    or_stop_succeeds :
        (r : Result (Unit {0})) (st st' : Tally) (w w' : W)
        → or_stop migrate kg st r w ≡ (ok st', w')
        → st'.first_err ≡ none
        → (r ≡ ok tt) × (w ≡ w') × (count st (ok tt) ≡ st')
    unfolding or_stop
    or_stop_succeeds (ok u) st st' w w' h clean =
        let (e, same) = pure-eq-ok _ w st' w' h in (refl, same, e)
    or_stop_succeeds (err e) st st' w w' h clean = absurd (stopped kg h)
      where
        no_count : (f : Option Error) → first_of_errors f e ≡ none → ⊥
        no_count none q = cc
        no_count (some d) q = cc

        stopped : (k : Bool) → or_stop migrate k st (err e) w ≡ (ok st', w') → ⊥
        stopped true q =
            let (same, _) = pure-eq-ok _ w st' w' q in
            no_count st.first_err (unfold count in (ap (λ (t : Tally). t.first_err) same ∙ clean))
        stopped false q = unfold fail in cc q

    run_tables_succeeds :
        (ids : List Identifier) (st st' : Tally) (w w' : W)
        → run_tables migrate kg ids st w ≡ (ok st', w')
        → st'.first_err ≡ none
        → Succeeded ids st w st' w'
    unfolding run_tables attempt
    run_tables_succeeds [] st st' w w' h clean =
        let (e, same) = pure-eq-ok st w st' w' h in
        (
          ap (λ (t : Tally). t.first_err) e ∙ clean,
          same,
          omega (arith, ap (λ (t : Tally). t.rebased) e),
          ap (λ (t : Tally). t.failed) (sym e),
        )
    run_tables_succeeds (id ∷ rest) st st' w w' h clean =
        let (r, w1, ran, h1) = >>=-eq-ok _ _ w st' w' h in
        let (st1, w2, counted, h2) = >>=-eq-ok _ _ w1 st' w' h1 in
        let (clean1, later, n, f) = run_tables_succeeds rest st1 st' w2 w' h2 clean in
        let (good, same, e) = or_stop_succeeds r st st1 w1 w2 counted clean1 in
        let migrated = attempt-eq-ok (migrate id) w r w1 ran ∙ (λ i. (good i, same i)) in
        (
          ap (λ (t : Tally). t.first_err) e ∙ clean1,
          (w2, migrated, later),
          omega (arith, n, ap (λ (t : Tally). t.rebased) e),
          f ∙ ap (λ (t : Tally). t.failed) (sym e),
        )

    run_batches_succeeds :
        (bs : List NsBatch) (st st' : Tally) (w w' : W)
        → run_batches migrate kg bs st w ≡ (ok st', w')
        → st'.first_err ≡ none
        → Succeeded (tables_of bs) st w st' w'
    unfolding run_batches
    run_batches_succeeds [] st st' w w' h clean =
        unfold run_tables in run_tables_succeeds [] st st' w w' h clean
    run_batches_succeeds (b ∷ bs) st st' w w' h clean =
        let (st1, w1, ran, h1) = >>=-eq-ok _ _ w st' w' h in
        let later = run_batches_succeeds bs st1 st' w1 w' h1 clean in
        Succeeded-append b.tables (tables_of bs) st st1 st' w w1 w'
          (run_tables_succeeds b.tables st st1 w w1 ran later.0) later

    finish_succeeds :
        (st : Tally) (w w' : W)
        → finish migrate kg st w ≡ (ok tt, w')
        → (st.first_err ≡ none) × (w ≡ w')
    unfolding finish fail
    finish_succeeds st w w' h = elim (Option-cases st.first_err) [
      | inl e ↦ (e, (pure-eq-ok tt w tt w' (rw (e, finish) at h)).1)
      | inr (x, e) ↦ absurd (cc (rw (e, finish) at h))
    ]

    -- A run over listed batches that succeeds has migrated each of their tables with success, one
    -- after the other, with --keep-going or without; it counts them all, and none as failed.
    pub run_listed_succeeds :
        (bs : List NsBatch) (st : Tally) (w w' : W)
        → run_listed migrate kg (some bs) w ≡ (ok (some st), w')
        → AllMigrate migrate (tables_of bs) w w'
          × (st.rebased ≡ length (tables_of bs))
          × (st.failed ≡ 0)
    unfolding run_listed
    run_listed_succeeds bs st w w' h =
        let (st', w1, ran, h1) = >>=-eq-ok _ _ w (some st) w' h in
        let (_, w2, ended, h2) = >>=-eq-ok _ _ w1 (some st) w' h1 in
        let (e, left) = pure-eq-ok (some st') w2 (some st) w' h2 in
        let same : st' ≡ st = cc in
        let (clean, stays) = finish_succeeds st' w1 w2 ended in
        let (_, all, n, f) = run_batches_succeeds bs no_tally st' w w1 ran clean in
        rw (← same, ← left, ← stays) (all, omega arith, f)
