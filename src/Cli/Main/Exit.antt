-- ===== src/Cli/Main/Exit.antt =====
-- What the exit code of the program says.
use bergrebase.Base.{
  >>=-eq-ok, Bool, Bytes, List, Option, Option-cases, Result, ap, arith, bind, codes, context-eq-ok,
  err, false, inl, inr, lift-eq-ok, none, ok, pure, refl, some, sym, true, ℕ, ◌↔◌, ◌∙◌, ◌≡◌, ◌≢◌,
}
use bergrebase.Storage.{Storage}
use bergrebase.Metadata.Rewrite.{Text}
use bergrebase.Manifest.Rewrite.{Formats}
use bergrebase.Catalog.{Catalog}
use bergrebase.S3.{Sdk}
use bergrebase.Rest.{Transport}
use bergrebase.Cli.{Config, AwsCredentials, validate, side_credentials}
use bergrebase.Cli.Validate.{acceptable, validate-eq-ok}
use bergrebase.Cli.Namespaces.{NsBatch, select_batches}
use bergrebase.Cli.Migrate.{migrate_one}
use bergrebase.Cli.Run.{Tally, engine_of, run, run_listed}
use bergrebase.Cli.Run.Batches.{tables_of}
use bergrebase.Cli.Run.Totals.{AllMigrate, run_listed_succeeds}
use bergrebase.Cli.Clients.{Clients, source_storage, target_storage, rest_catalog, new_clients}
use bergrebase.Cli.Main.{
  Flags, config_of_flags, parse_flags, exit_code, run_with_clients, main_with, real_main,
}

module _ {W : Type 0} (lib : Formats) (text_format : Text)
    (source_of target_of : AwsCredentials → Storage W) where
  -- The tables to migrate are listed, and then each is migrated with success, in this order and with
  -- the credentials of the environment.
  abbrev pub AllDone : Catalog W → (Bytes → Bytes) → ℕ → Config → W → W → Type 0
  AllDone cat getenv rounds cfg w w' =
      (source_creds : AwsCredentials) × (target_creds : AwsCredentials) × (side_credentials getenv
          (codes "SOURCE")
        ≡ ok source_creds)
      × (side_credentials getenv (codes "TARGET") ≡ ok target_creds)
      × (bs : List NsBatch) × (listed : W) × (select_batches cat rounds cfg w
          ≡ (ok (some bs), listed))
      × AllMigrate
          (migrate_one cat
            (engine_of lib text_format source_of target_of cfg source_creds target_creds) cfg)
          (tables_of bs) listed w'

  run_succeeds :
      (cat : Catalog W) (getenv : Bytes → Bytes) (cfg : Config) (rounds : ℕ) (st : Tally) (w w' : W)
      → run lib text_format source_of target_of getenv cat cfg rounds w ≡ (ok (some st), w')
      → AllDone cat getenv rounds cfg w w'
  unfolding run
  run_succeeds cat getenv cfg rounds st w w' h =
      let (source_creds, w1, a, h1) = >>=-eq-ok _ _ w (some st) w' h in
      let (target_creds, w2, b, h2) = >>=-eq-ok _ _ w1 (some st) w' h1 in
      let (found, w3, c, h3) = >>=-eq-ok _ _ w2 (some st) w' h2 in
      let (a', same1) = lift-eq-ok _ w source_creds w1 a in
      let (b', same2) = lift-eq-ok _ w1 target_creds w2 b in
      let listing = context-eq-ok _ _ _ w2 found w3 c in
      let start : w2 ≡ w = sym (same1 ∙ same2) in
      elim (Option-cases found) [
        | inl e ↦ absurd (unfold run_listed pure in cc (rw e at h3))
        | inr (bs, e) ↦ (
          source_creds,
          target_creds,
          a',
          b',
          bs,
          w3,
          rw (start, e) at listing,
          (run_listed_succeeds _ cfg.keep_going bs st w3 w' (rw e at h3)).0,
        )
      ]

module _ {W : Type 0} (lib : Formats) (text_format : Text) (sdk : Sdk W) (t : Transport W)
    (getenv : Bytes → Bytes) (rounds : ℕ) where
  -- `AllDone` for the clients that the program makes
  abbrev pub Rebased : Config → W → W → Type 0
  Rebased cfg w w' =
      (v : Clients sdk t) × AllDone lib text_format (source_storage sdk t cfg)
        (target_storage sdk t cfg) (rest_catalog sdk t) getenv rounds cfg
        (new_clients sdk t getenv cfg w) v
      × (v.beyond ≡ w')

  -- what `run` ends in
  abbrev ended : Config → W → Result (Option Tally) × Clients sdk t
  ended cfg w =
      run lib text_format (source_storage sdk t cfg) (target_storage sdk t cfg) getenv
        (rest_catalog sdk t) cfg rounds (new_clients sdk t getenv cfg w)

  exit_zero :
      (r : Result (Option Tally)) (w w' : W)
      → ◌≡◌ {A = Option ℕ × W} (exit_code lib text_format sdk t r, w) (some 0, w')
      → (st : Tally) × (r ≡ ok (some st)) × (w ≡ w')
  exit_zero (ok none) w w' h = cc
  exit_zero (ok (some st)) w w' h = (st, refl, ap (λ (p : Option ℕ × W). p.1) h)
  exit_zero (err e) w w' h = cc

  main_with_zero :
      (f : Flags) (r : Result (Unit {0})) (w w' : W)
      → main_with lib text_format sdk t getenv rounds (bind r λ _. ok (config_of_flags f)) w
        ≡ (some 0, w')
      → (r ≡ ok tt) × Rebased (config_of_flags f) w w'
  unfolding main_with run_with_clients
  main_with_zero f (err e) w w' h = absurd (some-ne h)
    where
      some-ne : ◌≡◌ {A = Option ℕ × W} (some 2, w) (some 0, w') → ⊥
      some-ne q = cc
  main_with_zero f (ok u) w w' h =
      let cfg = config_of_flags f in
      let (st, ran, left) = exit_zero _ _ w' h in
      (
        refl,
        (
          (ended cfg w).1,
          run_succeeds lib text_format (source_storage sdk t cfg) (target_storage sdk t cfg)
              (rest_catalog sdk t) getenv cfg rounds st (new_clients sdk t getenv cfg w)
              (ended cfg w).1 (λ i. (ran i, (ended cfg w).1)),
          left,
        ),
      )

  -- The program exits with code 0 only if the flags make an acceptable configuration, and the tables
  -- that it asks for have been listed and then each migrated with success, in the order of the list.
  pub real_main_zero :
      (f : Flags) (w w' : W)
      → real_main lib text_format sdk t getenv rounds f w ≡ (some 0, w')
      → (acceptable (config_of_flags f) ≡ true) × Rebased (config_of_flags f) w w'
  unfolding real_main parse_flags
  real_main_zero f w w' h =
      let (valid, done) = main_with_zero f (validate (config_of_flags f)) w w' h in
      ((validate-eq-ok (config_of_flags f)).0 valid, done)

  exit-ne-two : (r : Result (Option Tally)) → exit_code lib text_format sdk t r ≢ some 2
  exit-ne-two (ok none) h = cc
  exit-ne-two (ok (some st)) h = omega (arith, ap two h)
    where
      two : Option ℕ → ℕ
      two none = 0
      two (some n) = n
  exit-ne-two (err e) h = omega (arith, ap two h)
    where
      two : Option ℕ → ℕ
      two none = 0
      two (some n) = n

  main_with_two :
      (f : Flags) (r : Result (Unit {0})) (w w' : W)
      → main_with lib text_format sdk t getenv rounds (bind r λ _. ok (config_of_flags f)) w
        ≡ (some 2, w')
      → (r ≢ ok tt) × (w ≡ w')
  unfolding main_with run_with_clients
  main_with_two f (err e) w w' h = ((λ q. cc), ap (λ (p : Option ℕ × W). p.1) h)
  main_with_two f (ok u) w w' h = absurd (exit-ne-two _ (ap (λ (p : Option ℕ × W). p.0) h))

  refused_two :
      (f : Flags) (r : Result (Unit {0})) (w : W)
      → r ≢ ok tt
      → main_with lib text_format sdk t getenv rounds (bind r λ _. ok (config_of_flags f)) w
        ≡ (some 2, w)
  unfolding main_with
  refused_two f (err e) w n = refl
  refused_two f (ok u) w n = absurd (n refl)

  -- The program exits with code 2 exactly if the flags make no acceptable configuration, and then it
  -- has sent no request and touched no storage.
  pub real_main_two :
      (f : Flags) (w w' : W)
      → (real_main lib text_format sdk t getenv rounds f w ≡ (some 2, w'))
        ↔ ((acceptable (config_of_flags f) ≡ false) × (w ≡ w'))
  unfolding real_main parse_flags
  real_main_two f w w' = (
    λ h.
        let (refused, same) = main_with_two f (validate (config_of_flags f)) w w' h in
        (not_true _ (λ a. refused ((validate-eq-ok (config_of_flags f)).1 a)), same),
    λ (bad, same).
        refused_two f (validate (config_of_flags f)) w
          (λ e. let yes = (validate-eq-ok (config_of_flags f)).0 e in false-ne-true (sym bad ∙ yes))
        ∙ (λ i. (some 2, same i)),
  )
    where
      false-ne-true : false ≡ true → ⊥
      false-ne-true q = cc

      not_true : (b : Bool) → b ≢ true → b ≡ false
      not_true true n = absurd (n refl)
      not_true false n = refl
