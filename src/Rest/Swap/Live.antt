-- ===== src/Rest/Swap/Live.antt =====
-- When a swap is sure to succeed.
use bergrebase.Base.{
  >>=-of_ok, Bool-cases, Bytes, Error, Option, Result, Succeeds, Succeeds-bind, Succeeds-context,
  Succeeds-step, [], arith, attempt, attempt-of_run, err, inl, inr, int_eq, leb, lift, list_beq_iff,
  list_eq, nat_eq, ok, refl, some, true, ◌||◌, ◌∙◌, ◌≡◌, ◌≢◌, ◌⊎◌,
}
use bergrebase.Catalog.{Identifier, Table}
use bergrebase.Rest.{
  Method, post_method, caller, Response, Transport, Config, Client, call, do_request, read_response,
  http_error, SwapMode, mode_unknown, mode_atomic, mode_drop_register, is_already_exists,
  is_bad_request,
}
use bergrebase.Rest.Requests.{init, config_of, register_table}
use bergrebase.Rest.Server.{Serves, register_request}
use bergrebase.Rest.Loading.{Started, init-Started, config_of-Started}
use bergrebase.Rest.Swap.{
  load_mode, store_mode, after_probe, swap_in, swap_loaded, swap_metadata_location,
}
use bergrebase.Rest.Swap.Answers.{Accepted, Declined, Answers, register_table-ok, fallback-Succeeds}
use bergrebase.Rest.Swap.Reload.{differ, Reloaded, load_table-Succeeds}

module _ {W : Type 0} (t : Transport W) (cfg : Config) (at : t.Url × Bytes) (id : Identifier)
    (pointer : W → Option Bytes) (s : Serves t cfg at id pointer) (a : Answers t cfg at id pointer)
    (old new : Bytes) where
  abbrev Swapped : Unit {0} → Client t × W → Type 0
  Swapped u (d, w') = pointer w' ≡ some new

  -- A refusal by one of these statuses makes the client drop and register.
  abbrev FallsBack : Error → Type 0
  FallsBack e = (is_already_exists e || is_bad_request e) ≡ true

  declined_lem :
      (method : Method) (url : t.Url) (resp : Response)
      → Declined resp
      → (leb 400 resp.status ≡ true) × FallsBack (http_error t method url resp)
  unfolding http_error is_already_exists is_bad_request
  declined_lem method url resp (inl e) = rw e (refl, refl)
  declined_lem method url resp (inr e) = rw e (refl, ground arith)

  -- what a registration over the old location leads to
  abbrev Probed : Result (Unit {0}) → W → Type 0
  Probed (ok u) w = pointer w ≡ some new
  Probed (err e) w = FallsBack e × (pointer w ≡ some old)

  register_table-err :
      (w w' : W) (resp : Response)
      → pointer w ≡ some old
      → t.send caller (register_request t cfg at id new true) w ≡ (ok resp, w')
      → Declined resp
      → Succeeds (attempt (register_table t cfg at caller id new true)) w Probed
  unfolding register_table do_request read_response lift
  register_table-err w w' resp h sent no_good =
      let url = (register_request t cfg at id new true).url in
      let (bad, back) = declined_lem post_method url resp no_good in
      (
        err (http_error t post_method url resp),
        w',
        attempt-of_run (register_table t cfg at caller id new true) w
            (>>=-of_ok _ _ w sent ∙ rw bad refl),
        (back, s.refused caller (register_request t cfg at id new true) w w' resp sent bad ∙ h),
      )

  probe-Succeeds :
      (w : W)
      → pointer w ≡ some old
      → Succeeds (attempt (register_table t cfg at caller id new true)) w Probed
  probe-Succeeds w h = probed (a.overwrites w old new h)
    where
      probed :
          Succeeds
            (t.send caller (register_request t cfg at id new true))
            w
            (λ resp w'. Accepted resp ⊎ Declined resp)
          → Succeeds (attempt (register_table t cfg at caller id new true)) w Probed
      probed (resp, w', sent, inl good) =
          let (ran, now) =
            register_table-ok t cfg at id pointer s a old new caller true w w' resp sent good in
          (ok tt, w', attempt-of_run (register_table t cfg at caller id new true) w ran, now)
      probed (resp, w', sent, inr no_good) = register_table-err w w' resp h sent no_good

  after_probe-Succeeds :
      (r : Result (Unit {0})) (c : Client t) (w : W)
      → Probed r w
      → Succeeds (after_probe t cfg at id old new r) (c, w) Swapped
  unfolding after_probe store_mode
  after_probe-Succeeds (ok u) c w now = (tt, _, refl, now)
  after_probe-Succeeds (err e) c w (back, h) = elim (Bool-cases (is_already_exists e)) [
    | inl x ↦ rw x (
        Succeeds-step _ _ (c, w) Swapped refl
          (fallback-Succeeds t cfg at id pointer s a old new _ w h))
    | inr x ↦
        let y : is_bad_request e ≡ true = rw x at back in
        rw (x, y) (fallback-Succeeds t cfg at id pointer s a old new c w h)
  ]

  swap_in-Succeeds :
      (mode : SwapMode) (c : Client t) (w : W)
      → mode ≢ mode_atomic
      → pointer w ≡ some old
      → Succeeds (swap_in t cfg at id old new mode) (c, w) Swapped
  unfolding swap_in call
  swap_in-Succeeds mode_atomic c w n h = absurd (n refl)
  swap_in-Succeeds mode_drop_register c w n h =
      fallback-Succeeds t cfg at id pointer s a old new c w h
  swap_in-Succeeds mode_unknown c w n h =
      let (r, w', ran, q) = probe-Succeeds w h in
      Succeeds-step _ _ (c, w) Swapped (λ i. ((ran i).0, (c, (ran i).1)))
        (after_probe-Succeeds r c w' q)

  swap_loaded-Succeeds :
      (table : Table) (c : Client t) (w : W)
      → Started t cfg at c
      → c.swap_mode ≢ mode_atomic
      → pointer w ≡ some old
      → table.metadata_location ≡ old
      → Succeeds (swap_loaded t id old new table) (c, w) Swapped
  unfolding swap_loaded load_mode
  swap_loaded-Succeeds table c w st n h same =
      rw ((list_beq_iff table.metadata_location old).1 same) (
        Succeeds-step (init t) _ (c, w) Swapped (init-Started t cfg at c w st)
          (Succeeds-step (config_of t) _ (c, w) Swapped (config_of-Started t cfg at c w st)
            (Succeeds-step (load_mode t) _ (c, w) Swapped refl
              (swap_in-Succeeds c.swap_mode c w n h))))

  -- On a server with the laws of `Serves` and of `Answers`, with a client that has been set up and
  -- whose cached mode is not the atomic one, a swap of the current location for another one, neither
  -- of them empty, succeeds and leaves the new location: whether the server registers over the table,
  -- or declines that by status 409 or 400.
  pub swap_metadata_location_succeeds :
      (c : Client t) (w : W)
      → Started t cfg at c
      → c.swap_mode ≢ mode_atomic
      → pointer w ≡ some old
      → old ≢ []
      → new ≢ []
      → old ≢ new
      → Succeeds (swap_metadata_location t id old new) (c, w) Swapped
  unfolding swap_metadata_location
  swap_metadata_location_succeeds c w st n h some_old some_new moves =
      rw (differ old [] some_old, differ new [] some_new, differ old new moves)
        (Succeeds-step (init t) _ (c, w) Swapped (init-Started t cfg at c w st)
          (Succeeds-bind _ _ (c, w) (Reloaded t cfg at id pointer s a old c) Swapped
            (Succeeds-context _ _ _ (c, w) _
              (load_table-Succeeds t cfg at id pointer s a old c w st some_old h))
            λ table (d, w') (same, there, at_old).
              swap_loaded-Succeeds table d w' (rw same st) (rw same n) there at_old))
