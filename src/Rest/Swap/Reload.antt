-- ===== src/Rest/Swap/Reload.antt =====
-- The table that a swap loads before it asks for anything else.
use bergrebase.Base.{
  >>=-of_ok, Bool-cases, Bytes, Option, Succeeds, Succeeds-step, [], context-of_ok, false, inl, inr,
  int_eq, lift, list_beq_iff, list_eq, nat_eq, none, refl, some, sym, ◌==◌, ◌∙◌, ◌≡◌, ◌≢◌,
}
use bergrebase.Catalog.{Identifier, Table}
use bergrebase.Rest.{
  get_method, caller, LoadResponse, Transport, Config, Client, call, do_request, read_response,
}
use bergrebase.Rest.Requests.{init, config_of, load_table, loaded, table_url}
use bergrebase.Rest.Server.{Serves}
use bergrebase.Rest.Loading.{Started, init-Started, config_of-Started}
use bergrebase.Rest.Swap.Answers.{Answers}

pub differ : (x y : Bytes) → x ≢ y → (x == y) ≡ false
differ x y n = elim (Bool-cases (x == y)) [
  | inl e ↦ absurd (n ((list_beq_iff x y).0 e))
  | inr e ↦ e
]

module _ {W : Type 0} (t : Transport W) (cfg : Config) (at : t.Url × Bytes) (id : Identifier)
    (pointer : W → Option Bytes) (s : Serves t cfg at id pointer) (a : Answers t cfg at id pointer)
    (old : Bytes) where
  -- The table that is loaded, and the world it is loaded in.
  abbrev pub Reloaded : Client t → Table → Client t × W → Type 0
  Reloaded c table (d, w') = (d ≡ c) × (pointer w' ≡ some old) × (table.metadata_location ≡ old)

  loaded-Succeeds :
      (c : Client t) (w : W) (resp : LoadResponse)
      → old ≢ []
      → pointer w ≡ some old
      → resp.metadata_location ≡ old
      → Succeeds (lift (loaded t id resp)) (c, w) (Reloaded c)
  unfolding loaded lift
  loaded-Succeeds c w resp given h same =
      let e = differ resp.metadata_location [] (λ q. given (sym same ∙ q)) in
      let table : Table = record {
        identifier = id;
        metadata_location = resp.metadata_location;
        current_snapshot_id = resp.current_snapshot_id;
      } in
      (table, (c, w), rw e refl, (refl, h, same))

  abbrev blank : LoadResponse
  blank = record { metadata_location = []; current_snapshot_id = none }

  load_request-Succeeds :
      (w : W)
      → pointer w ≡ some old
      → Succeeds
          (do_request t cfg caller get_method (table_url t at id) none blank t.decode_load)
          w
          (λ resp w'. (pointer w' ≡ some old) × (resp.metadata_location ≡ old))
  unfolding do_request read_response lift
  load_request-Succeeds w h =
      let (resp, w', sent, (good, content, table, decoded)) = a.loads w old h in
      (
        table,
        w',
        >>=-of_ok _ _ w sent ∙ rw (good, content, decoded) refl,
        (
          s.read caller w w' resp sent ∙ h,
          cc (s.reported caller w w' resp table sent good content decoded, h),
        ),
      )

  pub load_table-Succeeds :
      (c : Client t) (w : W)
      → Started t cfg at c
      → old ≢ []
      → pointer w ≡ some old
      → Succeeds (load_table t id) (c, w) (Reloaded c)
  unfolding load_table call
  load_table-Succeeds c w st given h =
      let (resp, w', ran, (there, same)) = load_request-Succeeds w h in
      Succeeds-step (init t) _ (c, w) (Reloaded c) (init-Started t cfg at c w st)
        (Succeeds-step (config_of t) _ (c, w) (Reloaded c) (config_of-Started t cfg at c w st)
          (Succeeds-step _ _ (c, w) (Reloaded c)
            (context-of_ok _ _ _ (c, w) (λ i. ((ran i).0, (c, (ran i).1))))
            (loaded-Succeeds c w' resp given there same)))
