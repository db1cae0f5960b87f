-- ===== src/Rest/Loading.antt =====
-- What `LoadTable` tells of the catalog's pointer, on a client that has been set up.
use bergrebase.Base.{
  Action, Bool-cases, Bytes, Ends, Ends-bind, Ends-context, Ends-of_runs, Ends-step, Error,
  OnResult, Option, Result, [], context, err, false, inl, inr, int_eq, leb, lift, list_beq_iff,
  list_eq, nat_eq, none, ok, refl, some, ◌==◌, ◌∷◌, ◌≡◌, ◌⊎◌,
}
use bergrebase.Catalog.{Identifier, Table}
use bergrebase.Rest.{
  caller, get_method, Transport, Config, Client, call, LoadResponse, Response, do_request,
  read_response,
}
use bergrebase.Rest.Requests.{init, config_of, load_table, loaded, table_url, qualified_name}
use bergrebase.Rest.Server.{Serves, load_request}

module _ {W A : Type 0} (t : Transport W) (Q : A → W → Type 0) (E : Error → W → Type 0) where
  called :
      (c : Client t) (p : Result A × W)
      → OnResult Q E p
      → OnResult (λ a (d, w'). (d ≡ c) × Q a w') (λ e (d, w'). E e w') (p.0, (c, p.1))
  called c (ok a, w') k = (refl, k)
  called c (err e, w') k = k

  -- A call of the transport leaves the client.
  pub call-Ends :
      (m : Action W A) (c : Client t) (w : W)
      → Ends m w Q E
      → Ends (call t m) (c, w) (λ a (d, w'). (d ≡ c) × Q a w') (λ e (d, w'). E e w')
  unfolding call
  call-Ends m c w h = called c (m w) h

module _ {W : Type 0} (t : Transport W) (cfg : Config) (at : t.Url × Bytes) where
  -- The client has been set up, with `at` as the base of its requests.
  pub record Started (c : Client t) : Type 0 where
    pub ready_at : c.ready ≡ some (ok at)
    pub configured : c.cfg ≡ cfg

  pub init-Started : (c : Client t) (w : W) → Started c → init t (c, w) ≡ (ok at, (c, w))
  unfolding init
  init-Started c w st = rw st.ready_at refl

  pub config_of-Started : (c : Client t) (w : W) → Started c → config_of t (c, w) ≡ (ok cfg, (c, w))
  unfolding config_of
  config_of-Started c w st = rw st.configured refl

-- The loaded table has the pointer as its location, and nothing has changed.
abbrev pub Loaded :
    {W : Type 0} (t : Transport W)
    → (W → Option Bytes)
    → Client t
    → W
    → Table
    → Client t × W
    → Type 0
Loaded t pointer c w table (d, w') =
    (d ≡ c) × (pointer w' ≡ pointer w) × (pointer w ≡ some table.metadata_location)

module _ {W : Type 0} (t : Transport W) (cfg : Config) (at : t.Url × Bytes) (id : Identifier)
    (pointer : W → Option Bytes) (s : Serves t cfg at id pointer) where
  -- What a response to the loading of the table says of the pointer.
  abbrev Located : W → LoadResponse → W → Type 0
  Located w resp w' =
      (pointer w' ≡ pointer w)
      × ((resp.metadata_location ≡ []) ⊎ (pointer w ≡ some resp.metadata_location))

  abbrev blank : LoadResponse
  blank = record { metadata_location = []; current_snapshot_id = none }

  loaded_response-Ends :
      (w w' : W) (resp : Response)
      → t.send caller (load_request t cfg at id) w ≡ (ok resp, w')
      → Ends
          (lift (read_response t get_method (table_url t at id) blank t.decode_load resp))
          w'
          (Located w)
          (λ e w''. pointer w'' ≡ pointer w)
  unfolding read_response lift
  loaded_response-Ends w w' resp r = elim (Bool-cases (leb 400 resp.status)) [
    | inl e ↦ rw e (s.read caller w w' resp r)
    | inr e ↦ elim (Bool-cases (resp.status == 204)) [
      | inl f ↦ rw (e, f) (s.read caller w w' resp r, inl refl)
      | inr f ↦ rw (e, f) (decoded (t.decode_load resp.content) refl e f)
    ]
  ]
    where
      decoded :
          (d : Result LoadResponse)
          → t.decode_load resp.content ≡ d
          → leb 400 resp.status ≡ false
          → (resp.status == 204) ≡ false
          → OnResult (Located w) (λ e w''. pointer w'' ≡ pointer w) (d, w')
      decoded (ok table) q e f =
          (s.read caller w w' resp r, inr (s.reported caller w w' resp table r e f q))
      decoded (err x) q e f = s.read caller w w' resp r

  load_request-Ends :
      (w : W)
      → Ends
          (do_request t cfg caller get_method (table_url t at id) none blank t.decode_load)
          w
          (Located w)
          (λ e w'. pointer w' ≡ pointer w)
  unfolding do_request
  load_request-Ends w =
      Ends-bind (t.send caller (load_request t cfg at id)) _ w
        (λ resp w'. t.send caller (load_request t cfg at id) w ≡ (ok resp, w')) (Located w)
        (λ e w'. pointer w' ≡ pointer w)
        (Ends-of_runs (t.send caller (load_request t cfg at id)) w _ _ (λ resp w' r. r)
          (λ e w' r. s.unanswered caller (load_request t cfg at id) w w' e r))
        (λ resp w' r. loaded_response-Ends w w' resp r)

  loaded-Ends :
      (c d : Client t) (w w' : W) (resp : LoadResponse)
      → (d ≡ c) × Located w resp w'
      → Ends
          (lift (loaded t id resp))
          (d, w')
          (Loaded t pointer c w)
          (λ e (d', w''). pointer w'' ≡ pointer w)
  unfolding loaded lift
  loaded-Ends c d w w' resp (same, (kept, inl empty)) =
      rw ((list_beq_iff resp.metadata_location []).1 empty) kept
  loaded-Ends c d w w' resp (same, (kept, inr there)) =
      elim (Bool-cases (resp.metadata_location == [])) [
        | inl e ↦ rw e kept
        | inr e ↦ rw e (same, kept, there)
      ]

  pub load_table-Ends :
      (c : Client t) (w : W)
      → Started t cfg at c
      → Ends (load_table t id) (c, w) (Loaded t pointer c w) (λ e (d, w'). pointer w' ≡ pointer w)
  unfolding load_table
  load_table-Ends c w st =
      let Kept : Error → Client t × W → Type 0 = λ e (d, w'). pointer w' ≡ pointer w in
      let request =
        do_request t cfg caller get_method (table_url t at id) none blank t.decode_load in
      Ends-step (init t) _ (c, w) at (c, w) (Loaded t pointer c w) Kept
        (init-Started t cfg at c w st)
        (Ends-step (config_of t) _ (c, w) cfg (c, w) (Loaded t pointer c w) Kept
          (config_of-Started t cfg at c w st)
          (Ends-bind (context "rest: load %s: %w" (qualified_name t id ∷ []) (call t request)) _
            (c, w) (λ resp (d, w'). (d ≡ c) × Located w resp w') (Loaded t pointer c w) Kept
            (Ends-context "rest: load %s: %w" (qualified_name t id ∷ []) (call t request) (c, w)
              (λ resp (d, w'). (d ≡ c) × Located w resp w') Kept
              (call-Ends t (Located w) (λ e w'. pointer w' ≡ pointer w) request c w
                (load_request-Ends w)))
            (λ resp (d, w') located. loaded-Ends c d w w' resp located)))
