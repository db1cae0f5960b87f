-- ===== src/Rest/Swap/Answers.antt =====
-- Servers that answer, and the drop and registration on such a server.
use bergrebase.Base.{
  >>=-of_ok, Bool, Bool-cases, Bytes, Option, Result, Succeeds, Succeeds-bind, Succeeds-context,
  Succeeds-step, attempt-of_run, err, false, inl, inr, int_eq, leb, lift, list_eq, nat_eq, none, ok,
  pure, refl, some, true, ◌==◌, ◌∙◌, ◌≡◌, ◌⊎◌,
}
use bergrebase.Catalog.{Identifier}
use bergrebase.Rest.{
  Method, delete_method, post_method, Context, caller, detached, RegisterBody, LoadResponse,
  Response, Transport, Config, Client, call, do_request, read_response,
}
use bergrebase.Rest.Requests.{drop_table, register_table}
use bergrebase.Rest.Server.{Serves, drop_request, load_request, register_request}
use bergrebase.Rest.Swap.{after_register, swap_by_drop_register}

-- The response tells success.
abbrev pub Accepted : Response → Type 0
Accepted resp = leb 400 resp.status ≡ false

-- The response tells that the server does not register over a table that it has.
abbrev pub Declined : Response → Type 0
Declined resp = (resp.status ≡ 409) ⊎ (resp.status ≡ 400)

module _ {W : Type 0} (t : Transport W) (cfg : Config) (at : t.Url × Bytes) (id : Identifier)
    (pointer : W → Option Bytes) where
  -- What the code relies on for a swap to succeed: a table that is there is loaded with its location
  -- and can be dropped, one that is not there can be registered, and a registration over a table is
  -- accepted or declined.
  pub record Answers : Type 0 where
    pub loads :
        (w : W) (l : Bytes)
        → pointer w ≡ some l
        → Succeeds (t.send caller (load_request t cfg at id)) w (λ resp w'.
          Accepted resp
          × ((resp.status == 204) ≡ false)
          × (table : LoadResponse) × (t.decode_load resp.content ≡ ok table))
    pub drops :
        (w : W) (l : Bytes)
        → pointer w ≡ some l
        → Succeeds (t.send detached (drop_request t cfg at id)) w (λ resp w'. Accepted resp)
    pub registers :
        (w : W) (new : Bytes)
        → pointer w ≡ none
        → Succeeds
            (t.send detached (register_request t cfg at id new false))
            w
            (λ resp w'. Accepted resp)
    pub overwrites :
        (w : W) (l new : Bytes)
        → pointer w ≡ some l
        → Succeeds
            (t.send caller (register_request t cfg at id new true))
            w
            (λ resp w'. Accepted resp ⊎ Declined resp)

module _ {W : Type 0} (t : Transport W) (cfg : Config) where
  read_response-ok :
      (method : Method) (url : t.Url) (resp : Response)
      → Accepted resp
      → read_response t method url tt (λ _. ok tt) resp ≡ ok tt
  unfolding read_response
  read_response-ok method url resp h = elim (Bool-cases (resp.status == 204)) [
    | inl e ↦ rw (h, e) refl
    | inr e ↦ rw (h, e) refl
  ]

  pub do_request-ok :
      (ctx : Context) (method : Method) (url : t.Url) (body : Option RegisterBody) (w w' : W)
      (resp : Response)
      → t.send ctx (record { method = method; url = url; body = body; token = cfg.token }) w
        ≡ (ok resp, w')
      → Accepted resp
      → do_request t cfg ctx method url body tt (λ _. ok tt) w ≡ (ok tt, w')
  unfolding do_request lift
  do_request-ok ctx method url body w w' resp sent good =
      >>=-of_ok _ _ w sent ∙ (λ i. (read_response-ok method url resp good i, w'))

module _ {W : Type 0} (t : Transport W) (cfg : Config) (at : t.Url × Bytes) (id : Identifier)
    (pointer : W → Option Bytes) (s : Serves t cfg at id pointer) (a : Answers t cfg at id pointer)
    (old new : Bytes) where
  abbrev Now : Unit {0} → W → Type 0
  Now u w = pointer w ≡ some new

  drop-Succeeds :
      (w : W)
      → pointer w ≡ some old
      → Succeeds (drop_table t cfg at detached id) w (λ u w'. pointer w' ≡ none)
  unfolding drop_table
  drop-Succeeds w h =
      let (resp, w', sent, good) = a.drops w old h in
      (
        tt,
        w',
        do_request-ok t cfg detached delete_method (drop_request t cfg at id).url none w w' resp
            sent good,
        s.dropped detached w w' resp sent good,
      )

  pub register_table-ok :
      (ctx : Context) (over : Bool) (w w' : W) (resp : Response)
      → t.send ctx (register_request t cfg at id new over) w ≡ (ok resp, w')
      → Accepted resp
      → (register_table t cfg at ctx id new over w ≡ (ok tt, w')) × Now tt w'
  unfolding register_table
  register_table-ok ctx over w w' resp sent good = (
    do_request-ok t cfg ctx post_method (register_request t cfg at id new over).url
        (register_request t cfg at id new over).body w w' resp sent good,
    s.registered ctx new over w w' resp sent good,
  )

  after_register-Succeeds :
      (r : Result (Unit {0})) (w : W)
      → r ≡ ok tt
      → Now tt w
      → Succeeds (after_register t cfg at id old new r) w Now
  unfolding after_register pure
  after_register-Succeeds (ok u) w e now = (tt, w, refl, now)
  after_register-Succeeds (err x) w e now = absurd (cc)

  by_drop-Succeeds :
      (w : W) → pointer w ≡ some old → Succeeds (swap_by_drop_register t cfg at id old new) w Now
  unfolding swap_by_drop_register
  by_drop-Succeeds w h =
      Succeeds-bind _ _ w (λ u w'. pointer w' ≡ none) Now
        (Succeeds-context _ _ _ w _ (drop-Succeeds w h))
        λ u w' gone.
          let (resp, w'', sent, good) = a.registers w' new gone in
          let (ran, now) = register_table-ok detached false w' w'' resp sent good in
          Succeeds-step _ _ w' Now
            (attempt-of_run (register_table t cfg at detached id new false) w' ran)
            (after_register-Succeeds (ok tt) w'' refl now)

  abbrev Swapped : Unit {0} → Client t × W → Type 0
  Swapped u (d, w') = pointer w' ≡ some new

  pub fallback-Succeeds :
      (c : Client t) (w : W)
      → pointer w ≡ some old
      → Succeeds (call t (swap_by_drop_register t cfg at id old new)) (c, w) Swapped
  unfolding call
  fallback-Succeeds c w h =
      let (u, w', ran, now) = by_drop-Succeeds w h in
      (u, (c, w'), (λ i. ((ran i).0, (c, (ran i).1))), now)
