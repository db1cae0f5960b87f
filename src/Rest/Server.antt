-- ===== src/Rest/Server.antt =====
-- What a drop and a registration do to the catalog's pointer, for a server that answers a request
-- that it has carried out, and only such a request, with a status below 400.
use bergrebase.Base.{
  Bool, Bool-cases, Bytes, Ends, Ends-bind, Ends-of_runs, Error, Option, [], codes, err, false,
  if◌then◌else◌, inl, inr, int_eq, leb, lift, list_eq, nat_eq, none, ok, some, true, ◌==◌, ◌∷◌, ◌≡◌,
}
use bergrebase.Catalog.{Identifier}
use bergrebase.Rest.{
  Context, Method, Transport, Request, RegisterBody, Response, Config, delete_method, get_method,
  post_method, LoadResponse, do_request, read_response,
}
use bergrebase.Rest.Requests.{table_url, v1_path, encode_namespace, drop_table, register_table}

module _ {W : Type 0} (t : Transport W) where
  open t use {Url, set_query, send}

  -- the request of `dropTable`
  abbrev pub drop_request : Config → Url × Bytes → Identifier → Request Url
  drop_request cfg at id = record {
    method = delete_method;
    url = set_query (table_url t at id) ((codes "purgeRequested", codes "false") ∷ []);
    body = none;
    token = cfg.token;
  }

  -- the request of `LoadTable`
  abbrev pub load_request : Config → Url × Bytes → Identifier → Request Url
  load_request cfg at id = record {
    method = get_method;
    url = table_url t at id;
    body = none;
    token = cfg.token;
  }

  -- the request of `registerTable`
  abbrev pub register_request : Config → Url × Bytes → Identifier → Bytes → Bool → Request Url
  register_request cfg at id location overwrite =
      let u =
        v1_path t at
          (codes "namespaces" ∷ encode_namespace t id.namespace ∷ codes "register" ∷ []) in
      record {
        method = post_method;
        url = if overwrite then set_query u ((codes "overwrite", codes "true") ∷ []) else u;
        body = some (record { name = id.name; metadata_location = location });
        token = cfg.token;
      }

  -- What the code relies on: `pointer` is the location that the catalog holds for the table. A
  -- request that gets no answer, or one of status 400 or more, leaves the pointer; a drop that is
  -- accepted removes it, and a registration that is accepted sets it. Loading the table leaves it,
  -- and a table that is loaded has it as its location.
  pub record Serves (cfg : Config) (at : Url × Bytes) (id : Identifier) (pointer : W → Option Bytes)
      : Type 0 where
    pub unanswered :
        (ctx : Context) (req : Request Url) (w w' : W) (e : Error)
        → send ctx req w ≡ (err e, w')
        → pointer w' ≡ pointer w
    pub refused :
        (ctx : Context) (req : Request Url) (w w' : W) (resp : Response)
        → send ctx req w ≡ (ok resp, w')
        → leb 400 resp.status ≡ true
        → pointer w' ≡ pointer w
    pub dropped :
        (ctx : Context) (w w' : W) (resp : Response)
        → send ctx (drop_request cfg at id) w ≡ (ok resp, w')
        → leb 400 resp.status ≡ false
        → pointer w' ≡ none
    pub registered :
        (ctx : Context) (location : Bytes) (overwrite : Bool) (w w' : W) (resp : Response)
        → send ctx (register_request cfg at id location overwrite) w ≡ (ok resp, w')
        → leb 400 resp.status ≡ false
        → pointer w' ≡ some location
    pub read :
        (ctx : Context) (w w' : W) (resp : Response)
        → send ctx (load_request cfg at id) w ≡ (ok resp, w')
        → pointer w' ≡ pointer w
    pub reported :
        (ctx : Context) (w w' : W) (resp : Response) (table : LoadResponse)
        → send ctx (load_request cfg at id) w ≡ (ok resp, w')
        → leb 400 resp.status ≡ false
        → (resp.status == 204) ≡ false
        → t.decode_load resp.content ≡ ok table
        → pointer w ≡ some table.metadata_location

  module _ (cfg : Config) (at : Url × Bytes) (id : Identifier) (pointer : W → Option Bytes)
      (s : Serves cfg at id pointer) where
    answered-Ends :
        (ctx : Context) (method : Method) (url : Url) (p : Option Bytes) (w w' : W)
        (req : Request Url) (resp : Response)
        → send ctx req w ≡ (ok resp, w')
        → (leb 400 resp.status ≡ false → pointer w' ≡ p)
        → Ends
            (lift (read_response t method url tt (λ _. ok tt) resp))
            w'
            (λ u w''. pointer w'' ≡ p)
            (λ e w''. pointer w'' ≡ pointer w)
    unfolding read_response lift
    answered-Ends ctx method url p w w' req resp r h = elim (Bool-cases (leb 400 resp.status)) [
      | inl e ↦ rw e (s.refused ctx req w w' resp r e)
      | inr e ↦ elim (Bool-cases (resp.status == 204)) [
        | inl f ↦ rw (e, f) (h e)
        | inr f ↦ rw (e, f) (h e)
      ]
    ]

    -- A request without an answer to decode has its effect if it succeeds, and none otherwise.
    request-Ends :
        (ctx : Context) (method : Method) (url : Url) (body : Option RegisterBody)
        (p : Option Bytes) (w : W)
        → ((w' : W) (resp : Response)
            → send ctx (record { method = method; url = url; body = body; token = cfg.token }) w
              ≡ (ok resp, w')
            → leb 400 resp.status ≡ false
            → pointer w' ≡ p)
        → Ends
            (do_request t cfg ctx method url body tt (λ _. ok tt))
            w
            (λ u w'. pointer w' ≡ p)
            (λ e w'. pointer w' ≡ pointer w)
    unfolding do_request
    request-Ends ctx method url body p w h =
        let req : Request Url = record {
          method = method;
          url = url;
          body = body;
          token = cfg.token;
        } in
        Ends-bind (send ctx req) _ w (λ resp w'. send ctx req w ≡ (ok resp, w')) _ _
          (Ends-of_runs (send ctx req) w _ _ (λ resp w' r. r)
            (λ e w' r. s.unanswered ctx req w w' e r))
          λ resp w' r. answered-Ends ctx method url p w w' req resp r (h w' resp r)

    pub drop-Ends :
        (ctx : Context) (w : W)
        → Ends
            (drop_table t cfg at ctx id)
            w
            (λ u w'. pointer w' ≡ none)
            (λ e w'. pointer w' ≡ pointer w)
    unfolding drop_table
    drop-Ends ctx w =
        request-Ends ctx delete_method (drop_request cfg at id).url none none w
          (λ w' resp. s.dropped ctx w w' resp)

    pub register-Ends :
        (ctx : Context) (location : Bytes) (overwrite : Bool) (w : W)
        → Ends
            (register_table t cfg at ctx id location overwrite)
            w
            (λ u w'. pointer w' ≡ some location)
            (λ e w'. pointer w' ≡ pointer w)
    unfolding register_table
    register-Ends ctx location overwrite w =
        request-Ends ctx post_method (register_request cfg at id location overwrite).url
          (register_request cfg at id location overwrite).body (some location) w
          (λ w' resp. s.registered ctx location overwrite w w' resp)
