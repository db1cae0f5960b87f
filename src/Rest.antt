-- ===== src/Rest.antt =====
-- internal/catalog/rest/rest.go: the HTTP layer and the state of the client. net/http, net/url and
-- the decoding of JSON responses are a parameter.
pub mod Requests
pub mod Server
pub mod Loading
pub mod Swap
pub mod Implementation
pub mod Rollback
pub mod Sends
use bergrebase.Base.{
  Action, Bool, Bytes, Error, List, Option, Result, [], as_http, codes, contains, err, false, http,
  if◌then◌else◌, int_eq, leb, lift, list_eq, ltb, nat_eq, none, ok, some, suc, zero, ℕ, ℤ, ◌&&◌,
  ◌==◌, ◌>>=◌, ◌>>◌, ◌||◌, ◌∷◌,
}
use bergrebase.Catalog.{Namespace, Identifier}

pub data Method : Type 0 where
  get_method delete_method post_method : Method

-- Whose cancellation a request follows: the caller's, or that of `swapCtx`, which the caller's
-- cancellation does not reach.
pub data Context : Type 0 where
  caller detached : Context

-- The body of a register request.
pub record RegisterBody : Type 0 where
  pub name : Bytes
  pub metadata_location : Bytes

pub record Response : Type 0 where
  pub status : ℕ
  pub content : Bytes

-- `configResponse`
pub record ConfigResponse : Type 0 where
  pub defaults : List (Bytes × Bytes)
  pub overrides : List (Bytes × Bytes)
  pub prefix : Bytes

-- `loadResponse`
pub record LoadResponse : Type 0 where
  pub metadata_location : Bytes
  pub current_snapshot_id : Option ℤ

pub record Request (Url : Type 0) : Type 0 where
  pub method : Method
  pub url : Url
  pub body : Option RegisterBody
  pub token : Bytes

pub record Transport (W : Type 0) : Type 1 where
  pub Url : Type 0
  pub parse_url : Bytes → Result Url
  pub join_path : Url → List Bytes → Url
  pub set_query : Url → List (Bytes × Bytes) → Url
  pub url_path : Url → Bytes
  pub path_escape : Bytes → Bytes
  pub path_join : List Bytes → Bytes
  pub trim_space : Bytes → Bytes
  pub send : Context → Request Url → Action W Response
  pub decode_config : Bytes → Result ConfigResponse
  pub decode_namespaces : Bytes → Result (List Namespace)
  pub decode_tables : Bytes → Result (List Identifier)
  pub decode_load : Bytes → Result LoadResponse

-- `swapMode`
pub data SwapMode : Type 0 where
  mode_unknown mode_atomic mode_drop_register : SwapMode

-- `Config`; the HTTP client is part of the transport
pub record Config : Type 0 where
  pub uri : Bytes
  pub warehouse : Bytes
  pub token : Bytes

-- `isAlreadyExists`
unfoldable pub is_already_exists : Error → Bool
unfolding as_http contains
is_already_exists e = elim (as_http e) [
  | none ↦ false
  | some h ↦
      h.status == 409
      || ((leb 400 h.status && ltb h.status 500)
          && contains h.body (codes "AlreadyExistsException"))
]

-- `isBadRequest`
unfoldable pub is_bad_request : Error → Bool
unfolding as_http
is_bad_request e = elim (as_http e) [ none ↦ false | some h ↦ h.status == 400 ]

-- the first bytes of an error response
unfoldable pub first_bytes : ℕ → Bytes → Bytes
first_bytes zero s = []
first_bytes (suc n) [] = []
first_bytes (suc n) (c ∷ s) = c ∷ first_bytes n s

unfoldable pub method_name : Method → Bytes
method_name get_method = codes "GET"
method_name delete_method = codes "DELETE"
method_name post_method = codes "POST"

-- `strings.TrimRight(s, "/")`
unfoldable pub trim_slashes : Bytes → Bytes
trim_slashes [] = []
trim_slashes (c ∷ s) = keep c (trim_slashes s)
  where
    keep : ℕ → Bytes → Bytes
    keep d [] = if d == 47 then [] else d ∷ []
    keep d (e ∷ rest) = d ∷ e ∷ rest

module _ {W : Type 0} (t : Transport W) where
  open t use {Url, send, url_path, trim_space}

  -- `Client`: the configuration, what `once.Do` left, and the cached swap mode.
  pub record Client : Type 0 where
    pub cfg : Config
    pub ready : Option (Result (Url × Bytes))
    pub swap_mode : SwapMode

  unfoldable pub new : Config → Client
  new cfg = record { cfg = cfg; ready = none; swap_mode = mode_unknown }

  -- a call of the transport, which does not touch the client
  unfoldable pub call : {A : Type 0} → Action W A → Action (Client × W) A
  call m (c, w) = let (r, w') = m w in (r, (c, w'))

  -- the error for a response of status 400 or more
  unfoldable pub http_error : Method → Url → Response → Error
  unfolding first_bytes method_name
  http_error method u resp = http (record {
    method = method_name method;
    path = url_path u;
    status = resp.status;
    body = trim_space (first_bytes 8192 resp.content);
  })

  -- what `do` makes of a response; `blank` is the value of `out` before the call
  unfoldable pub read_response :
      {A : Type 0} → Method → Url → A → (Bytes → Result A) → Response → Result A
  unfolding http_error
  read_response method u blank decode resp =
      if leb 400 resp.status
      then err (http_error method u resp)
      else if resp.status == 204
      then ok blank
      else decode resp.content

  -- `c.do`; a call without `out` decodes nothing
  unfoldable pub do_request :
      {A : Type 0}
      → Config
      → Context
      → Method
      → Url
      → Option RegisterBody
      → A
      → (Bytes → Result A)
      → Action W A
  unfolding read_response
  do_request cfg ctx method u body blank decode = do
    resp ← send ctx (record { method = method; url = u; body = body; token = cfg.token })
    lift (read_response method u blank decode resp)
