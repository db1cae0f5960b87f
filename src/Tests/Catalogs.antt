-- ===== src/Tests/Catalogs.antt =====
-- A catalog that refuses to register a table that it has.
use bergrebase.Base.{
  Action, Bytes, Ends, Error, Option, Result, [], ap, arith, codes, err, false, leb, length, none,
  ok, ok-injective, refl, some, sym, true, ℕ, ◌∙◌, ◌∷◌, ◌≡◌,
}
use bergrebase.Catalog.{Identifier}
use bergrebase.Catalog.Contract.{NotSwapped}
use bergrebase.Rest.{
  Method, get_method, delete_method, post_method, RegisterBody, LoadResponse, Response, Transport,
  Config, Client, mode_unknown,
}
use bergrebase.Rest.Server.{Serves}
use bergrebase.Rest.Swap.{swap_metadata_location, swap_by_drop_register}
use bergrebase.Rest.Swap.Pointer.{swap_by_drop_register-Ends}
use bergrebase.Rest.Swap.Exchange.{Exchanged, Refused, swap_metadata_location-Ends}

abbrev pub answer_of : ℕ → Bytes → Response
answer_of status content = record { status = status; content = content }

-- The world is the pointer.
unfoldable pub answer : Method → Option RegisterBody → Action (Option Bytes) Response
answer get_method body none = (ok (answer_of 404 []), none)
answer get_method body (some l) = (ok (answer_of 200 l), some l)
answer delete_method body p = (ok (answer_of 204 []), none)
answer post_method none p = (ok (answer_of 400 []), p)
answer post_method (some b) (some l) = (ok (answer_of 409 []), some l)
answer post_method (some b) none = (ok (answer_of 200 []), some b.metadata_location)

abbrev pub transport : Transport (Option Bytes)
transport = record {
  Url = Bytes;
  parse_url = λ u. ok u;
  join_path = λ u _. u;
  set_query = λ u _. u;
  url_path = λ u. u;
  path_escape = λ s. s;
  path_join = λ _. [];
  trim_space = λ s. s;
  send = λ _ req. answer req.method req.body;
  decode_config = λ _. ok (record { defaults = []; overrides = []; prefix = [] });
  decode_namespaces = λ _. ok [];
  decode_tables = λ _. ok [];
  decode_load = λ s. ok (record { metadata_location = s; current_snapshot_id = none });
}

abbrev pub table : Identifier
table = record { namespace = codes "db" ∷ []; name = codes "t" }

abbrev pub config : Config
config = record { uri = codes "http://c"; warehouse = codes "w"; token = [] }

abbrev pub base : Bytes × Bytes
base = (codes "http://c", [])

response_is :
    (r resp : Response) (p q : Option Bytes)
    → ◌≡◌ {A = Result Response × Option Bytes} (ok r, p) (ok resp, q)
    → (r ≡ resp) × (p ≡ q)
response_is r resp p q h = (
  ok-injective (ap (λ (x : Result Response × Option Bytes). x.0) h),
  ap (λ (x : Result Response × Option Bytes). x.1) h,
)

answer-err :
    (m : Method) (b : Option RegisterBody) (p q : Option Bytes) (e : Error)
    → answer m b p ≡ (err e, q)
    → ⊥
unfolding answer
answer-err get_method b none q e h = cc
answer-err get_method b (some l) q e h = cc
answer-err delete_method b p q e h = cc
answer-err post_method none p q e h = cc
answer-err post_method (some b) (some l) q e h = cc
answer-err post_method (some b) none q e h = cc

answer_refused :
    (m : Method) (b : Option RegisterBody) (p q : Option Bytes) (resp : Response)
    → answer m b p ≡ (ok resp, q)
    → leb 400 resp.status ≡ true
    → q ≡ p
unfolding answer
answer_refused get_method b none q resp h k = sym (response_is _ resp none q h).1
answer_refused get_method b (some l) q resp h k = sym (response_is _ resp (some l) q h).1
answer_refused delete_method b p q resp h k = absurd (cc (rw (← (response_is _ resp _ q h).0) at k))
answer_refused post_method none p q resp h k = sym (response_is _ resp p q h).1
answer_refused post_method (some b) (some l) q resp h k = sym (response_is _ resp (some l) q h).1
answer_refused post_method (some b) none q resp h k =
    absurd (cc (rw (← (response_is _ resp _ q h).0) at k))

answer_dropped :
    (p q : Option Bytes) (resp : Response) → answer delete_method none p ≡ (ok resp, q) → q ≡ none
unfolding answer
answer_dropped p q resp h = sym (response_is _ resp _ q h).1

answer_registered :
    (b : RegisterBody) (p q : Option Bytes) (resp : Response)
    → answer post_method (some b) p ≡ (ok resp, q)
    → leb 400 resp.status ≡ false
    → q ≡ some b.metadata_location
unfolding answer
answer_registered b (some l) q resp h k = absurd (cc (rw (← (response_is _ resp _ q h).0) at k))
answer_registered b none q resp h k = sym (response_is _ resp _ q h).1

answer_read :
    (p q : Option Bytes) (resp : Response) → answer get_method none p ≡ (ok resp, q) → q ≡ p
unfolding answer
answer_read none q resp h = sym (response_is _ resp _ q h).1
answer_read (some l) q resp h = sym (response_is _ resp _ q h).1

answer_reported :
    (p q : Option Bytes) (resp : Response)
    → answer get_method none p ≡ (ok resp, q)
    → leb 400 resp.status ≡ false
    → p ≡ some resp.content
unfolding answer
answer_reported none q resp h k = absurd (cc (rw (← (response_is _ resp _ q h).0) at k))
answer_reported (some l) q resp h k =
    ap (λ (r : Response). some r.content) (response_is _ resp _ q h).0

pub transport-Serves : Serves transport config base table (λ p. p)
transport-Serves = record {
  unanswered = λ ctx req w w' e h. absurd (answer-err req.method req.body w w' e h);
  refused = λ ctx req w w' resp h k. answer_refused req.method req.body w w' resp h k;
  dropped = λ ctx w w' resp h k. answer_dropped w w' resp h;
  registered = λ ctx l o w w' resp h k. answer_registered _ w w' resp h k;
  read = λ ctx w w' resp h. answer_read w w' resp h;
  reported = λ ctx w w' resp tbl h k l d.
      answer_reported w w' resp h k
      ∙ ap (λ (x : LoadResponse). some x.metadata_location) (ok-injective d);
}

abbrev pub client : Client transport
client = record { cfg = config; ready = some (ok base); swap_mode = mode_unknown }

swap_metadata_location-Ends_example :
    Ends
      (swap_metadata_location transport table (codes "a") (codes "bb"))
      (client, some (codes "a"))
      (Exchanged transport config base table
        (λ p. p)
        transport-Serves
        (codes "a")
        (codes "bb")
        (some (codes "a")))
      (Refused transport config base table
        (λ p. p)
        transport-Serves
        (codes "a")
        (codes "bb")
        (some (codes "a")))
swap_metadata_location-Ends_example =
    swap_metadata_location-Ends transport config base table (λ p. p) transport-Serves (codes "a")
      (codes "bb") client (some (codes "a")) (record { ready_at = refl; configured = refl })
      (λ h. omega (arith, ap length h))

swap_by_drop_register-Ends_example :
    Ends
      (swap_by_drop_register transport config base table (codes "a") (codes "bb"))
      (some (codes "a"))
      (λ u w'. w' ≡ some (codes "bb"))
      (λ e w'. NotSwapped (some (codes "a")) e w')
swap_by_drop_register-Ends_example =
    swap_by_drop_register-Ends transport config base table (λ p. p) transport-Serves (codes "a")
      (codes "bb") (some (codes "a")) refl
