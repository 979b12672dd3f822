-- ===== src/Web/Service.antt =====
-- crates/sutegi-web/src/lib.rs: what happens to one request, `into_service`. The closures of the
-- application are functions of the request, and `Call` says which of them ran. The access log, the
-- metrics text and the introspection document come from elsewhere.
pub mod Guard
pub mod Dispatch
pub mod Counters
use sutegi.Base.{
  ℕ, zero, suc, ◌+◌, ◌-◌, Bool, true, false, not, ◌&&◌, ◌||◌, Option, none, some, List, [], ◌∷◌,
  ◌++◌, Bytes, ◌==◌, if◌then◌else◌, length, codes, bytes_eq, starts_with,
}
use Prim.Native.Nat.{◌/◌, ◌%◌, ◌^◌}
use sutegi.Http.{Method, same_method, Request, Response, new_response, with_header, with_body}
use sutegi.Web.Router.{Seg, Params, split_segments, match_segs}

pub data Call : Type 0 where
  on_guard on_middleware on_route_middleware on_handler : Call

-- A middleware answers the request or passes it on.
abbrev pub Middleware : Type 0
Middleware = Request → Option Response

pub record Route : Type 0 where
  pub method : Method
  pub segs : List Seg
  pub handler : Request → Params → Response
  pub middleware : List Middleware

pub record App : Type 0 where
  pub routes : List Route
  pub middleware : List Middleware
  pub ops_guard : Option Middleware
  pub readiness : Option Bool
  pub after : List (Request → Response → Response)
  pub access_log : Option (Request → Response → Response)
  pub metrics_text : Bytes
  pub recent_logs : Request → Bytes
  pub introspect : Bytes

unfoldable pub text : ℕ → Bytes → Response
text status body = with_body body (new_response status)

-- `json`, of a value that is written out already.
unfoldable pub json : ℕ → Bytes → Response
json status body = with_body body (
    with_header (codes "content-type") (codes "application/json; charset=utf-8")
      (new_response status))

unfoldable pub not_found : Response
not_found = text 404 (codes "404 Not Found")

unfoldable pub match_route : List Route → Method → List Bytes → Option (Route × Params)
match_route [] method segs = none
match_route (r ∷ routes) method segs =
    let later = match_route routes method segs in
    if not (same_method r.method method)
    then later
    else elim (match_segs r.segs segs) [ none ↦ later | some params ↦ some (r, params) ]

-- `routes.iter().any(|r| match_segs(..).is_some())`.
unfoldable pub any_route : List Route → List Bytes → Bool
any_route [] segs = false
any_route (r ∷ routes) segs =
    let later = any_route routes segs in
    elim (match_segs r.segs segs) [ none ↦ later | some params ↦ true ]

abbrev pub Run : Type 0
Run = Response × List Call

-- The first responder wins; `next` runs where every one passes.
unfoldable pub first_responder :
    Call → List Middleware → Request → List Call → (List Call → Run) → Run
first_responder c [] req calls next = next calls
first_responder c (mw ∷ mws) req calls next =
    let later = first_responder c mws req (calls ++ c ∷ []) next in
    elim (mw req) [ none ↦ later | some resp ↦ (resp, calls ++ c ∷ []) ]

unfoldable pub starts_ops : List Bytes → Bool
starts_ops [] = false
starts_ops (s ∷ segs) = starts_with (codes "__") s

unfoldable pub route_request : App → Request → List Call → Run
route_request app req calls = elim (match_route app.routes req.method (split_segments req.path)) [
  | some (route, params) ↦
      first_responder Call.on_route_middleware route.middleware req calls
        (λ calls. (route.handler req params, calls ++ Call.on_handler ∷ []))
  | none ↦
      if any_route app.routes (split_segments req.path)
      then (text 405 (codes "405 Method Not Allowed"), calls)
      else (not_found, calls)
]

-- The operational endpoints, then the route table.
unfoldable pub operational : App → Request → List Call → Run
operational app req calls =
    if bytes_eq req.path (codes "/__metrics")
    then (
      with_body app.metrics_text (
          with_header (codes "content-type") (codes "text/plain; version=0.0.4")
            (new_response 200)),
      calls,
    )
    else if bytes_eq req.path (codes "/__logs")
        && elim app.ops_guard [ none ↦ false | some g ↦ true ]
    then (json 200 (app.recent_logs req), calls)
    else if bytes_eq req.path (codes "/__introspect")
    then (json 200 app.introspect, calls)
    else route_request app req calls

unfoldable pub past_guard : App → Request → List Call → Run
past_guard app req calls =
    first_responder Call.on_middleware app.middleware req calls (operational app req)

unfoldable pub run_guard : App → Request → Run
run_guard app req = elim app.ops_guard [
  | none ↦ past_guard app req []
  | some guard ↦ elim (guard req) [
    | some resp ↦ (resp, Call.on_guard ∷ [])
    | none ↦ past_guard app req (Call.on_guard ∷ [])
  ]
]

unfoldable pub is_ready : Option Bool → Bool
is_ready none = true
is_ready (some b) = b

unfoldable pub ready_response : Bool → Response
ready_response true = json 200 (codes "{\"status\":\"ready\"}")
ready_response false = json 503 (codes "{\"status\":\"not ready\"}")

-- The inner closure of the service.
unfoldable pub dispatch : App → Request → Run
dispatch app req =
    if bytes_eq req.path (codes "/__health")
    then (json 200 (codes "{\"status\":\"ok\"}"), [])
    else if bytes_eq req.path (codes "/__ready")
    then (ready_response (is_ready app.readiness), [])
    else if starts_ops (split_segments req.path)
    then run_guard app req
    else past_guard app req []

unfoldable pub run_after : List (Request → Response → Response) → Request → Response → Response
run_after [] req resp = resp
run_after (hook ∷ hooks) req resp = run_after hooks req (hook req resp)

unfoldable pub finish_log : Option (Request → Response → Response) → Request → Response → Response
finish_log none req resp = resp
finish_log (some log) req resp = log req resp

-- The counters are 64-bit words.
pub record Metrics : Type 0 where
  pub total : ℕ
  pub in_flight : ℕ
  pub c2xx : ℕ
  pub c4xx : ℕ
  pub c5xx : ℕ
  pub other : ℕ

abbrev pub bump : ℕ → ℕ
bump n = (n + 1) % 2 ^ 64

unfoldable pub record_status : ℕ → Metrics → Metrics
record_status status m =
    let counted = record m { total = bump m.total } in
    if status / 100 == 2
    then record counted { c2xx = bump m.c2xx }
    else if status / 100 == 4
    then record counted { c4xx = bump m.c4xx }
    else if status / 100 == 5
    then record counted { c5xx = bump m.c5xx }
    else record counted { other = bump m.other }

unfoldable pub enter : Metrics → Metrics
enter m = record m { in_flight = bump m.in_flight }

unfoldable pub leave : Metrics → Metrics
leave m = record m { in_flight = (m.in_flight + (2 ^ 64 - 1)) % 2 ^ 64 }

-- One call of the service. `panics` says for which requests a closure of the application that runs panics; then there
-- is no response, and what stands behind the call of it is not done.
unfoldable pub service : (Request → Bool) → App → Request → Metrics → Option Response × Metrics
service panics app req m =
    let resp = finish_log app.access_log req (run_after app.after req (dispatch app req).0) in
    if panics req then (none, enter m) else (some resp, leave (record_status resp.status (enter m)))

-- A worker of the server catches the panic and goes on.
unfoldable pub caught : Option Response → Response
caught none = with_body (codes "500 Internal Server Error") (new_response 500)
caught (some resp) = resp

-- What a worker answers, and the counters behind it.
unfoldable pub serve : (Request → Bool) → App → Request → Metrics → Response × Metrics
serve panics app req m = let (resp, m') = service panics app req m in (caught resp, m')
