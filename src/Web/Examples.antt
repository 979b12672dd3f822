-- ===== src/Web/Examples.antt =====
-- crates/sutegi-web: the router and the service at concrete inputs.
use sutegi.Base.{
  Bool, inl, inr, ◌≡◌, ◌↔◌, refl, true, false, none, some, List, [], ◌∷◌, Bytes, codes, arith, any,
  bytes_eq, starts_with,
}
use sutegi.Http.{Method, same_method, as_str, Request}
use sutegi.Web.Router.{
  Seg, lit, param, rest, Params, split_segments, split_slash, match_segs, trim_matches, trim_start,
  trim_end, split_from, has_rest, match_loop, insert,
}
use sutegi.Web.Router.Matching.{Matches, insert_all, match_segs_iff}
use sutegi.Web.Form.{decode_bytes}
use sutegi.Web.Form.Escapes.{Encodes, decode_bytes-Encodes}
use sutegi.Web.Service.{
  Call, Middleware, Route, App, text, dispatch, Metrics, match_route, first_responder, starts_ops,
  route_request, operational, past_guard,
}
use sutegi.Web.Service.Guard.{Padded, is_probe, dispatch_refused}
use sutegi.Web.Service.Dispatch.{Chosen, match_route-Chosen, is_handler, Handled, dispatch-Handled}
use sutegi.Web.Service.Counters.{IsBalanced, serve_all, serve_all-counts}

abbrev refuse_all : Middleware
refuse_all req = some (text 401 (codes "nope"))

abbrev item : Route
item = record {
  method = Method.get;
  segs = lit (codes "items") ∷ param (codes "id") ∷ [];
  handler = λ req params. text 200 (codes "item");
  middleware = [];
}

abbrev tool : Route
tool = record item {
  method = Method.post;
  segs = lit (codes "__tools") ∷ param (codes "name") ∷ [];
}

abbrev app : App
app = record {
  routes = item ∷ tool ∷ [];
  middleware = (λ req. none) ∷ [];
  ops_guard = some refuse_all;
  readiness = none;
  after = [];
  access_log = none;
  metrics_text = [];
  recent_logs = λ req. [];
  introspect = codes "{}";
}

abbrev get_of : Bytes → Request
get_of path = record {
  method = Method.get;
  path = path;
  query = [];
  version = codes "HTTP/1.1";
  headers = [];
  body = [];
  peer = none;
}

abbrev tool_request : Request
tool_request = record (get_of (codes "//__tools/x/")) { method = Method.post }

tool_is_ops : starts_ops (split_segments (codes "/__tools/x")) ≡ true
unfolding starts_ops split_segments split_slash split_from trim_matches trim_start trim_end
    starts_with
tool_is_ops = refl

tool_is_no_probe : is_probe tool_request.path ≡ false
unfolding bytes_eq
tool_is_no_probe = refl

dispatch_refused_example : dispatch app tool_request ≡ (text 401 (codes "nope"), Call.on_guard ∷ [])
dispatch_refused_example =
    dispatch_refused app tool_request (codes "/__tools/x") refuse_all (text 401 (codes "nope"))
      (Padded.before (Padded.after Padded.same)) tool_is_ops tool_is_no_probe refl refl

item_handled : any is_handler (dispatch app (get_of (codes "/items/7"))).1 ≡ true
unfolding dispatch starts_ops split_segments split_slash split_from trim_matches trim_start trim_end
    starts_with bytes_eq past_guard operational route_request first_responder match_route
    same_method as_str match_segs match_loop has_rest insert
item_handled = refl

dispatch-Handled_example :
    Handled app (get_of (codes "/items/7")) (dispatch app (get_of (codes "/items/7"))).0
dispatch-Handled_example = dispatch-Handled app (get_of (codes "/items/7")) item_handled

match_route-Chosen_example :
    Chosen
      (item ∷ tool ∷ [])
      Method.get
      (codes "items" ∷ codes "7" ∷ [])
      (match_route (item ∷ tool ∷ []) Method.get (codes "items" ∷ codes "7" ∷ []))
match_route-Chosen_example =
    match_route-Chosen (item ∷ tool ∷ []) Method.get (codes "items" ∷ codes "7" ∷ [])

abbrev zeros : Metrics
zeros = record { total = 0; in_flight = 0; c2xx = 0; c4xx = 0; c5xx = 0; other = 0 }

-- The handler of the second request panics.
abbrev panics : Request → Bool
panics req = same_method req.method Method.get

serve_all-counts_example :
    IsBalanced (serve_all panics app (tool_request ∷ get_of [] ∷ []) zeros)
    × ((serve_all panics app (tool_request ∷ get_of [] ∷ []) zeros).total ≡ 1)
    × ((serve_all panics app (tool_request ∷ get_of [] ∷ []) zeros).in_flight ≡ 1)
unfolding same_method as_str bytes_eq
serve_all-counts_example =
    serve_all-counts panics app (tool_request ∷ get_of [] ∷ []) zeros
      (record { counted = refl; flying = omega arith })

abbrev file_pattern : List Seg
file_pattern = lit (codes "files") ∷ param (codes "user") ∷ rest (codes "path") ∷ []

abbrev file_path : List Bytes
file_path = codes "files" ∷ codes "ann" ∷ codes "a" ∷ codes "b" ∷ []

abbrev file_params : Params
file_params = (codes "user", codes "ann") ∷ (codes "path", codes "a/b") ∷ []

match_segs_iff_example :
    (match_segs file_pattern file_path ≡ some file_params)
    ↔ ((bs : Params) × Matches file_pattern file_path bs × (file_params ≡ insert_all bs []))
match_segs_iff_example = match_segs_iff file_pattern file_path file_params refl

-- `a b&` as `a+b%26`.
ampersand : Encodes (codes "a+b%26") (codes "a b&")
ampersand =
    Encodes.plain b'a' (λ e. absurd (let no : ⊥ = omega arith in no))
      (λ e. absurd (let no : ⊥ = omega arith in no))
      (Encodes.space (
        Encodes.plain b'b' (λ e. absurd (let no : ⊥ = omega arith in no))
          (λ e. absurd (let no : ⊥ = omega arith in no))
          (Encodes.escaped b'&' b'2' b'6' (inl refl) (inr refl) Encodes.done)))

decode_bytes-Encodes_example : decode_bytes (codes "a+b%26") ≡ codes "a b&"
decode_bytes-Encodes_example =
    decode_bytes-Encodes {e = codes "a+b%26"} {s = codes "a b&"} ampersand
