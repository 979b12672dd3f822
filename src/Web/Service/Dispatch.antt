-- ===== src/Web/Service/Dispatch.antt =====
-- crates/sutegi-web/src/lib.rs: which route answers, and when a handler runs.
use sutegi.Base.{
  ◌≡◌, ◌⊎◌, inl, inr, refl, ap, Bool, true, false, not, ◌&&◌, Option, none, some, List, [], ◌∷◌,
  ◌++◌, Bytes, codes, bytes_eq, All, any, if_rule, option_rule, arith,
}
use sutegi.Http.{Method, same_method, Request, Response}
use sutegi.Web.Router.{Params, split_segments, match_segs}
use sutegi.Web.Service.{
  Call, Middleware, Route, App, match_route, any_route, Run, first_responder, starts_ops,
  route_request, operational, past_guard, run_guard, dispatch,
}

-- A route that does not answer: another method, or no match.
abbrev pub Misses : Method → List Bytes → Route → Type 0
Misses method segs r = (same_method r.method method ≡ false) ⊎ (match_segs r.segs segs ≡ none)

-- What `match_route` returns, said of the table.
abbrev pub Chosen : List Route → Method → List Bytes → Option (Route × Params) → Type 0
Chosen routes method segs none = All (Misses method segs) routes
Chosen routes method segs (some (r, params)) =
    (earlier : List Route) × (later : List Route) × (routes ≡ earlier ++ r ∷ later)
    × All (Misses method segs) earlier
    × (same_method r.method method ≡ true)
    × (match_segs r.segs segs ≡ some params)

Chosen-later :
    (r : Route) (routes : List Route) (method : Method) (segs : List Bytes)
    (o : Option (Route × Params))
    → Misses method segs r
    → Chosen routes method segs o
    → Chosen (r ∷ routes) method segs o
Chosen-later r routes method segs none m c = (m, c)
Chosen-later r routes method segs (some (q, params)) m (earlier, later, e, missed, same, matched) =
    (r ∷ earlier, later, ap (λ rs. r ∷ rs) e, (m, missed), same, matched)

-- The first declared route with the request's method whose pattern matches is the one that is chosen; none
-- is chosen exactly where every route has another method or does not match.
pub match_route-Chosen :
    (routes : List Route) (method : Method) (segs : List Bytes)
    → Chosen routes method segs (match_route routes method segs)
unfolding match_route
match_route-Chosen [] method segs = tt
match_route-Chosen (r ∷ routes) method segs =
    let later = match_route-Chosen routes method segs in
    if_rule (Chosen (r ∷ routes) method segs) (not (same_method r.method method)) _ _
      (λ other. Chosen-later r routes method segs _ (inl (ground arith)) later)
      (λ mine.
        option_rule (Chosen (r ∷ routes) method segs) (match_segs r.segs segs) _ _
          (λ e. Chosen-later r routes method segs _ (inr e) later)
          (λ params e. ([], routes, refl, tt, ground arith, e)))

abbrev pub is_handler : Call → Bool
is_handler Call.on_handler = true
is_handler _ = false

abbrev pub Passes : Request → Middleware → Type 0
Passes req mw = mw req ≡ none

-- A handler answered the request, and everything before it let the request pass.
pub record Handled (app : App) (req : Request) (resp : Response) : Type 0 where
  pub route : Route
  pub params : Params
  pub chosen : match_route app.routes req.method (split_segments req.path) ≡ some (route, params)
  pub answer : resp ≡ route.handler req params
  pub passed : All (Passes req) app.middleware
  pub route_passed : All (Passes req) route.middleware
  pub guarded :
      (guard : Middleware)
      → starts_ops (split_segments req.path) ≡ true
      → app.ops_guard ≡ some guard
      → guard req ≡ none

abbrev Quiet : List Call → Type 0
Quiet calls = any is_handler calls ≡ false

Quiet-snoc :
    (calls : List Call) (c : Call) → is_handler c ≡ false → Quiet calls → Quiet (calls ++ c ∷ [])
Quiet-snoc [] c h q = ground arith
Quiet-snoc (d ∷ calls) c h q = ground (arith, Quiet-snoc calls c h)

-- A rule for `first_responder`: one of the chain answers, or all pass.
first_responder_rule :
    (P : Run → Type 0) (c : Call) (mws : List Middleware) (req : Request) (calls : List Call)
    (next : List Call → Run)
    → is_handler c ≡ false
    → Quiet calls
    → ((resp : Response) (more : List Call) → Quiet more → P (resp, more))
    → ((more : List Call) → Quiet more → All (Passes req) mws → P (next more))
    → P (first_responder c mws req calls next)
unfolding first_responder
first_responder_rule P c [] req calls next h q answer pass = pass calls q tt
first_responder_rule P c (mw ∷ mws) req calls next h q answer pass =
    option_rule P (mw req) _ _
      (λ e.
        first_responder_rule P c mws req (calls ++ c ∷ []) next h (Quiet-snoc calls c h q) answer
          (λ more r ps. pass more r (e, ps)))
      (λ resp _. answer resp (calls ++ c ∷ []) (Quiet-snoc calls c h q))

module _ (app : App) (req : Request) where
  abbrev Ok : Run → Type 0
  Ok run = any is_handler run.1 ≡ true → Handled app req run.0

  Quiet-Ok : (resp : Response) (calls : List Call) → Quiet calls → Ok (resp, calls)
  Quiet-Ok resp calls q h = cc

  past_guard-Ok :
      (calls : List Call)
      → Quiet calls
      → ((guard : Middleware)
          → starts_ops (split_segments req.path) ≡ true
          → app.ops_guard ≡ some guard
          → guard req ≡ none)
      → Ok (past_guard app req calls)
  unfolding past_guard operational route_request
  past_guard-Ok calls q guarded =
      first_responder_rule Ok Call.on_middleware app.middleware req calls (operational app req) refl
        q Quiet-Ok
        (λ more r passed.
          if_rule Ok (bytes_eq req.path (codes "/__metrics")) _ _ (λ _. Quiet-Ok _ more r)
            (λ _.
              if_rule Ok
                (bytes_eq req.path (codes "/__logs")
                  && elim app.ops_guard [ none ↦ false | some g ↦ true ])
                _ _ (λ _. Quiet-Ok _ more r)
                (λ _.
                  if_rule Ok (bytes_eq req.path (codes "/__introspect")) _ _
                    (λ _. Quiet-Ok _ more r)
                    (λ _.
                      option_rule Ok (match_route app.routes req.method (split_segments req.path)) _
                        _
                        (λ _.
                          if_rule Ok (any_route app.routes (split_segments req.path)) _ _
                            (λ _. Quiet-Ok _ more r) (λ _. Quiet-Ok _ more r))
                        (λ rp e.
                          first_responder_rule Ok Call.on_route_middleware rp.0.middleware req more
                            _ refl r Quiet-Ok
                            (λ _ _ ps _. record {
                              route = rp.0;
                              params = rp.1;
                              chosen = e;
                              answer = refl;
                              passed = passed;
                              route_passed = ps;
                              guarded = guarded;
                            }))))))

-- Where a handler runs, it is the chosen route's, its response is the answer, the whole middleware of the
-- application and of the route let the request pass, and so did the ops guard, if there is one and the
-- path's first segment begins with `__`.
pub dispatch-Handled :
    (app : App) (req : Request)
    → any is_handler (dispatch app req).1 ≡ true
    → Handled app req (dispatch app req).0
unfolding dispatch run_guard
dispatch-Handled app req =
    if_rule (Ok app req) (bytes_eq req.path (codes "/__health")) _ _
      (λ _. Quiet-Ok app req _ [] refl)
      (λ _.
        if_rule (Ok app req) (bytes_eq req.path (codes "/__ready")) _ _
          (λ _. Quiet-Ok app req _ [] refl)
          (λ _.
            if_rule (Ok app req) (starts_ops (split_segments req.path)) _ _
              (λ ops.
                option_rule (Ok app req) app.ops_guard _ _
                  (λ unset. past_guard-Ok app req [] refl (λ g _ e. cc))
                  (λ guard set.
                    option_rule (Ok app req) (guard req) _ _
                      (λ passes. past_guard-Ok app req _ refl (λ g _ e. grind arith))
                      (λ resp _. Quiet-Ok app req resp (Call.on_guard ∷ []) refl)))
              (λ plain. past_guard-Ok app req [] refl (λ g ops e. cc))))
