-- ===== src/Web/Service/Guard.antt =====
-- crates/sutegi-web/src/lib.rs: what the guard of the operational surface stops.
use sutegi.Base.{
  ◌≡◌, refl, ◌∙◌, Bool, true, false, ◌||◌, some, [], ◌∷◌, ◌++◌, Bytes, codes, bytes_eq, if_rule,
  arith,
}
use sutegi.Http.{Request, Response}
use sutegi.Web.Router.{split_segments}
use sutegi.Web.Router.Laws.{split_segments_slashes}
use sutegi.Web.Service.{Call, Middleware, App, starts_ops, run_guard, dispatch}

-- `q` is `p` with slashes added at its ends.
pub data Padded (p : Bytes) : Bytes → Type 0 where
  same : Padded p p
  before : {q : Bytes} → Padded p q → Padded p (b'/' ∷ q)
  after : {q : Bytes} → Padded p q → Padded p (q ++ b'/' ∷ [])

Padded-split_segments : (p q : Bytes) → Padded p q → split_segments q ≡ split_segments p
Padded-split_segments p q Padded.same = refl
Padded-split_segments p _ (Padded.before {q} h) =
    (split_segments_slashes q).0 ∙ Padded-split_segments p q h
Padded-split_segments p _ (Padded.after {q} h) =
    (split_segments_slashes q).1 ∙ Padded-split_segments p q h

abbrev pub is_probe : Bytes → Bool
is_probe path = bytes_eq path (codes "/__health") || bytes_eq path (codes "/__ready")

-- A path whose first segment begins with `__`, with slashes added or not, that is no probe's path: if the
-- ops guard refuses the request, its response is the answer, and no middleware, route middleware or
-- handler runs.
pub dispatch_refused :
    (app : App) (req : Request) (p : Bytes) (guard : Middleware) (resp : Response)
    → Padded p req.path
    → starts_ops (split_segments p) ≡ true
    → is_probe req.path ≡ false
    → app.ops_guard ≡ some guard
    → guard req ≡ some resp
    → dispatch app req ≡ (resp, Call.on_guard ∷ [])
unfolding dispatch run_guard
dispatch_refused app req p guard resp pad ops probe set refused =
    let segs = Padded-split_segments p req.path pad in
    if_rule (λ r. r ≡ (resp, Call.on_guard ∷ [])) (bytes_eq req.path (codes "/__health")) _ _
      (λ e. cc)
      (λ _.
        if_rule (λ r. r ≡ (resp, Call.on_guard ∷ [])) (bytes_eq req.path (codes "/__ready")) _ _
          (λ e. grind arith) (λ _. rw (segs, ops, set, refused) refl))
