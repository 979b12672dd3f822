-- ===== src/Orm/Builder/Builds.antt =====
-- crates/sutegi-orm/src/builder.rs: the query that accepted methods build.
use sutegi.Base.{◌≡◌, refl, false, none, List, [], ◌∷◌, ◌++◌, All, Bytes, codes}
use sutegi.Orm.{Dialect, sqlite, postgres, Result, ok, err, ◌>>=◌}
use sutegi.Orm.Predicates.{
  Predicate, cmp, in_list, is_null, or_group, raw, json_cmp, json_contains, Sql, json_contains_sql,
  clause, clauses, render_predicates,
}
use sutegi.Orm.Builder.{new_query}
use sutegi.Orm.Builder.Methods.{QueryMethod, calls}
use sutegi.Orm.Builder.Render.{build_for}
use sutegi.Orm.Builder.Accepted.{
  Valid, AllAccepted, Renders, IsReady, ident, calls-IsReady, sqlite_only,
}

abbrev Is : {A : Type 0} → Result A → Type 0
Is {A} r = (a : A) × (r ≡ ok a)

bind : {A B : Type 0} {f : A → Result B} (r : Result A) → Is r → ((a : A) → Is (f a)) → Is (r >>= f)
bind (ok b) h k = k b
bind (err e) (a, h) k = cc

clause-Is : (d : Dialect) (p : Predicate) → Renders d p → Is (clause d p)
unfolding clause json_contains_sql
clause-Is d (cmp (c, op, v)) h = (_, refl)
clause-Is d (in_list c vs) h = (_, refl)
clause-Is d (is_null c b) h = (_, refl)
clause-Is d (or_group group) h = (_, refl)
clause-Is d (raw frag ps) h = (_, refl)
clause-Is d (json_cmp col segs op v) h = (_, refl)
clause-Is sqlite (json_contains col v) h = absurd (sqlite_only h)
clause-Is postgres (json_contains col v) h = (_, refl)

clauses-Is : (d : Dialect) (preds : List Predicate) → All (Renders d) preds → Is (clauses d preds)
unfolding clauses
clauses-Is d [] h = (_, refl)
clauses-Is d (p ∷ preds) (h, more) =
    let (one, e) = clause-Is d p h in
    let (others, f) = clauses-Is d preds more in ((one.0 ∷ others.0, one.1 ++ others.1), rw (e, f))

render_predicates-Is :
    (d : Dialect) (preds : List Predicate) → All (Renders d) preds → Is (render_predicates d preds)
unfolding render_predicates
render_predicates-Is d [] h = (_, refl)
render_predicates-Is d (p ∷ preds) h =
    bind (clauses d (p ∷ preds)) (clauses-Is d (p ∷ preds) h) (λ all. (_, refl))

-- A query on a valid table is built, where the methods called on it are accepted.
pub build_for-Accepted :
    (d : Dialect) (table : Bytes) (methods : List QueryMethod)
    → Valid table
    → AllAccepted d false methods
    → (s : Sql) × (build_for d (calls methods (new_query table)) ≡ ok s)
unfolding build_for new_query
build_for-Accepted d table methods t a =
    let start : IsReady d false (new_query table) = record {
      no_fault = ident (codes "table") table none refl t;
      lock = λ h. cc;
      renders = tt;
    } in
    let (b, r) = calls-IsReady false methods (new_query table) a start in
    rw (r.no_fault, build_for)
      (bind (render_predicates d (calls methods (new_query table)).preds)
        (render_predicates-Is d (calls methods (new_query table)).preds r.renders) (λ w. (_, refl)))
