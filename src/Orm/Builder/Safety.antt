-- ===== src/Orm/Builder/Safety.antt =====
-- crates/sutegi-orm/src/builder.rs: the text of a query that any methods built.
use sutegi.Base.{
  ◌≡◌, refl, sym, arith, Option, none, some, List, ◌++◌, map, All, length-append, length-map, Bytes,
  codes,
}
use sutegi.Orm.{Dialect, Error, Result, ok, err, ◌>>=◌}
use sutegi.Orm.Predicates.{Sql, render_predicates}
use sutegi.Orm.Builder.{QueryBuilder, new_query}
use sutegi.Orm.Builder.Render.{
  build_from_and_joins, json_param, select_sql, build_for, build_count_for,
}
use sutegi.Orm.Builder.Kept.{IsSafe, IsValid, new_query-IsValid}
use sutegi.Orm.Builder.Methods.{QueryMethod, calls, Allowed, calls-IsValid}
use sutegi.Orm.Builder.Shown.{from-Marked, select_sql-Marked}
use sutegi.Orm.Marks.{lit, recount, ◌<>◌}
use sutegi.Orm.Marks.Clauses.{MarkedSql, Yields, render_predicates-Marked}

build_for-Marked : (d : Dialect) (q : QueryBuilder) → IsValid q → Yields MarkedSql (build_for d q)
unfolding build_for
build_for-Marked d q v = built q.fault v
  where
    rendered :
        (r : Result Sql)
        → IsSafe q
        → Yields MarkedSql r
        → Yields MarkedSql
            (r >>= λ w. ok (select_sql d q w.0, map (json_param d) q.json_selects ++ w.1))
    rendered (err e) s h = tt
    rendered (ok w) s h =
        recount
          (sym (
            omega (
              arith,
              length-append (map (json_param d) q.json_selects) w.1,
              length-map q.json_selects (json_param d),
            )))
          (select_sql-Marked d q w.0 s h)

    built :
        (f : Option Error)
        → (f ≡ none → IsSafe q)
        → Yields MarkedSql (elim f [
          | some e ↦ err e
          | none ↦ render_predicates d q.preds >>= λ w.
              ok (select_sql d q w.0, map (json_param d) q.json_selects ++ w.1)
        ])
    built (some e) g = tt
    built none g =
        rendered (render_predicates d q.preds) (g refl)
          (render_predicates-Marked d q.preds (g refl).preds_ok)

build_count_for-Marked :
    (d : Dialect) (q : QueryBuilder) → IsValid q → Yields MarkedSql (build_count_for d q)
unfolding build_count_for
build_count_for-Marked d q v = counted q.fault v
  where
    rendered :
        (r : Result Sql)
        → IsSafe q
        → Yields MarkedSql r
        → Yields MarkedSql (
            r >>= λ w.
            ok (codes "SELECT COUNT(*) AS count FROM " ++ build_from_and_joins q ++ w.0, w.1))
    rendered (err e) s h = tt
    rendered (ok w) s h =
        recount (omega arith)
          (lit (codes "SELECT COUNT(*) AS count FROM ") refl <> from-Marked q s <> h)

    counted :
        (f : Option Error)
        → (f ≡ none → IsSafe q)
        → Yields MarkedSql (elim f [
          | some e ↦ err e
          | none ↦ render_predicates d q.preds >>= λ w.
              ok (codes "SELECT COUNT(*) AS count FROM " ++ build_from_and_joins q ++ w.0, w.1)
        ])
    counted (some e) g = tt
    counted none g =
        rendered (render_predicates d q.preds) (g refl)
          (render_predicates-Marked d q.preds (g refl).preds_ok)

-- A query that any methods built has, where it is built, as many `?` as parameters, and is clean: no quote,
-- backtick, `[` or `$`, which open a string or a quoted name, no `--` or `/*`, which open a comment, and no `;`.
-- So is the query that counts its rows. A raw fragment has to be so itself, with a `?` for each of its
-- parameters.
pub build_for-calls :
    (d : Dialect) (table : Bytes) (methods : List QueryMethod)
    → All Allowed methods
    → Yields MarkedSql (build_for d (calls methods (new_query table)))
      × Yields MarkedSql (build_count_for d (calls methods (new_query table)))
build_for-calls d table methods a =
    let v = calls-IsValid methods (new_query table) a (new_query-IsValid table) in
    (build_for-Marked d _ v, build_count_for-Marked d _ v)
