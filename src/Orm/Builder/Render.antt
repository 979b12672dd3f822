-- ===== src/Orm/Builder/Render.antt =====
-- crates/sutegi-orm/src/builder.rs: the text of a SELECT and its parameters.
use sutegi.Base.{Bool, Option, none, some, List, [], ◌∷◌, ◌++◌, map, Bytes, codes, if◌then◌else◌}
use sutegi.Orm.{
  ℤ, Value, text, Dialect, sqlite, postgres, Result, ok, err, ◌>>=◌, show_int, join_with,
}
use sutegi.Orm.Path.{sqlite_json_path, pg_json_path_array}
use sutegi.Orm.Predicates.{Sql, render_predicates}
use sutegi.Orm.Builder.{JsonSelect, QueryBuilder}

unfoldable pub with_joins : Bytes → List Bytes → Bytes
with_joins s [] = s
with_joins s (j ∷ joins) = with_joins (s ++ b' ' ∷ j) joins

unfoldable pub build_from_and_joins : QueryBuilder → Bytes
build_from_and_joins q = with_joins q.table q.joins

unfoldable pub json_column : Dialect → JsonSelect → Bytes
json_column sqlite (col, segs, alias) = codes "json_extract(" ++ col ++ codes ", ?) AS " ++ alias
json_column postgres (col, segs, alias) = col ++ codes " #>> ? AS " ++ alias

unfoldable pub json_param : Dialect → JsonSelect → Value
json_param sqlite (col, segs, alias) = text (sqlite_json_path segs)
json_param postgres (col, segs, alias) = text (pg_json_path_array segs)

unfoldable pub named : List Bytes → List Bytes
named [] = codes "*" ∷ []
named (c ∷ cols) = c ∷ cols

unfoldable pub projection : Dialect → List Bytes → List JsonSelect → Bytes
projection d [] [] = codes "*"
projection d (c ∷ cols) [] = join_with (codes ", ") (c ∷ cols)
projection d cols (j ∷ selects) =
    join_with (codes ", ") (named cols ++ map (json_column d) (j ∷ selects))

unfoldable pub group_sql : List Bytes → Bytes
group_sql [] = []
group_sql (c ∷ cols) = codes " GROUP BY " ++ join_with (codes ", ") (c ∷ cols)

unfoldable pub order_term : Bytes × Bool → Bytes
order_term (c, desc) = c ++ codes " " ++ (if desc then codes "DESC" else codes "ASC")

unfoldable pub order_sql : List (Bytes × Bool) → Bytes
order_sql [] = []
order_sql (t ∷ terms) = codes " ORDER BY " ++ join_with (codes ", ") (map order_term (t ∷ terms))

unfoldable pub count_sql : Bytes → Option ℤ → Bytes
count_sql word none = []
count_sql word (some n) = word ++ show_int n

unfoldable pub select_sql : Dialect → QueryBuilder → Bytes → Bytes
select_sql d q where_sql =
    codes "SELECT "
    ++ (if q.distinct then codes "DISTINCT " else [])
    ++ projection d q.columns q.json_selects
    ++ codes " FROM "
    ++ build_from_and_joins q
    ++ where_sql
    ++ group_sql q.group_by
    ++ order_sql q.order
    ++ count_sql (codes " LIMIT ") q.limit
    ++ count_sql (codes " OFFSET ") q.offset

unfoldable pub build_for : Dialect → QueryBuilder → Result Sql
build_for d q = elim q.fault [
  | some e ↦ err e
  | none ↦ render_predicates d q.preds >>= λ w.
      ok (select_sql d q w.0, map (json_param d) q.json_selects ++ w.1)
]

unfoldable pub build : QueryBuilder → Result Sql
build = build_for sqlite

unfoldable pub build_count_for : Dialect → QueryBuilder → Result Sql
build_count_for d q = elim q.fault [
  | some e ↦ err e
  | none ↦ render_predicates d q.preds >>= λ w.
      ok (codes "SELECT COUNT(*) AS count FROM " ++ build_from_and_joins q ++ w.0, w.1)
]

unfoldable pub build_count : QueryBuilder → Result Sql
build_count = build_count_for sqlite
