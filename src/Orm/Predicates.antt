-- ===== src/Orm/Predicates.antt =====
-- crates/sutegi-orm/src/builder.rs: the conditions of a query, and the clause with its parameters.
use sutegi.Base.{Bool, List, [], ◌∷◌, ◌++◌, map, Bytes, codes, if◌then◌else◌}
use sutegi.Orm.{
  Value, int, real, bool, text, Dialect, sqlite, postgres, unsupported, Result, ok, err, ◌>>=◌,
  join_with,
}
use sutegi.Orm.Path.{JsonSeg, sqlite_json_path, pg_json_path_array}

abbrev pub Cmp : Type 0
Cmp = Bytes × Bytes × Value

pub data Predicate : Type 0 where
  cmp : Cmp → Predicate
  in_list : Bytes → List Value → Predicate
  is_null : Bytes → Bool → Predicate
  or_group : List Cmp → Predicate
  raw : Bytes → List Value → Predicate
  json_cmp : Bytes → List JsonSeg → Bytes → Value → Predicate
  json_contains : Bytes → Value → Predicate

abbrev pub Sql : Type 0
Sql = Bytes × List Value

unfoldable pub cmp_sql : Cmp → Bytes
cmp_sql (c, op, v) = c ++ codes " " ++ op ++ codes " ?"

-- The left side is cast by the type of the value.
unfoldable pub pg_lhs : Bytes → Value → Bytes
pg_lhs col (int n) = codes "(" ++ col ++ codes " #>> ?)::numeric"
pg_lhs col (real r) = codes "(" ++ col ++ codes " #>> ?)::numeric"
pg_lhs col (bool b) = codes "(" ++ col ++ codes " #>> ?)::boolean"
pg_lhs col v = col ++ codes " #>> ?"

unfoldable pub json_cmp_sql : Dialect → Bytes → List JsonSeg → Bytes → Value → Sql
json_cmp_sql sqlite col segs op v = (
  codes "json_extract(" ++ col ++ codes ", ?) " ++ op ++ codes " ?",
  text (sqlite_json_path segs) ∷ v ∷ [],
)
json_cmp_sql postgres col segs op v =
    (pg_lhs col v ++ codes " " ++ op ++ codes " ?", text (pg_json_path_array segs) ∷ v ∷ [])

unfoldable pub json_contains_sql : Dialect → Bytes → Value → Result Sql
json_contains_sql sqlite col v = err (unsupported (codes "json_contains") (codes "sqlite"))
json_contains_sql postgres col v = ok (col ++ codes " @> ?::jsonb", v ∷ [])

abbrev pub mark_of : Value → Bytes
mark_of v = codes "?"

unfoldable pub in_sql : Bytes → List Value → Bytes
in_sql c [] = codes "0 = 1"
in_sql c (v ∷ values) =
    c ++ codes " IN (" ++ join_with (codes ", ") (map mark_of (v ∷ values)) ++ codes ")"

unfoldable pub or_sql : List Cmp → Bytes
or_sql [] = codes "0 = 1"
or_sql (g ∷ group) = codes "(" ++ join_with (codes " OR ") (map cmp_sql (g ∷ group)) ++ codes ")"

-- A condition's clause, and the parameters that it adds.
unfoldable pub clause : Dialect → Predicate → Result Sql
clause d (cmp (c, op, v)) = ok (cmp_sql (c, op, v), v ∷ [])
clause d (in_list c values) = ok (in_sql c values, values)
clause d (is_null c null) =
    ok (c ++ codes " IS " ++ (if null then [] else codes "NOT ") ++ codes "NULL", [])
clause d (or_group group) = ok (or_sql group, map (λ g. g.2) group)
clause d (raw frag ps) = ok (codes "(" ++ frag ++ codes ")", ps)
clause d (json_cmp col segs op v) = ok (json_cmp_sql d col segs op v)
clause d (json_contains col v) = json_contains_sql d col v

unfoldable pub clauses : Dialect → List Predicate → Result (List Bytes × List Value)
clauses d [] = ok ([], [])
clauses d (p ∷ preds) =
    clause d p >>= λ one. clauses d preds >>= λ more. ok (one.0 ∷ more.0, one.1 ++ more.1)

unfoldable pub render_predicates : Dialect → List Predicate → Result Sql
render_predicates d [] = ok ([], [])
render_predicates d (p ∷ preds) =
    clauses d (p ∷ preds) >>= λ all. ok (codes " WHERE " ++ join_with (codes " AND ") all.0, all.1)
