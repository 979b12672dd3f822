-- ===== src/Orm/Marks/Clauses.antt =====
-- crates/sutegi-orm/src/builder.rs: a clause has a placeholder for each of its parameters.
use sutegi.Base.{
  refl, sym, arith, true, false, List, [], ◌∷◌, ◌++◌, All, length, length-append, length-map, Bytes,
  codes,
}
use sutegi.Orm.{
  Value, null, int, real, bool, text, json, vector, Dialect, sqlite, postgres, Result, ok, err,
  ◌>>=◌, join_with,
}
use sutegi.Orm.Path.{JsonSeg}
use sutegi.Orm.Predicates.{
  Cmp, Predicate, cmp, in_list, is_null, or_group, raw, json_cmp, json_contains, Sql, cmp_sql,
  pg_lhs, json_cmp_sql, json_contains_sql, mark_of, in_sql, or_sql, clause, clauses,
  render_predicates,
}
use sutegi.Orm.Marks.{Marked, lit, recount, ◌<>◌}
use sutegi.Orm.Marks.Parts.{AllMarked, nothing, next, recount_all, AllMarked-each, join_with-Marked}

abbrev pub GoodCmp : Cmp → Type 0
GoodCmp c = Marked 0 c.0 × Marked 0 c.1

-- What a condition holds of names and operators; a raw fragment has a placeholder for each of its parameters.
abbrev pub GoodPred : Predicate → Type 0
GoodPred (cmp c) = GoodCmp c
GoodPred (in_list c values) = Marked 0 c
GoodPred (is_null c is) = Marked 0 c
GoodPred (or_group group) = All GoodCmp group
GoodPred (raw frag ps) = Marked (length ps) frag
GoodPred (json_cmp col segs op v) = Marked 0 col × Marked 0 op
GoodPred (json_contains col v) = Marked 0 col

cmp_sql-Marked : (c : Cmp) → GoodCmp c → Marked 1 (cmp_sql c)
unfolding cmp_sql
cmp_sql-Marked (c, op, v) (h, k) = h <> lit (codes " ") refl <> k <> lit (codes " ?") refl

pg_lhs-Marked : (col : Bytes) (v : Value) → Marked 0 col → Marked 1 (pg_lhs col v)
unfolding pg_lhs
pg_lhs-Marked col null h = h <> lit (codes " #>> ?") refl
pg_lhs-Marked col (int n) h = lit (codes "(") refl <> h <> lit (codes " #>> ?)::numeric") refl
pg_lhs-Marked col (real n) h = lit (codes "(") refl <> h <> lit (codes " #>> ?)::numeric") refl
pg_lhs-Marked col (text n) h = h <> lit (codes " #>> ?") refl
pg_lhs-Marked col (bool n) h = lit (codes "(") refl <> h <> lit (codes " #>> ?)::boolean") refl
pg_lhs-Marked col (json n) h = h <> lit (codes " #>> ?") refl
pg_lhs-Marked col (vector n) h = h <> lit (codes " #>> ?") refl

-- A text with a placeholder for each of its parameters.
abbrev pub MarkedSql : Sql → Type 0
MarkedSql s = Marked (length s.1) s.0

json_cmp_sql-Marked :
    (d : Dialect) (col : Bytes) (segs : List JsonSeg) (op : Bytes) (v : Value)
    → Marked 0 col
    → Marked 0 op
    → MarkedSql (json_cmp_sql d col segs op v)
unfolding json_cmp_sql
json_cmp_sql-Marked sqlite col segs op v h k = recount (omega arith) (
    lit (codes "json_extract(") refl <> h <> lit (codes ", ?) ") refl <> k <> lit (codes " ?") refl)
json_cmp_sql-Marked postgres col segs op v h k =
    recount (omega arith)
      (pg_lhs-Marked col v h <> lit (codes " ") refl <> k <> lit (codes " ?") refl)

in_sql-Marked :
    (c : Bytes) (values : List Value) → Marked 0 c → Marked (length values) (in_sql c values)
unfolding in_sql
in_sql-Marked c [] h = lit (codes "0 = 1") refl
in_sql-Marked c (v ∷ values) h = recount (omega arith) (
    h
    <> lit (codes " IN (") refl
    <> join_with-Marked (lit (codes ", ") refl)
        (AllMarked-each mark_of (v ∷ values) (one, ones values))
    <> lit (codes ")") refl)
  where
    one : Marked 1 (codes "?")
    one = lit (codes "?") refl

    ones : (vs : List Value) → All (λ v. Marked 1 (mark_of v)) vs
    ones [] = tt
    ones (v ∷ vs) = (one, ones vs)

or_sql-Marked : (group : List Cmp) → All GoodCmp group → Marked (length group) (or_sql group)
unfolding or_sql
or_sql-Marked [] h = lit (codes "0 = 1") refl
or_sql-Marked (g ∷ group) h = recount (omega arith) (
    lit (codes "(") refl
    <> join_with-Marked (lit (codes " OR ") refl)
        (AllMarked-each cmp_sql (g ∷ group) (each (g ∷ group) h))
    <> lit (codes ")") refl)
  where
    each : (group : List Cmp) → All GoodCmp group → All (λ g. Marked 1 (cmp_sql g)) group
    each [] h = tt
    each (g ∷ group) (h, more) = (cmp_sql-Marked g h, each group more)

-- What holds of a result, if there is one.
abbrev pub Yields {ℓ κ} : {A : Type ℓ} → (A → Type κ) → Result A → Type κ
Yields P (ok a) = P a
Yields P (err e) = Unit

clause-Marked : (d : Dialect) (p : Predicate) → GoodPred p → Yields MarkedSql (clause d p)
unfolding clause json_contains_sql
clause-Marked d (cmp (c, op, v)) h = cmp_sql-Marked (c, op, v) h
clause-Marked d (in_list c values) h = in_sql-Marked c values h
clause-Marked d (is_null c true) h =
    h <> lit (codes " IS ") refl <> lit [] refl <> lit (codes "NULL") refl
clause-Marked d (is_null c false) h =
    h <> lit (codes " IS ") refl <> lit (codes "NOT ") refl <> lit (codes "NULL") refl
clause-Marked d (or_group group) h =
    recount (sym (length-map group (λ g. g.2))) (or_sql-Marked group h)
clause-Marked d (raw frag ps) h =
    recount (omega arith) (lit (codes "(") refl <> h <> lit (codes ")") refl)
clause-Marked d (json_cmp col segs op v) (h, k) = json_cmp_sql-Marked d col segs op v h k
clause-Marked sqlite (json_contains col v) h = tt
clause-Marked postgres (json_contains col v) h = h <> lit (codes " @> ?::jsonb") refl

abbrev AllOf : List Bytes × List Value → Type 0
AllOf all = AllMarked (length all.1) all.0

clauses-Marked :
    (d : Dialect) (preds : List Predicate) → All GoodPred preds → Yields AllOf (clauses d preds)
unfolding clauses
clauses-Marked d [] h = nothing
clauses-Marked d (p ∷ preds) (h, more) =
    both (clause d p) (clauses d preds) (clause-Marked d p h) (clauses-Marked d preds more)
  where
    both :
        (one : Result Sql) (others : Result (List Bytes × List Value))
        → Yields MarkedSql one
        → Yields AllOf others
        → Yields AllOf (one >>= λ o. others >>= λ m. ok (o.0 ∷ m.0, o.1 ++ m.1))
    both (ok o) (ok m) h k = recount_all (sym (length-append o.1 m.1)) (next h k)
    both (ok o) (err e) h k = tt
    both (err e) others h k = tt

pub render_predicates-Marked :
    (d : Dialect) (preds : List Predicate)
    → All GoodPred preds
    → Yields MarkedSql (render_predicates d preds)
unfolding render_predicates
render_predicates-Marked d [] h = lit [] refl
render_predicates-Marked d (p ∷ preds) h =
    where_clause (clauses d (p ∷ preds)) (clauses-Marked d (p ∷ preds) h)
  where
    where_clause :
        (r : Result (List Bytes × List Value))
        → Yields AllOf r
        → Yields MarkedSql
            (r >>= λ all. ok (codes " WHERE " ++ join_with (codes " AND ") all.0, all.1))
    where_clause (ok all) h =
        recount (omega arith)
          (lit (codes " WHERE ") refl <> join_with-Marked (lit (codes " AND ") refl) h)
    where_clause (err e) h = tt
