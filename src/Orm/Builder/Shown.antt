-- ===== src/Orm/Builder/Shown.antt =====
-- crates/sutegi-orm/src/builder.rs: the placeholders of the parts of a SELECT.
use sutegi.Base.{
  ℕ, ◌+◌, refl, arith, Bool, true, false, Option, none, some, List, [], ◌∷◌, ◌++◌, map, All, length,
  Bytes, codes, if◌then◌else◌,
}
use sutegi.Orm.{ℤ, Dialect, sqlite, postgres}
use sutegi.Orm.Builder.{JsonSelect, QueryBuilder}
use sutegi.Orm.Builder.Render.{
  with_joins, build_from_and_joins, json_column, named, projection, group_sql, order_term,
  order_sql, count_sql, select_sql,
}
use sutegi.Orm.Builder.Kept.{IsSafe}
use sutegi.Orm.Marks.{Marked, lit, recount, ◌<>◌}
use sutegi.Orm.Marks.Parts.{
  AllMarked, nothing, next, recount_all, AllMarked-plain, join_with-Marked, show_int-Marked,
}

pub AllMarked-names : (names : List Bytes) → All (Marked 0) names → AllMarked 0 names
AllMarked-names [] h = nothing
AllMarked-names (s ∷ names) (h, more) = next h (AllMarked-names names more)

with_joins-Marked :
    (s : Bytes) (joins : List Bytes)
    → Marked 0 s
    → All (Marked 0) joins
    → Marked 0 (with_joins s joins)
unfolding with_joins
with_joins-Marked s [] h k = h
with_joins-Marked s (j ∷ joins) h (k, more) =
    with_joins-Marked _ joins (h <> (lit (codes " ") refl <> k)) more

abbrev GoodSelect : JsonSelect → Type 0
GoodSelect s = Marked 0 s.0 × Marked 0 s.2

json_columns-Marked :
    (d : Dialect) (selects : List JsonSelect)
    → All GoodSelect selects
    → AllMarked (length selects) (map (json_column d) selects)
unfolding json_column
json_columns-Marked d [] h = nothing
json_columns-Marked sqlite ((col, segs, alias) ∷ selects) ((h, k), more) =
    recount_all (omega arith) (
      next (lit (codes "json_extract(") refl <> h <> lit (codes ", ?) AS ") refl <> k)
        (json_columns-Marked sqlite selects more))
json_columns-Marked postgres ((col, segs, alias) ∷ selects) ((h, k), more) =
    recount_all (omega arith)
      (next (h <> lit (codes " #>> ? AS ") refl <> k) (json_columns-Marked postgres selects more))

AllMarked-append :
    {m n : ℕ} {xs ys : List Bytes} → AllMarked m xs → AllMarked n ys → AllMarked (m + n) (xs ++ ys)
AllMarked-append nothing k = recount_all (omega arith) k
AllMarked-append (next h more) k = recount_all (omega arith) (next h (AllMarked-append more k))

named-AllMarked : (cols : List Bytes) → All (Marked 0) cols → AllMarked 0 (named cols)
unfolding named
named-AllMarked [] h = next (lit (codes "*") refl) nothing
named-AllMarked (c ∷ cols) h = AllMarked-names (c ∷ cols) h

projection-Marked :
    (d : Dialect) (cols : List Bytes) (selects : List JsonSelect)
    → All (Marked 0) cols
    → All GoodSelect selects
    → Marked (length selects) (projection d cols selects)
unfolding projection
projection-Marked d [] [] h k = lit (codes "*") refl
projection-Marked d (c ∷ cols) [] h k =
    join_with-Marked (lit (codes ", ") refl) (AllMarked-names (c ∷ cols) h)
projection-Marked d cols (j ∷ selects) h k = recount (omega arith) (
    join_with-Marked (lit (codes ", ") refl)
      (AllMarked-append (named-AllMarked cols h) (json_columns-Marked d (j ∷ selects) k)))

group_sql-Marked : (cols : List Bytes) → All (Marked 0) cols → Marked 0 (group_sql cols)
unfolding group_sql
group_sql-Marked [] h = lit [] refl
group_sql-Marked (c ∷ cols) h =
    lit (codes " GROUP BY ") refl
    <> join_with-Marked (lit (codes ", ") refl) (AllMarked-names (c ∷ cols) h)

order_sql-Marked :
    (order : List (Bytes × Bool)) → All (λ o. Marked 0 o.0) order → Marked 0 (order_sql order)
unfolding order_sql order_term
order_sql-Marked [] h = lit [] refl
order_sql-Marked (t ∷ order) h =
    lit (codes " ORDER BY ") refl
    <> join_with-Marked (lit (codes ", ") refl)
        (AllMarked-plain order_term (t ∷ order) (terms (t ∷ order) h))
  where
    terms :
        (order : List (Bytes × Bool))
        → All (λ o. Marked 0 o.0) order
        → All (λ o. Marked 0 (order_term o)) order
    terms [] h = tt
    terms ((c, true) ∷ order) (h, more) =
        (h <> lit (codes " ") refl <> lit (codes "DESC") refl, terms order more)
    terms ((c, false) ∷ order) (h, more) =
        (h <> lit (codes " ") refl <> lit (codes "ASC") refl, terms order more)

count_sql-Marked : (word : Bytes) (n : Option ℤ) → Marked 0 word → Marked 0 (count_sql word n)
unfolding count_sql
count_sql-Marked word none h = lit [] refl
count_sql-Marked word (some n) h = h <> show_int-Marked n

distinct-Marked : (b : Bool) → Marked 0 (if b then codes "DISTINCT " else [])
distinct-Marked true = lit (codes "DISTINCT ") refl
distinct-Marked false = lit [] refl

pub from-Marked : (q : QueryBuilder) → IsSafe q → Marked 0 (build_from_and_joins q)
unfolding build_from_and_joins
from-Marked q s = with_joins-Marked q.table q.joins s.table_ok s.joins_ok

pub select_sql-Marked :
    {n : ℕ} (d : Dialect) (q : QueryBuilder) (where_sql : Bytes)
    → IsSafe q
    → Marked n where_sql
    → Marked (length q.json_selects + n) (select_sql d q where_sql)
unfolding select_sql
select_sql-Marked d q where_sql s w = recount (omega arith) (
    lit (codes "SELECT ") refl
    <> distinct-Marked q.distinct
    <> projection-Marked d q.columns q.json_selects s.columns_ok s.selects_ok
    <> lit (codes " FROM ") refl
    <> from-Marked q s
    <> w
    <> group_sql-Marked q.group_by s.groups_ok
    <> order_sql-Marked q.order s.orders_ok
    <> count_sql-Marked (codes " LIMIT ") q.limit (lit (codes " LIMIT ") refl)
    <> count_sql-Marked (codes " OFFSET ") q.offset (lit (codes " OFFSET ") refl))
