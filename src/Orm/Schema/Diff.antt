-- ===== src/Orm/Schema/Diff.antt =====
-- crates/sutegi-orm/src/schema_diff.rs: the changes that make one set of tables of another. `same` is the equality of
-- default values.
use sutegi.Base.{
  Bool, false, not, ◌&&◌, Option, none, some, List, [], ◌∷◌, ◌++◌, map, any, Bytes, if◌then◌else◌,
  bytes_eq,
}
use sutegi.Orm.{Value, Dialect}
use sutegi.Orm.Schema.{
  storage, Column, Index, ForeignKey, TableSchema, bool_eq, action_eq, index_eq, find, keep_if,
  is_none, col, index_of, same_key, table_of,
}
use sutegi.Orm.Schema.Ops.{
  SchemaOp, create_table, drop_table, add_column, drop_column, alter_column, create_index,
  drop_index, add_foreign_key, drop_foreign_key, Safety, destructive, needs_data, safe, safety,
}

-- What the plan warns of: a table that is dropped, a drop and an addition that may be a rename, a column without a
-- default, a change that may lose rows, a column that may no longer be null.
pub data Warning : Type 0 where
  table_dropped : Bytes → Warning
  possible_rename : Bytes → Bytes → Bytes → Warning
  no_default lossy tightened : Bytes → Bytes → Warning

pub record Plan : Type 0 where
  pub ops : List SchemaOp
  pub warnings : List Warning

unfoldable pub missing : List Column → List Column → List Column
missing columns others = keep_if (λ c. is_none (col c.name others)) columns

unfoldable pub stale_indexes : List Index → List Index → List Index
stale_indexes cur want = keep_if (λ i. not (any (λ w. bytes_eq w.name i.name) want)) cur

unfoldable pub index_ops : Bytes → List Index → List Index → List SchemaOp
index_ops table cur [] = []
index_ops table cur (w ∷ want) =
    let rest = index_ops table cur want in
    elim (index_of w.name cur) [
      | none ↦ create_index table w ∷ rest
      | some i ↦ if index_eq i w then rest else drop_index table i ∷ create_index table w ∷ rest
    ]

-- A key that the other side has with the same action.
unfoldable pub has_equal : ForeignKey → List ForeignKey → Bool
has_equal f others = elim (find (λ g. same_key g f) others) [
  | none ↦ false
  | some g ↦ action_eq g.on_delete f.on_delete
]

unfoldable pub missing_keys : List ForeignKey → List ForeignKey → List ForeignKey
missing_keys keys others = keep_if (λ f. not (has_equal f others)) keys

abbrev default_warnings : Bytes → Column → Safety → List Warning
default_warnings table c needs_data = no_default table c.name ∷ []
default_warnings table c _ = []

unfoldable pub add_warnings : Bytes → List Column → List Warning
add_warnings table [] = []
add_warnings table (c ∷ added) =
    default_warnings table c (safety (add_column table c)) ++ add_warnings table added

abbrev change_warnings : Bytes → Column → Safety → List Warning
change_warnings table w destructive = lossy table w.name ∷ []
change_warnings table w needs_data = tightened table w.name ∷ []
change_warnings table w safe = []

unfoldable pub dropped_tables : List TableSchema → List TableSchema → List TableSchema
dropped_tables current desired = keep_if (λ t. is_none (table_of t.table desired)) current

module _ (same : Option Value → Option Value → Bool) (d : Dialect) where
  unfoldable pub columns_match : Column → Column → Bool
  columns_match a b =
      bytes_eq (storage d a.ty) (storage d b.ty)
      && bool_eq a.nullable b.nullable
      && bool_eq a.unique b.unique
      && bool_eq a.primary b.primary
      && same a.default b.default

  unfoldable pub alter_ops : Bytes → List Column → List Column → List SchemaOp
  alter_ops table cur [] = []
  alter_ops table cur (w ∷ want) =
      let rest = alter_ops table cur want in
      elim (col w.name cur) [
        | none ↦ rest
        | some c ↦ if columns_match c w then rest else alter_column table c w ∷ rest
      ]

  unfoldable pub table_ops : TableSchema → TableSchema → List SchemaOp
  table_ops cur want =
      map (drop_column want.table) (missing cur.columns want.columns)
      ++ map (add_column want.table) (missing want.columns cur.columns)
      ++ alter_ops want.table cur.columns want.columns
      ++ map (drop_index want.table) (stale_indexes cur.indexes want.indexes)
      ++ index_ops want.table cur.indexes want.indexes
      ++ map (drop_foreign_key want.table) (missing_keys cur.foreign_keys want.foreign_keys)
      ++ map (add_foreign_key want.table) (missing_keys want.foreign_keys cur.foreign_keys)

  unfoldable pub rename_warnings : Bytes → List Column → List Column → List Warning
  rename_warnings table (a ∷ []) (c ∷ []) =
      if bytes_eq (storage d a.ty) (storage d c.ty)
      then possible_rename table c.name a.name ∷ []
      else []
  rename_warnings table _ _ = []

  unfoldable pub alter_warnings : Bytes → List Column → List Column → List Warning
  alter_warnings table cur [] = []
  alter_warnings table cur (w ∷ want) =
      let rest = alter_warnings table cur want in
      elim (col w.name cur) [
        | none ↦ rest
        | some c ↦
            if columns_match c w
            then rest
            else change_warnings table w (safety (alter_column table c w)) ++ rest
      ]

  unfoldable pub table_warnings : TableSchema → TableSchema → List Warning
  table_warnings cur want =
      let added = missing want.columns cur.columns in
      rename_warnings want.table added (missing cur.columns want.columns)
      ++ add_warnings want.table added
      ++ alter_warnings want.table cur.columns want.columns

  unfoldable pub desired_ops : List TableSchema → List TableSchema → List SchemaOp
  desired_ops current [] = []
  desired_ops current (want ∷ desired) =
      elim (table_of want.table current) [
        | none ↦ create_table want ∷ []
        | some cur ↦ table_ops cur want
      ]
      ++ desired_ops current desired

  unfoldable pub desired_warnings : List TableSchema → List TableSchema → List Warning
  desired_warnings current [] = []
  desired_warnings current (want ∷ desired) =
      elim (table_of want.table current) [ none ↦ [] | some cur ↦ table_warnings cur want ]
      ++ desired_warnings current desired

  unfoldable pub diff : List TableSchema → List TableSchema → Plan
  diff current desired =
      let dropped = dropped_tables current desired in
      record {
        ops = map drop_table dropped ++ desired_ops current desired;
        warnings = map (λ t. table_dropped t.table) dropped ++ desired_warnings current desired;
      }
