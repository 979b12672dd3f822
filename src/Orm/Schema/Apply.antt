-- ===== src/Orm/Schema/Apply.antt =====
-- crates/sutegi-orm/src/schema_diff.rs: what a change does to a set of tables.
-- Where a change fails, the tables that the changes before it have left are not kept.
use sutegi.Base.{
  not, ◌&&◌, Option, none, some, List, [], ◌∷◌, ◌++◌, map, any, Bytes, if◌then◌else◌, bytes_eq,
}
use mathlib.Core.Option
use sutegi.Orm.Schema.{Column, Index, ForeignKey, TableSchema, keep_if}
use sutegi.Orm.Schema.Ops.{
  SchemaOp, create_table, drop_table, add_column, drop_column, alter_column, rename_column,
  rename_table, create_index, drop_index, add_foreign_key, drop_foreign_key,
}

pub data Fault : Type 0 where
  no_table table_exists : Bytes → Fault
  no_column : Bytes → Bytes → Fault

pub data Applied {ℓ} (A : Type ℓ) : Type ℓ where
  done : A → Applied A
  failed : Fault → Applied A

infixl 5 ◌>>=◌
abbrev pub ◌>>=◌ {ℓ κ} : {A : Type ℓ} {B : Type κ} → Applied A → (A → Applied B) → Applied B
done a >>= f = f a
failed e >>= f = failed e

-- The first table of that name is changed.
unfoldable pub on_table :
    Bytes → (TableSchema → Applied TableSchema) → List TableSchema → Applied (List TableSchema)
on_table name f [] = failed (no_table name)
on_table name f (t ∷ schemas) =
    let later = on_table name f schemas >>= λ rest. done (t ∷ rest) in
    if bytes_eq t.table name then (f t >>= λ t'. done (t' ∷ schemas)) else later

unfoldable pub remove_table : Bytes → List TableSchema → Applied (List TableSchema)
remove_table name [] = failed (no_table name)
remove_table name (t ∷ schemas) =
    let later = remove_table name schemas >>= λ rest. done (t ∷ rest) in
    if bytes_eq t.table name then done schemas else later

-- The first column of that name is replaced.
unfoldable pub replace_column : Bytes → (Column → Column) → List Column → Option (List Column)
replace_column name f [] = none
replace_column name f (c ∷ columns) =
    let later = Option.map (λ rest. c ∷ rest) (replace_column name f columns) in
    if bytes_eq c.name name then some (f c ∷ columns) else later

abbrev pub renamed : Bytes → Bytes → Bytes → Bytes
renamed from to name = if bytes_eq name from then to else name

unfoldable pub rename_in : Bytes → Bytes → List Column → TableSchema → TableSchema
rename_in from to columns t = record t {
  columns = columns;
  indexes = map (λ (i : Index). record i { columns = map (renamed from to) i.columns }) t.indexes;
  foreign_keys =
      map (λ (f : ForeignKey). record f { column = renamed from to f.column }) t.foreign_keys;
}

unfoldable pub repoint : Bytes → Bytes → TableSchema → TableSchema
repoint from to t = record t {
  foreign_keys =
      map (λ (f : ForeignKey). record f { ref_table = renamed from to f.ref_table }) t.foreign_keys;
}

unfoldable pub edit_columns : TableSchema → Bytes → Option (List Column) → Applied TableSchema
edit_columns t name none = failed (no_column t.table name)
edit_columns t name (some columns) = done (record t { columns = columns })

unfoldable pub rename_columns :
    TableSchema → Bytes → Bytes → Option (List Column) → Applied TableSchema
rename_columns t from to none = failed (no_column t.table from)
rename_columns t from to (some columns) = done (rename_in from to columns t)

-- What a change of one table does to it.
unfoldable pub edit : SchemaOp → TableSchema → Applied TableSchema
edit (add_column _ c) t = done (record t { columns = t.columns ++ c ∷ [] })
edit (drop_column _ c) t =
    done (record t { columns = keep_if (λ x. not (bytes_eq x.name c.name)) t.columns })
edit (alter_column _ from to) t =
    edit_columns t to.name (replace_column to.name (λ _. to) t.columns)
edit (rename_column _ from to) t =
    rename_columns t from to (replace_column from (λ c. record c { name = to }) t.columns)
edit (create_index _ i) t = done (record t { indexes = t.indexes ++ i ∷ [] })
edit (drop_index _ i) t =
    done (record t { indexes = keep_if (λ x. not (bytes_eq x.name i.name)) t.indexes })
edit (add_foreign_key _ f) t = done (record t { foreign_keys = t.foreign_keys ++ f ∷ [] })
edit (drop_foreign_key _ f) t = done (record t {
  foreign_keys =
      keep_if (λ x. not (bytes_eq x.column f.column && bytes_eq x.ref_table f.ref_table))
        t.foreign_keys;
})
edit _ t = done t

unfoldable pub apply : SchemaOp → List TableSchema → Applied (List TableSchema)
apply (create_table s) schemas =
    if any (λ t. bytes_eq t.table s.table) schemas
    then failed (table_exists s.table)
    else done (schemas ++ s ∷ [])
apply (drop_table s) schemas = remove_table s.table schemas
apply (add_column t c) schemas = on_table t (edit (add_column t c)) schemas
apply (drop_column t c) schemas = on_table t (edit (drop_column t c)) schemas
apply (alter_column t from to) schemas = on_table t (edit (alter_column t from to)) schemas
apply (rename_column t from to) schemas = on_table t (edit (rename_column t from to)) schemas
apply (rename_table from to) schemas =
    on_table from (λ t. done (record t { table = to })) schemas >>= λ renamed.
    done (map (repoint from to) renamed)
apply (create_index t i) schemas = on_table t (edit (create_index t i)) schemas
apply (drop_index t i) schemas = on_table t (edit (drop_index t i)) schemas
apply (add_foreign_key t f) schemas = on_table t (edit (add_foreign_key t f)) schemas
apply (drop_foreign_key t f) schemas = on_table t (edit (drop_foreign_key t f)) schemas

unfoldable pub apply_all : List SchemaOp → List TableSchema → Applied (List TableSchema)
apply_all [] schemas = done schemas
apply_all (op ∷ ops) schemas = apply op schemas >>= apply_all ops
