-- ===== src/Orm/Schema/Ops.antt =====
-- crates/sutegi-orm/src/schema_diff.rs: the changes of a schema, their risk and their inverses.
use sutegi.Base.{
  Bool, true, false, not, ◌&&◌, ◌||◌, none, some, List, map, any, Bytes, ◌==◌, if◌then◌else◌,
}
use mathlib.Core.List.{reverse}
use sutegi.Orm.Schema.{ColType, Column, Index, ForeignKey, TableSchema, is_none}

pub data SchemaOp : Type 0 where
  create_table drop_table : TableSchema → SchemaOp
  add_column drop_column : Bytes → Column → SchemaOp
  alter_column : Bytes → Column → Column → SchemaOp
  rename_column : Bytes → Bytes → Bytes → SchemaOp
  rename_table : Bytes → Bytes → SchemaOp
  create_index drop_index : Bytes → Index → SchemaOp
  add_foreign_key drop_foreign_key : Bytes → ForeignKey → SchemaOp

pub data Safety : Type 0 where
  safe destructive needs_data : Safety

unfoldable pub inverse : SchemaOp → SchemaOp
inverse (create_table s) = drop_table s
inverse (drop_table s) = create_table s
inverse (add_column t c) = drop_column t c
inverse (drop_column t c) = add_column t c
inverse (alter_column t from to) = alter_column t to from
inverse (rename_column t from to) = rename_column t to from
inverse (rename_table from to) = rename_table to from
inverse (create_index t i) = drop_index t i
inverse (drop_index t i) = create_index t i
inverse (add_foreign_key t f) = drop_foreign_key t f
inverse (drop_foreign_key t f) = add_foreign_key t f

-- `ColType::eq`.
unfoldable pub type_eq : ColType → ColType → Bool
type_eq ColType.integer ColType.integer = true
type_eq ColType.real ColType.real = true
type_eq ColType.text ColType.text = true
type_eq ColType.boolean ColType.boolean = true
type_eq ColType.json ColType.json = true
type_eq (ColType.vector none) (ColType.vector none) = true
type_eq (ColType.vector (some a)) (ColType.vector (some b)) = a == b
type_eq _ _ = false

unfoldable pub safety : SchemaOp → Safety
safety (drop_table s) = destructive
safety (drop_column t c) = destructive
safety (add_column t c) =
    if c.nullable || not (is_none c.default) || c.primary then safe else needs_data
safety (alter_column t from to) =
    if not (type_eq from.ty to.ty) || not from.unique && to.unique
    then destructive
    else if from.nullable && not to.nullable
    then needs_data
    else safe
safety _ = safe

abbrev is_risky : Safety → Bool
is_risky safe = false
is_risky _ = true

unfoldable pub has_risky_ops : List SchemaOp → Bool
has_risky_ops = any (λ o. is_risky (safety o))

-- `Plan::inverse`.
unfoldable pub inverse_plan : List SchemaOp → List SchemaOp
inverse_plan ops = map inverse (reverse ops)
