-- ===== src/Orm/Schema/Examples.antt =====
-- crates/sutegi-orm/src/schema_diff.rs: the plan of a blog.
use mathlib.Core.Path.{subst}
use sutegi.Base.{
  ◌≡◌, refl, Bool, true, false, Option, none, some, List, [], ◌∷◌, Bytes, codes, bytes_eq,
}
use sutegi.Orm.{Value, postgres}
use sutegi.Orm.Schema.{
  ColType, storage, Column, no_action, ForeignKey, TableSchema, bool_eq, action_eq, table_of,
}
use sutegi.Orm.Schema.Ops.{
  SchemaOp, has_risky_ops, safety, rename_table, rename_column, inverse_plan, drop_table,
  create_table, add_column, drop_column, alter_column, drop_foreign_key,
}
use sutegi.Orm.Schema.Apply.{
  done, on_table, replace_column, edit_columns, rename_columns, rename_in, repoint, edit, apply,
  apply_all,
}
use sutegi.Orm.Schema.Diff.{
  columns_match, missing, alter_ops, stale_indexes, index_ops, has_equal, missing_keys, table_ops,
  dropped_tables, desired_ops, diff, desired_warnings, table_warnings, rename_warnings,
  add_warnings, alter_warnings,
}
use sutegi.Orm.Schema.Keyed.{Distinct}
use sutegi.Orm.Schema.Table.{WellFormed}
use sutegi.Orm.Schema.Dropped.{same_table}
use sutegi.Orm.Schema.Undo.{AllReversible, inverse_plan-apply_all}
use sutegi.Orm.Schema.Wanted.{SameTables, diff-apply_all}

abbrev same : Option Value → Option Value → Bool
same none none = true
same _ _ = false

abbrev column : Bytes → ColType → Column
column name ty = record {
  name = name;
  ty = ty;
  nullable = false;
  primary = false;
  unique = false;
  default = none;
}

abbrev references : Bytes → ForeignKey
references target = record {
  column = codes "author";
  ref_table = codes "users";
  ref_column = target;
  on_delete = no_action;
}

abbrev posts : List Column → List ForeignKey → TableSchema
posts columns keys = record {
  table = codes "posts";
  columns = columns;
  indexes = [];
  foreign_keys = keys;
}

abbrev tags : TableSchema
tags = record {
  table = codes "tags";
  columns = column (codes "id") ColType.integer ∷ [];
  indexes = [];
  foreign_keys = [];
}

abbrev current : List TableSchema
current =
    posts (column (codes "id") ColType.text ∷ column (codes "title") ColType.text ∷ [])
      (references (codes "id") ∷ [])
    ∷ record tags { table = codes "old" }
    ∷ []

abbrev wanted_posts : TableSchema
wanted_posts =
    posts (column (codes "id") ColType.integer ∷ column (codes "body") ColType.text ∷ []) []

abbrev desired : List TableSchema
desired = tags ∷ wanted_posts ∷ []

current-Distinct : Distinct same_table current
unfolding bytes_eq
current-Distinct = (refl, (refl, tt))

desired-Distinct : Distinct same_table desired
unfolding bytes_eq
desired-Distinct = (refl, (refl, tt))

tags-WellFormed : WellFormed tags
tags-WellFormed = record {
  columns_distinct = (refl, tt);
  indexes_distinct = tt;
  keys_distinct = tt;
}

posts-WellFormed : WellFormed wanted_posts
unfolding bytes_eq
posts-WellFormed = record {
  columns_distinct = (refl, (refl, tt));
  indexes_distinct = tt;
  keys_distinct = tt;
}

diff-apply_all_example :
    (ts : List TableSchema) × (apply_all (diff same postgres current desired).ops current ≡ done ts)
    × ((n : Bytes) → SameTables same postgres (table_of n ts) (table_of n desired))
diff-apply_all_example =
    diff-apply_all same postgres current ((refl, tt), (tt, tt)) desired current-Distinct
      desired-Distinct (tags-WellFormed, (posts-WellFormed, tt))

plan :
    (diff same postgres current desired).ops
    ≡ drop_table (record tags { table = codes "old" })
      ∷ create_table tags
      ∷ drop_column (codes "posts") (column (codes "title") ColType.text)
      ∷ add_column (codes "posts") (column (codes "body") ColType.text)
      ∷ alter_column
          (codes "posts")
          (column (codes "id") ColType.text)
          (column (codes "id") ColType.integer)
      ∷ drop_foreign_key (codes "posts") (references (codes "id"))
      ∷ []
unfolding diff dropped_tables desired_ops table_ops missing alter_ops columns_match storage bool_eq
    stale_indexes index_ops missing_keys has_equal bytes_eq
plan = refl

-- Two foreign keys of a column to a table: the drop of one takes the other with it.
both_dropped :
    apply_all
      (diff same postgres
        (posts [] (references (codes "id") ∷ references (codes "name") ∷ []) ∷ [])
        (posts [] (references (codes "name") ∷ []) ∷ [])).ops
      (posts [] (references (codes "id") ∷ references (codes "name") ∷ []) ∷ [])
    ≡ done (posts [] [] ∷ [])
unfolding diff dropped_tables desired_ops table_ops missing alter_ops stale_indexes index_ops
    missing_keys has_equal action_eq bytes_eq apply_all apply on_table edit
both_dropped = refl

-- A column that is dropped makes the plan risky, and no warning tells of it.
dropped_silently :
    (has_risky_ops
        (diff same postgres
          (posts (column (codes "id") ColType.text ∷ []) [] ∷ [])
          (posts [] [] ∷ [])).ops
      ≡ true)
    × ((diff same postgres
          (posts (column (codes "id") ColType.text ∷ []) [] ∷ [])
          (posts [] [] ∷ [])).warnings
        ≡ [])
unfolding diff dropped_tables desired_ops desired_warnings table_ops table_warnings rename_warnings
    add_warnings alter_warnings missing alter_ops stale_indexes index_ops missing_keys bytes_eq
    has_risky_ops safety
dropped_silently = (refl, refl)

abbrev grown : List SchemaOp
grown =
    create_table tags
    ∷ rename_table (codes "old") (codes "kept")
    ∷ alter_column (codes "posts") (column (codes "id") ColType.text)
        (column (codes "id") ColType.integer)
    ∷ rename_column (codes "posts") (codes "title") (codes "heading")
    ∷ add_column (codes "posts") (column (codes "body") ColType.text)
    ∷ []

abbrev grown_tables : List TableSchema
grown_tables =
    posts
      (column (codes "id") ColType.integer
        ∷ column (codes "heading") ColType.text
        ∷ column (codes "body") ColType.text
        ∷ [])
      (references (codes "id") ∷ [])
    ∷ record tags { table = codes "kept" }
    ∷ tags
    ∷ []

of_the :
    (P : TableSchema → Type 0) (y : TableSchema) → P y → (x : TableSchema) → some y ≡ some x → P x
of_the P y p x e = let same : y ≡ x = cc in subst P same p

grown-AllReversible : AllReversible grown current
unfolding apply edit on_table replace_column edit_columns rename_columns rename_in repoint bytes_eq
grown-AllReversible = (
  tt,
  (
    (refl, refl),
    (
      of_the _ _ refl,
      (
        of_the _ _ (record { no_column_named = refl; no_index_on = refl; no_key_on = refl }),
        (of_the _ _ refl, tt),
      ),
    ),
  ),
)

grown_made : apply_all grown current ≡ done grown_tables
unfolding apply_all apply edit on_table replace_column edit_columns rename_columns rename_in repoint
    bytes_eq
grown_made = refl

inverse_plan-apply_all_example : apply_all (inverse_plan grown) grown_tables ≡ done current
inverse_plan-apply_all_example =
    inverse_plan-apply_all grown current grown_tables grown-AllReversible grown_made
