-- ===== src/Orm/Schema.antt =====
-- crates/sutegi-orm/src/value.rs: what a table consists of, and how a column's type is stored.
pub mod Keyed
pub mod Ops
pub mod Apply
pub mod Diff
pub mod Columns
pub mod Altered
pub mod Indexes
pub mod Remade
pub mod Keys
pub mod Table
pub mod Tables
pub mod Dropped
pub mod Wanted
pub mod Renaming
pub mod Undo
mod Examples
use sutegi.Base.{
  ℕ, Bool, true, false, ◌&&◌, Option, none, some, List, [], ◌∷◌, ◌++◌, Bytes, codes, if◌then◌else◌,
  bytes_eq,
}
use sutegi.Orm.{Value, Dialect, sqlite, postgres}
use sutegi.Session.{decimal}

pub data ColType : Type 0 where
  integer real text boolean json : ColType
  vector : Option ℕ → ColType

unfoldable pub storage : Dialect → ColType → Bytes
storage sqlite ColType.integer = codes "INTEGER"
storage postgres ColType.integer = codes "BIGINT"
storage sqlite ColType.real = codes "REAL"
storage postgres ColType.real = codes "DOUBLE PRECISION"
storage _ ColType.text = codes "TEXT"
storage _ ColType.boolean = codes "BOOLEAN"
storage sqlite ColType.json = codes "TEXT"
storage postgres ColType.json = codes "JSONB"
storage sqlite (ColType.vector dim) = codes "TEXT"
storage postgres (ColType.vector (some d)) = codes "vector(" ++ decimal d ++ codes ")"
storage postgres (ColType.vector none) = codes "vector"

pub record Column : Type 0 where
  pub name : Bytes
  pub ty : ColType
  pub nullable : Bool
  pub primary : Bool
  pub unique : Bool
  pub default : Option Value

pub record Index : Type 0 where
  pub name : Bytes
  pub columns : List Bytes
  pub unique : Bool

pub data FkAction : Type 0 where
  no_action cascade set_null restrict : FkAction

pub record ForeignKey : Type 0 where
  pub column : Bytes
  pub ref_table : Bytes
  pub ref_column : Bytes
  pub on_delete : FkAction

pub record TableSchema : Type 0 where
  pub table : Bytes
  pub columns : List Column
  pub indexes : List Index
  pub foreign_keys : List ForeignKey

-- `==` of the fields that are compared.
unfoldable pub bool_eq : Bool → Bool → Bool
bool_eq true true = true
bool_eq false false = true
bool_eq _ _ = false

unfoldable pub action_eq : FkAction → FkAction → Bool
action_eq no_action no_action = true
action_eq cascade cascade = true
action_eq set_null set_null = true
action_eq restrict restrict = true
action_eq _ _ = false

unfoldable pub names_eq : List Bytes → List Bytes → Bool
names_eq [] [] = true
names_eq (a ∷ xs) (b ∷ ys) = bytes_eq a b && names_eq xs ys
names_eq _ _ = false

unfoldable pub index_eq : Index → Index → Bool
index_eq a b = bytes_eq a.name b.name && names_eq a.columns b.columns && bool_eq a.unique b.unique

-- `iter().find`, and `retain`.
abbrev pub find {ℓ} : {A : Type ℓ} → (A → Bool) → List A → Option A
find test [] = none
find test (x ∷ xs) = let later = find test xs in if test x then some x else later

abbrev pub keep_if {ℓ} : {A : Type ℓ} → (A → Bool) → List A → List A
keep_if test [] = []
keep_if test (x ∷ xs) = let rest = keep_if test xs in if test x then x ∷ rest else rest

abbrev pub is_none {ℓ} : {A : Type ℓ} → Option A → Bool
is_none none = true
is_none (some a) = false

abbrev pub col : Bytes → List Column → Option Column
col name = find (λ c. bytes_eq c.name name)

abbrev pub index_of : Bytes → List Index → Option Index
index_of name = find (λ i. bytes_eq i.name name)

abbrev pub same_key : ForeignKey → ForeignKey → Bool
same_key f g =
    bytes_eq f.column g.column
    && bytes_eq f.ref_table g.ref_table
    && bytes_eq f.ref_column g.ref_column

abbrev pub table_of : Bytes → List TableSchema → Option TableSchema
table_of name = find (λ t. bytes_eq t.table name)
