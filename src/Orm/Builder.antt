-- ===== src/Orm/Builder.antt =====
-- crates/sutegi-orm/src/builder.rs: the builder of a SELECT.
pub mod Setters
pub mod Render
pub mod Faults
pub mod Kept
pub mod Methods
pub mod Shown
pub mod Safety
pub mod Accepted
pub mod Builds
use sutegi.Base.{
  Bool, true, false, ◌||◌, not, Option, none, some, List, [], ◌∷◌, ◌++◌, any, Bytes, codes,
}
use sutegi.Orm.{ℤ, Error, lock_required}
use sutegi.Orm.Ident.{check_ident}
use sutegi.Orm.Path.{JsonSeg}
use sutegi.Orm.Predicates.{Predicate, cmp, in_list, is_null, or_group, raw, json_cmp, json_contains}

pub data LockWait : Type 0 where
  wait skip_locked no_wait : LockWait

pub record RowLock : Type 0 where
  pub exclusive : Bool
  pub waits : LockWait

abbrev pub JsonSelect : Type 0
JsonSelect = Bytes × List JsonSeg × Bytes

pub record QueryBuilder : Type 0 where
  pub table : Bytes
  pub distinct : Bool
  pub columns : List Bytes
  pub joins : List Bytes
  pub preds : List Predicate
  pub group_by : List Bytes
  pub order : List (Bytes × Bool)
  pub limit : Option ℤ
  pub offset : Option ℤ
  pub row_lock : Option RowLock
  pub json_selects : List JsonSelect
  pub fault : Option Error

unfoldable pub new_query : Bytes → QueryBuilder
new_query table = record {
  table = table;
  distinct = false;
  columns = [];
  joins = [];
  preds = [];
  group_by = [];
  order = [];
  limit = none;
  offset = none;
  row_lock = none;
  json_selects = [];
  fault = check_ident (codes "table") table none;
}

abbrev is_json : Predicate → Bool
is_json (json_cmp _ _ _ _) = true
is_json (json_contains _ _) = true
is_json _ = false

abbrev is_empty : List JsonSelect → Bool
is_empty [] = true
is_empty (_ ∷ _) = false

unfoldable pub uses_json : QueryBuilder → Bool
uses_json q = not (is_empty q.json_selects) || any is_json q.preds
