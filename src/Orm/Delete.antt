-- ===== src/Orm/Delete.antt =====
-- crates/sutegi-orm/src/builder.rs: the builder of a DELETE.
use sutegi.Base.{Option, none, some, List, [], ◌∷◌, ◌++◌, Bytes, codes, true}
use sutegi.Orm.{Value, sqlite, Error, Result, ok, err, ◌>>=◌}
use sutegi.Orm.Ident.{check_ident, check_idents, check_op}
use sutegi.Orm.Predicates.{Predicate, cmp, is_null, raw, Sql, render_predicates}
use sutegi.Orm.Update.{returning_sql}

pub record DeleteBuilder : Type 0 where
  pub table : Bytes
  pub preds : List Predicate
  pub returning : List Bytes
  pub fault : Option Error

unfoldable pub new : Bytes → DeleteBuilder
new table = record {
  table = table;
  preds = [];
  returning = [];
  fault = check_ident (codes "table") table none;
}

unfoldable pub filter : Bytes → Bytes → Value → DeleteBuilder → DeleteBuilder
filter col op value u = record u {
  preds = u.preds ++ cmp (col, op, value) ∷ [];
  fault = check_op op (check_ident (codes "column") col u.fault);
}

unfoldable pub where_null : Bytes → DeleteBuilder → DeleteBuilder
where_null col u = record u {
  preds = u.preds ++ is_null col true ∷ [];
  fault = check_ident (codes "column") col u.fault;
}

unfoldable pub where_raw : Bytes → List Value → DeleteBuilder → DeleteBuilder
where_raw fragment params u = record u { preds = u.preds ++ raw fragment params ∷ [] }

unfoldable pub set_returning : List Bytes → DeleteBuilder → DeleteBuilder
set_returning cols u = record u {
  returning = cols;
  fault = check_idents (codes "column") cols u.fault;
}

unfoldable pub build : DeleteBuilder → Result Sql
build u = elim u.fault [
  | some e ↦ err e
  | none ↦ render_predicates sqlite u.preds >>= λ w.
      ok (codes "DELETE FROM " ++ u.table ++ w.0 ++ returning_sql u.returning, w.1)
]
