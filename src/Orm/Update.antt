-- ===== src/Orm/Update.antt =====
-- crates/sutegi-orm/src/builder.rs: the builders of an UPDATE.
pub mod Safety
use sutegi.Base.{Option, none, some, List, [], ◌∷◌, ◌++◌, map, Bytes, codes, Bool, true, false}
use sutegi.Orm.{Value, sqlite, Error, Result, ok, err, ◌>>=◌, join_with}
use sutegi.Orm.Ident.{check_ident, check_idents, check_op}
use sutegi.Orm.Predicates.{Predicate, cmp, is_null, raw, Sql, render_predicates}

pub record UpdateBuilder : Type 0 where
  pub table : Bytes
  pub sets : List (Bytes × Value)
  pub preds : List Predicate
  pub returning : List Bytes
  pub fault : Option Error

unfoldable pub returning_sql : List Bytes → Bytes
returning_sql [] = []
returning_sql (c ∷ cols) = codes " RETURNING " ++ join_with (codes ", ") (c ∷ cols)

unfoldable pub assignment : Bytes × Value → Bytes
assignment (c, v) = c ++ codes " = ?"

unfoldable pub new : Bytes → UpdateBuilder
new table = record {
  table = table;
  sets = [];
  preds = [];
  returning = [];
  fault = check_ident (codes "table") table none;
}

unfoldable pub set_column : Bytes → Value → UpdateBuilder → UpdateBuilder
set_column col value u = record u {
  sets = u.sets ++ (col, value) ∷ [];
  fault = check_ident (codes "column") col u.fault;
}

unfoldable pub filter : Bytes → Bytes → Value → UpdateBuilder → UpdateBuilder
filter col op value u = record u {
  preds = u.preds ++ cmp (col, op, value) ∷ [];
  fault = check_op op (check_ident (codes "column") col u.fault);
}

unfoldable pub where_null : Bytes → UpdateBuilder → UpdateBuilder
where_null col u = record u {
  preds = u.preds ++ is_null col true ∷ [];
  fault = check_ident (codes "column") col u.fault;
}

unfoldable pub where_raw : Bytes → List Value → UpdateBuilder → UpdateBuilder
where_raw fragment params u = record u { preds = u.preds ++ raw fragment params ∷ [] }

unfoldable pub set_returning : List Bytes → UpdateBuilder → UpdateBuilder
set_returning cols u = record u {
  returning = cols;
  fault = check_idents (codes "column") cols u.fault;
}

-- The values that are set come before those of the conditions.
unfoldable pub build : UpdateBuilder → Result Sql
build u = elim u.fault [
  | some e ↦ err e
  | none ↦ render_predicates sqlite u.preds >>= λ w. ok (
    codes "UPDATE "
        ++ u.table
        ++ codes " SET "
        ++ join_with (codes ", ") (map assignment u.sets)
        ++ w.0
        ++ returning_sql u.returning,
    map (λ s. s.1) u.sets ++ w.1,
  )
]
