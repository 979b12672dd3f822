-- ===== src/Orm/Builder/Setters.antt =====
-- crates/sutegi-orm/src/builder.rs: what each method of `QueryBuilder` does to it.
use sutegi.Base.{Bool, true, false, Option, none, some, List, [], ◌∷◌, ◌++◌, Bytes, codes}
use sutegi.Json.{Json}
use sutegi.Orm.{ℤ, Value, text, json, Error, lock_required, ok, err}
use sutegi.Orm.Ident.{check_ident, check_idents, check_op}
use sutegi.Orm.Path.{parse_json_path}
use sutegi.Orm.Predicates.{
  Cmp, Predicate, cmp, in_list, is_null, or_group, raw, json_cmp, json_contains,
}
use sutegi.Orm.Builder.{LockWait, wait, skip_locked, no_wait, RowLock, QueryBuilder}

unfoldable pub push_pred : Predicate → Option Error → QueryBuilder → QueryBuilder
push_pred p fault q = record q { preds = q.preds ++ p ∷ []; fault = fault }

-- `Err(e) if err.is_none() => err = Some(e)`.
unfoldable pub keep_first : Error → Option Error → Option Error
keep_first e none = some e
keep_first e (some first) = some first

abbrev pub column_fault : Bytes → QueryBuilder → Option Error
column_fault col q = check_ident (codes "column") col q.fault

unfoldable pub where_json : Bytes → Bytes → Bytes → Value → QueryBuilder → QueryBuilder
where_json col path op value q =
    let fault = check_op op (column_fault col q) in
    elim (parse_json_path path) [
      | ok segs ↦ push_pred (json_cmp col segs op value) fault q
      | err e ↦ record q { fault = keep_first e fault }
    ]

unfoldable pub where_json_contains : Bytes → Json → QueryBuilder → QueryBuilder
where_json_contains col value q = push_pred (json_contains col (json value)) (column_fault col q) q

unfoldable pub select_json : Bytes → Bytes → Bytes → QueryBuilder → QueryBuilder
select_json col path alias q =
    let fault = check_ident (codes "alias") alias (column_fault col q) in
    elim (parse_json_path path) [
      | ok segs ↦ record q {
        json_selects = q.json_selects ++ (col, segs, alias) ∷ [];
        fault = fault;
      }
      | err e ↦ record q { fault = keep_first e fault }
    ]

unfoldable pub wait_of : Option RowLock → LockWait
wait_of none = wait
wait_of (some l) = l.waits

unfoldable pub for_update : QueryBuilder → QueryBuilder
for_update q = record q {
  row_lock = some (record { exclusive = true; waits = wait_of q.row_lock });
}

unfoldable pub for_share : QueryBuilder → QueryBuilder
for_share q = record q {
  row_lock = some (record { exclusive = false; waits = wait_of q.row_lock });
}

unfoldable pub set_wait : LockWait → Bytes → QueryBuilder → QueryBuilder
set_wait w method q = elim q.row_lock [
  | some l ↦ record q { row_lock = some (record l { waits = w }) }
  | none ↦ record q { fault = keep_first (lock_required method) q.fault }
]

unfoldable pub skip : QueryBuilder → QueryBuilder
skip = set_wait skip_locked (codes "skip_locked")

unfoldable pub nowait : QueryBuilder → QueryBuilder
nowait = set_wait no_wait (codes "nowait")

unfoldable pub select : List Bytes → QueryBuilder → QueryBuilder
select cols q = record q { columns = cols; fault = check_idents (codes "column") cols q.fault }

unfoldable pub set_distinct : QueryBuilder → QueryBuilder
set_distinct q = record q { distinct = true }

unfoldable pub filter : Bytes → Bytes → Value → QueryBuilder → QueryBuilder
filter col op value q = push_pred (cmp (col, op, value)) (check_op op (column_fault col q)) q

unfoldable pub filter_in : Bytes → List Value → QueryBuilder → QueryBuilder
filter_in col values q = push_pred (in_list col values) (column_fault col q) q

unfoldable pub where_null : Bytes → QueryBuilder → QueryBuilder
where_null col q = push_pred (is_null col true) (column_fault col q) q

unfoldable pub where_not_null : Bytes → QueryBuilder → QueryBuilder
where_not_null col q = push_pred (is_null col false) (column_fault col q) q

unfoldable pub check_group : List Cmp → Option Error → Option Error
check_group [] e = e
check_group ((c, op, v) ∷ group) e =
    check_group group (check_op op (check_ident (codes "column") c e))

unfoldable pub any_of : List Cmp → QueryBuilder → QueryBuilder
any_of group q = push_pred (or_group group) (check_group group q.fault) q

unfoldable pub like : Bytes → Bytes → QueryBuilder → QueryBuilder
like col pattern_text = filter col (codes "LIKE") (text pattern_text)

unfoldable pub where_raw : Bytes → List Value → QueryBuilder → QueryBuilder
where_raw fragment params q = push_pred (raw fragment params) q.fault q

unfoldable pub join_as : Bytes → Bytes → Bytes → Bytes → QueryBuilder → QueryBuilder
join_as how other left right q = record q {
  joins = q.joins ++ (how ++ other ++ codes " ON " ++ left ++ codes " = " ++ right) ∷ [];
  fault =
      check_ident (codes "join column") right
        (check_ident (codes "join column") left (check_ident (codes "join table") other q.fault));
}

unfoldable pub inner_join : Bytes → Bytes → Bytes → QueryBuilder → QueryBuilder
inner_join = join_as (codes "JOIN ")

unfoldable pub left_join : Bytes → Bytes → Bytes → QueryBuilder → QueryBuilder
left_join = join_as (codes "LEFT JOIN ")

unfoldable pub group : List Bytes → QueryBuilder → QueryBuilder
group cols q = record q {
  group_by = cols;
  fault = check_idents (codes "group-by column") cols q.fault;
}

unfoldable pub order_by : Bytes → Bool → QueryBuilder → QueryBuilder
order_by col descending q = record q {
  order = q.order ++ (col, descending) ∷ [];
  fault = check_ident (codes "order-by column") col q.fault;
}

unfoldable pub set_limit : ℤ → QueryBuilder → QueryBuilder
set_limit n q = record q { limit = some n }

unfoldable pub set_offset : ℤ → QueryBuilder → QueryBuilder
set_offset n q = record q { offset = some n }
