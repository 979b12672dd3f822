-- ===== src/Orm/Builder/Kept.antt =====
-- crates/sutegi-orm/src/builder.rs: every method keeps it that the parts of a builder without a fault are safe.
use sutegi.Base.{
  ◌≡◌, refl, Bool, Option, none, some, List, [], ◌∷◌, ◌++◌, All, All-append, length, Bytes, codes,
}
use sutegi.Json.{Json}
use sutegi.Orm.{ℤ, Value, Error, lock_required, Result, ok, err}
use sutegi.Orm.Ident.{check_ident, check_op}
use sutegi.Orm.Path.{JsonSeg, parse_json_path}
use sutegi.Orm.Predicates.{Cmp, Predicate, raw, json_cmp}
use sutegi.Orm.Builder.{LockWait, RowLock, QueryBuilder, new_query}
use sutegi.Orm.Builder.Setters.{
  push_pred, keep_first, column_fault, where_json, where_json_contains, select_json, set_wait,
  select, filter, filter_in, where_null, where_not_null, any_of, where_raw, join_as, check_group,
  group, order_by,
}
use sutegi.Orm.Builder.Faults.{
  check_ident-none, check_op-none, check_idents-none, check_group-none, keep_first-some,
}
use sutegi.Orm.Marks.{Marked, lit, ◌<>◌}
use sutegi.Orm.Marks.Clauses.{GoodPred}

pub record IsSafe (q : QueryBuilder) : Type 0 where
  pub table_ok : Marked 0 q.table
  pub columns_ok : All (Marked 0) q.columns
  pub joins_ok : All (Marked 0) q.joins
  pub preds_ok : All GoodPred q.preds
  pub groups_ok : All (Marked 0) q.group_by
  pub orders_ok : All (λ o. Marked 0 o.0) q.order
  pub selects_ok : All (λ s. Marked 0 s.0 × Marked 0 s.2) q.json_selects

abbrev pub IsValid : QueryBuilder → Type 0
IsValid q = q.fault ≡ none → IsSafe q

pub new_query-IsValid : (table : Bytes) → IsValid (new_query table)
unfolding new_query
new_query-IsValid table h = record {
  table_ok = (check_ident-none (codes "table") table none h).0;
  columns_ok = tt;
  joins_ok = tt;
  preds_ok = tt;
  groups_ok = tt;
  orders_ok = tt;
  selects_ok = tt;
}

-- The parts that are checked decide it.
pub same_parts :
    {q : QueryBuilder} {distinct : Bool} {limit offset : Option ℤ} {row_lock : Option RowLock}
    {fault : Option Error}
    → IsSafe q
    → IsSafe (record q {
      distinct = distinct;
      limit = limit;
      offset = offset;
      row_lock = row_lock;
      fault = fault;
    })
same_parts s = record {
  table_ok = s.table_ok;
  columns_ok = s.columns_ok;
  joins_ok = s.joins_ok;
  preds_ok = s.preds_ok;
  groups_ok = s.groups_ok;
  orders_ok = s.orders_ok;
  selects_ok = s.selects_ok;
}

module _ (q : QueryBuilder) (v : IsValid q) where
  pushed :
      (p : Predicate) (fault : Option Error)
      → (fault ≡ none → GoodPred p × (q.fault ≡ none))
      → IsValid (push_pred p fault q)
  unfolding push_pred
  pushed p fault f h =
      let (good, before) = f h in
      let s = v before in
      record {
        table_ok = s.table_ok;
        columns_ok = s.columns_ok;
        joins_ok = s.joins_ok;
        preds_ok = All-append GoodPred q.preds (p ∷ []) s.preds_ok (good, tt);
        groups_ok = s.groups_ok;
        orders_ok = s.orders_ok;
        selects_ok = s.selects_ok;
      }

  column_checked : (col : Bytes) → column_fault col q ≡ none → Marked 0 col × (q.fault ≡ none)
  column_checked col h = check_ident-none (codes "column") col q.fault h

  cmp_checked :
      (col op : Bytes)
      → check_op op (column_fault col q) ≡ none
      → (Marked 0 col × Marked 0 op) × (q.fault ≡ none)
  cmp_checked col op h =
      let (good_op, checked) = check_op-none op (column_fault col q) h in
      let (good_column, start) = column_checked col checked in ((good_column, good_op), start)

  pub where_json-IsValid :
      (col path op : Bytes) (value : Value) → IsValid (where_json col path op value q)
  unfolding where_json
  where_json-IsValid col path op value = parsed (parse_json_path path)
    where
      parsed :
          (r : Result (List JsonSeg))
          → IsValid (elim r [
            | ok segs ↦ push_pred (json_cmp col segs op value) (check_op op (column_fault col q)) q
            | err e ↦ record q { fault = keep_first e (check_op op (column_fault col q)) }
          ])
      parsed (ok segs) h =
          pushed (json_cmp col segs op value) (check_op op (column_fault col q))
            (λ h. cmp_checked col op h) h
      parsed (err e) h = absurd (keep_first-some e (check_op op (column_fault col q)) h)

  pub where_json_contains-IsValid :
      (col : Bytes) (value : Json) → IsValid (where_json_contains col value q)
  unfolding where_json_contains
  where_json_contains-IsValid col value = pushed _ (column_fault col q) (λ h. column_checked col h)

  pub select_json-IsValid : (col path alias : Bytes) → IsValid (select_json col path alias q)
  unfolding select_json
  select_json-IsValid col path alias = parsed (parse_json_path path)
    where
      fault : Option Error
      fault = check_ident (codes "alias") alias (column_fault col q)

      parsed :
          (r : Result (List JsonSeg))
          → IsValid (elim r [
            | ok segs ↦ record q {
              json_selects = q.json_selects ++ (col, segs, alias) ∷ [];
              fault = fault;
            }
            | err e ↦ record q { fault = keep_first e fault }
          ])
      parsed (ok segs) h =
          let (good_alias, checked) =
            check_ident-none (codes "alias") alias (column_fault col q) h in
          let (good_column, before) = column_checked col checked in
          let s = v before in
          record {
            table_ok = s.table_ok;
            columns_ok = s.columns_ok;
            joins_ok = s.joins_ok;
            preds_ok = s.preds_ok;
            groups_ok = s.groups_ok;
            orders_ok = s.orders_ok;
            selects_ok =
                All-append (λ s. Marked 0 s.0 × Marked 0 s.2) q.json_selects
                  ((col, segs, alias) ∷ []) s.selects_ok ((good_column, good_alias), tt);
          }
      parsed (err e) h = absurd (keep_first-some e fault h)

  pub set_wait-IsValid : (w : LockWait) (method : Bytes) → IsValid (set_wait w method q)
  unfolding set_wait
  set_wait-IsValid w method = locked q.row_lock
    where
      locked :
          (l : Option RowLock)
          → IsValid (elim l [
            | some l ↦ record q { row_lock = some (record l { waits = w }) }
            | none ↦ record q { fault = keep_first (lock_required method) q.fault }
          ])
      locked (some l) h = same_parts (v h)
      locked none h = absurd (keep_first-some (lock_required method) q.fault h)

  pub relocked : (l : Option RowLock) → IsValid (record q { row_lock = l })
  relocked l h = same_parts (v h)

  pub select-IsValid : (cols : List Bytes) → IsValid (select cols q)
  unfolding select
  select-IsValid cols h =
      let (good, before) = check_idents-none (codes "column") cols q.fault h in
      let s = v before in
      record {
        table_ok = s.table_ok;
        columns_ok = good;
        joins_ok = s.joins_ok;
        preds_ok = s.preds_ok;
        groups_ok = s.groups_ok;
        orders_ok = s.orders_ok;
        selects_ok = s.selects_ok;
      }

  pub group-IsValid : (cols : List Bytes) → IsValid (group cols q)
  unfolding group
  group-IsValid cols h =
      let (good, before) = check_idents-none (codes "group-by column") cols q.fault h in
      let s = v before in
      record {
        table_ok = s.table_ok;
        columns_ok = s.columns_ok;
        joins_ok = s.joins_ok;
        preds_ok = s.preds_ok;
        groups_ok = good;
        orders_ok = s.orders_ok;
        selects_ok = s.selects_ok;
      }

  pub order_by-IsValid : (col : Bytes) (descending : Bool) → IsValid (order_by col descending q)
  unfolding order_by
  order_by-IsValid col descending h =
      let (good, before) = check_ident-none (codes "order-by column") col q.fault h in
      let s = v before in
      record {
        table_ok = s.table_ok;
        columns_ok = s.columns_ok;
        joins_ok = s.joins_ok;
        preds_ok = s.preds_ok;
        groups_ok = s.groups_ok;
        orders_ok =
            All-append (λ (o : Bytes × Bool). Marked 0 o.0) q.order ((col, descending) ∷ [])
              s.orders_ok (good, tt);
        selects_ok = s.selects_ok;
      }

  pub join_as-IsValid :
      (how other left right : Bytes) → Marked 0 how → IsValid (join_as how other left right q)
  unfolding join_as
  join_as-IsValid how other left right word h =
      let (good_right, two) = check_ident-none (codes "join column") right _ h in
      let (good_left, one) = check_ident-none (codes "join column") left _ two in
      let (good_other, before) = check_ident-none (codes "join table") other q.fault one in
      let s = v before in
      let text =
        word
        <> good_other
        <> lit (codes " ON ") refl
        <> good_left
        <> lit (codes " = ") refl
        <> good_right in
      record {
        table_ok = s.table_ok;
        columns_ok = s.columns_ok;
        joins_ok = All-append (Marked 0) q.joins (_ ∷ []) s.joins_ok (text, tt);
        preds_ok = s.preds_ok;
        groups_ok = s.groups_ok;
        orders_ok = s.orders_ok;
        selects_ok = s.selects_ok;
      }

  pub filter-IsValid : (col op : Bytes) (value : Value) → IsValid (filter col op value q)
  unfolding filter
  filter-IsValid col op value =
      pushed _ (check_op op (column_fault col q)) (λ h. cmp_checked col op h)

  pub filter_in-IsValid : (col : Bytes) (values : List Value) → IsValid (filter_in col values q)
  unfolding filter_in
  filter_in-IsValid col values = pushed _ (column_fault col q) (λ h. column_checked col h)

  pub where_null-IsValid : (col : Bytes) → IsValid (where_null col q)
  unfolding where_null
  where_null-IsValid col = pushed _ (column_fault col q) (λ h. column_checked col h)

  pub where_not_null-IsValid : (col : Bytes) → IsValid (where_not_null col q)
  unfolding where_not_null
  where_not_null-IsValid col = pushed _ (column_fault col q) (λ h. column_checked col h)

  pub any_of-IsValid : (group : List Cmp) → IsValid (any_of group q)
  unfolding any_of
  any_of-IsValid group =
      pushed _ (check_group group q.fault) (λ h. check_group-none group q.fault h)

  pub where_raw-IsValid :
      (fragment : Bytes) (params : List Value)
      → Marked (length params) fragment
      → IsValid (where_raw fragment params q)
  unfolding where_raw
  where_raw-IsValid fragment params good = pushed (raw fragment params) q.fault (λ h. (good, h))
