-- ===== src/Orm/Builder/Accepted.antt =====
-- crates/sutegi-orm/src/builder.rs: which calls of methods build a query.
use sutegi.Base.{
  ◌≢◌, ◌≡◌, refl, sym, ◌∙◌, bytes_eq, Bool, true, Option, none, some, List, [], ◌∷◌, All,
  All-append, Bytes, codes,
}
use mathlib.Core.Path.{subst}
use sutegi.Orm.{Value, Dialect, sqlite, postgres, Error, ok}
use sutegi.Orm.Ident.{
  valid_identifier, valid_operator, ascii_lower, eq_ignore_ascii_case, check_ident, check_idents,
  check_op,
}
use sutegi.Orm.Path.{JsonSeg, parse_json_path}
use sutegi.Orm.Predicates.{Cmp, Predicate, json_cmp, json_contains}
use sutegi.Orm.Builder.{LockWait, RowLock, QueryBuilder}
use sutegi.Orm.Builder.Setters
use sutegi.Orm.Builder.Setters.{column_fault, check_group}
use sutegi.Orm.Builder.Methods.{QueryMethod, call, calls}

abbrev pub Valid : Bytes → Type 0
Valid s = valid_identifier s ≡ true

abbrev pub ValidCmp : Cmp → Type 0
ValidCmp c = Valid c.0 × (valid_operator c.1 ≡ true)

abbrev pub Parses : Bytes → Type 0
Parses path = (segs : List JsonSeg) × (parse_json_path path ≡ ok segs)

-- The names and operators are valid, the paths parse, a lock stands before how to wait for it, and containment is
-- asked of PostgreSQL.
abbrev pub Accepted : Dialect → Bool → QueryMethod → Type 0
Accepted d locked (QueryMethod.where_json col path op v) =
    Valid col × (valid_operator op ≡ true) × Parses path
Accepted d locked (QueryMethod.where_json_contains col v) = Valid col × (d ≡ postgres)
Accepted d locked (QueryMethod.select_json col path alias) = Valid col × Valid alias × Parses path
Accepted d locked QueryMethod.skip_locked = locked ≡ true
Accepted d locked QueryMethod.nowait = locked ≡ true
Accepted d locked (QueryMethod.select cols) = All Valid cols
Accepted d locked (QueryMethod.group_by cols) = All Valid cols
Accepted d locked (QueryMethod.filter col op v) = ValidCmp (col, op, v)
Accepted d locked (QueryMethod.filter_in col vs) = Valid col
Accepted d locked (QueryMethod.where_null col) = Valid col
Accepted d locked (QueryMethod.where_not_null col) = Valid col
Accepted d locked (QueryMethod.or_group conditions) = All ValidCmp conditions
Accepted d locked (QueryMethod.like col p) = Valid col
Accepted d locked (QueryMethod.join other left right) = Valid other × Valid left × Valid right
Accepted d locked (QueryMethod.left_join other left right) = Valid other × Valid left × Valid right
Accepted d locked (QueryMethod.order_by col desc) = Valid col
Accepted d locked _ = Unit

abbrev pub locks : QueryMethod → Bool → Bool
locks QueryMethod.for_update locked = true
locks QueryMethod.for_share locked = true
locks _ locked = locked

abbrev pub AllAccepted : Dialect → Bool → List QueryMethod → Type 0
AllAccepted d locked [] = Unit
AllAccepted d locked (m ∷ methods) = Accepted d locked m × AllAccepted d (locks m locked) methods

abbrev pub Renders : Dialect → Predicate → Type 0
Renders d (json_contains col v) = d ≡ postgres
Renders d _ = Unit

pub record IsReady (d : Dialect) (locked : Bool) (q : QueryBuilder) : Type 0 where
  pub no_fault : q.fault ≡ none
  pub lock : locked ≡ true → (l : RowLock) × (q.row_lock ≡ some l)
  pub renders : All (Renders d) q.preds

pub ident : (kind s : Bytes) (e : Option Error) → e ≡ none → Valid s → check_ident kind s e ≡ none
unfolding check_ident
ident kind s none h k = rw k
ident kind s (some e) h k = cc

op_checked :
    (op : Bytes) (e : Option Error) → e ≡ none → valid_operator op ≡ true → check_op op e ≡ none
unfolding check_op
op_checked op none h k = rw k
op_checked op (some e) h k = cc

idents :
    (kind : Bytes) (names : List Bytes) (e : Option Error)
    → e ≡ none
    → All Valid names
    → check_idents kind names e ≡ none
unfolding check_idents
idents kind [] e h k = h
idents kind (s ∷ names) e h (k, more) =
    idents kind names (check_ident kind s e) (ident kind s e h k) more

group_checked :
    (group : List Cmp) (e : Option Error)
    → e ≡ none
    → All ValidCmp group
    → check_group group e ≡ none
unfolding check_group
group_checked [] e h k = h
group_checked ((c, op, v) ∷ group) e h ((col, operator), more) =
    group_checked group _ (op_checked op _ (ident (codes "column") c e h col) operator) more

pub sqlite_only : sqlite ≢ postgres
sqlite_only h = cc

like_operator : valid_operator (codes "LIKE") ≡ true
unfolding valid_operator eq_ignore_ascii_case ascii_lower bytes_eq
like_operator = refl

module _ {d : Dialect} {locked : Bool} (q : QueryBuilder) (r : IsReady d locked q) where
  column : (col : Bytes) → Valid col → column_fault col q ≡ none
  column col k = ident (codes "column") col q.fault r.no_fault k

  pushed :
      (p : Predicate) (fault : Option Error)
      → fault ≡ none
      → Renders d p
      → IsReady d locked (Setters.push_pred p fault q)
  unfolding Setters.push_pred
  pushed p fault h k = record {
    no_fault = h;
    lock = r.lock;
    renders = All-append (Renders d) q.preds (p ∷ []) r.renders (k, tt);
  }

  kept :
      {q' : QueryBuilder}
      → q'.fault ≡ none
      → q'.row_lock ≡ q.row_lock
      → q'.preds ≡ q.preds
      → IsReady d locked q'
  kept e l p = record {
    no_fault = e;
    lock = λ h. let (w, there) = r.lock h in (w, l ∙ there);
    renders = subst (All (Renders d)) (sym p) r.renders;
  }

  relocked : (l : RowLock) → IsReady d true (record q { row_lock = some l })
  relocked l = record { no_fault = r.no_fault; lock = λ _. (l, refl); renders = r.renders }

  set_wait-IsReady :
      (w : LockWait) (method : Bytes)
      → locked ≡ true
      → IsReady d locked (Setters.set_wait w method q)
  unfolding Setters.set_wait
  set_wait-IsReady w method h =
      let (l, there) = r.lock h in
      rw there (record {
        no_fault = r.no_fault;
        lock = λ _. (record l { waits = w }, refl);
        renders = r.renders;
      })

  where_json-IsReady :
      (col path op : Bytes) (v : Value)
      → Valid col × (valid_operator op ≡ true) × Parses path
      → IsReady d locked (Setters.where_json col path op v q)
  unfolding Setters.where_json
  where_json-IsReady col path op v (k, o, (segs, e)) =
      rw (e, Setters.where_json)
        (pushed (json_cmp col segs op v) _ (op_checked op _ (column col k) o) tt)

  select_json-IsReady :
      (col path alias : Bytes)
      → Valid col × Valid alias × Parses path
      → IsReady d locked (Setters.select_json col path alias q)
  unfolding Setters.select_json
  select_json-IsReady col path alias (k, a, (segs, e)) =
      rw (e, Setters.select_json) (kept (ident (codes "alias") alias _ (column col k) a) refl refl)

call-IsReady :
    {d : Dialect} {locked : Bool} (m : QueryMethod) (q : QueryBuilder)
    → Accepted d locked m
    → IsReady d locked q
    → IsReady d (locks m locked) (call m q)
unfolding Setters.where_json_contains Setters.for_update Setters.for_share Setters.skip
    Setters.nowait Setters.select Setters.set_distinct Setters.filter Setters.filter_in
    Setters.where_null Setters.where_not_null Setters.any_of Setters.like Setters.where_raw
    Setters.join_as Setters.inner_join Setters.left_join Setters.group Setters.order_by
    Setters.set_limit Setters.set_offset
call-IsReady (QueryMethod.where_json col path op v) q a r = where_json-IsReady q r col path op v a
call-IsReady (QueryMethod.where_json_contains col v) q (k, e) r =
    pushed q r _ _ (column q r col k) e
call-IsReady (QueryMethod.select_json col path alias) q a r =
    select_json-IsReady q r col path alias a
call-IsReady QueryMethod.for_update q a r = relocked q r _
call-IsReady QueryMethod.for_share q a r = relocked q r _
call-IsReady QueryMethod.skip_locked q a r = set_wait-IsReady q r _ _ a
call-IsReady QueryMethod.nowait q a r = set_wait-IsReady q r _ _ a
call-IsReady QueryMethod.distinct q a r = kept q r r.no_fault refl refl
call-IsReady (QueryMethod.select cols) q a r =
    kept q r (idents _ cols q.fault r.no_fault a) refl refl
call-IsReady (QueryMethod.group_by cols) q a r =
    kept q r (idents _ cols q.fault r.no_fault a) refl refl
call-IsReady (QueryMethod.filter col op v) q (k, o) r =
    pushed q r _ _ (op_checked op _ (column q r col k) o) tt
call-IsReady (QueryMethod.filter_in col vs) q a r = pushed q r _ _ (column q r col a) tt
call-IsReady (QueryMethod.where_null col) q a r = pushed q r _ _ (column q r col a) tt
call-IsReady (QueryMethod.where_not_null col) q a r = pushed q r _ _ (column q r col a) tt
call-IsReady (QueryMethod.or_group conditions) q a r =
    pushed q r _ _ (group_checked conditions q.fault r.no_fault a) tt
call-IsReady (QueryMethod.like col p) q a r =
    pushed q r _ _ (op_checked (codes "LIKE") _ (column q r col a) like_operator) tt
call-IsReady (QueryMethod.where_raw frag ps) q a r = pushed q r _ _ r.no_fault tt
call-IsReady (QueryMethod.join other left right) q (o, a, b) r =
    kept q r (ident _ right _ (ident _ left _ (ident _ other q.fault r.no_fault o) a) b) refl refl
call-IsReady (QueryMethod.left_join other left right) q (o, a, b) r =
    kept q r (ident _ right _ (ident _ left _ (ident _ other q.fault r.no_fault o) a) b) refl refl
call-IsReady (QueryMethod.order_by col desc) q a r =
    kept q r (ident _ col q.fault r.no_fault a) refl refl
call-IsReady (QueryMethod.limit n) q a r = kept q r r.no_fault refl refl
call-IsReady (QueryMethod.offset n) q a r = kept q r r.no_fault refl refl

pub calls-IsReady :
    {d : Dialect} (locked : Bool) (methods : List QueryMethod) (q : QueryBuilder)
    → AllAccepted d locked methods
    → IsReady d locked q
    → (b : Bool) × IsReady d b (calls methods q)
calls-IsReady locked [] q a r = (locked, r)
calls-IsReady locked (m ∷ methods) q (a, more) r =
    calls-IsReady (locks m locked) methods (call m q) more (call-IsReady m q a r)
