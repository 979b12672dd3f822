-- ===== src/Orm/Builder/Methods.antt =====
-- crates/sutegi-orm/src/builder.rs: a builder on which any methods are called.
use sutegi.Base.{refl, Bool, List, [], ◌∷◌, All, length, Bytes, codes}
use sutegi.Json.{Json}
use sutegi.Orm.{ℤ, Value, text}
use sutegi.Orm.Predicates.{Cmp}
use sutegi.Orm.Builder.{QueryBuilder}
use sutegi.Orm.Builder.Setters
use sutegi.Orm.Builder.Kept.{
  IsValid, same_parts, where_json-IsValid, where_json_contains-IsValid, select_json-IsValid,
  set_wait-IsValid, relocked, select-IsValid, group-IsValid, order_by-IsValid, join_as-IsValid,
  filter-IsValid, filter_in-IsValid, where_null-IsValid, where_not_null-IsValid, any_of-IsValid,
  where_raw-IsValid,
}
use sutegi.Orm.Marks.{Marked, lit}

-- The methods of the builder, with their arguments.
pub data QueryMethod : Type 0 where
  where_json : Bytes → Bytes → Bytes → Value → QueryMethod
  where_json_contains : Bytes → Json → QueryMethod
  select_json : Bytes → Bytes → Bytes → QueryMethod
  for_update for_share skip_locked nowait distinct : QueryMethod
  select group_by : List Bytes → QueryMethod
  filter : Bytes → Bytes → Value → QueryMethod
  filter_in : Bytes → List Value → QueryMethod
  where_null where_not_null : Bytes → QueryMethod
  or_group : List Cmp → QueryMethod
  like : Bytes → Bytes → QueryMethod
  where_raw : Bytes → List Value → QueryMethod
  join left_join : Bytes → Bytes → Bytes → QueryMethod
  order_by : Bytes → Bool → QueryMethod
  limit offset : ℤ → QueryMethod

abbrev pub call : QueryMethod → QueryBuilder → QueryBuilder
call (QueryMethod.where_json col path op v) = Setters.where_json col path op v
call (QueryMethod.where_json_contains col v) = Setters.where_json_contains col v
call (QueryMethod.select_json col path alias) = Setters.select_json col path alias
call QueryMethod.for_update = Setters.for_update
call QueryMethod.for_share = Setters.for_share
call QueryMethod.skip_locked = Setters.skip
call QueryMethod.nowait = Setters.nowait
call QueryMethod.distinct = Setters.set_distinct
call (QueryMethod.select cols) = Setters.select cols
call (QueryMethod.group_by cols) = Setters.group cols
call (QueryMethod.filter col op v) = Setters.filter col op v
call (QueryMethod.filter_in col vs) = Setters.filter_in col vs
call (QueryMethod.where_null col) = Setters.where_null col
call (QueryMethod.where_not_null col) = Setters.where_not_null col
call (QueryMethod.or_group conditions) = Setters.any_of conditions
call (QueryMethod.like col p) = Setters.like col p
call (QueryMethod.where_raw frag ps) = Setters.where_raw frag ps
call (QueryMethod.join other left right) = Setters.inner_join other left right
call (QueryMethod.left_join other left right) = Setters.left_join other left right
call (QueryMethod.order_by col desc) = Setters.order_by col desc
call (QueryMethod.limit n) = Setters.set_limit n
call (QueryMethod.offset n) = Setters.set_offset n

abbrev pub calls : List QueryMethod → QueryBuilder → QueryBuilder
calls [] q = q
calls (m ∷ methods) q = calls methods (call m q)

-- A raw fragment is the caller's: it has a placeholder for each parameter, and is clean.
abbrev pub Allowed : QueryMethod → Type 0
Allowed (QueryMethod.where_raw frag ps) = Marked (length ps) frag
Allowed _ = Unit

call-IsValid : (m : QueryMethod) (q : QueryBuilder) → Allowed m → IsValid q → IsValid (call m q)
unfolding Setters.for_update Setters.for_share Setters.skip Setters.nowait Setters.set_distinct
    Setters.like Setters.inner_join Setters.left_join Setters.set_limit Setters.set_offset
call-IsValid (QueryMethod.where_json col path op v) q a h = where_json-IsValid q h col path op v
call-IsValid (QueryMethod.where_json_contains col v) q a h = where_json_contains-IsValid q h col v
call-IsValid (QueryMethod.select_json col path alias) q a h = select_json-IsValid q h col path alias
call-IsValid QueryMethod.for_update q a h = relocked q h _
call-IsValid QueryMethod.for_share q a h = relocked q h _
call-IsValid QueryMethod.skip_locked q a h = set_wait-IsValid q h _ _
call-IsValid QueryMethod.nowait q a h = set_wait-IsValid q h _ _
call-IsValid QueryMethod.distinct q a h = λ e. same_parts (h e)
call-IsValid (QueryMethod.select cols) q a h = select-IsValid q h cols
call-IsValid (QueryMethod.group_by cols) q a h = group-IsValid q h cols
call-IsValid (QueryMethod.filter col op v) q a h = filter-IsValid q h col op v
call-IsValid (QueryMethod.filter_in col vs) q a h = filter_in-IsValid q h col vs
call-IsValid (QueryMethod.where_null col) q a h = where_null-IsValid q h col
call-IsValid (QueryMethod.where_not_null col) q a h = where_not_null-IsValid q h col
call-IsValid (QueryMethod.or_group conditions) q a h = any_of-IsValid q h conditions
call-IsValid (QueryMethod.like col p) q a h = filter-IsValid q h col (codes "LIKE") (text p)
call-IsValid (QueryMethod.where_raw frag ps) q a h = where_raw-IsValid q h frag ps a
call-IsValid (QueryMethod.join other left right) q a h =
    join_as-IsValid q h _ other left right (lit (codes "JOIN ") refl)
call-IsValid (QueryMethod.left_join other left right) q a h =
    join_as-IsValid q h _ other left right (lit (codes "LEFT JOIN ") refl)
call-IsValid (QueryMethod.order_by col desc) q a h = order_by-IsValid q h col desc
call-IsValid (QueryMethod.limit n) q a h = λ e. same_parts (h e)
call-IsValid (QueryMethod.offset n) q a h = λ e. same_parts (h e)

pub calls-IsValid :
    (methods : List QueryMethod) (q : QueryBuilder)
    → All Allowed methods
    → IsValid q
    → IsValid (calls methods q)
calls-IsValid [] q a h = h
calls-IsValid (m ∷ methods) q (a, more) h =
    calls-IsValid methods (call m q) more (call-IsValid m q a h)
