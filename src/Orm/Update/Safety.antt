-- ===== src/Orm/Update/Safety.antt =====
-- crates/sutegi-orm/src/builder.rs: the text of an UPDATE that any methods built.
use sutegi.Base.{
  ◌≡◌, refl, sym, arith, Option, none, some, List, [], ◌∷◌, ◌++◌, map, All, All-append, length,
  length-append, length-map, Bytes, codes,
}
use sutegi.Orm.{Value, sqlite, Error, Result, ok, err, ◌>>=◌, join_with}
use sutegi.Orm.Ident.{check_ident}
use sutegi.Orm.Predicates.{Predicate, raw, Sql, render_predicates}
use sutegi.Orm.Builder.Faults.{check_ident-none, check_op-none, check_idents-none}
use sutegi.Orm.Builder.Shown.{AllMarked-names}
use sutegi.Orm.Update
use sutegi.Orm.Update.{UpdateBuilder, returning_sql, assignment}
use sutegi.Orm.Marks.{Marked, lit, recount, ◌<>◌}
use sutegi.Orm.Marks.Parts.{AllMarked-each, join_with-Marked}
use sutegi.Orm.Marks.Clauses.{GoodPred, MarkedSql, Yields, render_predicates-Marked}

pub data UpdateMethod : Type 0 where
  set : Bytes → Value → UpdateMethod
  filter : Bytes → Bytes → Value → UpdateMethod
  where_null : Bytes → UpdateMethod
  where_raw : Bytes → List Value → UpdateMethod
  returning : List Bytes → UpdateMethod

abbrev pub calls : List UpdateMethod → UpdateBuilder → UpdateBuilder
calls [] u = u
calls (UpdateMethod.set col v ∷ methods) u = calls methods (Update.set_column col v u)
calls (UpdateMethod.filter col op v ∷ methods) u = calls methods (Update.filter col op v u)
calls (UpdateMethod.where_null col ∷ methods) u = calls methods (Update.where_null col u)
calls (UpdateMethod.where_raw frag ps ∷ methods) u = calls methods (Update.where_raw frag ps u)
calls (UpdateMethod.returning cols ∷ methods) u = calls methods (Update.set_returning cols u)

abbrev pub Allowed : UpdateMethod → Type 0
Allowed (UpdateMethod.where_raw frag ps) = Marked (length ps) frag
Allowed _ = Unit

record IsSafe (u : UpdateBuilder) : Type 0 where
  table_ok : Marked 0 u.table
  sets_ok : All (λ s. Marked 0 s.0) u.sets
  preds_ok : All GoodPred u.preds
  returning_ok : All (Marked 0) u.returning

abbrev IsValid : UpdateBuilder → Type 0
IsValid u = u.fault ≡ none → IsSafe u

module _ (u : UpdateBuilder) (v : IsValid u) where
  pushed :
      (p : Predicate) (fault : Option Error)
      → (fault ≡ none → GoodPred p × (u.fault ≡ none))
      → IsValid (record u { preds = u.preds ++ p ∷ []; fault = fault })
  pushed p fault f h =
      let (good, before) = f h in
      let s = v before in
      record {
        table_ok = s.table_ok;
        sets_ok = s.sets_ok;
        preds_ok = All-append GoodPred u.preds (p ∷ []) s.preds_ok (good, tt);
        returning_ok = s.returning_ok;
      }

  set-IsValid : (col : Bytes) (value : Value) → IsValid (Update.set_column col value u)
  unfolding Update.set_column
  set-IsValid col value h =
      let (good, before) = check_ident-none (codes "column") col u.fault h in
      let s = v before in
      record {
        table_ok = s.table_ok;
        sets_ok =
            All-append (λ (s : Bytes × Value). Marked 0 s.0) u.sets ((col, value) ∷ []) s.sets_ok
              (good, tt);
        preds_ok = s.preds_ok;
        returning_ok = s.returning_ok;
      }

  filter-IsValid : (col op : Bytes) (value : Value) → IsValid (Update.filter col op value u)
  unfolding Update.filter
  filter-IsValid col op value = pushed _ _ (λ h.
      let (good_op, checked) = check_op-none op (check_ident (codes "column") col u.fault) h in
      let (good_column, start) = check_ident-none (codes "column") col u.fault checked in
      ((good_column, good_op), start))

  where_null-IsValid : (col : Bytes) → IsValid (Update.where_null col u)
  unfolding Update.where_null
  where_null-IsValid col = pushed _ _ (λ h. check_ident-none (codes "column") col u.fault h)

  where_raw-IsValid :
      (fragment : Bytes) (params : List Value)
      → Marked (length params) fragment
      → IsValid (Update.where_raw fragment params u)
  unfolding Update.where_raw
  where_raw-IsValid fragment params good = pushed (raw fragment params) u.fault (λ h. (good, h))

  returning-IsValid : (cols : List Bytes) → IsValid (Update.set_returning cols u)
  unfolding Update.set_returning
  returning-IsValid cols h =
      let (good, before) = check_idents-none (codes "column") cols u.fault h in
      let s = v before in
      record {
        table_ok = s.table_ok;
        sets_ok = s.sets_ok;
        preds_ok = s.preds_ok;
        returning_ok = good;
      }

calls-IsValid :
    (methods : List UpdateMethod) (u : UpdateBuilder)
    → All Allowed methods
    → IsValid u
    → IsValid (calls methods u)
calls-IsValid [] u a v = v
calls-IsValid (UpdateMethod.set col x ∷ methods) u (a, more) v =
    calls-IsValid methods _ more (set-IsValid u v col x)
calls-IsValid (UpdateMethod.filter col op x ∷ methods) u (a, more) v =
    calls-IsValid methods _ more (filter-IsValid u v col op x)
calls-IsValid (UpdateMethod.where_null col ∷ methods) u (a, more) v =
    calls-IsValid methods _ more (where_null-IsValid u v col)
calls-IsValid (UpdateMethod.where_raw frag ps ∷ methods) u (a, more) v =
    calls-IsValid methods _ more (where_raw-IsValid u v frag ps a)
calls-IsValid (UpdateMethod.returning cols ∷ methods) u (a, more) v =
    calls-IsValid methods _ more (returning-IsValid u v cols)

new-IsValid : (table : Bytes) → IsValid (Update.new table)
unfolding Update.new
new-IsValid table h = record {
  table_ok = (check_ident-none (codes "table") table none h).0;
  sets_ok = tt;
  preds_ok = tt;
  returning_ok = tt;
}

returning_sql-Marked : (cols : List Bytes) → All (Marked 0) cols → Marked 0 (returning_sql cols)
unfolding returning_sql
returning_sql-Marked [] h = lit [] refl
returning_sql-Marked (c ∷ cols) h =
    lit (codes " RETURNING ") refl
    <> join_with-Marked (lit (codes ", ") refl) (AllMarked-names (c ∷ cols) h)

assignments :
    (sets : List (Bytes × Value))
    → All (λ s. Marked 0 s.0) sets
    → All (λ s. Marked 1 (assignment s)) sets
unfolding assignment
assignments [] h = tt
assignments ((c, v) ∷ sets) (h, more) = (h <> lit (codes " = ?") refl, assignments sets more)

build-Marked : (u : UpdateBuilder) → IsValid u → Yields MarkedSql (Update.build u)
unfolding Update.build
build-Marked u v = built u.fault v
  where
    text_of : Sql → Bytes
    text_of w =
        codes "UPDATE "
        ++ u.table
        ++ codes " SET "
        ++ join_with (codes ", ") (map assignment u.sets)
        ++ w.0
        ++ returning_sql u.returning

    rendered :
        (r : Result Sql)
        → IsSafe u
        → Yields MarkedSql r
        → Yields MarkedSql (r >>= λ w. ok (text_of w, map (λ s. s.1) u.sets ++ w.1))
    rendered (err e) s h = tt
    rendered (ok w) s h =
        recount
          (sym (
            omega (
              arith,
              length-append (map (λ (s : Bytes × Value). s.1) u.sets) w.1,
              length-map u.sets (λ (s : Bytes × Value). s.1),
            )))
          (lit (codes "UPDATE ") refl
            <> s.table_ok
            <> lit (codes " SET ") refl
            <> join_with-Marked (lit (codes ", ") refl)
                (AllMarked-each assignment u.sets (assignments u.sets s.sets_ok))
            <> h
            <> returning_sql-Marked u.returning s.returning_ok)

    built :
        (f : Option Error)
        → (f ≡ none → IsSafe u)
        → Yields MarkedSql (elim f [
          | some e ↦ err e
          | none ↦
              render_predicates sqlite u.preds >>= λ w. ok (text_of w, map (λ s. s.1) u.sets ++ w.1)
        ])
    built (some e) g = tt
    built none g =
        rendered (render_predicates sqlite u.preds) (g refl)
          (render_predicates-Marked sqlite u.preds (g refl).preds_ok)

-- An UPDATE that any methods built has, where it is built, as many `?` as parameters, and is clean: no quote,
-- backtick, `[` or `$`, which open a string or a quoted name, no `--` or `/*`, which open a comment, and no `;`.
-- A raw fragment has to be so itself, with a `?` for each of its parameters.
pub build-calls :
    (table : Bytes) (methods : List UpdateMethod)
    → All Allowed methods
    → Yields MarkedSql (Update.build (calls methods (Update.new table)))
build-calls table methods a =
    build-Marked _ (calls-IsValid methods (Update.new table) a (new-IsValid table))
