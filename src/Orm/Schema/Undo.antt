-- ===== src/Orm/Schema/Undo.antt =====
-- crates/sutegi-orm/src/schema_diff.rs: the inverse of a plan undoes what the plan added, altered and renamed.
use sutegi.Base.{
  ◌≡◌, refl, sym, ap, ◌∙◌, Bool, true, false, not, Option, none, some, List, [], ◌∷◌, ◌++◌, map,
  any, Bytes, Bool-cases, inl, inr, bytes_eq, bytes_eq_refl, bytes_eq→eq,
}
use mathlib.Core.List.{reverse_aux}
use sutegi.Orm.Schema.{Column, TableSchema, find, keep_if, col, index_of, table_of}
use sutegi.Orm.Schema.Ops.{
  SchemaOp, create_table, drop_table, add_column, drop_column, alter_column, rename_column,
  rename_table, create_index, drop_index, add_foreign_key, drop_foreign_key, inverse, inverse_plan,
}
use sutegi.Orm.Schema.Apply.{
  Applied, done, failed, ◌>>=◌, on_table, remove_table, replace_column, edit_columns, edit, apply,
  apply_all,
}
use sutegi.Orm.Schema.Keyed.{find_sound}
use sutegi.Orm.Schema.Keys.{same_pair}
use sutegi.Orm.Schema.Renaming.{
  Undoes, Restores, Unnamed, refers_to, rename_column-Undoes, rename_table-Restores,
}

keep_if-added :
    {A : Type 0} (test : A → Bool) (xs : List A) (a : A)
    → find test xs ≡ none
    → test a ≡ true
    → keep_if (λ x. not (test x)) (xs ++ a ∷ []) ≡ xs
keep_if-added test [] a h e = rw e
keep_if-added {A} test (x ∷ xs) a h e = elim (Bool-cases (test x)) [
  | inl k ↦ let no : ◌≡◌ {A = Option A} (some x) none = rw k at h in cc
  | inr k ↦ rw k (ap (λ ys. x ∷ ys) (keep_if-added test xs a (rw k at h) e))
]

-- The column found is put back.
replaced_back :
    (name : Bytes) (from to : Column) (cs : List Column)
    → bytes_eq to.name name ≡ true
    → col name cs ≡ some from
    → (cs' : List Column) × (replace_column name (λ _. to) cs ≡ some cs')
      × (replace_column name (λ _. from) cs' ≡ some cs)
unfolding replace_column
replaced_back name from to [] k h = cc
replaced_back name from to (c ∷ cs) k h = elim (Bool-cases (bytes_eq c.name name)) [
  | inl e ↦
      let found : ◌≡◌ {A = Option Column} (some c) (some from) = rw e at h in
      let here : c ≡ from = cc in (to ∷ cs, rw e, rw k (ap (λ x. some (x ∷ cs)) (sym here)))
  | inr e ↦
      let (cs', f, g) = replaced_back name from to cs k (rw e at h) in
      (c ∷ cs', rw (e, f), rw (e, g))
]

module _ (name : Bytes) (f g : TableSchema → Applied TableSchema) where
  on_table-Undoes :
      (ts : List TableSchema)
      → ((x : TableSchema) → table_of name ts ≡ some x → Undoes g x (f x))
      → Restores (on_table name g) ts (on_table name f ts)
  unfolding on_table
  on_table-Undoes [] h = tt
  on_table-Undoes (t ∷ ts) h = elim (Bool-cases (bytes_eq t.table name)) [
    | inl e ↦ rw e (first (f t) e (h t (rw e)))
    | inr e ↦ rw e (later (on_table name f ts) e (on_table-Undoes ts (λ x k. h x (rw e k))))
  ]
    where
      first :
          (r : Applied TableSchema)
          → bytes_eq t.table name ≡ true
          → Undoes g t r
          → Restores (on_table name g) (t ∷ ts) (r >>= λ t'. done (t' ∷ ts))
      first (done y) e (back, same) = rw (same name ∙ e, back)
      first (failed w) e u = tt

      later :
          (r : Applied (List TableSchema))
          → bytes_eq t.table name ≡ false
          → Restores (on_table name g) ts r
          → Restores (on_table name g) (t ∷ ts) (r >>= λ rest. done (t ∷ rest))
      later (done us) e u = rw (e, u)
      later (failed w) e u = tt

remove_table-added :
    (s : TableSchema) (ts : List TableSchema)
    → any (λ t. bytes_eq t.table s.table) ts ≡ false
    → remove_table s.table (ts ++ s ∷ []) ≡ done ts
unfolding remove_table
remove_table-added s [] h = rw (bytes_eq_refl s.table)
remove_table-added s (t ∷ ts) h = elim (Bool-cases (bytes_eq t.table s.table)) [
  | inl e ↦ let no : true ≡ false = rw e at h in cc
  | inr e ↦ rw (e, remove_table-added s ts (rw e at h))
]

-- What a change adds or renames to was not there, and what it alters was as the change says. A drop is not of this kind,
-- since its inverse adds at the end.
abbrev pub Reversible : SchemaOp → List TableSchema → Type 0
Reversible (create_table s) ts = Unit
Reversible (add_column t c) ts =
    (x : TableSchema) → table_of t ts ≡ some x → col c.name x.columns ≡ none
Reversible (alter_column t from to) ts =
    (x : TableSchema) → table_of t ts ≡ some x → col to.name x.columns ≡ some from
Reversible (rename_column t from to) ts = (x : TableSchema) → table_of t ts ≡ some x → Unnamed to x
Reversible (rename_table from to) ts = (table_of to ts ≡ none) × (any (refers_to to) ts ≡ false)
Reversible (create_index t i) ts =
    (x : TableSchema) → table_of t ts ≡ some x → index_of i.name x.indexes ≡ none
Reversible (add_foreign_key t f) ts =
    (x : TableSchema) → table_of t ts ≡ some x → find (λ k. same_pair k f) x.foreign_keys ≡ none
Reversible _ ts = ⊥

abbrev Later : (List TableSchema → Type 0) → Applied (List TableSchema) → Type 0
Later P (done ts) = P ts
Later P (failed e) = Unit

-- Each change is so in the tables that the changes before it leave.
abbrev pub AllReversible : List SchemaOp → List TableSchema → Type 0
AllReversible [] ts = Unit
AllReversible (op ∷ ops) ts = Reversible op ts × Later (AllReversible ops) (apply op ts)

alter-Undoes :
    (t : Bytes) (from to : Column) (x : TableSchema)
    → col to.name x.columns ≡ some from
    → Undoes (edit (alter_column t to from)) x (edit (alter_column t from to) x)
unfolding edit edit_columns
alter-Undoes t from to x h =
    let (cs, f, g) = replaced_back to.name from to x.columns (bytes_eq_refl to.name) h in
    let same : from.name ≡ to.name =
      bytes_eq→eq from.name to.name (find_sound (λ c. bytes_eq c.name to.name) x.columns from h) in
    rw f (
      ap (edit_columns (record x { columns = cs }) from.name)
          (ap (λ n. replace_column n (λ _. from) cs) same ∙ g),
      λ n. refl,
    )

apply-inverse :
    (op : SchemaOp) (ts : List TableSchema)
    → Reversible op ts
    → Restores (apply (inverse op)) ts (apply op ts)
unfolding apply inverse edit
apply-inverse (create_table s) ts h = elim (Bool-cases (any (λ t. bytes_eq t.table s.table) ts)) [
  | inl e ↦ rw e tt
  | inr e ↦ rw e (remove_table-added s ts e)
]
apply-inverse (add_column t c) ts h =
    on_table-Undoes t (edit (add_column t c)) (edit (drop_column t c)) ts (λ x k. (
      ap (λ cs. done (record x { columns = cs }))
          (keep_if-added (λ y. bytes_eq y.name c.name) x.columns c (h x k) (bytes_eq_refl c.name)),
      λ n. refl,
    ))
apply-inverse (alter_column t from to) ts h =
    on_table-Undoes t (edit (alter_column t from to)) (edit (alter_column t to from)) ts
      (λ x k. alter-Undoes t from to x (h x k))
apply-inverse (rename_column t from to) ts h =
    on_table-Undoes t (edit (rename_column t from to)) (edit (rename_column t to from)) ts
      (λ x k. rename_column-Undoes from to t x (h x k))
apply-inverse (rename_table from to) ts (h, g) = rename_table-Restores from to ts h g
apply-inverse (create_index t i) ts h =
    on_table-Undoes t (edit (create_index t i)) (edit (drop_index t i)) ts (λ x k. (
      ap (λ is. done (record x { indexes = is }))
          (keep_if-added (λ y. bytes_eq y.name i.name) x.indexes i (h x k) (bytes_eq_refl i.name)),
      λ n. refl,
    ))
apply-inverse (add_foreign_key t f) ts h =
    on_table-Undoes t (edit (add_foreign_key t f)) (edit (drop_foreign_key t f)) ts (λ x k. (
      ap (λ fs. done (record x { foreign_keys = fs }))
          (keep_if-added (λ y. same_pair y f) x.foreign_keys f (h x k)
            (rw (bytes_eq_refl f.column, bytes_eq_refl f.ref_table))),
      λ n. refl,
    ))
apply-inverse (drop_table s) ts h = elim h [ ]
apply-inverse (drop_column t c) ts h = elim h [ ]
apply-inverse (drop_index t i) ts h = elim h [ ]
apply-inverse (drop_foreign_key t f) ts h = elim h [ ]

undone :
    (ops acc : List SchemaOp) (ts : List TableSchema) {us : List TableSchema}
    {r : Applied (List TableSchema)}
    → AllReversible ops ts
    → apply_all ops ts ≡ done us
    → apply_all (map inverse acc) ts ≡ r
    → apply_all (map inverse (reverse_aux ops acc)) us ≡ r
unfolding apply_all
undone [] acc ts {us} g e back =
    let same : ts ≡ us = cc in ap (apply_all (map inverse acc)) (sym same) ∙ back
undone (op ∷ ops) acc ts {us} {r} (h, g) e back =
    after (apply op ts) g (apply-inverse op ts h) e
      (λ vs g e back. undone ops (op ∷ acc) vs g e back)
  where
    after :
        (made : Applied (List TableSchema))
        → Later (AllReversible ops) made
        → Restores (apply (inverse op)) ts made
        → (made >>= apply_all ops) ≡ done us
        → ((vs : List TableSchema)
            → AllReversible ops vs
            → apply_all ops vs ≡ done us
            → apply_all (map inverse (op ∷ acc)) vs ≡ r
            → apply_all (map inverse (reverse_aux ops (op ∷ acc))) us ≡ r)
        → apply_all (map inverse (reverse_aux ops (op ∷ acc))) us ≡ r
    after (done vs) g u e rest = rest vs g e (rw u back)
    after (failed w) g u e rest = cc

-- A plan that could be applied is undone by its inverse, which restores the tables to the letter, where each change
-- creates a table, adds what was not there, alters a column that was as the change says, or renames to a name that was
-- not in use.
pub inverse_plan-apply_all :
    (ops : List SchemaOp) (ts us : List TableSchema)
    → AllReversible ops ts
    → apply_all ops ts ≡ done us
    → apply_all (inverse_plan ops) us ≡ done ts
unfolding inverse_plan apply_all
inverse_plan-apply_all ops ts us g e = undone ops [] ts g e refl
