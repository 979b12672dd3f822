-- ===== src/Orm/Schema/Tables.antt =====
-- crates/sutegi-orm/src/schema_diff.rs: changes of one table among others.
use sutegi.Base.{
  ◌≡◌, inl, inr, refl, sym, ap, ◌∙◌, Bool, true, false, Option, none, some, List, [], ◌∷◌, map, All,
  All-append, Bytes, Bool-cases, Option-cases, if◌then◌else◌, bytes_eq, bytes_eq→eq, bytes_eq_refl,
  bytes_eq_comm, bytes_eq_same,
}
use sutegi.Orm.{Value, Dialect}
use sutegi.Orm.Schema.{Column, Index, TableSchema, col, index_of, index_eq, table_of}
use sutegi.Orm.Schema.Ops.{
  SchemaOp, create_table, drop_table, add_column, drop_column, alter_column, rename_column,
  rename_table, create_index, drop_index, add_foreign_key, drop_foreign_key,
}
use sutegi.Orm.Schema.Apply.{
  Applied, done, failed, ◌>>=◌, on_table, edit, edit_columns, replace_column, rename_in,
  rename_columns, apply, apply_all,
}
use sutegi.Orm.Schema.Diff.{
  columns_match, missing, alter_ops, stale_indexes, index_ops, missing_keys, table_ops,
}
use sutegi.Orm.Schema.Columns.{edits}

-- A change of one table alone.
abbrev pub Local : Bytes → SchemaOp → Type 0
Local table op = (schemas : List TableSchema) → apply op schemas ≡ on_table table (edit op) schemas

All-map :
    {A : Type 0} (table : Bytes) (f : A → SchemaOp) (xs : List A)
    → ((x : A) → Local table (f x))
    → All (Local table) (map f xs)
All-map table f [] h = tt
All-map table f (x ∷ xs) h = (h x, All-map table f xs h)

module _ (same : Option Value → Option Value → Bool) (d : Dialect) where
  alter_ops-Local :
      (table : Bytes) (cur ws : List Column) → All (Local table) (alter_ops same d table cur ws)
  unfolding alter_ops apply
  alter_ops-Local table cur [] = tt
  alter_ops-Local table cur (w ∷ ws) = by_column (col w.name cur) (alter_ops-Local table cur ws)
    where
      by_column :
          (o : Option Column)
          → All (Local table) (alter_ops same d table cur ws)
          → All (Local table) (elim o [
            | none ↦ alter_ops same d table cur ws
            | some c ↦
                if columns_match same d c w
                then alter_ops same d table cur ws
                else alter_column table c w ∷ alter_ops same d table cur ws
          ])
      by_column none h = h
      by_column (some c) h = by_match (columns_match same d c w)
        where
          by_match :
              (b : Bool)
              → All (Local table) (
                  if b
                  then alter_ops same d table cur ws
                  else alter_column table c w ∷ alter_ops same d table cur ws)
          by_match true = h
          by_match false = (λ schemas. refl, h)

  index_ops-Local :
      (table : Bytes) (cur ws : List Index) → All (Local table) (index_ops table cur ws)
  unfolding index_ops apply
  index_ops-Local table cur [] = tt
  index_ops-Local table cur (w ∷ ws) = by_index (index_of w.name cur) (index_ops-Local table cur ws)
    where
      by_index :
          (o : Option Index)
          → All (Local table) (index_ops table cur ws)
          → All (Local table) (elim o [
            | none ↦ create_index table w ∷ index_ops table cur ws
            | some i ↦
                if index_eq i w
                then index_ops table cur ws
                else drop_index table i ∷ create_index table w ∷ index_ops table cur ws
          ])
      by_index none h = (λ schemas. refl, h)
      by_index (some i) h = by_equal (index_eq i w)
        where
          by_equal :
              (b : Bool)
              → All (Local table) (
                  if b
                  then index_ops table cur ws
                  else drop_index table i ∷ create_index table w ∷ index_ops table cur ws)
          by_equal true = h
          by_equal false = (λ schemas. refl, (λ schemas. refl, h))

  pub table_ops-Local :
      (cur want : TableSchema) → All (Local want.table) (table_ops same d cur want)
  unfolding table_ops apply
  table_ops-Local cur want =
      let P : SchemaOp → Type 0 = Local want.table in
      All-append P _ _
        (All-append P _ _
          (All-append P _ _
            (All-append P _ _
              (All-append P _ _
                (All-append P _ _
                  (All-map want.table (drop_column want.table) (missing cur.columns want.columns)
                    (λ c schemas. refl))
                  (All-map want.table (add_column want.table) (missing want.columns cur.columns)
                    (λ c schemas. refl)))
                (alter_ops-Local want.table cur.columns want.columns))
              (All-map want.table (drop_index want.table) (stale_indexes cur.indexes want.indexes)
                (λ i schemas. refl)))
            (index_ops-Local want.table cur.indexes want.indexes))
          (All-map want.table (drop_foreign_key want.table)
            (missing_keys cur.foreign_keys want.foreign_keys) (λ f schemas. refl)))
        (All-map want.table (add_foreign_key want.table)
          (missing_keys want.foreign_keys cur.foreign_keys) (λ f schemas. refl))

-- The table of that name is another, and the others stay.
abbrev pub Now : Bytes → TableSchema → List TableSchema → List TableSchema → Type 0
Now name t before after =
    (n : Bytes) → table_of n after ≡ (if bytes_eq name n then some t else table_of n before)

on_table-Now :
    (name : Bytes) (f : TableSchema → Applied TableSchema) (ts : List TableSchema)
    (t t' : TableSchema)
    → table_of name ts ≡ some t
    → f t ≡ done t'
    → t'.table ≡ name
    → (ts' : List TableSchema) × (on_table name f ts ≡ done ts') × Now name t' ts ts'
unfolding on_table
on_table-Now name f [] t t' h e s = cc
on_table-Now name f (u ∷ ts) t t' h e s = elim (Bool-cases (bytes_eq u.table name)) [
  | inl here ↦
      let found : ◌≡◌ {A = Option TableSchema} (some u) (some t) = rw here at h in
      let same : u ≡ t = cc in
      (
        t' ∷ ts,
        rw here (ap (λ v. f v >>= λ w. done (w ∷ ts)) same ∙ ap (λ r. r >>= λ w. done (w ∷ ts)) e),
        λ n.
            let old : bytes_eq u.table n ≡ bytes_eq name n =
              ap (λ m. bytes_eq m n) (bytes_eq→eq u.table name here) in
            let new : bytes_eq t'.table n ≡ bytes_eq name n = ap (λ m. bytes_eq m n) s in
            elim (Bool-cases (bytes_eq name n)) [
              | inl q ↦ rw (new ∙ q, q)
              | inr q ↦ rw (new ∙ q, q, old ∙ q)
            ],
      )
  | inr other ↦
      let (ts', done_so, now) = on_table-Now name f ts t t' (rw other at h) e s in
      (
        u ∷ ts',
        rw other (ap (λ r. r >>= λ rest. done (u ∷ rest)) done_so),
        λ n. elim (Bool-cases (bytes_eq u.table n)) [
          | inl q ↦ rw (q, bytes_eq_comm name n ∙ sym (bytes_eq_same u.table n name q) ∙ other)
          | inr q ↦ rw q (now n)
        ],
      )
]

kept_table : (t u v : TableSchema) → done v ≡ done u → v.table ≡ t.table → u.table ≡ t.table
kept_table t u v h e = let same : v ≡ u = cc in sym (ap (λ t. t.table) same) ∙ e

edit-table : (op : SchemaOp) (t u : TableSchema) → edit op t ≡ done u → u.table ≡ t.table
unfolding edit edit_columns rename_columns rename_in
edit-table (create_table s) t u h = kept_table t u t h refl
edit-table (drop_table s) t u h = kept_table t u t h refl
edit-table (rename_table a b) t u h = kept_table t u t h refl
edit-table (add_column _ c) t u h = kept_table t u _ h refl
edit-table (drop_column _ c) t u h = kept_table t u _ h refl
edit-table (alter_column _ a b) t u h =
    elim (Option-cases (replace_column b.name (λ _. b) t.columns)) [
      | inl e ↦ let no : failed _ ≡ done u = rw e at h in cc
      | inr (cs, e) ↦ kept_table t u _ (rw e at h) refl
    ]
edit-table (rename_column _ a b) t u h =
    elim (Option-cases (replace_column a (λ c. record c { name = b }) t.columns)) [
      | inl e ↦ let no : failed _ ≡ done u = rw e at h in cc
      | inr (cs, e) ↦ kept_table t u _ (rw e at h) refl
    ]
edit-table (create_index _ i) t u h = kept_table t u _ h refl
edit-table (drop_index _ i) t u h = kept_table t u _ h refl
edit-table (add_foreign_key _ f) t u h = kept_table t u _ h refl
edit-table (drop_foreign_key _ f) t u h = kept_table t u _ h refl

-- Changes of one table, made one after another.
pub apply_all-Now :
    (name : Bytes) (ops : List SchemaOp) (ts : List TableSchema) (t t' : TableSchema)
    → All (Local name) ops
    → table_of name ts ≡ some t
    → t.table ≡ name
    → edits ops t ≡ done t'
    → (ts' : List TableSchema) × (apply_all ops ts ≡ done ts') × Now name t' ts ts'
unfolding apply_all
apply_all-Now name [] ts t t' l h s e =
    let same : t ≡ t' = cc in
    (
      ts,
      refl,
      λ n. elim (Bool-cases (bytes_eq name n)) [
        | inl q ↦ rw q (ap (λ m. table_of m ts) (sym (bytes_eq→eq name n q)) ∙ h ∙ ap some same)
        | inr q ↦ rw q
      ],
    )
apply_all-Now name (op ∷ ops) ts t t' (local, l) h s e =
    first (edit op t) refl e (λ u k f. apply_all-Now name ops (k.0) u t' l k.1 k.2 f)
  where
    Next : TableSchema → Type 0
    Next u = (ts1 : List TableSchema) × (table_of name ts1 ≡ some u) × (u.table ≡ name)

    first :
        (r : Applied TableSchema)
        → edit op t ≡ r
        → (r >>= edits ops) ≡ done t'
        → ((u : TableSchema) (k : Next u)
            → edits ops u ≡ done t'
            → (ts' : List TableSchema) × (apply_all ops k.0 ≡ done ts') × Now name t' k.0 ts')
        → (ts' : List TableSchema) × ((apply op ts >>= apply_all ops) ≡ done ts')
          × Now name t' ts ts'
    first (failed w) q f g = cc
    first (done u) q f g =
        let keeps : u.table ≡ name = edit-table op t u q ∙ s in
        let (ts1, made, now) = on_table-Now name (edit op) ts t u h q keeps in
        let (ts', rest, now') = g u (ts1, now name ∙ rw (bytes_eq_refl name), keeps) f in
        (
          ts',
          ap (λ r. r >>= apply_all ops) (local ts ∙ made) ∙ rest,
          λ n. now' n ∙ again (table_of n ts1) (table_of n ts) (bytes_eq name n) (now n),
        )
      where
        again :
            (o p : Option TableSchema) (b : Bool)
            → o ≡ (if b then some u else p)
            → (if b then some t' else o) ≡ (if b then some t' else p)
        again o p true h = refl
        again o p false h = h
