-- ===== src/Orm/Schema/Table.antt =====
-- crates/sutegi-orm/src/schema_diff.rs: the changes of one table make it the one that is wanted.
use sutegi.Base.{
  ◌≡◌, refl, sym, ap, ◌∙◌, Bool, true, false, Option, none, some, List, [], ◌∷◌, ◌++◌, map, All,
  Bytes, append_assoc, append-nil, bytes_eq, bytes_eq_refl, if◌then◌else◌,
}
use sutegi.Orm.{Value, Dialect}
use sutegi.Orm.Schema.{Column, Index, ForeignKey, TableSchema, is_none, col, index_of, same_key}
use sutegi.Orm.Schema.Ops.{
  SchemaOp, add_column, drop_column, drop_index, add_foreign_key, drop_foreign_key,
}
use sutegi.Orm.Schema.Apply.{Applied, done, failed, ◌>>=◌, edit}
use sutegi.Orm.Schema.Diff.{missing, stale_indexes, missing_keys, table_ops}
use sutegi.Orm.Schema.Keyed.{or_else, dropped, Distinct, found_all}
use sutegi.Orm.Schema.Columns.{edits, same_name, start, merged, col-start}
use sutegi.Orm.Schema.Altered.{altered, Present, alter, Agrees, agreed}
use sutegi.Orm.Schema.Indexes.{same_index, Untouched}
use sutegi.Orm.Schema.Remade.{remake, index_of-dropped}
use sutegi.Orm.Schema.Keys.{same_pair, key_of, rekeyed, key_of-rekeyed}

then_edits :
    (a b : List SchemaOp) (t : TableSchema) {u v : TableSchema}
    → edits a t ≡ done u
    → edits b u ≡ done v
    → edits (a ++ b) t ≡ done v
then_edits [] b t {u} {v} e f = let same : t ≡ u = done_path e in ap (edits b) same ∙ f
  where
    done_path : done t ≡ done u → t ≡ u
    done_path h = cc
then_edits (op ∷ a) b t {u} {v} e f = after (edit op t) (λ t' h. then_edits a b t' h f) e
  where
    after :
        (r : Applied TableSchema)
        → ((t' : TableSchema) → edits a t' ≡ done u → edits (a ++ b) t' ≡ done v)
        → (r >>= edits a) ≡ done u
        → (r >>= edits (a ++ b)) ≡ done v
    after (done t') g h = g t' h
    after (failed w) g h = cc

module _ (table : Bytes) where
  drop_columns :
      (ds : List Column) (t : TableSchema)
      → edits (map (drop_column table) ds) t
        ≡ done (record t { columns = dropped same_name ds t.columns })
  unfolding edit
  drop_columns [] t = refl
  drop_columns (c ∷ ds) t = drop_columns ds _

  add_columns :
      (cs : List Column) (t : TableSchema)
      → edits (map (add_column table) cs) t ≡ done (record t { columns = t.columns ++ cs })
  unfolding edit
  add_columns [] t = ap (λ cs. done (record t { columns = cs })) (sym (append-nil t.columns))
  add_columns (c ∷ cs) t =
      add_columns cs _
      ∙ ap (λ cs. done (record t { columns = cs })) (append_assoc t.columns (c ∷ []) cs)

  drop_indexes :
      (ds : List Index) (t : TableSchema)
      → edits (map (drop_index table) ds) t
        ≡ done (record t { indexes = dropped same_index ds t.indexes })
  unfolding edit
  drop_indexes [] t = refl
  drop_indexes (c ∷ ds) t = drop_indexes ds _

  drop_keys :
      (ds : List ForeignKey) (t : TableSchema)
      → edits (map (drop_foreign_key table) ds) t
        ≡ done (record t { foreign_keys = dropped same_pair ds t.foreign_keys })
  unfolding edit
  drop_keys [] t = refl
  drop_keys (c ∷ ds) t = drop_keys ds _

  add_keys :
      (fs : List ForeignKey) (t : TableSchema)
      → edits (map (add_foreign_key table) fs) t
        ≡ done (record t { foreign_keys = t.foreign_keys ++ fs })
  unfolding edit
  add_keys [] t = ap (λ fs. done (record t { foreign_keys = fs })) (sym (append-nil t.foreign_keys))
  add_keys (f ∷ fs) t =
      add_keys fs _
      ∙ ap (λ fs. done (record t { foreign_keys = fs })) (append_assoc t.foreign_keys (f ∷ []) fs)

-- Each name of a column, of an index and of a foreign key finds the same in both, a column up to what the dialect stores.
pub record SameTable (same : Option Value → Option Value → Bool) (d : Dialect)
    (t want : TableSchema) : Type 0 where
  pub table_same : bytes_eq t.table want.table ≡ true
  pub columns_agree : (k : Bytes) → Agrees same d (col k t.columns) (col k want.columns)
  pub indexes_same : (k : Bytes) → index_of k t.indexes ≡ index_of k want.indexes
  pub keys_same : (k : ForeignKey) → key_of k t.foreign_keys ≡ key_of k want.foreign_keys

-- No name twice, and no foreign key twice.
pub record WellFormed (t : TableSchema) : Type 0 where
  pub columns_distinct : Distinct same_name t.columns
  pub indexes_distinct : Distinct same_index t.indexes
  pub keys_distinct : Distinct same_key t.foreign_keys

module _ (same : Option Value → Option Value → Bool) (d : Dialect) (cur want : TableSchema) where
  present :
      (ws : List Column)
      → All (λ w. is_none (col w.name want.columns) ≡ false) ws
      → All (Present same d cur.columns (start cur.columns want.columns)) ws
  present [] h = tt
  present (w ∷ ws) (h, more) = (
    λ p.
        ap is_none (col-start w.name cur.columns want.columns)
        ∙ table (col w.name cur.columns) (col w.name want.columns) p h,
    present ws more,
  )
    where
      table :
          (c w : Option Column)
          → is_none c ≡ false
          → is_none w ≡ false
          → is_none (merged c w) ≡ false
      table none w p h = cc
      table (some c) none p h = cc
      table (some c) (some w) p h = refl

  untouched :
      (ws : List Index)
      → All (λ w. is_none (index_of w.name want.indexes) ≡ false) ws
      → All
          (Untouched cur.indexes
            (dropped same_index (stale_indexes cur.indexes want.indexes) cur.indexes))
          ws
  untouched [] h = tt
  untouched (w ∷ ws) (h, more) =
      (index_of-dropped w.name cur.indexes want.indexes ∙ rw h, untouched ws more)

  -- The changes of a table can be made, and make it the table that is wanted, where no name stands twice in that, and
  -- the table has no two foreign keys of a column to a table.
  pub table_ops-SameTable :
      bytes_eq cur.table want.table ≡ true
      → Distinct same_pair cur.foreign_keys
      → WellFormed want
      → (t : TableSchema) × (edits (table_ops same d cur want) cur ≡ done t)
        × SameTable same d t want
  unfolding table_ops
  table_ops-SameTable named pairs w =
      let start_columns = start cur.columns want.columns in
      let t2 : TableSchema = record cur { columns = start_columns } in
      let (cs, e3, f3) =
        alter same d want.table cur.columns want.columns t2 w.columns_distinct
          (present want.columns (found_all same_name (λ c. bytes_eq_refl c.name) want.columns)) in
      let t3 : TableSchema = record cur { columns = cs } in
      let kept = dropped same_index (stale_indexes cur.indexes want.indexes) cur.indexes in
      let t4 : TableSchema = record t3 { indexes = kept } in
      let (xs, e5, f5) =
        remake want.table cur.indexes want.indexes t4 w.indexes_distinct (
          untouched want.indexes (found_all same_index (λ i. bytes_eq_refl i.name) want.indexes)) in
      let t5 : TableSchema = record t3 { indexes = xs } in
      (
        record t5 { foreign_keys = rekeyed cur.foreign_keys want.foreign_keys },
        then_edits _ _ cur
            (then_edits _ _ cur
              (then_edits _ _ cur
                (then_edits _ _ cur
                  (then_edits _ _ cur
                    (then_edits _ _ cur
                      (drop_columns want.table (missing cur.columns want.columns) cur)
                      (add_columns want.table (missing want.columns cur.columns) _))
                    e3)
                  (drop_indexes want.table (stale_indexes cur.indexes want.indexes) t3))
                e5)
              (drop_keys want.table (missing_keys cur.foreign_keys want.foreign_keys) t5))
            (add_keys want.table (missing_keys want.foreign_keys cur.foreign_keys) _),
        record {
          table_same = named;
          columns_agree = λ k. agreed same d (col k cur.columns) (col k want.columns) (col k cs) (
              f3 k
              ∙ ap (altered same d (col k want.columns) (col k cur.columns))
                  (col-start k cur.columns want.columns));
          indexes_same = λ k. f5 k ∙ all_wanted k;
          keys_same =
              λ k. key_of-rekeyed k cur.foreign_keys want.foreign_keys pairs w.keys_distinct;
        },
      )
    where
      all_wanted :
          (k : Bytes)
          → or_else
              (index_of k want.indexes)
              (index_of k (dropped same_index (stale_indexes cur.indexes want.indexes) cur.indexes))
            ≡ index_of k want.indexes
      all_wanted k =
          ap (or_else (index_of k want.indexes)) (index_of-dropped k cur.indexes want.indexes)
          ∙ either (index_of k want.indexes) (index_of k cur.indexes)
        where
          either : (o c : Option Index) → or_else o (if is_none o then none else c) ≡ o
          either none c = refl
          either (some i) c = refl
