-- ===== src/Orm/Schema/Wanted.antt =====
-- crates/sutegi-orm/src/schema_diff.rs: the plan of two sets of tables makes the one of the other.
use sutegi.Base.{
  ◌≡◌, inl, inr, refl, sym, ap, ◌∙◌, Bool, true, false, Option, none, some, List, [], ◌∷◌, ◌++◌,
  any, All, Bytes, Bool-cases, if◌then◌else◌, bytes_eq, bytes_eq→eq, bytes_eq_refl, bytes_eq_comm,
}
use mathlib.Core.Path.{subst}
use sutegi.Orm.{Value, Dialect}
use sutegi.Orm.Schema.{Column, TableSchema, is_none, table_of}
use sutegi.Orm.Schema.Ops.{SchemaOp, create_table}
use sutegi.Orm.Schema.Apply.{Applied, done, failed, table_exists, ◌>>=◌, apply, apply_all}
use sutegi.Orm.Schema.Diff.{table_ops, desired_ops, diff}
use sutegi.Orm.Schema.Keyed.{
  or_else-none, find-append, find_sound, find-none_mono, found_all, Distinct, All-find,
  All-find-none,
}
use sutegi.Orm.Schema.Altered.{Agrees}
use sutegi.Orm.Schema.Keys.{same_pair}
use sutegi.Orm.Schema.Table.{SameTable, WellFormed, table_ops-SameTable}
use sutegi.Orm.Schema.Tables.{Now, table_ops-Local, apply_all-Now}
use sutegi.Orm.Schema.Dropped.{same_table, of_name, dropped_tables-apply_all}

then_apply :
    (a b : List SchemaOp) (ts : List TableSchema) {us vs : List TableSchema}
    → apply_all a ts ≡ done us
    → apply_all b us ≡ done vs
    → apply_all (a ++ b) ts ≡ done vs
unfolding apply_all
then_apply [] b ts {us} {vs} e f = let same : ts ≡ us = cc in ap (apply_all b) same ∙ f
then_apply (op ∷ a) b ts {us} {vs} e f = after (apply op ts) (λ ts' h. then_apply a b ts' h f) e
  where
    after :
        (r : Applied (List TableSchema))
        → ((ts' : List TableSchema) → apply_all a ts' ≡ done us → apply_all (a ++ b) ts' ≡ done vs)
        → (r >>= apply_all a) ≡ done us
        → (r >>= apply_all (a ++ b)) ≡ done vs
    after (done ts') g h = g ts' h
    after (failed w) g h = cc

any-of_name :
    (n : Bytes) (ts : List TableSchema) → table_of n ts ≡ none → any (of_name n) ts ≡ false
any-of_name n [] h = refl
any-of_name n (t ∷ ts) h = elim (Bool-cases (bytes_eq t.table n)) [
  | inl e ↦ let no : ◌≡◌ {A = Option TableSchema} (some t) none = rw e at h in cc
  | inr e ↦ rw e (any-of_name n ts (rw e at h))
]

create-Now :
    (w : TableSchema) (ts : List TableSchema)
    → table_of w.table ts ≡ none
    → (apply_all (create_table w ∷ []) ts ≡ done (ts ++ w ∷ [])) × Now w.table w ts (ts ++ w ∷ [])
unfolding apply apply_all
create-Now w ts h = (
  ap (λ b. (if b then failed (table_exists w.table) else done (ts ++ w ∷ [])) >>= λ us. done us)
      (any-of_name w.table ts h),
  λ n. find-append (of_name n) ts (w ∷ []) ∙ elim (Bool-cases (bytes_eq w.table n)) [
    | inl e ↦
        let gone : table_of n ts ≡ none =
          ap (λ m. table_of m ts) (sym (bytes_eq→eq w.table n e)) ∙ h in
        rw (gone, e)
    | inr e ↦ rw e (or_else-none (table_of n ts))
  ],
)

-- Two sets of tables that have tables of the same names, each the same table.
abbrev pub SameTables :
    (Option Value → Option Value → Bool)
    → Dialect
    → Option TableSchema
    → Option TableSchema
    → Type 0
SameTables same d none none = Unit
SameTables same d (some t) (some w) = SameTable same d t w
SameTables same d _ _ = ⊥

module _ (same : Option Value → Option Value → Bool) (d : Dialect) where
  Agrees-refl : (o : Option Column) → Agrees same d o o
  Agrees-refl none = tt
  Agrees-refl (some c) = inl refl

  SameTable_refl : (t : TableSchema) → SameTable same d t t
  SameTable_refl t = record {
    table_same = bytes_eq_refl t.table;
    columns_agree = λ k. Agrees-refl _;
    indexes_same = λ k. refl;
    keys_same = λ k. refl;
  }

  -- After the wanted tables that are left: they are there, and the others stay.
  abbrev Settled : Option TableSchema → Option TableSchema → Option TableSchema → Type 0
  Settled none after before = after ≡ before
  Settled (some w) after before = (t : TableSchema) × (after ≡ some t) × SameTable same d t w

  module _ (current : List TableSchema)
      (pairs : All (λ t. Distinct same_pair t.foreign_keys) current) where
    abbrev Pending : List TableSchema → TableSchema → Type 0
    Pending ts w = table_of w.table ts ≡ table_of w.table current

    -- One wanted table: the table of its name is the same table.
    one :
        (w : TableSchema) (ts : List TableSchema)
        → WellFormed w
        → Pending ts w
        → (t : TableSchema) × (ts' : List TableSchema) × (apply_all
              (elim (table_of w.table current) [
                | none ↦ create_table w ∷ []
                | some cur ↦ table_ops same d cur w
              ])
              ts
            ≡ done ts')
          × Now w.table t ts ts'
          × SameTable same d t w
    one w ts good pending = by_table (table_of w.table current) refl
      where
        by_table :
            (o : Option TableSchema)
            → table_of w.table current ≡ o
            → (t : TableSchema) × (ts' : List TableSchema) × (apply_all
                  (elim o [ none ↦ create_table w ∷ [] | some cur ↦ table_ops same d cur w ])
                  ts
                ≡ done ts')
              × Now w.table t ts ts'
              × SameTable same d t w
        by_table none e =
            let (made, now) = create-Now w ts (pending ∙ e) in
            (w, ts ++ w ∷ [], made, now, SameTable_refl w)
        by_table (some cur) e =
            let named : bytes_eq cur.table w.table ≡ true =
              find_sound (of_name w.table) current cur e in
            let (t, edited, alike) =
              table_ops-SameTable same d cur w named
                (All-find (λ t. Distinct same_pair t.foreign_keys) (of_name w.table) current cur
                  pairs e)
                good in
            let (ts', made, now) =
              apply_all-Now w.table (table_ops same d cur w) ts cur t (table_ops-Local same d cur w)
                (pending ∙ e) (bytes_eq→eq cur.table w.table named) edited in
            (t, ts', made, now, alike)

    settle :
        (ws ts : List TableSchema)
        → Distinct same_table ws
        → All WellFormed ws
        → All (Pending ts) ws
        → (ts' : List TableSchema) × (apply_all (desired_ops same d current ws) ts ≡ done ts')
          × ((n : Bytes) → Settled (table_of n ws) (table_of n ts') (table_of n ts))
    unfolding desired_ops apply_all
    settle [] ts u g p = (ts, refl, λ n. refl)
    settle (w ∷ ws) ts (first, u) (good, g) (here, p) =
        let (t, ts1, made, now, alike) = one w ts good here in
        let (ts', rest, found) =
          settle ws ts1 u g (still ts1 t now ws (All-find-none (λ y. same_table y w) ws first) p) in
        (
          ts',
          then_apply _ _ ts made rest,
          λ n. elim (Bool-cases (bytes_eq w.table n)) [
            | inl e ↦
                let gone : table_of n ws ≡ none =
                  find-none_mono (λ y. same_table y w) (of_name n) ws
                    (λ y h. ap (bytes_eq y.table) (bytes_eq→eq w.table n e) ∙ h) first in
                rw e (t, rw gone at (found n) ∙ now n ∙ rw e, alike)
            | inr e ↦
                rw e (subst (Settled (table_of n ws) (table_of n ts')) (now n ∙ rw e) (found n))
          ],
        )
      where
        still :
            (ts1 : List TableSchema) (t : TableSchema)
            → Now w.table t ts ts1
            → (ws : List TableSchema) → All (λ y. same_table y w ≡ false) ws
            → All (Pending ts) ws
            → All (Pending ts1) ws
        still ts1 t now [] a h = tt
        still ts1 t now (y ∷ ws) (a, as') (h, more) =
            (now y.table ∙ rw (bytes_eq_comm w.table y.table ∙ a) h, still ts1 t now ws as' more)

    -- The plan can be applied, and makes the tables that are wanted: a name finds the one wanted or none, with the
    -- columns, up to what the dialect stores, the indexes and the keys wanted. This is where no table stands twice
    -- in either set, no name and no foreign key twice in a wanted table, and no current table has two foreign keys
    -- of a column to a table.
    pub diff-apply_all :
        (desired : List TableSchema)
        → Distinct same_table current
        → Distinct same_table desired
        → All WellFormed desired
        → (ts : List TableSchema) × (apply_all (diff same d current desired).ops current ≡ done ts)
          × ((n : Bytes) → SameTables same d (table_of n ts) (table_of n desired))
    unfolding diff
    diff-apply_all desired u v g =
        let (ts, dropped_so, left) = dropped_tables-apply_all current desired u in
        let (ts', made, found) =
          settle desired ts v g
            (pending ts left desired (found_all same_table (λ t. bytes_eq_refl t.table) desired)) in
        (
          ts',
          then_apply _ _ current dropped_so made,
          λ n.
              all_same (table_of n desired) (table_of n ts') (table_of n current) (table_of n ts)
                (left n) (found n),
        )
      where
        pending :
            (ts : List TableSchema)
            → ((n : Bytes)
                → table_of n ts
                  ≡ (if is_none (table_of n desired) then none else table_of n current))
            → (ws : List TableSchema) → All (λ w. is_none (table_of w.table desired) ≡ false) ws
            → All (Pending ts) ws
        pending ts left [] h = tt
        pending ts left (w ∷ ws) (h, more) = (left w.table ∙ rw h, pending ts left ws more)

        all_same :
            (w after c before : Option TableSchema)
            → before ≡ (if is_none w then none else c)
            → Settled w after before
            → SameTables same d after w
        all_same none none c before e s = tt
        all_same none (some t) c before e s = cc
        all_same (some w) after c before e (t, now, alike) = rw now alike
