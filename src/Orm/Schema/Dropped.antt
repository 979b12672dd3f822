-- ===== src/Orm/Schema/Dropped.antt =====
-- crates/sutegi-orm/src/schema_diff.rs: the tables that are dropped.
use sutegi.Base.{
  ◌≡◌, ◌⊎◌, inl, inr, refl, sym, ap, ◌∙◌, Bool, true, false, Option, none, some, List, [], ◌∷◌, map,
  All, Bytes, Bool-cases, if◌then◌else◌, bytes_eq, bytes_eq→eq, bytes_eq_refl, bytes_eq_comm,
  bytes_eq_same,
}
use sutegi.Orm.Schema.{TableSchema, is_none, table_of}
use sutegi.Orm.Schema.Ops.{drop_table}
use sutegi.Orm.Schema.Apply.{done, ◌>>=◌, remove_table, apply, apply_all}
use sutegi.Orm.Schema.Diff.{dropped_tables}
use sutegi.Orm.Schema.Keyed.{
  unless_found, Distinct, All-keep_if, Distinct-keep_if, find-keep_if, find-keep_if-none,
  find-none_mono, found_all, All-find-none,
}

abbrev pub same_table : TableSchema → TableSchema → Bool
same_table a b = bytes_eq a.table b.table

abbrev pub of_name : Bytes → TableSchema → Bool
of_name n t = bytes_eq t.table n

-- A table less: no name of another is gained or lost.
abbrev Without : Bytes → List TableSchema → List TableSchema → Type 0
Without name before after =
    Distinct same_table after
    × ((n : Bytes) → table_of n after ≡ (if bytes_eq name n then none else table_of n before))

at_name :
    (name n : Bytes) (u : TableSchema) (ts : List TableSchema)
    → bytes_eq u.table name ≡ true
    → Distinct same_table (u ∷ ts)
    → table_of n ts ≡ (if bytes_eq name n then none else table_of n (u ∷ ts))
at_name name n u ts here (first, v) =
    let same : bytes_eq u.table n ≡ bytes_eq name n =
      ap (λ m. bytes_eq m n) (bytes_eq→eq u.table name here) in
    elim (Bool-cases (bytes_eq name n)) [
      | inl q ↦ rw q (
          find-none_mono (λ y. same_table y u) (of_name n) ts
            (λ y h.
              ap (bytes_eq y.table) (bytes_eq→eq u.table name here ∙ bytes_eq→eq name n q) ∙ h)
            first)
      | inr q ↦ rw (q, same ∙ q)
    ]

remove_table-Without :
    (name : Bytes) (ts : List TableSchema)
    → Distinct same_table ts
    → is_none (table_of name ts) ≡ false
    → (ts' : List TableSchema) × (remove_table name ts ≡ done ts') × Without name ts ts'
unfolding remove_table
remove_table-Without name [] u h = cc
remove_table-Without name (t ∷ ts) u h = elim (Bool-cases (bytes_eq t.table name)) [
  | inl here ↦ (ts, rw here, (u.1, λ n. at_name name n t ts here u))
  | inr other ↦
      let (ts', made, (v, found)) = remove_table-Without name ts u.1 (rw other at h) in
      (
        t ∷ ts',
        rw other (ap (λ r. r >>= λ rest. done (t ∷ rest)) made),
        (
          (found t.table ∙ stays (bytes_eq name t.table) (table_of t.table ts) u.0, v),
          λ n. elim (Bool-cases (bytes_eq t.table n)) [
            | inl q ↦ rw (q, bytes_eq_comm name n ∙ sym (bytes_eq_same t.table n name q) ∙ other)
            | inr q ↦ rw q (found n)
          ],
        ),
      )
]
  where
    stays : (b : Bool) (o : Option TableSchema) → o ≡ none → (if b then none else o) ≡ none
    stays true o e = refl
    stays false o e = e

abbrev There : List TableSchema → TableSchema → Type 0
There ts x = is_none (table_of x.table ts) ≡ false

drop_all :
    (ds ts : List TableSchema)
    → Distinct same_table ds
    → Distinct same_table ts
    → All (There ts) ds
    → (ts' : List TableSchema) × (apply_all (map drop_table ds) ts ≡ done ts')
      × ((n : Bytes) → table_of n ts' ≡ unless_found (table_of n ds) (table_of n ts))
unfolding apply_all apply
drop_all [] ts u v h = (ts, refl, λ n. refl)
drop_all (x ∷ ds) ts (first, u) v (here, more) =
    let (ts1, made, (v1, left)) = remove_table-Without x.table ts v here in
    let (ts', rest, found) =
      drop_all ds ts1 u v1
        (still ts1 left ds (All-find-none (λ y. same_table y x) ds first) more) in
    (
      ts',
      ap (λ r. r >>= apply_all (map drop_table ds)) made ∙ rest,
      λ n. found n ∙ ap (unless_found (table_of n ds)) (left n) ∙ together n,
    )
  where
    still :
        (ts1 : List TableSchema)
        → ((n : Bytes) → table_of n ts1 ≡ (if bytes_eq x.table n then none else table_of n ts))
        → (ds : List TableSchema) → All (λ y. same_table y x ≡ false) ds
        → All (There ts) ds
        → All (There ts1) ds
    still ts1 left [] a h = tt
    still ts1 left (y ∷ ds) (a, as') (h, more) = (
      ap is_none (left y.table ∙ rw (bytes_eq_comm x.table y.table ∙ a)) ∙ h,
      still ts1 left ds as' more,
    )

    together :
        (n : Bytes)
        → unless_found (table_of n ds) (if bytes_eq x.table n then none else table_of n ts)
          ≡ unless_found (table_of n (x ∷ ds)) (table_of n ts)
    together n = elim (Bool-cases (bytes_eq x.table n)) [
      | inl e ↦ rw e (never (table_of n ds))
      | inr e ↦ rw e
    ]
      where
        never : (o : Option TableSchema) → unless_found o none ≡ none
        never none = refl
        never (some t) = refl

-- The tables that are left are those that are wanted.
pub dropped_tables-apply_all :
    (current desired : List TableSchema)
    → Distinct same_table current
    → (ts : List TableSchema) × (apply_all (map drop_table (dropped_tables current desired)) current
        ≡ done ts)
      × ((n : Bytes)
          → table_of n ts ≡ (if is_none (table_of n desired) then none else table_of n current))
unfolding dropped_tables
dropped_tables-apply_all current desired u =
    let gone : TableSchema → Bool = λ t. is_none (table_of t.table desired) in
    let (ts, made, found) =
      drop_all (dropped_tables current desired) current (Distinct-keep_if same_table gone current u)
        u
        (All-keep_if same_test (There current) gone current
          (found_all same_table (λ t. bytes_eq_refl t.table) current)) in
    (
      ts,
      made,
      λ n.
          found n
          ∙ ap (λ o. unless_found o (table_of n current))
              (of_dropped n (Bool-cases (is_none (table_of n desired))))
          ∙ settle n (is_none (table_of n desired)) (table_of n current),
    )
  where
    same_test : TableSchema → Bool
    same_test t = true

    of_dropped :
        (n : Bytes)
        → (is_none (table_of n desired) ≡ true) ⊎ (is_none (table_of n desired) ≡ false)
        → table_of n (dropped_tables current desired)
          ≡ (if is_none (table_of n desired) then table_of n current else none)
    of_dropped n (inl e) = rw e (
        find-keep_if (of_name n) (λ t. is_none (table_of t.table desired)) current
          (λ t h. ap (λ m. is_none (table_of m desired)) (bytes_eq→eq t.table n h) ∙ e))
    of_dropped n (inr e) = rw e (
        find-keep_if-none (of_name n) (λ t. is_none (table_of t.table desired)) current
          (λ t h. ap (λ m. is_none (table_of m desired)) (bytes_eq→eq t.table n h) ∙ e))

    settle :
        (n : Bytes) (b : Bool) (o : Option TableSchema)
        → unless_found (if b then o else none) o ≡ (if b then none else o)
    settle n true none = refl
    settle n true (some t) = refl
    settle n false o = refl
