-- ===== src/Orm/Schema/Renaming.antt =====
-- crates/sutegi-orm/src/schema_diff.rs: a renaming of a column or a table, and the renaming back.
use sutegi.Base.{
  ◌≡◌, refl, sym, ap, ◌∙◌, Bool, true, false, Option, none, some, List, [], ◌∷◌, map, any, Bytes,
  Bool-cases, inl, inr, bytes_eq, bytes_eq_refl, bytes_eq→eq,
}
use mathlib.Core.Option
use mathlib.Core.Path.{ap₂}
use sutegi.Orm.Schema.{Column, TableSchema, col, table_of}
use sutegi.Orm.Schema.Ops.{rename_column}
use sutegi.Orm.Schema.Apply.{
  Applied, done, failed, ◌>>=◌, on_table, replace_column, renamed, rename_in, rename_columns,
  repoint, edit,
}

-- What undoes a change of a table that was made, and a change of the tables.
abbrev pub Undoes : (TableSchema → Applied TableSchema) → TableSchema → Applied TableSchema → Type 0
Undoes g x (done y) = (g y ≡ done x) × ((n : Bytes) → bytes_eq y.table n ≡ bytes_eq x.table n)
Undoes g x (failed e) = Unit

abbrev pub Restores :
    (List TableSchema → Applied (List TableSchema))
    → List TableSchema
    → Applied (List TableSchema)
    → Type 0
Restores g ts (done us) = g us ≡ done ts
Restores g ts (failed e) = Unit

-- What is done to each element and undone again, where no element is one that it cannot be undone for.
map_back :
    {A : Type 0} (f g : A → A) (bad : A → Bool)
    → ((x : A) → bad x ≡ false → g (f x) ≡ x)
    → (xs : List A) → any bad xs ≡ false
    → map g (map f xs) ≡ xs
map_back f g bad back [] h = refl
map_back f g bad back (x ∷ xs) h = elim (Bool-cases (bad x)) [
  | inl e ↦ let no : true ≡ false = rw e at h in cc
  | inr e ↦ ap₂ ◌∷◌ (back x e) (map_back f g bad back xs (rw e at h))
]

-- No column of the table, of its indexes and of its foreign keys has the name.
pub record Unnamed (name : Bytes) (t : TableSchema) : Type 0 where
  pub no_column_named : col name t.columns ≡ none
  pub no_index_on : any (λ i. any (λ k. bytes_eq k name) i.columns) t.indexes ≡ false
  pub no_key_on : any (λ f. bytes_eq f.column name) t.foreign_keys ≡ false

abbrev pub refers_to : Bytes → TableSchema → Bool
refers_to name t = any (λ f. bytes_eq f.ref_table name) t.foreign_keys

module _ (from to : Bytes) where
  renamed_back : (k : Bytes) → bytes_eq k to ≡ false → renamed to from (renamed from to k) ≡ k
  renamed_back k h = elim (Bool-cases (bytes_eq k from)) [
    | inl e ↦ rw (e, bytes_eq_refl to) (sym (bytes_eq→eq k from e))
    | inr e ↦ rw (e, h)
  ]

  abbrev Back : List Column → Option (List Column) → Type 0
  Back cs none = Unit
  Back cs (some ds) = replace_column to (λ c. record c { name = from }) ds ≡ some cs

  column-Back :
      (cs : List Column)
      → col to cs ≡ none
      → Back cs (replace_column from (λ c. record c { name = to }) cs)
  unfolding replace_column
  column-Back [] h = tt
  column-Back (c ∷ cs) h = elim (Bool-cases (bytes_eq c.name from)) [
    | inl e ↦ rw e (
        rw (bytes_eq_refl to)
          (ap (λ k. some (record c { name = k } ∷ cs)) (sym (bytes_eq→eq c.name from e))))
    | inr e ↦ elim (Bool-cases (bytes_eq c.name to)) [
      | inl k ↦ let no : ◌≡◌ {A = Option Column} (some c) none = rw k at h in cc
      | inr k ↦ rw e (
          later (replace_column from (λ c. record c { name = to }) cs) k
            (column-Back cs (rw k at h)))
    ]
  ]
    where
      later :
          (r : Option (List Column))
          → bytes_eq c.name to ≡ false
          → Back cs r
          → Back (c ∷ cs) (Option.map (λ rest. c ∷ rest) r)
      later none k b = tt
      later (some ds) k b = rw (k, b)

  pub rename_column-Undoes :
      (t : Bytes) (x : TableSchema)
      → Unnamed to x
      → Undoes (edit (rename_column t to from)) x (edit (rename_column t from to) x)
  unfolding edit rename_columns rename_in
  rename_column-Undoes t x u =
      either (replace_column from (λ c. record c { name = to }) x.columns)
        (column-Back x.columns u.no_column_named)
    where
      either :
          (r : Option (List Column))
          → Back x.columns r
          → Undoes (edit (rename_column t to from)) x (rename_columns x from to r)
      either none b = tt
      either (some ds) b = (
        rw b (
            ap₂ (λ is fs. done (record x { indexes = is; foreign_keys = fs }))
              (map_back _ _ (λ i. any (λ k. bytes_eq k to) i.columns)
                (λ i h.
                  ap (λ ks. record i { columns = ks })
                    (map_back _ _ (λ k. bytes_eq k to) renamed_back i.columns h))
                x.indexes u.no_index_on)
              (map_back _ _ (λ f. bytes_eq f.column to)
                (λ f h. ap (λ k. record f { column = k }) (renamed_back f.column h)) x.foreign_keys
                u.no_key_on)),
        λ n. refl,
      )

  repoint_back :
      (x : TableSchema) → refers_to to x ≡ false → repoint to from (repoint from to x) ≡ x
  unfolding repoint
  repoint_back x h =
      ap (λ fs. record x { foreign_keys = fs })
        (map_back _ _ (λ f. bytes_eq f.ref_table to)
          (λ f e. ap (λ k. record f { ref_table = k }) (renamed_back f.ref_table e)) x.foreign_keys
          h)

  abbrev there : List TableSchema → Applied (List TableSchema)
  there ts = on_table from (λ t. done (record t { table = to })) ts

  abbrev back_to : List TableSchema → Applied (List TableSchema)
  back_to us = on_table to (λ t. done (record t { table = from })) us

  pub rename_table-Restores :
      (ts : List TableSchema)
      → table_of to ts ≡ none
      → any (refers_to to) ts ≡ false
      → Restores
          (λ us. back_to us >>= λ vs. done (map (repoint to from) vs))
          ts
          (there ts >>= λ us. done (map (repoint from to) us))
  unfolding on_table repoint
  rename_table-Restores [] h g = tt
  rename_table-Restores (t ∷ ts) h g = elim (Bool-cases (refers_to to t)) [
    | inl r ↦ let no : true ≡ false = rw r at g in cc
    | inr r ↦ elim (Bool-cases (bytes_eq t.table to)) [
      | inl k ↦ let no : ◌≡◌ {A = Option TableSchema} (some t) none = rw k at h in cc
      | inr k ↦ elim (Bool-cases (bytes_eq t.table from)) [
        | inl e ↦ rw e (
            rw (bytes_eq_refl to) (
              ap₂ (λ x xs. done (x ∷ xs))
                (repoint_back (record t { table = from }) r
                  ∙ ap (λ n. record t { table = n }) (sym (bytes_eq→eq t.table from e)))
                (map_back _ _ (refers_to to) repoint_back ts (rw r at g))))
        | inr e ↦ rw e (later (there ts) r k (rename_table-Restores ts (rw k at h) (rw r at g)))
      ]
    ]
  ]
    where
      kept :
          (q : Applied (List TableSchema))
          → refers_to to t ≡ false
          → (q >>= λ vs. done (map (repoint to from) vs)) ≡ done ts
          → ((q >>= λ rest. done (repoint from to t ∷ rest)) >>= λ vs.
              done (map (repoint to from) vs))
            ≡ done (t ∷ ts)
      kept (done vs) r b =
          let same : map (repoint to from) vs ≡ ts = cc in
          ap₂ (λ x xs. done (x ∷ xs)) (repoint_back t r) same
      kept (failed w) r b = cc

      later :
          (made : Applied (List TableSchema))
          → refers_to to t ≡ false
          → bytes_eq t.table to ≡ false
          → Restores
              (λ us. back_to us >>= λ vs. done (map (repoint to from) vs))
              ts
              (made >>= λ us. done (map (repoint from to) us))
          → Restores
              (λ us. back_to us >>= λ vs. done (map (repoint to from) vs))
              (t ∷ ts)
              ((made >>= λ rest. done (t ∷ rest)) >>= λ us. done (map (repoint from to) us))
      later (done us) r k b = rw k (kept (back_to (map (repoint from to) us)) r b)
      later (failed w) r k b = tt
