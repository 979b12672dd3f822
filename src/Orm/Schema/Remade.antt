-- ===== src/Orm/Schema/Remade.antt =====
-- crates/sutegi-orm/src/schema_diff.rs: the indexes that a table has after its changes.
use sutegi.Base.{
  ◌≡◌, inl, inr, refl, sym, ap, ◌∙◌, Bool, true, false, not, Option, none, some, List, [], ◌∷◌,
  ◌++◌, any, All, Bytes, Bool-cases, Option-cases, if◌then◌else◌, bytes_eq, bytes_eq→eq,
  bytes_eq_refl, bytes_eq_comm, bytes_eq_same,
}
use sutegi.Orm.Schema.{Index, TableSchema, index_eq, keep_if, is_none, index_of}
use sutegi.Orm.Schema.Apply.{edit}
use sutegi.Orm.Schema.Diff.{stale_indexes, index_ops}
use sutegi.Orm.Schema.Keyed.{
  unless_found, dropped, find-keep_if, find-keep_if-none, find-dropped, find_sound, Spared,
  Distinct,
}
use sutegi.Orm.Schema.Columns.{edits}
use sutegi.Orm.Schema.Indexes.{
  called, same_index, index_eq→eq, Put-new, Put-again, Remade, Untouched, create_step, equal_step,
  again_step, others, at_last,
}

pub remake :
    (table : Bytes) (cur ws : List Index) (t : TableSchema)
    → Distinct same_index ws
    → All (Untouched cur t.indexes) ws
    → Remade table cur ws t
unfolding index_ops edit
remake table cur [] t u h = (t.indexes, refl, λ k. refl)
remake table cur (w ∷ ws) t u (here, more) = elim (Option-cases (index_of w.name cur)) [
  | inl new ↦
      let put = Put-new w t.indexes (here ∙ new) in
      let (xs, e, f) =
        remake table cur ws (record t { indexes = t.indexes ++ w ∷ [] }) u.1
          (others table cur w ws t.indexes _ put u more) in
      (
        xs,
        ap (λ ops. edits ops t) (create_step table cur w ws new) ∙ e,
        λ k. f k ∙ at_last table cur w ws t.indexes _ k u (put k),
      )
  | inr (i, old) ↦ elim (Bool-cases (index_eq i w)) [
    | inl equal ↦
        let (xs, e, f) = remake table cur ws t u.1 more in
        let same : i ≡ w = index_eq→eq i w equal in
        (
          xs,
          ap (λ ops. edits ops t) (equal_step table cur w ws i old equal) ∙ e,
          λ k.
              f k
              ∙ at_last table cur w ws t.indexes t.indexes k u
                  (unchanged k (here ∙ old ∙ ap some same)),
        )
    | inr differs ↦
        let name : i.name ≡ w.name =
          bytes_eq→eq i.name w.name (find_sound (called w.name) cur i old) in
        let put = Put-again w i t.indexes name in
        let left : List Index = keep_if (λ x. not (bytes_eq x.name i.name)) t.indexes in
        let (xs, e, f) =
          remake table cur ws (record t { indexes = left ++ w ∷ [] }) u.1
            (others table cur w ws t.indexes _ put u more) in
        (
          xs,
          ap (λ ops. edits ops t) (again_step table cur w ws i old differs) ∙ e,
          λ k. f k ∙ at_last table cur w ws t.indexes _ k u (put k),
        )
  ]
]
  where
    unchanged :
        (k : Bytes)
        → index_of w.name t.indexes ≡ some w
        → index_of k t.indexes ≡ (if bytes_eq w.name k then some w else index_of k t.indexes)
    unchanged k h = elim (Bool-cases (bytes_eq w.name k)) [
      | inl e ↦ rw e (ap (λ n. index_of n t.indexes) (sym (bytes_eq→eq w.name k e)) ∙ h)
      | inr e ↦ rw e
    ]

abbrev wants : Bytes → List Index → Bool
wants k want = any (λ w. bytes_eq w.name k) want

wants_iff : (k : Bytes) (want : List Index) → not (wants k want) ≡ is_none (index_of k want)
wants_iff k [] = refl
wants_iff k (w ∷ want) = elim (Bool-cases (bytes_eq w.name k)) [
  | inl e ↦ rw e
  | inr e ↦ rw e (wants_iff k want)
]

index_of-stale :
    (k : Bytes) (cur want : List Index)
    → index_of k (stale_indexes cur want)
      ≡ (if is_none (index_of k want) then index_of k cur else none)
unfolding stale_indexes
index_of-stale k cur want = elim (Bool-cases (is_none (index_of k want))) [
  | inl e ↦ rw e (
      find-keep_if (called k) (λ i. not (wants i.name want)) cur
        (λ i h. ap (λ n. not (wants n want)) (bytes_eq→eq i.name k h) ∙ wants_iff k want ∙ e))
  | inr e ↦ rw e (
      find-keep_if-none (called k) (λ i. not (wants i.name want)) cur
        (λ i h. ap (λ n. not (wants n want)) (bytes_eq→eq i.name k h) ∙ wants_iff k want ∙ e))
]

-- The indexes once those that are not wanted are dropped.
pub index_of-dropped :
    (k : Bytes) (cur want : List Index)
    → index_of k (dropped same_index (stale_indexes cur want) cur)
      ≡ (if is_none (index_of k want) then none else index_of k cur)
index_of-dropped k cur want =
    find-dropped (called k) same_index (stale_indexes cur want) cur
      (λ d x e h.
        ap (λ n. bytes_eq n d.name) (bytes_eq→eq x.name k h ∙ sym (bytes_eq→eq d.name k e))
        ∙ bytes_eq_refl d.name)
      (spared (stale_indexes cur want) cur)
    ∙ ap (λ o. unless_found o (index_of k cur)) (index_of-stale k cur want)
    ∙ table (is_none (index_of k want)) (index_of k cur)
  where
    table :
        (b : Bool) (c : Option Index)
        → unless_found (if b then c else none) c ≡ (if b then none else c)
    table true none = refl
    table true (some c) = refl
    table false c = refl

    spared : (ds xs : List Index) → All (λ d. All (Spared (called k) same_index d) xs) ds
    spared [] xs = tt
    spared (d ∷ ds) xs = (each xs, spared ds xs)
      where
        each : (xs : List Index) → All (Spared (called k) same_index d) xs
        each [] = tt
        each (x ∷ xs) = (
          λ here apart. bytes_eq_same x.name k d.name here ∙ bytes_eq_comm k d.name ∙ apart,
          each xs,
        )
