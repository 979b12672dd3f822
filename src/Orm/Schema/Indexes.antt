-- ===== src/Orm/Schema/Indexes.antt =====
-- crates/sutegi-orm/src/schema_diff.rs: the changes of the indexes of a table.
use sutegi.Base.{
  ◌≡◌, inl, inr, refl, sym, ap, ◌∙◌, Bool, true, false, not, ◌&&◌, none, some, List, [], ◌∷◌, ◌++◌,
  All, Bytes, Bool-cases, if◌then◌else◌, bytes_eq, bytes_eq→eq, bytes_eq_refl, bytes_eq_comm,
}
use mathlib.Core.Bool.{and-eq-true_iff}
use sutegi.Orm.Schema.{Index, TableSchema, bool_eq, names_eq, index_eq, keep_if, index_of}
use sutegi.Orm.Schema.Ops.{create_index, drop_index}
use sutegi.Orm.Schema.Apply.{done}
use sutegi.Orm.Schema.Diff.{index_ops}
use sutegi.Orm.Schema.Keyed.{
  or_else, find-append, find-keep_if, find-keep_if-none, find-none_mono, Distinct, All-find-none,
  or_else-none,
}
use sutegi.Orm.Schema.Columns.{edits}

abbrev pub called : Bytes → Index → Bool
called k i = bytes_eq i.name k

abbrev pub same_index : Index → Index → Bool
same_index a b = bytes_eq a.name b.name

bool_eq→eq : (a b : Bool) → bool_eq a b ≡ true → a ≡ b
unfolding bool_eq
bool_eq→eq true true h = refl
bool_eq→eq true false h = cc
bool_eq→eq false true h = cc
bool_eq→eq false false h = refl

names_eq→eq : (a b : List Bytes) → names_eq a b ≡ true → a ≡ b
unfolding names_eq
names_eq→eq [] [] h = refl
names_eq→eq [] (y ∷ ys) h = cc
names_eq→eq (x ∷ xs) [] h = cc
names_eq→eq (x ∷ xs) (y ∷ ys) h =
    let (first, rest) = (and-eq-true_iff (bytes_eq x y) (names_eq xs ys)).0 h in
    let same : x ≡ y = bytes_eq→eq x y first in let others : xs ≡ ys = names_eq→eq xs ys rest in cc

pub index_eq→eq : (a b : Index) → index_eq a b ≡ true → a ≡ b
unfolding index_eq
index_eq→eq a b h =
    let (both, unique) =
      (and-eq-true_iff (bytes_eq a.name b.name && names_eq a.columns b.columns)
          (bool_eq a.unique b.unique)).0
        h in
    let (name, columns) =
      (and-eq-true_iff (bytes_eq a.name b.name) (names_eq a.columns b.columns)).0 both in
    λ i. record {
      name = bytes_eq→eq a.name b.name name i;
      columns = names_eq→eq a.columns b.columns columns i;
      unique = bool_eq→eq a.unique b.unique unique i;
    }

-- An index is created, or made again, and the others stay.
abbrev pub Put : Index → List Index → List Index → Type 0
Put w before after =
    (k : Bytes) → index_of k after ≡ (if bytes_eq w.name k then some w else index_of k before)

pub Put-new : (w : Index) (xs : List Index) → index_of w.name xs ≡ none → Put w xs (xs ++ w ∷ [])
Put-new w xs h k = find-append (called k) xs (w ∷ []) ∙ elim (Bool-cases (bytes_eq w.name k)) [
  | inl e ↦
      let gone : index_of k xs ≡ none =
        ap (λ n. index_of n xs) (sym (bytes_eq→eq w.name k e)) ∙ h in
      rw (gone, e)
  | inr e ↦ rw e (or_else-none (index_of k xs))
]

pub Put-again :
    (w i : Index) (xs : List Index)
    → i.name ≡ w.name
    → Put w xs (keep_if (λ x. not (bytes_eq x.name i.name)) xs ++ w ∷ [])
Put-again w i xs same k =
    let left : List Index = keep_if (λ x. not (bytes_eq x.name i.name)) xs in
    elim (Bool-cases (bytes_eq w.name k)) [
      | inl e ↦
          let gone : index_of k left ≡ none =
            find-keep_if-none (called k) (λ x. not (bytes_eq x.name i.name)) xs
              (λ x h. ap not (
                ap (λ n. bytes_eq n i.name)
                  (bytes_eq→eq x.name k h ∙ sym (bytes_eq→eq w.name k e) ∙ sym same)
                ∙ bytes_eq_refl i.name)) in
          find-append (called k) left (w ∷ [])
          ∙ ap (λ o. or_else o (index_of k (w ∷ []))) gone
          ∙ rw e
      | inr e ↦
          let kept : index_of k left ≡ index_of k xs =
            find-keep_if (called k) (λ x. not (bytes_eq x.name i.name)) xs
              (λ x h. ap not (apart x.name (bytes_eq→eq x.name k h) e)) in
          find-append (called k) left (w ∷ []) ∙ rw e (or_else-none (index_of k left) ∙ kept)
    ]
  where
    apart : (n : Bytes) → n ≡ k → bytes_eq w.name k ≡ false → bytes_eq n i.name ≡ false
    apart n here e = elim (Bool-cases (bytes_eq n i.name)) [
      | inl q ↦
          let same_k : w.name ≡ k = sym same ∙ sym (bytes_eq→eq n i.name q) ∙ here in
          let no : true ≡ false = sym (bytes_eq_refl w.name) ∙ ap (bytes_eq w.name) same_k ∙ e in cc
      | inr q ↦ q
    ]

abbrev pub Remade : Bytes → List Index → List Index → TableSchema → Type 0
Remade table cur ws t =
    (xs : List Index) × (edits (index_ops table cur ws) t ≡ done (record t { indexes = xs }))
    × ((k : Bytes) → index_of k xs ≡ or_else (index_of k ws) (index_of k t.indexes))

abbrev pub Untouched : List Index → List Index → Index → Type 0
Untouched cur xs w = index_of w.name xs ≡ index_of w.name cur

module _ (table : Bytes) (cur : List Index) (w : Index) (ws : List Index) where
  pub create_step :
      index_of w.name cur ≡ none
      → index_ops table cur (w ∷ ws) ≡ create_index table w ∷ index_ops table cur ws
  unfolding index_ops
  create_step h = rw (h, index_ops)

  pub equal_step :
      (i : Index)
      → index_of w.name cur ≡ some i
      → index_eq i w ≡ true
      → index_ops table cur (w ∷ ws) ≡ index_ops table cur ws
  unfolding index_ops
  equal_step i h k = rw (h, index_ops) (rw k)

  pub again_step :
      (i : Index)
      → index_of w.name cur ≡ some i
      → index_eq i w ≡ false
      → index_ops table cur (w ∷ ws)
        ≡ drop_index table i ∷ create_index table w ∷ index_ops table cur ws
  unfolding index_ops
  again_step i h k = rw (h, index_ops) (rw k)

  pub others :
      (xs xs' : List Index)
      → Put w xs xs'
      → Distinct same_index (w ∷ ws)
      → All (Untouched cur xs) ws
      → All (Untouched cur xs') ws
  others xs xs' put (first, u) h = both ws (All-find-none (λ y. same_index y w) ws first) h
    where
      both :
          (ws : List Index)
          → All (λ y. same_index y w ≡ false) ws
          → All (Untouched cur xs) ws
          → All (Untouched cur xs') ws
      both [] a b = tt
      both (y ∷ ws) (a, as') (b, bs) = (
        put y.name
            ∙ ap (λ q. if q then some w else index_of y.name xs) (bytes_eq_comm w.name y.name ∙ a)
            ∙ b,
        both ws as' bs,
      )

  pub at_last :
      (xs xs' : List Index) (k : Bytes)
      → Distinct same_index (w ∷ ws)
      → index_of k xs' ≡ (if bytes_eq w.name k then some w else index_of k xs)
      → or_else (index_of k ws) (index_of k xs') ≡ or_else (index_of k (w ∷ ws)) (index_of k xs)
  at_last xs xs' k (first, u) put = elim (Bool-cases (bytes_eq w.name k)) [
    | inl e ↦
        let gone : index_of k ws ≡ none =
          find-none_mono (λ y. same_index y w) (called k) ws
            (λ y h. ap (bytes_eq y.name) (bytes_eq→eq w.name k e) ∙ h) first in
        rw (gone, e) (put ∙ rw e)
    | inr e ↦ rw e (ap (or_else (index_of k ws)) (put ∙ rw e))
  ]
