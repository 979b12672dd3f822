-- ===== src/Orm/Schema/Columns.antt =====
-- crates/sutegi-orm/src/schema_diff.rs: the changes of the columns of a table.
use sutegi.Base.{
  ◌≡◌, inl, inr, refl, sym, ap, ◌∙◌, Bool, true, false, Option, none, some, List, [], ◌∷◌, ◌++◌,
  All, Bytes, Bool-cases, if◌then◌else◌, bytes_eq, bytes_eq→eq, bytes_eq_refl, bytes_eq_comm,
  bytes_eq_same,
}
use sutegi.Orm.Schema.{Column, TableSchema, is_none, col}
use sutegi.Orm.Schema.Ops.{SchemaOp}
use sutegi.Orm.Schema.Apply.{Applied, done, ◌>>=◌, edit, replace_column}
use sutegi.Orm.Schema.Diff.{missing}
use sutegi.Orm.Schema.Keyed.{
  or_else, unless_found, dropped, find-append, find-keep_if, find-keep_if-none, find-dropped,
  Spared,
}

abbrev pub edits : List SchemaOp → TableSchema → Applied TableSchema
edits [] t = done t
edits (op ∷ ops) t = edit op t >>= edits ops

abbrev pub named : Bytes → Column → Bool
named k c = bytes_eq c.name k

abbrev pub same_name : Column → Column → Bool
same_name a b = bytes_eq a.name b.name

pub name_of : (k : Bytes) (c : Column) → named k c ≡ true → c.name ≡ k
name_of k c e = bytes_eq→eq c.name k e

col-missing :
    (k : Bytes) (columns others : List Column)
    → col k (missing columns others) ≡ (if is_none (col k others) then col k columns else none)
unfolding missing
col-missing k columns others = elim (Bool-cases (is_none (col k others))) [
  | inl e ↦ rw e (
      find-keep_if (named k) (λ c. is_none (col c.name others)) columns
        (λ c h. ap (λ n. is_none (col n others)) (name_of k c h) ∙ e))
  | inr e ↦ rw e (
      find-keep_if-none (named k) (λ c. is_none (col c.name others)) columns
        (λ c h. ap (λ n. is_none (col n others)) (name_of k c h) ∙ e))
]

-- The columns once some are dropped and some added.
abbrev pub start : List Column → List Column → List Column
start cur want = dropped same_name (missing cur want) cur ++ missing want cur

abbrev pub merged : Option Column → Option Column → Option Column
merged none w = w
merged (some c) none = none
merged (some c) (some w) = some c

spared : (k : Bytes) (ds xs : List Column) → All (λ d. All (Spared (named k) same_name d) xs) ds
spared k [] xs = tt
spared k (d ∷ ds) xs = (each xs, spared k ds xs)
  where
    each : (xs : List Column) → All (Spared (named k) same_name d) xs
    each [] = tt
    each (x ∷ xs) = (
      λ here apart. ap (λ n. bytes_eq n d.name) (name_of k x here) ∙ bytes_eq_comm k d.name ∙ apart,
      each xs,
    )

pub col-start :
    (k : Bytes) (cur want : List Column) → col k (start cur want) ≡ merged (col k cur) (col k want)
col-start k cur want =
    find-append (named k) (dropped same_name (missing cur want) cur) (missing want cur)
    ∙ ap (λ o. or_else o (col k (missing want cur)))
        (find-dropped (named k) same_name (missing cur want) cur
          (λ d x e h.
            ap (λ n. bytes_eq n d.name) (name_of k x h ∙ sym (name_of k d e))
            ∙ bytes_eq_refl d.name)
          (spared k (missing cur want) cur))
    ∙ ap (λ o. or_else (unless_found o (col k cur)) (col k (missing want cur)))
        (col-missing k cur want)
    ∙ ap (or_else (unless_found (if is_none (col k want) then col k cur else none) (col k cur)))
        (col-missing k want cur)
    ∙ table (col k cur) (col k want)
  where
    table :
        (c w : Option Column)
        → or_else (unless_found (if is_none w then c else none) c) (if is_none c then w else none)
          ≡ merged c w
    table none none = refl
    table none (some w) = refl
    table (some c) none = refl
    table (some c) (some w) = refl

-- The first column of a name that is there is replaced.
pub replaced :
    (w : Column) (cs : List Column)
    → is_none (col w.name cs) ≡ false
    → (cs' : List Column) × (replace_column w.name (λ _. w) cs ≡ some cs')
      × ((k : Bytes) → col k cs' ≡ (if bytes_eq w.name k then some w else col k cs))
unfolding replace_column
replaced w [] h = cc
replaced w (c ∷ cs) h = elim (Bool-cases (bytes_eq c.name w.name)) [
  | inl e ↦ (
    w ∷ cs,
    rw e,
    λ k.
        let same : bytes_eq c.name k ≡ bytes_eq w.name k =
          ap (λ n. bytes_eq n k) (bytes_eq→eq c.name w.name e) in
        elim (Bool-cases (bytes_eq w.name k)) [ inl q ↦ rw q | inr q ↦ rw (q, same ∙ q) ],
  )
  | inr e ↦
      let (cs', done_so, found) = replaced w cs (rw e at h) in
      (
        c ∷ cs',
        rw (e, done_so),
        λ k. elim (Bool-cases (bytes_eq c.name k)) [
          | inl q ↦
              let apart : bytes_eq w.name k ≡ false =
                bytes_eq_comm w.name k ∙ sym (bytes_eq_same c.name k w.name q) ∙ e in
              rw (q, apart)
          | inr q ↦ rw q (found k)
        ],
      )
]
