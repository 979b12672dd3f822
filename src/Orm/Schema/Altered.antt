-- ===== src/Orm/Schema/Altered.antt =====
-- crates/sutegi-orm/src/schema_diff.rs: the columns that a table has after its changes.
use sutegi.Base.{
  ◌≡◌, ◌⊎◌, inl, inr, refl, sym, ap, ◌∙◌, Bool, true, false, Option, none, some, List, [], ◌∷◌, All,
  Bytes, Bool-cases, Option-cases, if◌then◌else◌, bytes_eq, bytes_eq→eq,
}
use mathlib.Core.Bool.{and-eq-true_iff}
use sutegi.Orm.{Value, Dialect}
use sutegi.Orm.Schema.{Column, TableSchema, storage, bool_eq, is_none, col}
use sutegi.Orm.Schema.Ops.{alter_column}
use sutegi.Orm.Schema.Apply.{done, ◌>>=◌, edit, edit_columns, replace_column}
use sutegi.Orm.Schema.Diff.{columns_match, alter_ops}
use sutegi.Orm.Schema.Keyed.{Distinct, find-none_mono}
use sutegi.Orm.Schema.Columns.{edits, named, same_name, merged, replaced}

bool_eq→eq : (a b : Bool) → bool_eq a b ≡ true → a ≡ b
unfolding bool_eq
bool_eq→eq true true h = refl
bool_eq→eq true false h = cc
bool_eq→eq false true h = cc
bool_eq→eq false false h = refl

module _ (same : Option Value → Option Value → Bool) (d : Dialect) where
  -- What the alterations make of a column, of the one wanted and of the one there was.
  abbrev pub altered : Option Column → Option Column → Option Column → Option Column
  altered none c o = o
  altered (some w) none o = o
  altered (some w) (some c) o = if columns_match same d c w then o else some w

  abbrev pub Altered : Bytes → List Column → List Column → TableSchema → Type 0
  Altered table cur ws t =
      (cs : List Column) × (edits (alter_ops same d table cur ws) t
        ≡ done (record t { columns = cs }))
      × ((k : Bytes) → col k cs ≡ altered (col k ws) (col k cur) (col k t.columns))

  abbrev pub Present : List Column → List Column → Column → Type 0
  Present cur cs w = is_none (col w.name cur) ≡ false → is_none (col w.name cs) ≡ false

  -- A column of the rest has another name.
  absent :
      (k : Bytes) (w : Column) (ws : List Column)
      → Distinct same_name (w ∷ ws)
      → bytes_eq w.name k ≡ true
      → col k ws ≡ none
  absent k w ws (first, u) e =
      find-none_mono (λ y. same_name y w) (named k) ws
        (λ y h. ap (bytes_eq y.name) (bytes_eq→eq w.name k e) ∙ h) first

  module _ (table : Bytes) (cur : List Column) (w : Column) (ws : List Column) where
    alter_new :
        col w.name cur ≡ none → alter_ops same d table cur (w ∷ ws) ≡ alter_ops same d table cur ws
    unfolding alter_ops
    alter_new h = rw (h, alter_ops)

    alter_fits :
        (c : Column)
        → col w.name cur ≡ some c
        → columns_match same d c w ≡ true
        → alter_ops same d table cur (w ∷ ws) ≡ alter_ops same d table cur ws
    unfolding alter_ops
    alter_fits c h k = rw (h, alter_ops) (rw k)

    alter_differs :
        (c : Column)
        → col w.name cur ≡ some c
        → columns_match same d c w ≡ false
        → alter_ops same d table cur (w ∷ ws)
          ≡ alter_column table c w ∷ alter_ops same d table cur ws
    unfolding alter_ops
    alter_differs c h k = rw (h, alter_ops) (rw k)

    edit_alter :
        (c : Column) (t : TableSchema) (cs : List Column)
        → replace_column w.name (λ _. w) t.columns ≡ some cs
        → edit (alter_column table c w) t ≡ done (record t { columns = cs })
    unfolding edit edit_columns
    edit_alter c t cs h = rw h

  pub alter :
      (table : Bytes) (cur ws : List Column) (t : TableSchema)
      → Distinct same_name ws
      → All (Present cur t.columns) ws
      → Altered table cur ws t
  unfolding alter_ops
  alter table cur [] t u h = (t.columns, refl, λ k. refl)
  alter table cur (w ∷ ws) t u (here, more) = elim (Option-cases (col w.name cur)) [
    | inl new ↦
        let (cs, e, f) = alter table cur ws t u.1 more in
        (
          cs,
          ap (λ ops. edits ops t) (alter_new table cur w ws new) ∙ e,
          λ k. elim (Bool-cases (bytes_eq w.name k)) [
            | inl q ↦
                let at_k : col k cur ≡ none =
                  ap (λ n. col n cur) (sym (bytes_eq→eq w.name k q)) ∙ new in
                rw (q, at_k) (f k ∙ rw (absent k w ws u q))
            | inr q ↦ rw q (f k)
          ],
        )
    | inr (c, old) ↦ elim (Bool-cases (columns_match same d c w)) [
      | inl fits ↦
          let (cs, e, f) = alter table cur ws t u.1 more in
          (
            cs,
            ap (λ ops. edits ops t) (alter_fits table cur w ws c old fits) ∙ e,
            λ k. elim (Bool-cases (bytes_eq w.name k)) [
              | inl q ↦
                  let at_k : col k cur ≡ some c =
                    ap (λ n. col n cur) (sym (bytes_eq→eq w.name k q)) ∙ old in
                  rw (q, at_k) (rw fits (f k ∙ rw (absent k w ws u q)))
              | inr q ↦ rw q (f k)
            ],
          )
      | inr differs ↦
          let (cs1, e1, f1) = replaced w t.columns (here (rw old)) in
          let (cs, e, f) =
            alter table cur ws (record t { columns = cs1 }) u.1 (still cs1 f1 ws more) in
          (
            cs,
            ap (λ ops. edits ops t) (alter_differs table cur w ws c old differs)
                ∙ ap (λ r. r >>= edits (alter_ops same d table cur ws))
                    (edit_alter table cur w ws c t cs1 e1)
                ∙ e,
            λ k. elim (Bool-cases (bytes_eq w.name k)) [
              | inl q ↦
                  let at_k : col k cur ≡ some c =
                    ap (λ n. col n cur) (sym (bytes_eq→eq w.name k q)) ∙ old in
                  rw (q, at_k) (rw differs (f k ∙ rw (absent k w ws u q) (f1 k ∙ rw q)))
              | inr q ↦ rw q (f k ∙ ap (altered (col k ws) (col k cur)) (f1 k ∙ rw q))
            ],
          )
    ]
  ]
    where
      still :
          (cs1 : List Column)
          → ((k : Bytes) → col k cs1 ≡ (if bytes_eq w.name k then some w else col k t.columns))
          → (ws : List Column) → All (Present cur t.columns) ws
          → All (Present cur cs1) ws
      still cs1 f1 [] h = tt
      still cs1 f1 (x ∷ ws) (h, more) = (
        λ p. ap is_none (f1 x.name) ∙ either (bytes_eq w.name x.name) (h p),
        still cs1 f1 ws more,
      )
        where
          either :
              (b : Bool)
              → is_none (col x.name t.columns) ≡ false
              → is_none (if b then some w else col x.name t.columns) ≡ false
          either true e = refl
          either false e = e

  -- Two columns that the database stores alike.
  pub record StoredAlike (c w : Column) : Type 0 where
    pub stored : storage d c.ty ≡ storage d w.ty
    pub same_nullable : c.nullable ≡ w.nullable
    pub same_unique : c.unique ≡ w.unique
    pub same_primary : c.primary ≡ w.primary
    pub same_default : same c.default w.default ≡ true

  columns_match-StoredAlike : (c w : Column) → columns_match same d c w ≡ true → StoredAlike c w
  unfolding columns_match
  columns_match-StoredAlike c w h =
      let (rest, e) = (and-eq-true_iff _ (same c.default w.default)).0 h in
      let (rest, p) = (and-eq-true_iff _ (bool_eq c.primary w.primary)).0 rest in
      let (rest, u) = (and-eq-true_iff _ (bool_eq c.unique w.unique)).0 rest in
      let (a, b) =
        (and-eq-true_iff (bytes_eq (storage d c.ty) (storage d w.ty))
            (bool_eq c.nullable w.nullable)).0
          rest in
      record {
        stored = bytes_eq→eq _ _ a;
        same_nullable = bool_eq→eq _ _ b;
        same_unique = bool_eq→eq _ _ u;
        same_primary = bool_eq→eq _ _ p;
        same_default = e;
      }

  -- The column that there is, and the one that is wanted: neither, or two that are equal or stored alike.
  abbrev pub Agrees : Option Column → Option Column → Type 0
  Agrees none none = Unit
  Agrees (some c) (some w) = (c ≡ w) ⊎ StoredAlike c w
  Agrees _ _ = ⊥

  pub agreed : (c w o : Option Column) → o ≡ altered w c (merged c w) → Agrees o w
  agreed none none none h = tt
  agreed none none (some o) h = cc
  agreed (some c) none none h = tt
  agreed (some c) none (some o) h = cc
  agreed none (some w) none h = cc
  agreed none (some w) (some o) h = inl (cc)
  agreed (some c) (some w) o h = elim (Bool-cases (columns_match same d c w)) [
    | inl fits ↦
        let kept : o ≡ some c = rw fits at h in rw kept (inr (columns_match-StoredAlike c w fits))
    | inr differs ↦ let new : o ≡ some w = rw differs at h in rw new (inl refl)
  ]
