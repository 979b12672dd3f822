-- ===== src/Orm/Schema/Keys.antt =====
-- crates/sutegi-orm/src/schema_diff.rs: the foreign keys that a table has after its changes.
use sutegi.Base.{
  ◌≡◌, inl, inr, refl, sym, ap, ◌∙◌, Bool, true, false, not, ◌&&◌, Option, none, some, List, [],
  ◌∷◌, ◌++◌, All, Bool-cases, if◌then◌else◌, bytes_eq, bytes_eq→eq, bytes_eq_refl,
}
use mathlib.Core.Bool.{and-eq-true_iff}
use sutegi.Orm.Schema.{
  ForeignKey, FkAction, no_action, cascade, set_null, restrict, action_eq, find, same_key,
}
use sutegi.Orm.Schema.Diff.{has_equal, missing_keys}
use sutegi.Orm.Schema.Keyed.{
  or_else, unless_found, dropped, Once, find-append, find-keep_if-Once, All-keep_if, Spared,
  find-dropped, find_sound, Distinct, Distinct-Once, All-find-none,
}

-- What a drop of a foreign key compares.
abbrev pub same_pair : ForeignKey → ForeignKey → Bool
same_pair x f = bytes_eq x.column f.column && bytes_eq x.ref_table f.ref_table

abbrev pub key_of : ForeignKey → List ForeignKey → Option ForeignKey
key_of k = find (λ f. same_key f k)

abbrev SameParts : ForeignKey → ForeignKey → Type 0
SameParts x k = (x.column ≡ k.column) × (x.ref_table ≡ k.ref_table) × (x.ref_column ≡ k.ref_column)

parts : (x k : ForeignKey) → same_key x k ≡ true → SameParts x k
parts x k h =
    let (pair, third) =
      (and-eq-true_iff (bytes_eq x.column k.column && bytes_eq x.ref_table k.ref_table)
          (bytes_eq x.ref_column k.ref_column)).0
        h in
    let (first, second) =
      (and-eq-true_iff (bytes_eq x.column k.column) (bytes_eq x.ref_table k.ref_table)).0 pair in
    (bytes_eq→eq _ _ first, bytes_eq→eq _ _ second, bytes_eq→eq _ _ third)

key_refl : (x y : ForeignKey) → SameParts x y → same_key x y ≡ true
key_refl x y (p, q, r) =
    ap
      (λ n.
        bytes_eq n y.column
        && bytes_eq x.ref_table y.ref_table
        && bytes_eq x.ref_column y.ref_column)
      p
    ∙ ap
        (λ n.
          bytes_eq y.column y.column
          && bytes_eq n y.ref_table
          && bytes_eq x.ref_column y.ref_column)
        q
    ∙ ap
        (λ n.
          bytes_eq y.column y.column && bytes_eq y.ref_table y.ref_table && bytes_eq n y.ref_column)
        r
    ∙ rw (bytes_eq_refl y.column, bytes_eq_refl y.ref_table, bytes_eq_refl y.ref_column)

action_eq→eq : (a b : FkAction) → action_eq a b ≡ true → a ≡ b
unfolding action_eq
action_eq→eq no_action no_action h = refl
action_eq→eq cascade cascade h = refl
action_eq→eq set_null set_null h = refl
action_eq→eq restrict restrict h = refl
action_eq→eq _ _ h = cc

action_eq_comm : (a b : FkAction) → action_eq a b ≡ action_eq b a
unfolding action_eq
action_eq_comm no_action no_action = refl
action_eq_comm no_action cascade = refl
action_eq_comm no_action set_null = refl
action_eq_comm no_action restrict = refl
action_eq_comm cascade no_action = refl
action_eq_comm cascade cascade = refl
action_eq_comm cascade set_null = refl
action_eq_comm cascade restrict = refl
action_eq_comm set_null no_action = refl
action_eq_comm set_null cascade = refl
action_eq_comm set_null set_null = refl
action_eq_comm set_null restrict = refl
action_eq_comm restrict no_action = refl
action_eq_comm restrict cascade = refl
action_eq_comm restrict set_null = refl
action_eq_comm restrict restrict = refl

-- The foreign keys once some are dropped and some added.
abbrev pub rekeyed : List ForeignKey → List ForeignKey → List ForeignKey
rekeyed cur want = dropped same_pair (missing_keys cur want) cur ++ missing_keys want cur

-- Of two keys of a list with one pair there is only one.
abbrev Only : ForeignKey → ForeignKey → Type 0
Only d x = same_pair x d ≡ true → x ≡ d

only : (xs : List ForeignKey) → Distinct same_pair xs → All (λ d. All (Only d) xs) xs
only [] u = tt
only (x ∷ xs) (first, u) =
    let apart = All-find-none (λ y. same_pair y x) xs first in
    ((λ _. refl, heads xs apart), tails xs apart (only xs u))
  where
    heads : (ys : List ForeignKey) → All (λ y. same_pair y x ≡ false) ys → All (Only x) ys
    heads [] h = tt
    heads (y ∷ ys) (h, more) = (λ e. let no : true ≡ false = sym e ∙ h in cc, heads ys more)

    tails :
        (ds : List ForeignKey)
        → All (λ y. same_pair y x ≡ false) ds
        → All (λ d. All (Only d) xs) ds
        → All (λ d. All (Only d) (x ∷ xs)) ds
    tails [] a h = tt
    tails (d ∷ ds) (a, as') (h, hs) = (
      (
        λ e.
            let (p, q) =
              (and-eq-true_iff (bytes_eq x.column d.column) (bytes_eq x.ref_table d.ref_table)).0
                e in
            let column : x.column ≡ d.column = bytes_eq→eq x.column d.column p in
            let ref_table : x.ref_table ≡ d.ref_table = bytes_eq→eq x.ref_table d.ref_table q in
            let back : same_pair d x ≡ true =
              ap (λ n. bytes_eq d.column n && bytes_eq d.ref_table x.ref_table) column
              ∙ ap (λ n. bytes_eq d.column d.column && bytes_eq d.ref_table n) ref_table
              ∙ rw (bytes_eq_refl d.column, bytes_eq_refl d.ref_table) in
            let no : true ≡ false = sym back ∙ a in cc,
        h,
      ),
      tails ds as' hs,
    )

module _ (k : ForeignKey) where
  spared :
      (ds xs : List ForeignKey)
      → All (λ d. All (Only d) xs) ds
      → All (λ d. All (Spared (λ f. same_key f k) same_pair d) xs) ds
  spared [] xs h = tt
  spared (d ∷ ds) xs (h, more) = (each xs h, spared ds xs more)
    where
      each :
          (xs : List ForeignKey) → All (Only d) xs → All (Spared (λ f. same_key f k) same_pair d) xs
      each [] h = tt
      each (x ∷ xs) (h, more) = (
        λ here apart. elim (Bool-cases (same_pair x d)) [
          | inl e ↦ let no : true ≡ false = sym here ∙ ap (λ f. same_key f k) (h e) ∙ apart in cc
          | inr e ↦ e
        ],
        each xs more,
      )

  -- Whether a key has its equal depends on the key and its action.
  abbrev equal_in : ForeignKey → Option ForeignKey → Bool
  equal_in x none = false
  equal_in x (some g) = action_eq g.on_delete x.on_delete

  has_equal_lem :
      (x : ForeignKey) (others : List ForeignKey)
      → same_key x k ≡ true
      → has_equal x others ≡ equal_in x (key_of k others)
  unfolding has_equal
  has_equal_lem x others h =
      let (p, q, r) = parts x k h in
      let same : key_of x others ≡ key_of k others = λ i.
        find
          (λ g.
            bytes_eq g.column (p i) && bytes_eq g.ref_table (q i) && bytes_eq g.ref_column (r i))
          others in
      ap
        (λ (o : Option ForeignKey). elim o [
          | none ↦ false
          | some g ↦ action_eq g.on_delete x.on_delete
        ])
        same
      ∙ by_cases (key_of k others)
    where
      by_cases :
          (o : Option ForeignKey)
          → ◌≡◌ {A = Bool}
              (elim o [ none ↦ false | some g ↦ action_eq g.on_delete x.on_delete ])
              (equal_in x o)
      by_cases none = refl
      by_cases (some g) = refl

  abbrev unequal : Option ForeignKey → Option ForeignKey → Option ForeignKey
  unequal none others = none
  unequal (some x) others = if not (equal_in x others) then some x else none

  key_of-missing_keys :
      (keys others : List ForeignKey)
      → Once (λ f. same_key f k) keys
      → key_of k (missing_keys keys others) ≡ unequal (key_of k keys) (key_of k others)
  unfolding missing_keys
  key_of-missing_keys keys others u =
      find-keep_if-Once (λ f. same_key f k) (λ f. not (has_equal f others)) keys u
      ∙ by_cases (key_of k keys) (λ x e. find_sound (λ f. same_key f k) keys x e)
    where
      by_cases :
          (o : Option ForeignKey)
          → ((x : ForeignKey) → o ≡ some x → same_key x k ≡ true)
          → elim o [ none ↦ none | some x ↦ if not (has_equal x others) then some x else none ]
            ≡ unequal o (key_of k others)
      by_cases none f = refl
      by_cases (some x) f =
          ap (λ b. if not b then some x else none) (has_equal_lem x others (f x refl))

  settled :
      (c w : Option ForeignKey)
      → ((x y : ForeignKey) → c ≡ some x → w ≡ some y → SameParts x y)
      → or_else (unless_found (unequal c w) c) (unequal w c) ≡ w
  settled none none f = refl
  settled none (some y) f = refl
  settled (some x) none f = refl
  settled (some x) (some y) f = elim (Bool-cases (action_eq y.on_delete x.on_delete)) [
    | inl e ↦
        let (p, q, r) = f x y refl refl in
        let action : x.on_delete ≡ y.on_delete = sym (action_eq→eq y.on_delete x.on_delete e) in
        let whole : x ≡ y =
          λ i. record { column = p i; ref_table = q i; ref_column = r i; on_delete = action i } in
        rw e (ap some whole)
    | inr e ↦ rw (e, action_eq_comm x.on_delete y.on_delete ∙ e)
  ]

  -- The foreign key found is the one wanted.
  pub key_of-rekeyed :
      (cur want : List ForeignKey)
      → Distinct same_pair cur
      → Distinct same_key want
      → key_of k (rekeyed cur want) ≡ key_of k want
  unfolding missing_keys
  key_of-rekeyed cur want u v =
      let once_cur : Once (λ f. same_key f k) cur =
        Distinct-Once same_pair (λ f. same_key f k) cur (λ x y a b. pair_of x y (between y x b a))
          u in
      let once_want : Once (λ f. same_key f k) want =
        Distinct-Once same_key (λ f. same_key f k) want (λ x y a b. key_refl y x (between y x b a))
          v in
      find-append (λ f. same_key f k) (dropped same_pair (missing_keys cur want) cur)
        (missing_keys want cur)
      ∙ ap (λ o. or_else o (key_of k (missing_keys want cur)))
          (find-dropped (λ f. same_key f k) same_pair (missing_keys cur want) cur
            (λ d x a b. pair_of d x (between x d b a))
            (spared (missing_keys cur want) cur (
              All-keep_if (λ f. same_key f k) (λ d. All (Only d) cur) (λ f. not (has_equal f want))
                cur (only cur u))))
      ∙ ap (λ o. or_else (unless_found o (key_of k cur)) (key_of k (missing_keys want cur)))
          (key_of-missing_keys cur want once_cur)
      ∙ ap (or_else (unless_found (unequal (key_of k cur) (key_of k want)) (key_of k cur)))
          (key_of-missing_keys want cur once_want)
      ∙ settled (key_of k cur) (key_of k want) (λ x y e f.
        between x y (find_sound (λ f. same_key f k) cur x e)
          (find_sound (λ f. same_key f k) want y f))
    where
      between : (x y : ForeignKey) → same_key x k ≡ true → same_key y k ≡ true → SameParts x y
      between x y a b =
          let (p, q, r) = parts x k a in
          let (p', q', r') = parts y k b in (p ∙ sym p', q ∙ sym q', r ∙ sym r')

      pair_of : (x y : ForeignKey) → SameParts y x → same_pair y x ≡ true
      pair_of x y (p, q, r) =
          ap (λ n. bytes_eq n x.column && bytes_eq y.ref_table x.ref_table) p
          ∙ ap (λ n. bytes_eq x.column x.column && bytes_eq n x.ref_table) q
          ∙ rw (bytes_eq_refl x.column, bytes_eq_refl x.ref_table)
