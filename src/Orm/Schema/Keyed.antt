-- ===== src/Orm/Schema/Keyed.antt =====
-- crates/sutegi-orm/src/schema_diff.rs: what is found in a list after parts of it were dropped or added.
use sutegi.Base.{
  ◌≡◌, refl, sym, ap, ◌∙◌, Bool, true, false, not, Option, none, some, List, [], ◌∷◌, ◌++◌, All,
  Bool-cases, inl, inr, if◌then◌else◌,
}
use mathlib.Core.Path.{subst}
use sutegi.Orm.Schema.{find, keep_if, is_none}

module _ {A : Type 0} where
  abbrev pub or_else : Option A → Option A → Option A
  or_else none o = o
  or_else (some a) o = some a

  abbrev pub unless_found : Option A → Option A → Option A
  unless_found none o = o
  unless_found (some d) o = none

  -- What `dropped` removes at each step is killed by the next of `ds`.
  abbrev pub dropped : (A → A → Bool) → List A → List A → List A
  dropped kill [] xs = xs
  dropped kill (d ∷ ds) xs = dropped kill ds (keep_if (λ x. not (kill x d)) xs)

  -- No two elements pass the test.
  abbrev pub Once : (A → Bool) → List A → Type 0
  Once test [] = Unit
  Once test (x ∷ xs) = (test x ≡ true → find test xs ≡ none) × Once test xs

  pub find-keep_if_absent :
      (test p : A → Bool) (xs : List A) → find test xs ≡ none → find test (keep_if p xs) ≡ none
  find-keep_if_absent test p [] h = refl
  find-keep_if_absent test p (x ∷ xs) h = elim (Bool-cases (test x)) [
    | inl e ↦ let no : ◌≡◌ {A = Option A} (some x) none = rw e at h in cc
    | inr e ↦ elim (Bool-cases (p x)) [
      | inl k ↦ rw (k, e) (find-keep_if_absent test p xs (rw e at h))
      | inr k ↦ rw k (find-keep_if_absent test p xs (rw e at h))
    ]
  ]

  module _ (test : A → Bool) where
    pub find-append :
        (xs ys : List A) → find test (xs ++ ys) ≡ or_else (find test xs) (find test ys)
    find-append [] ys = refl
    find-append (x ∷ xs) ys = elim (Bool-cases (test x)) [
      | inl e ↦ rw e
      | inr e ↦ rw e (find-append xs ys)
    ]

    pub find-keep_if :
        (p : A → Bool) (xs : List A)
        → ((x : A) → test x ≡ true → p x ≡ true)
        → find test (keep_if p xs) ≡ find test xs
    find-keep_if p [] h = refl
    find-keep_if p (x ∷ xs) h = elim (Bool-cases (test x)) [
      | inl e ↦ rw (h x e, e)
      | inr e ↦ elim (Bool-cases (p x)) [
        | inl k ↦ rw (k, e) (find-keep_if p xs h)
        | inr k ↦ rw (k, e) (find-keep_if p xs h)
      ]
    ]

    pub find-keep_if-none :
        (p : A → Bool) (xs : List A)
        → ((x : A) → test x ≡ true → p x ≡ false)
        → find test (keep_if p xs) ≡ none
    find-keep_if-none p [] h = refl
    find-keep_if-none p (x ∷ xs) h = elim (Bool-cases (p x)) [
      | inl k ↦ elim (Bool-cases (test x)) [
        | inl e ↦ let no : true ≡ false = sym k ∙ h x e in cc
        | inr e ↦ rw (k, e) (find-keep_if-none p xs h)
      ]
      | inr k ↦ rw k (find-keep_if-none p xs h)
    ]

    -- The element found stays or goes.
    pub find-keep_if-Once :
        (p : A → Bool) (xs : List A)
        → Once test xs
        → find test (keep_if p xs)
          ≡ elim (find test xs) [ none ↦ none | some x ↦ if p x then some x else none ]
    find-keep_if-Once p [] u = refl
    find-keep_if-Once p (x ∷ xs) (first, u) = elim (Bool-cases (test x)) [
      | inl e ↦ elim (Bool-cases (p x)) [
        | inl k ↦ rw (e, k) (rw e)
        | inr k ↦ rw (e, k) (find-keep_if-Once p xs u ∙ rw (first e))
      ]
      | inr e ↦ elim (Bool-cases (p x)) [
        | inl k ↦ rw (e, k) (rw e (find-keep_if-Once p xs u))
        | inr k ↦ rw (e, k) (find-keep_if-Once p xs u)
      ]
    ]

    pub All-keep_if :
        (P : A → Type 0) (p : A → Bool) (xs : List A) → All P xs → All P (keep_if p xs)
    All-keep_if P p [] h = tt
    All-keep_if P p (x ∷ xs) (h, more) = elim (Bool-cases (p x)) [
      | inl k ↦ rw k (h, All-keep_if P p xs more)
      | inr k ↦ rw k (All-keep_if P p xs more)
    ]

    abbrev pub Spared : (A → A → Bool) → A → A → Type 0
    Spared kill d x = test x ≡ true → test d ≡ false → kill x d ≡ false

    find-dropped-none :
        (kill : A → A → Bool) (ds xs : List A)
        → find test xs ≡ none
        → find test (dropped kill ds xs) ≡ none
    find-dropped-none kill [] xs h = h
    find-dropped-none kill (d ∷ ds) xs h =
        find-dropped-none kill ds _ (find-keep_if_absent test (λ x. not (kill x d)) xs h)

    -- What passes the test is killed with those of `ds` that pass it, and with no other.
    pub find-dropped :
        (kill : A → A → Bool) (ds xs : List A)
        → ((d x : A) → test d ≡ true → test x ≡ true → kill x d ≡ true)
        → All (λ d. All (Spared kill d) xs) ds
        → find test (dropped kill ds xs) ≡ unless_found (find test ds) (find test xs)
    find-dropped kill [] xs s h = refl
    find-dropped kill (d ∷ ds) xs s (h, more) = elim (Bool-cases (test d)) [
      | inl e ↦ rw e (
          find-dropped-none kill ds _
            (find-keep_if-none (λ x. not (kill x d)) xs (λ x k. ap not (s d x e k))))
      | inr e ↦ rw e (
          find-dropped kill ds (keep_if (λ x. not (kill x d)) xs) s (kept ds more)
          ∙ ap (unless_found (find test ds)) (spared e xs h))
    ]
      where
        kept :
            (ds : List A)
            → All (λ d. All (Spared kill d) xs) ds
            → All (λ d'. All (Spared kill d') (keep_if (λ x. not (kill x d)) xs)) ds
        kept [] h = tt
        kept (d' ∷ ds) (h, more) =
            (All-keep_if (Spared kill d') (λ x. not (kill x d)) xs h, kept ds more)

        spared :
            test d ≡ false
            → (xs : List A) → All (Spared kill d) xs
            → find test (keep_if (λ x. not (kill x d)) xs) ≡ find test xs
        spared e [] h = refl
        spared e (x ∷ xs) (h, more) = elim (Bool-cases (test x)) [
          | inl k ↦ rw (h k e, k)
          | inr k ↦ elim (Bool-cases (kill x d)) [
            | inl q ↦ rw (q, k) (spared e xs more)
            | inr q ↦ rw (q, k) (spared e xs more)
          ]
        ]

    pub find_sound : (xs : List A) (x : A) → find test xs ≡ some x → test x ≡ true
    find_sound [] x h = cc
    find_sound (y ∷ xs) x h = elim (Bool-cases (test y)) [
      | inl e ↦
          let here : ◌≡◌ {A = Option A} (some y) (some x) = rw e at h in
          let same : y ≡ x = cc in sym (ap test same) ∙ e
      | inr e ↦ find_sound xs x (rw e at h)
    ]

  pub find-none_mono :
      (s t : A → Bool) (xs : List A)
      → ((y : A) → t y ≡ true → s y ≡ true)
      → find s xs ≡ none
      → find t xs ≡ none
  find-none_mono s t [] f h = refl
  find-none_mono s t (x ∷ xs) f h = elim (Bool-cases (s x)) [
    | inl e ↦ let no : ◌≡◌ {A = Option A} (some x) none = rw e at h in cc
    | inr e ↦ elim (Bool-cases (t x)) [
      | inl k ↦ let no : true ≡ false = sym (f x k) ∙ e in cc
      | inr k ↦ rw k (find-none_mono s t xs f (rw e at h))
    ]
  ]

  -- No two elements are the same.
  abbrev pub Distinct : (A → A → Bool) → List A → Type 0
  Distinct same [] = Unit
  Distinct same (x ∷ xs) = (find (λ y. same y x) xs ≡ none) × Distinct same xs

  pub Distinct-Once :
      (same : A → A → Bool) (test : A → Bool) (xs : List A)
      → ((x y : A) → test x ≡ true → test y ≡ true → same y x ≡ true)
      → Distinct same xs
      → Once test xs
  Distinct-Once same test [] f h = tt
  Distinct-Once same test (x ∷ xs) f (first, h) = (
    λ e. find-none_mono (λ y. same y x) test xs (λ y k. f x y e k) first,
    Distinct-Once same test xs f h,
  )

  pub All-find-none :
      (test : A → Bool) (xs : List A) → find test xs ≡ none → All (λ x. test x ≡ false) xs
  All-find-none test [] h = tt
  All-find-none test (x ∷ xs) h = elim (Bool-cases (test x)) [
    | inl e ↦ let no : ◌≡◌ {A = Option A} (some x) none = rw e at h in cc
    | inr e ↦ (e, All-find-none test xs (rw e at h))
  ]

  pub or_else-none : (o : Option A) → or_else o none ≡ o
  or_else-none none = refl
  or_else-none (some a) = refl

  -- What stands in a list is found in it.
  pub found_all :
      (same : A → A → Bool)
      → ((x : A) → same x x ≡ true)
      → (xs : List A) → All (λ x. is_none (find (λ y. same y x) xs) ≡ false) xs
  found_all same itself xs = part xs (λ x h. h)
    where
      part :
          (ys : List A)
          → ((x : A)
              → is_none (find (λ y. same y x) ys) ≡ false
              → is_none (find (λ y. same y x) xs) ≡ false)
          → All (λ x. is_none (find (λ y. same y x) xs) ≡ false) ys
      part [] f = tt
      part (y ∷ ys) f = (
        f y (rw (itself y)),
        part ys (λ x h. f x (elim (Bool-cases (same y x)) [ inl e ↦ rw e | inr e ↦ rw e h ])),
      )

  pub All-find :
      (P : A → Type 0) (test : A → Bool) (xs : List A) (x : A)
      → All P xs
      → find test xs ≡ some x
      → P x
  All-find P test [] x h e = cc
  All-find P test (y ∷ xs) x (h, more) e = elim (Bool-cases (test y)) [
    | inl k ↦
        let here : ◌≡◌ {A = Option A} (some y) (some x) = rw k at e in
        let same : y ≡ x = cc in subst P same h
    | inr k ↦ All-find P test xs x more (rw k at e)
  ]

  pub Distinct-keep_if :
      (same : A → A → Bool) (p : A → Bool) (xs : List A)
      → Distinct same xs
      → Distinct same (keep_if p xs)
  Distinct-keep_if same p [] h = tt
  Distinct-keep_if same p (x ∷ xs) (first, h) = elim (Bool-cases (p x)) [
    | inl k ↦ rw k (find-keep_if_absent (λ y. same y x) p xs first, Distinct-keep_if same p xs h)
    | inr k ↦ rw k (Distinct-keep_if same p xs h)
  ]
