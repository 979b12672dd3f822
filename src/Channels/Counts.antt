-- ===== src/Channels/Counts.antt =====
-- crates/sutegi-channels/src/presence.rs: how many metas are kept under a key, and what a change adds to them.
use sutegi.Base.{
  ℕ, ◌+◌, ◌≡◌, refl, sym, ap, ◌∙◌, arith, Bool, true, false, Option, none, some, List, [], ◌∷◌,
  ◌++◌, append-nil, Bytes, if◌then◌else◌, bytes_eq, bytes_eq→eq, bytes_eq_refl, if_rule,
  option_rule,
}
use sutegi.Channels.{Presence, metas_of, has_key, extend_entry, extend_some, take_out, diff_metas}

abbrev one : Bool → ℕ
one true = 1
one false = 0

abbrev pub pick : Bool → ℕ → ℕ
pick true n = n
pick false n = 0

keys_apart : (i j k : Bytes) → bytes_eq i j ≡ false → bytes_eq i k ≡ true → bytes_eq j k ≡ false
keys_apart i j k other same =
    if_rule (λ (b : Bool). bytes_eq j k ≡ false) (bytes_eq j k) true false
      (λ e.
        let ij : i ≡ j = bytes_eq→eq i k same ∙ sym (bytes_eq→eq j k e) in
        let all_same : bytes_eq i j ≡ true = ap (bytes_eq i) (sym ij) ∙ bytes_eq_refl i in cc)
      (λ e. e)

module _ {A : Type 0} where
  -- Every key has one entry.
  abbrev pub IsMap : Presence A → Type 0
  IsMap [] = Unit
  IsMap ((k, metas) ∷ st) = (has_key k st ≡ false) × IsMap st

  pub has_none : (k : Bytes) (st : Presence A) → has_key k st ≡ false → metas_of k st ≡ []
  unfolding has_key metas_of
  has_none k [] h = refl
  has_none k ((j, metas) ∷ st) h = ground (arith, has_none k st)

  -- A change under `j` leaves what is kept under another key, and adds to its own.
  metas_of-extend_entry :
      (k j : Bytes) (more : List A) (st : Presence A)
      → metas_of k (extend_entry j more st) ≡ metas_of k st ++ (if bytes_eq j k then more else [])
  unfolding metas_of extend_entry
  metas_of-extend_entry k j more [] =
      if_rule (λ t. (if bytes_eq j k then more else []) ≡ t) (bytes_eq j k) more [] (λ e. rw e)
        (λ e. rw e)
  metas_of-extend_entry k j more ((i, metas) ∷ st) =
      let add : Bool → List A = λ b. if b then more else [] in
      if_rule (λ r. metas_of k r ≡ metas_of k ((i, metas) ∷ st) ++ add (bytes_eq j k))
        (bytes_eq i j) _ _
        (λ same.
          let key : bytes_eq i k ≡ bytes_eq j k =
            ap (λ (t : Bytes). bytes_eq t k) (bytes_eq→eq i j same) in
          by_key (bytes_eq i k) (bytes_eq j k) key)
        (λ other.
          apart (bytes_eq i k) (bytes_eq j k) (keys_apart i j k other)
            (metas_of-extend_entry k j more st))
    where
      apart :
          (b c : Bool)
          → (b ≡ true → c ≡ false)
          → metas_of k (extend_entry j more st) ≡ metas_of k st ++ (if c then more else [])
          → (if b then metas else metas_of k (extend_entry j more st))
            ≡ (if b then metas else metas_of k st) ++ (if c then more else [])
      apart true true h e = absurd (let no : true ≡ false = h refl in cc)
      apart true false h e = sym (append-nil metas)
      apart false c h e = e

      by_key :
          (b c : Bool)
          → b ≡ c
          → (if b then metas ++ more else metas_of k st)
            ≡ (if b then metas else metas_of k st) ++ (if c then more else [])
      by_key true true e = refl
      by_key true false e = cc
      by_key false true e = cc
      by_key false false e = sym (append-nil (metas_of k st))

module _ {A : Type 0} (same : A → A → Bool) where
  -- How many metas are equal to one.
  abbrev pub count : A → List A → ℕ
  count x [] = 0
  count x (m ∷ metas) = one (same m x) + count x metas

  abbrev pub tally : A → Bytes → Presence A → ℕ
  tally x k st = count x (metas_of k st)

  count-append : (x : A) (a b : List A) → count x (a ++ b) ≡ count x a + count x b
  count-append x [] b = omega arith
  count-append x (m ∷ a) b = omega (arith, count-append x a b)

  module _ (congruent : (m n x : A) → same m n ≡ true → same m x ≡ same n x) where
    count-take_out :
        (x meta : A) (metas left : List A)
        → take_out same meta metas ≡ some left
        → count x metas ≡ one (same meta x) + count x left
    unfolding take_out
    count-take_out x meta [] left e = cc
    count-take_out x meta (m ∷ metas) left e0 =
        if_rule (λ o. o ≡ some left → count x (m ∷ metas) ≡ one (same meta x) + count x left)
          (same m meta) _ _
          (λ eq e.
            let tail : metas ≡ left = cc in
            ap (λ b. one b + count x metas) (congruent m meta x eq)
            ∙ ap (λ r. one (same meta x) + count x r) tail)
          (λ _ e. deeper (take_out same meta metas) (count-take_out x meta metas) e) e0
      where
        deeper :
            (o : Option (List A))
            → ((r : List A) → o ≡ some r → count x metas ≡ one (same meta x) + count x r)
            → ◌≡◌ {A = Option (List A)} (elim o [ none ↦ none | some r ↦ some (m ∷ r) ]) (some left)
            → count x (m ∷ metas) ≡ one (same meta x) + count x left
        deeper none f e = cc
        deeper (some r) f e =
            let whole : m ∷ r ≡ left = cc in
            let now : count x (m ∷ r) ≡ count x left = ap (count x) whole in
            omega (arith, f r refl, now)

    -- The old metas with those that joined are the new ones with those that remain.
    pub count-diff_metas :
        (x : A) (remaining metas : List A)
        → count x remaining + count x ((diff_metas same remaining metas).0)
          ≡ count x metas + count x ((diff_metas same remaining metas).1)
    unfolding diff_metas
    count-diff_metas x remaining [] = omega arith
    count-diff_metas x remaining (meta ∷ metas) =
        option_rule
          (λ (r : List A × List A).
            count x remaining + count x r.0 ≡ count x (meta ∷ metas) + count x r.1)
          (take_out same meta remaining) _ _
          (λ _. omega (arith, count-diff_metas x remaining metas))
          (λ left e.
            omega (arith, count-diff_metas x left metas, count-take_out x meta remaining left e))

    pub tally-extend_entry :
        (x : A) (k j : Bytes) (more : List A) (st : Presence A)
        → tally x k (extend_entry j more st) ≡ tally x k st + pick (bytes_eq j k) (count x more)
    tally-extend_entry x k j more st =
        ap (count x) (metas_of-extend_entry k j more st)
        ∙ count-append x (metas_of k st) _
        ∙ ap (λ n. tally x k st + n) (chosen (bytes_eq j k))
      where
        chosen : (b : Bool) → count x (if b then more else []) ≡ pick b (count x more)
        chosen true = refl
        chosen false = refl

    pub tally-extend_some :
        (x : A) (k j : Bytes) (more : List A) (st : Presence A)
        → tally x k (extend_some j more st) ≡ tally x k st + pick (bytes_eq j k) (count x more)
    unfolding extend_some
    tally-extend_some x k j [] st = omega (arith, nothing (bytes_eq j k))
      where
        nothing : (b : Bool) → pick b 0 ≡ 0
        nothing true = refl
        nothing false = refl
    tally-extend_some x k j (m ∷ more) st = tally-extend_entry x k j (m ∷ more) st
