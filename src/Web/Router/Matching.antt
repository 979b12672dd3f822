-- ===== src/Web/Router/Matching.antt =====
-- crates/sutegi-web/src/lib.rs: patterns described by a relation, and the matching of the code.
use sutegi.Base.{
  ◌+◌, ◌≤◌, ◌≡◌, ◌↔◌, refl, sym, ap, ◌∙◌, arith, Bool, true, false, not, none, some, List, [], ◌∷◌,
  Bytes, ltb, ◌==◌, if◌then◌else◌, length, bytes_eq, bytes_eq→eq, bytes_eq_refl,
}
use sutegi.Web.Router.{
  Seg, lit, param, rest, Params, insert, join, has_rest, match_loop, match_segs,
}

-- The paths that a pattern describes, with the parameters in the order of the pattern.
pub data Matches : List Seg → List Bytes → Params → Type 0 where
  end : Matches [] [] []
  literal :
      {segs : List Seg} {path : List Bytes} {bs : Params} (l : Bytes)
      → Matches segs path bs
      → Matches (lit l ∷ segs) (l ∷ path) bs
  one :
      {segs : List Seg} {path : List Bytes} {bs : Params} (name p : Bytes)
      → Matches segs path bs
      → Matches (param name ∷ segs) (p ∷ path) ((name, p) ∷ bs)
  remainder :
      (name : Bytes) (path : List Bytes) → Matches (rest name ∷ []) path ((name, join path) ∷ [])

-- A later capture of a name replaces an earlier one.
abbrev pub insert_all : Params → Params → Params
insert_all [] ps = ps
insert_all ((k, v) ∷ bs) ps = insert_all bs (insert k v ps)

-- A `*` segment stands at the end, if there is one.
abbrev pub IsTrailing : List Seg → Type 0
IsTrailing [] = Unit
IsTrailing (rest name ∷ segs) = segs ≡ []
IsTrailing (_ ∷ segs) = IsTrailing segs

has_rest-lit : (l : Bytes) (segs : List Seg) → has_rest (lit l ∷ segs) ≡ has_rest segs
unfolding has_rest
has_rest-lit l [] = refl
has_rest-lit l (s ∷ segs) = refl

has_rest-param : (name : Bytes) (segs : List Seg) → has_rest (param name ∷ segs) ≡ has_rest segs
unfolding has_rest
has_rest-param name [] = refl
has_rest-param name (s ∷ segs) = refl

-- The test of the lengths before the loop.
abbrev Long : Bool → List Seg → List Bytes → Type 0
Long true segs path = length segs ≤ length path + 1
Long false segs path = length segs ≡ length path

module _ (x : Seg) (y : Bytes) (segs : List Seg) (path : List Bytes) where
  Long-cons : (b : Bool) → Long b segs path → Long b (x ∷ segs) (y ∷ path)
  Long-cons true h = omega arith
  Long-cons false h = omega arith

  Long-tail : (b : Bool) → Long b (x ∷ segs) (y ∷ path) → Long b segs path
  Long-tail true h = omega arith
  Long-tail false h = omega arith

Matches-Long :
    {segs : List Seg} {path : List Bytes} {bs : Params}
    → Matches segs path bs
    → Long (has_rest segs) segs path
Matches-Long end = unfold has_rest in refl
Matches-Long (literal {segs} {path} l m) =
    rw (has_rest-lit l segs) (Long-cons (lit l) l segs path (has_rest segs) (Matches-Long m))
Matches-Long (one {segs} {path} name p m) =
    rw (has_rest-param name segs)
      (Long-cons (param name) p segs path (has_rest segs) (Matches-Long m))
Matches-Long (remainder name path) = unfold has_rest in omega arith

match_loop_of_Matches :
    {segs : List Seg} {path : List Bytes} {bs : Params} (ps : Params)
    → Matches segs path bs
    → match_loop segs path ps ≡ some (insert_all bs ps)
unfolding match_loop
match_loop_of_Matches ps end = refl
match_loop_of_Matches ps (literal l m) = rw (bytes_eq_refl l) (match_loop_of_Matches ps m)
match_loop_of_Matches ps (one name p m) = match_loop_of_Matches (insert name p ps) m
match_loop_of_Matches ps (remainder name path) = refl

abbrev Found : List Seg → List Bytes → Params → Params → Type 0
Found segs path ps qs = (bs : Params) × Matches segs path bs × (qs ≡ insert_all bs ps)

Matches_of_match_loop :
    (segs : List Seg) (path : List Bytes) (ps qs : Params)
    → IsTrailing segs
    → Long (has_rest segs) segs path
    → match_loop segs path ps ≡ some qs
    → Found segs path ps qs
unfolding match_loop
Matches_of_match_loop [] [] ps qs t long e = ([], end, cc)
Matches_of_match_loop [] (p ∷ path) ps qs t long e = absurd (unfold has_rest in omega arith)
Matches_of_match_loop (rest name ∷ []) path ps qs t long e =
    ((name, join path) ∷ [], remainder name path, cc)
Matches_of_match_loop (rest name ∷ s ∷ segs) path ps qs t long e = cc
Matches_of_match_loop (lit l ∷ segs) [] ps qs t long e = cc
Matches_of_match_loop (lit l ∷ segs) (p ∷ path) ps qs t long e =
    let same : bytes_eq l p ≡ true = ground arith in
    let (bs, m, q) =
      Matches_of_match_loop segs path ps qs t
        (Long-tail (lit l) p segs path (has_rest segs) (rw (has_rest-lit l segs) at long))
        (ground arith) in
    (bs, rw (← bytes_eq→eq l p same) (literal l m), q)
Matches_of_match_loop (param name ∷ segs) [] ps qs t long e = cc
Matches_of_match_loop (param name ∷ segs) (p ∷ path) ps qs t long e =
    let (bs, m, q) =
      Matches_of_match_loop segs path (insert name p ps) qs t
        (Long-tail (param name) p segs path (has_rest segs) (rw (has_rest-param name segs) at long))
        e in
    ((name, p) ∷ bs, one name p m, q)

match_segs_loop :
    (segs : List Seg) (path : List Bytes)
    → Long (has_rest segs) segs path
    → match_segs segs path ≡ match_loop segs path []
unfolding match_segs
match_segs_loop segs path = by_test (has_rest segs)
  where
    by_test :
        (b : Bool)
        → Long b segs path
        → (if b
            then (if ltb (length path + 1) (length segs) then none else match_loop segs path [])
            else if not (length segs == length path)
            then none
            else match_loop segs path [])
          ≡ match_loop segs path []
    by_test true h = ground arith
    by_test false h = ground arith

match_segs-Long :
    (segs : List Seg) (path : List Bytes) {qs : Params}
    → match_segs segs path ≡ some qs
    → Long (has_rest segs) segs path
unfolding match_segs
match_segs-Long segs path {qs} = by_test (has_rest segs)
  where
    by_test :
        (b : Bool)
        → (if b
            then (if ltb (length path + 1) (length segs) then none else match_loop segs path [])
            else if not (length segs == length path)
            then none
            else match_loop segs path [])
          ≡ some qs
        → Long b segs path
    by_test true h = ground arith
    by_test false h = ground arith

-- A pattern with `*` at most at its end matches exactly the paths that it describes, and the
-- parameters are the path's segments, a later one of a name replacing an earlier.
pub match_segs_iff :
    (segs : List Seg) (path : List Bytes) (qs : Params)
    → IsTrailing segs
    → (match_segs segs path ≡ some qs)
      ↔ ((bs : Params) × Matches segs path bs × (qs ≡ insert_all bs []))
match_segs_iff segs path qs t = (to, from)
  where
    to : match_segs segs path ≡ some qs → Found segs path [] qs
    to e =
        let long = match_segs-Long segs path e in
        Matches_of_match_loop segs path [] qs t long (sym (match_segs_loop segs path long) ∙ e)

    from : Found segs path [] qs → match_segs segs path ≡ some qs
    from (bs, m, q) =
        match_segs_loop segs path (Matches-Long m) ∙ match_loop_of_Matches [] m ∙ ap some (sym q)
