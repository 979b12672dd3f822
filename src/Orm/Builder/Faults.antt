-- ===== src/Orm/Builder/Faults.antt =====
-- crates/sutegi-orm/src/builder.rs: without a fault, all names and operators passed the checks.
use sutegi.Base.{
  ◌≡◌, ◌≢◌, inl, inr, refl, Option, none, some, List, [], ◌∷◌, All, Bytes, codes, Bool-cases,
}
use sutegi.Orm.{Error}
use sutegi.Orm.Ident.{valid_identifier, valid_operator, check_ident, check_idents, check_op}
use sutegi.Orm.Predicates.{Cmp}
use sutegi.Orm.Builder.Setters.{keep_first, check_group}
use sutegi.Orm.Marks.{Marked, valid_identifier-Marked}
use sutegi.Orm.Marks.Parts.{valid_operator-Marked}
use sutegi.Orm.Marks.Clauses.{GoodCmp}

pub check_ident-none :
    (kind s : Bytes) (e : Option Error) → check_ident kind s e ≡ none → Marked 0 s × (e ≡ none)
unfolding check_ident
check_ident-none kind s (some e) h = cc
check_ident-none kind s none h = elim (Bool-cases (valid_identifier s)) [
  | inl valid ↦ (valid_identifier-Marked s valid, refl)
  | inr invalid ↦ let no : ◌≡◌ {A = Option Error} (some _) none = rw invalid at h in cc
]

pub check_op-none :
    (op : Bytes) (e : Option Error) → check_op op e ≡ none → Marked 0 op × (e ≡ none)
unfolding check_op
check_op-none op (some e) h = cc
check_op-none op none h = elim (Bool-cases (valid_operator op)) [
  | inl valid ↦ (valid_operator-Marked op valid, refl)
  | inr invalid ↦ let no : ◌≡◌ {A = Option Error} (some _) none = rw invalid at h in cc
]

pub check_idents-none :
    (kind : Bytes) (names : List Bytes) (e : Option Error)
    → check_idents kind names e ≡ none
    → All (Marked 0) names × (e ≡ none)
unfolding check_idents
check_idents-none kind [] e h = (tt, h)
check_idents-none kind (s ∷ names) e h =
    let (rest, before) = check_idents-none kind names (check_ident kind s e) h in
    let (here, start) = check_ident-none kind s e before in ((here, rest), start)

pub check_group-none :
    (group : List Cmp) (e : Option Error)
    → check_group group e ≡ none
    → All GoodCmp group × (e ≡ none)
unfolding check_group
check_group-none [] e h = (tt, h)
check_group-none ((c, op, v) ∷ group) e h =
    let (rest, before) =
      check_group-none group (check_op op (check_ident (codes "column") c e)) h in
    let (good_op, checked) = check_op-none op (check_ident (codes "column") c e) before in
    let (good_column, start) = check_ident-none (codes "column") c e checked in
    (((good_column, good_op), rest), start)

pub keep_first-some : (e : Error) (o : Option Error) → keep_first e o ≢ none
unfolding keep_first
keep_first-some e none h = cc
keep_first-some e (some f) h = cc
