-- ===== src/Orm/Marks.antt =====
-- crates/sutegi-orm/src/builder.rs: the placeholders of a text, and what would open a string, a quoted name or a comment in it.
pub mod Parts
pub mod Clauses
use sutegi.Base.{
  ℕ, zero, suc, ◌+◌, ◌*◌, ◌/◌, ◌%◌, ◌<◌, ◌≡◌, refl, sym, ap, ◌∙◌, ◌⊎◌, inl, inr, arith, Bool, true,
  false, not, ◌&&◌, ◌||◌, Option, none, some, List, [], ◌∷◌, ◌++◌, map, All, all, any, length,
  Bytes, codes, leb, ltb, ◌==◌, if◌then◌else◌, bytes_eq, bytes_eq→eq, Bool-cases, ==_iff, if_rule,
  option_rule,
}
use mathlib.Core.Path.{subst}
use mathlib.Core.Bool.{and-eq-true_iff}
use sutegi.Session.{decimal, decimal_digits}
use sutegi.Orm.{ℤ, pos, negsuc, show_int, join_with}
use sutegi.Orm.Ident.{
  is_alphabetic, is_alphanumeric, is_word, is_plain_ident, split_dot, valid_identifier, ascii_lower,
  eq_ignore_ascii_case, operators, valid_operator,
}

-- How many `?` a text has.
abbrev pub marks : Bytes → ℕ
marks [] = 0
marks (c ∷ s) = (if c == b'?' then 1 else 0) + marks s

-- No byte that opens a string or a quoted name (a quote, a backtick, a bracket or a dollar sign), or ends a statement.
abbrev pub harmless : ℕ → Bool
harmless c = not (c == b'\'' || c == b'"' || c == b'`' || c == b'[' || c == b'$' || c == b';')

-- `--` and `/*` open a comment.
abbrev pub may_comment : ℕ → Bool
may_comment c = c == b'-' || c == b'/'

abbrev pub opens_comment : ℕ → ℕ → Bool
opens_comment c d = c == b'-' && d == b'-' || c == b'/' && d == b'*'

-- All bytes are harmless, no comment is opened, and the text does not end with a byte that could open one with the next.
abbrev pub is_clean : Bytes → Bool
is_clean [] = true
is_clean (c ∷ []) = harmless c && not (may_comment c)
is_clean (c ∷ d ∷ s) = harmless c && (not (opens_comment c d) && is_clean (d ∷ s))

-- A text with `n` placeholders that is clean.
pub record Marked (n : ℕ) (s : Bytes) : Type 0 where
  pub count : marks s ≡ n
  pub clean : is_clean s ≡ true

marks-append : (s t : Bytes) → marks (s ++ t) ≡ marks s + marks t
marks-append [] t = omega arith
marks-append (c ∷ s) t = omega (arith, marks-append s t)

no_comment : (c d : ℕ) → may_comment c ≡ false → opens_comment c d ≡ false
no_comment c d h = ground arith

is_clean-cons :
    (c : ℕ) (s : Bytes)
    → harmless c ≡ true
    → may_comment c ≡ false
    → is_clean s ≡ true
    → is_clean (c ∷ s) ≡ true
is_clean-cons c [] h m k = rw (h, m) refl
is_clean-cons c (d ∷ s) h m k = rw (h, no_comment c d m) k

clean-append : (s t : Bytes) → is_clean s ≡ true → is_clean t ≡ true → is_clean (s ++ t) ≡ true
clean-append [] t h k = k
clean-append (c ∷ []) t h k =
    let (fine, quiet) = (and-eq-true_iff (harmless c) (not (may_comment c))).0 h in
    is_clean-cons c t fine (not-true (may_comment c) quiet) k
  where
    not-true : (b : Bool) → not b ≡ true → b ≡ false
    not-true true h = cc
    not-true false h = refl
clean-append (c ∷ d ∷ s) t h k =
    let (fine, rest) = (and-eq-true_iff (harmless c) _).0 h in
    let (quiet, later) = (and-eq-true_iff (not (opens_comment c d)) (is_clean (d ∷ s))).0 rest in
    rw (fine, quiet) (clean-append (d ∷ s) t later k)

infixl 4 ◌<>◌
pub ◌<>◌ : {m n : ℕ} {s t : Bytes} → Marked m s → Marked n t → Marked (m + n) (s ++ t)
◌<>◌ {s} {t} h k = record {
  count = omega (arith, marks-append s t, h.count, k.count);
  clean = clean-append s t h.clean k.clean;
}

abbrev pub plain : {s : Bytes} → marks s ≡ 0 → is_clean s ≡ true → Marked 0 s
plain e h = record { count = e; clean = h }

-- A text of the program.
pub lit : (s : Bytes) → is_clean s ≡ true → Marked (marks s) s
lit s h = record { count = refl; clean = h }

pub recount : {m n : ℕ} {s : Bytes} → m ≡ n → Marked m s → Marked n s
recount e h = record { count = h.count ∙ e; clean = h.clean }

-- One byte more, that is harmless, begins no comment and is no placeholder.
abbrev pub IsInert : ℕ → Type 0
IsInert c = ((c == b'?') ≡ false) × (harmless c ≡ true) × (may_comment c ≡ false)

pub Marked-cons : {n : ℕ} {s : Bytes} (c : ℕ) → IsInert c → Marked n s → Marked n (c ∷ s)
Marked-cons {n} {s} c (e, h, m) k = record {
  count = ground (arith, e, k.count);
  clean = is_clean-cons c s h m k.clean;
}

is_word-IsInert : (c : ℕ) → is_word c ≡ true → IsInert c
unfolding is_word is_alphanumeric is_alphabetic
is_word-IsInert c h = (ground arith, ground arith, ground arith)

words-Marked : (s : Bytes) → all is_word s ≡ true → Marked 0 s
words-Marked [] h = plain refl refl
words-Marked (c ∷ s) h =
    let (word, rest) = (and-eq-true_iff (is_word c) (all is_word s)).0 h in
    Marked-cons c (is_word-IsInert c word) (words-Marked s rest)

is_plain_ident-Marked : (s : Bytes) → is_plain_ident s ≡ true → Marked 0 s
unfolding is_plain_ident
is_plain_ident-Marked [] h = cc
is_plain_ident-Marked (c ∷ s) h =
    let (start, rest) = (and-eq-true_iff (is_alphabetic c || c == b'_') (all is_word s)).0 h in
    Marked-cons c (is_word-IsInert c (starts_word c start)) (words-Marked s rest)
  where
    starts_word : (c : ℕ) → is_alphabetic c || c == b'_' ≡ true → is_word c ≡ true
    starts_word c h = unfold is_word is_alphanumeric in ground arith

split_dot_lem : (s qual name : Bytes) → split_dot s ≡ some (qual, name) → s ≡ qual ++ b'.' ∷ name
unfolding split_dot
split_dot_lem [] qual name e = cc
split_dot_lem (c ∷ s) qual name e = elim (Bool-cases (c == b'.')) [
  | inl dot ↦
      let here : ◌≡◌ {A = Option (Bytes × Bytes)} (some ([], s)) (some (qual, name)) =
        rw dot at e in
      let same : c ≡ b'.' = (==_iff c b'.').0 dot in cc
  | inr other ↦ later (split_dot s) (split_dot_lem s) (rw other at e)
]
  where
    later :
        (o : Option (Bytes × Bytes))
        → ((q n : Bytes) → o ≡ some (q, n) → s ≡ q ++ b'.' ∷ n)
        → ◌≡◌ {A = Option (Bytes × Bytes)}
            (elim o [ none ↦ none | some (q, n) ↦ some (c ∷ q, n) ])
            (some (qual, name))
        → c ∷ s ≡ qual ++ b'.' ∷ name
    later none f e = cc
    later (some (q, n)) f e =
        let rest : s ≡ q ++ b'.' ∷ n = f q n refl in
        let front : c ∷ q ≡ qual = cc in
        let back : n ≡ name = cc in
        ap (λ t. c ∷ t) rest ∙ ap (λ t. t ++ b'.' ∷ n) front ∙ ap (λ t. qual ++ b'.' ∷ t) back

pub valid_identifier-Marked : (s : Bytes) → valid_identifier s ≡ true → Marked 0 s
unfolding valid_identifier
valid_identifier-Marked s =
    if_rule (λ b. b ≡ true → Marked 0 s) (bytes_eq s (codes "*")) true _
      (λ star _. subst (Marked 0) (sym (bytes_eq→eq s (codes "*") star)) (plain refl refl))
      (λ _.
        option_rule (λ b. b ≡ true → Marked 0 s) (split_dot s) _ _
          (λ _ h. is_plain_ident-Marked s h)
          (λ (p : Bytes × Bytes) e h.
            let (first, second) = (and-eq-true_iff (is_plain_ident p.0) _).0 h in
            subst (Marked 0) (sym (split_dot_lem s p.0 p.1 e)) (
              is_plain_ident-Marked p.0 first
              <> Marked-cons b'.' (refl, refl, refl)
                  (tail p.1 (Bool-cases (bytes_eq p.1 (codes "*"))) second))))
  where
    tail :
        (name : Bytes)
        → (bytes_eq name (codes "*") ≡ true) ⊎ (bytes_eq name (codes "*") ≡ false)
        → bytes_eq name (codes "*") || not (any (λ c. c == b'.') name) && is_plain_ident name ≡ true
        → Marked 0 name
    tail name (inl star) h =
        subst (Marked 0) (sym (bytes_eq→eq name (codes "*") star)) (plain refl refl)
    tail name (inr other) h =
        is_plain_ident-Marked name
          ((and-eq-true_iff (not (any (λ c. c == b'.') name)) (is_plain_ident name)).0
            (rw other at h)).1
