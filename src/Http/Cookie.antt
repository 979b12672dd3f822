-- ===== src/Http/Cookie.antt =====
-- crates/sutegi-http/src/lib.rs: the cookies of a request.
use sutegi.Base.{
  ℕ, ◌≡◌, refl, sym, ap, ◌∙◌, arith, append-nil, append_assoc, Bool, true, not, ◌&&◌, ◌||◌, Option,
  none, some, List, [], ◌∷◌, ◌++◌, Bytes, ◌==◌, if◌then◌else◌, codes, bytes_eq, bytes_eq_refl, all,
  if_rule,
}
use mathlib.Core.List.{reverse, reverse_aux, reverse-reverse}
use sutegi.Http.{Request, find_header, trim, trim_end_by, skip_while, is_whitespace, split_once}

-- `str::split` at a character: the pieces, with what was read of the first.
unfoldable pub split_at : ℕ → Bytes → Bytes → List Bytes
split_at d cur [] = cur ∷ []
split_at d cur (c ∷ s) =
    let closed = cur ∷ split_at d [] s in
    let longer = split_at d (cur ++ c ∷ []) s in if c == d then closed else longer

unfoldable pub find_cookie : Bytes → List Bytes → Option Bytes
find_cookie name [] = none
find_cookie name (pair ∷ pairs) =
    let next = find_cookie name pairs in
    elim (split_once b'=' (trim pair)) [
      | none ↦ next
      | some (k, v) ↦ if bytes_eq (trim k) name then some (trim v) else next
    ]

-- `Request::cookie`.
unfoldable pub cookie : Bytes → Request → Option Bytes
cookie name req = elim (find_header (codes "cookie") req.headers) [
  | none ↦ none
  | some header ↦ find_cookie name (split_at b';' [] header)
]

-- A character that stands in a cookie as it is.
abbrev pub is_plain : ℕ → Bool
is_plain c = not (is_whitespace c || c == b';')

abbrev pub is_name_char : ℕ → Bool
is_name_char c = is_plain c && not (c == b'=')

pub all-append :
    (p : ℕ → Bool) (a b : Bytes) → all p a ≡ true → all p b ≡ true → all p (a ++ b) ≡ true
all-append p [] b h g = g
all-append p (x ∷ a) b h g = ground (arith, all-append p a b)

pub all_mono :
    (p q : ℕ → Bool) (s : Bytes)
    → ((c : ℕ) → p c ≡ true → q c ≡ true)
    → all p s ≡ true
    → all q s ≡ true
all_mono p q [] f h = refl
all_mono p q (c ∷ s) f h = ground (arith, f c, all_mono p q s f)

all-reverse_aux :
    (p : ℕ → Bool) (a b : Bytes) → all p a ≡ true → all p b ≡ true → all p (reverse_aux a b) ≡ true
all-reverse_aux p [] b h g = g
all-reverse_aux p (x ∷ a) b h g = all-reverse_aux p a (x ∷ b) (ground arith) (ground arith)

skip_while_none : (s : Bytes) → all is_plain s ≡ true → skip_while is_whitespace s ≡ s
unfolding skip_while
skip_while_none [] h = refl
skip_while_none (c ∷ s) h = ground arith

trim_plain : (s : Bytes) → all is_plain s ≡ true → trim s ≡ s
unfolding trim trim_end_by
trim_plain s h =
    ap (λ t. reverse (skip_while is_whitespace (reverse t))) (skip_while_none s h)
    ∙ ap reverse (skip_while_none (reverse s) (all-reverse_aux is_plain s [] h refl))
    ∙ reverse-reverse s

split_at_none : (s cur : Bytes) → all is_plain s ≡ true → split_at b';' cur s ≡ (cur ++ s) ∷ []
unfolding split_at
split_at_none [] cur h = ap (λ t. t ∷ []) (sym (append-nil cur))
split_at_none (c ∷ s) cur h =
    if_rule (λ t. t ≡ (cur ++ c ∷ s) ∷ []) (c == b';') _ _
      (λ e. absurd (let no : ⊥ = ground arith in no))
      (λ _.
        split_at_none s (cur ++ c ∷ []) (ground arith)
        ∙ ap (λ t. t ∷ []) (append_assoc cur (c ∷ []) s))

-- A character other than `d`.
abbrev pub is_not : ℕ → ℕ → Bool
is_not d c = not (c == d)

pub split_once-append :
    (d : ℕ) (a b : Bytes) → all (is_not d) a ≡ true → split_once d (a ++ d ∷ b) ≡ some (a, b)
unfolding split_once
split_once-append d [] b h = ground arith
split_once-append d (c ∷ a) b h = ground (arith, split_once-append d a b)

find_cookie-pair :
    (name value : Bytes)
    → all is_name_char name ≡ true
    → all is_plain value ≡ true
    → find_cookie name ((name ++ b'=' ∷ value) ∷ []) ≡ some value
unfolding find_cookie
find_cookie-pair name value n v =
    let plain : all is_plain name ≡ true =
      all_mono is_name_char is_plain name (λ c h. ground arith) n in
    let pair : all is_plain (name ++ b'=' ∷ value) ≡ true =
      all-append is_plain name (b'=' ∷ value) plain (unfold is_whitespace in v) in
    ap
      (λ t. elim (split_once b'=' t) [
        | none ↦ none
        | some (k, v) ↦ if bytes_eq (trim k) name then some (trim v) else none
      ])
      (trim_plain (name ++ b'=' ∷ value) pair)
    ∙ ap
        (λ (o : Option (Bytes × Bytes)). elim o [
          | none ↦ none
          | some (k, v) ↦ if bytes_eq (trim k) name then some (trim v) else none
        ])
        (split_once-append b'=' name value
          (all_mono is_name_char (is_not b'=') name (λ c h. ground arith) n))
    ∙ rw (trim_plain name plain, trim_plain value v, bytes_eq_refl name) refl

-- A header of one pair, of characters that stand as they are, gives the value under its name.
pub cookie-pair :
    (name value : Bytes) (req : Request)
    → find_header (codes "cookie") req.headers ≡ some (name ++ b'=' ∷ value)
    → all is_name_char name ≡ true
    → all is_plain value ≡ true
    → cookie name req ≡ some value
unfolding cookie
cookie-pair name value req e n v =
    let plain : all is_plain name ≡ true =
      all_mono is_name_char is_plain name (λ c h. ground arith) n in
    let pair : all is_plain (name ++ b'=' ∷ value) ≡ true =
      all-append is_plain name (b'=' ∷ value) plain (unfold is_whitespace in v) in
    ap (λ o. elim o [ none ↦ none | some header ↦ find_cookie name (split_at b';' [] header) ]) e
    ∙ ap (find_cookie name) (split_at_none (name ++ b'=' ∷ value) [] pair)
    ∙ find_cookie-pair name value n v
