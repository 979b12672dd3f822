-- ===== src/Http/Parse/Headers.antt =====
-- crates/sutegi-http/src/lib.rs: what the header loop's state knows of the length of the body.
use sutegi.Base.{
  ℕ, ◌≡◌, refl, sym, Bool, true, false, Option, none, some, List, [], ◌∷◌, ◌++◌, Bytes, codes, All,
  All-append, if_rule, option_rule, arith,
}
use sutegi.Http.{eq_ignore_case, find_header, trim, split_once}
use sutegi.Http.Parse.{
  parse_content_length, Head, Header, set_length, header_field, header_line, unwrap_or,
}

abbrev pub is_transfer : Bytes × Bytes → Bool
is_transfer kv = eq_ignore_case kv.0 (codes "transfer-encoding")

abbrev pub is_length : Bytes × Bytes → Bool
is_length kv = eq_ignore_case kv.0 (codes "content-length")

-- The headers `hs` say that the body has `n` bytes, and nothing else about its length.
pub record Declares (hs : List (Bytes × Bytes)) (n : ℕ) : Type 0 where
  pub plain : All (λ kv. is_transfer kv ≡ false) hs
  pub agreed : All (λ kv. is_length kv ≡ true → parse_content_length kv.1 ≡ some n) hs
  pub absent : find_header (codes "content-length") hs ≡ none → n ≡ 0

-- The same of the loop's state, where no length may have been seen yet.
pub record IsHead (h : Head) : Type 0 where
  pub plain : All (λ kv. is_transfer kv ≡ false) h.headers
  pub agreed :
      All
        (λ kv.
          is_length kv ≡ true
          → (n : ℕ) × (h.content_length ≡ some n) × (parse_content_length kv.1 ≡ some n))
        h.headers
  pub absent : find_header (codes "content-length") h.headers ≡ none → h.content_length ≡ none

All-map {ℓ κ μ} :
    {A : Type ℓ} {P : A → Type κ} {Q : A → Type μ} (xs : List A)
    → ((x : A) → P x → Q x)
    → All P xs
    → All Q xs
All-map [] f h = tt
All-map (x ∷ xs) f (p, ps) = (f x p, All-map xs f ps)

find_header-append :
    (name : Bytes) (hs : List (Bytes × Bytes)) (kv : Bytes × Bytes)
    → find_header name (hs ++ kv ∷ []) ≡ none
    → (find_header name hs ≡ none) × (eq_ignore_case kv.0 name ≡ false)
unfolding find_header
find_header-append name [] (k, v) h = ground arith
find_header-append name ((j, w) ∷ hs) kv h = ground (arith, find_header-append name hs kv)

pub IsHead-Declares : (h : Head) → IsHead h → Declares h.headers (unwrap_or 0 h.content_length)
unfolding unwrap_or
IsHead-Declares h i = record {
  plain = i.plain;
  agreed = All-map h.headers (λ kv f e. let (n, c, p) = f e in rw c p) i.agreed;
  absent = λ e. rw (i.absent e) refl;
}

-- What a header line leaves: a refusal, or a state with the same count of bytes.
abbrev pub HeaderOk : Head → Header → Type 0
HeaderOk h (Header.accept h') = IsHead h' × (h'.header_bytes ≡ h.header_bytes)
HeaderOk h (Header.refuse status) = Unit

-- A header that says nothing about the length.
push_plain :
    (h : Head) (kv : Bytes × Bytes)
    → IsHead h
    → is_transfer kv ≡ false
    → is_length kv ≡ false
    → IsHead (record h { headers = h.headers ++ kv ∷ [] })
push_plain h kv i t l = record {
  plain = All-append _ h.headers (kv ∷ []) i.plain (t, tt);
  agreed = All-append _ h.headers (kv ∷ []) i.agreed ((λ e. cc), tt);
  absent = λ e. i.absent ((find_header-append _ h.headers kv e).0);
}

set_length-new : (o : Option ℕ) (n m : ℕ) → set_length o n ≡ some m → m ≡ n
unfolding set_length
set_length-new none n m e = cc
set_length-new (some prev) n m e = ground arith

set_length-old : (o : Option ℕ) (n m k : ℕ) → set_length o n ≡ some m → o ≡ some k → k ≡ m
unfolding set_length
set_length-old none n m k e f = cc
set_length-old (some prev) n m k e f = ground arith

-- A Content-Length that agrees with those before it.
push_length :
    (h : Head) (kv : Bytes × Bytes) (n m : ℕ)
    → IsHead h
    → is_transfer kv ≡ false
    → is_length kv ≡ true
    → parse_content_length kv.1 ≡ some n
    → set_length h.content_length n ≡ some m
    → IsHead (record h { headers = h.headers ++ kv ∷ []; content_length = some m })
push_length h kv n m i t l p s = record {
  plain = All-append _ h.headers (kv ∷ []) i.plain (t, tt);
  agreed =
      All-append _ h.headers (kv ∷ [])
        (All-map h.headers
          (λ x f e. let (k, c, q) = f e in (m, refl, rw (sym (set_length-old _ n m k s c)) q))
          i.agreed)
        ((λ e. (m, refl, rw (set_length-new _ n m s) p)), tt);
  absent = λ e. let no = (find_header-append _ h.headers kv e).1 in cc;
}

header_field-ok : (k v : Bytes) (h : Head) → IsHead h → HeaderOk h (header_field k v h)
unfolding header_field
header_field-ok k v h i =
    if_rule (HeaderOk h) (is_transfer (k, v)) _ _ (λ _. tt)
      (λ t.
        if_rule (HeaderOk h) (is_length (k, v)) _ _
          (λ l.
            option_rule (HeaderOk h) (parse_content_length v) _ _ (λ _. tt)
              (λ n p.
                option_rule (HeaderOk h) (set_length h.content_length n) _ _ (λ _. tt)
                  (λ m s. (push_length h (k, v) n m i t l p s, refl))))
          (λ l. (push_plain h (k, v) i t l, refl)))

pub header_line-ok : (l : Bytes) (h : Head) → IsHead h → HeaderOk h (header_line l h)
unfolding header_line
header_line-ok l h i =
    option_rule (HeaderOk h) (split_once b':' l) _ _ (λ _. (i, refl))
      (λ kv _. header_field-ok (trim kv.0) (trim kv.1) h i)
