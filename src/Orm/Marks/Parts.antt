-- ===== src/Orm/Marks/Parts.antt =====
-- crates/sutegi-orm/src/builder.rs: the placeholders of operators, numbers and joined texts.
use sutegi.Base.{
  ℕ, zero, suc, Bool, not, ap, ◌∙◌, ◌+◌, ◌/◌, ◌%◌, ◌≡◌, refl, inl, inr, arith, true, false, ◌&&◌,
  List, [], ◌∷◌, map, All, all, any, length, Bytes, ltb, ◌==◌, bytes_eq, bytes_eq→eq, Bool-cases,
  if_rule,
}
use mathlib.Core.Path.{subst}
use mathlib.Core.Bool.{and-eq-true_iff}
use sutegi.Session.{decimal, decimal_digits}
use sutegi.Orm.{ℤ, pos, negsuc, show_int, join_with}
use sutegi.Orm.Ident.{ascii_lower, eq_ignore_ascii_case, operators, valid_operator}
use sutegi.Orm.Marks.{
  harmless, may_comment, opens_comment, IsInert, Marked, plain, recount, ◌<>◌, Marked-cons,
}

-- A byte that is inert when it is lowered, or whose lowering is a letter.
ascii_lower-IsInert : (c : ℕ) → IsInert (ascii_lower c) → IsInert c
unfolding ascii_lower
ascii_lower-IsInert c (e, h, m) = (ground arith, ground arith, ground arith)

-- All bytes of a text are inert.
abbrev inert : Bytes → Bool
inert [] = true
inert (c ∷ s) = (not (c == b'?') && (harmless c && not (may_comment c))) && inert s

is_inert : (c : ℕ) → not (c == b'?') && (harmless c && not (may_comment c)) ≡ true → IsInert c
is_inert c h = (ground arith, ground arith, ground arith)

lower-Marked : (s : Bytes) → inert (map ascii_lower s) ≡ true → Marked 0 s
lower-Marked [] h = plain refl refl
lower-Marked (c ∷ s) h =
    let (first, rest) = (and-eq-true_iff _ (inert (map ascii_lower s))).0 h in
    Marked-cons c (ascii_lower-IsInert c (is_inert (ascii_lower c) first)) (lower-Marked s rest)

any_lower :
    (s : Bytes) (ops : List Bytes)
    → any (eq_ignore_ascii_case s) ops ≡ true
    → all (λ o. inert (map ascii_lower o)) ops ≡ true
    → Marked 0 s
unfolding eq_ignore_ascii_case
any_lower s [] h k = cc
any_lower s (o ∷ ops) h k =
    let (here, later) = (and-eq-true_iff (inert (map ascii_lower o)) _).0 k in
    elim (Bool-cases (bytes_eq (map ascii_lower s) (map ascii_lower o))) [
      | inl same ↦ lower-Marked s (ap inert (bytes_eq→eq _ _ same) ∙ here)
      | inr other ↦ any_lower s ops (rw other at h) later
    ]

pub valid_operator-Marked : (op : Bytes) → valid_operator op ≡ true → Marked 0 op
unfolding valid_operator ascii_lower
valid_operator-Marked op h = any_lower op operators h refl

digit-Marked : (n : ℕ) {s : Bytes} → Marked 0 s → Marked 0 ((b'0' + n % 10) ∷ s)
digit-Marked n h = Marked-cons (b'0' + n % 10) (ground arith, ground arith, ground arith) h

digits-Marked : (fuel n : ℕ) (done : Bytes) → Marked 0 done → Marked 0 (decimal_digits fuel n done)
unfolding decimal_digits
digits-Marked zero n done h = h
digits-Marked (suc fuel) n done h =
    if_rule (Marked 0) (ltb n 10) _ _ (λ _. digit-Marked n h)
      (λ _. digits-Marked fuel (n / 10) _ (digit-Marked n h))

decimal-Marked : (n : ℕ) → Marked 0 (decimal n)
unfolding decimal
decimal-Marked n = digits-Marked 20 n [] (plain refl refl)

-- A number with a sign opens no comment.
abbrev Signed : Bytes → Type 0
Signed s = Marked 0 (b'-' ∷ s)

digit-Signed : (n : ℕ) {s : Bytes} → Marked 0 s → Signed ((b'0' + n % 10) ∷ s)
digit-Signed n {s} h =
    let apart : opens_comment b'-' (b'0' + n % 10) ≡ false = ground arith in
    record {
      count = ground (arith, (digit-Marked n h).count);
      clean = rw apart (digit-Marked n h).clean;
    }

digits-Signed :
    (fuel n : ℕ) (done : Bytes) → Marked 0 done → Signed done → Signed (decimal_digits fuel n done)
unfolding decimal_digits
digits-Signed zero n done h k = k
digits-Signed (suc fuel) n done h k =
    if_rule Signed (ltb n 10) _ _ (λ _. digit-Signed n h)
      (λ _. digits-Signed fuel (n / 10) _ (digit-Marked n h) (digit-Signed n h))

decimal-Signed : (n : ℕ) → Signed (decimal n)
unfolding decimal decimal_digits
decimal-Signed n =
    if_rule Signed (ltb n 10) _ _ (λ _. digit-Signed n (plain refl refl))
      (λ _.
        digits-Signed 19 (n / 10) _ (digit-Marked n (plain refl refl))
          (digit-Signed n (plain refl refl)))

pub show_int-Marked : (z : ℤ) → Marked 0 (show_int z)
unfolding show_int
show_int-Marked (pos n) = decimal-Marked n
show_int-Marked (negsuc n) = decimal-Signed (suc n)

-- Texts with their placeholders, one after another.
pub data AllMarked : ℕ → List Bytes → Type 0 where
  nothing : AllMarked 0 []
  next :
      {m n : ℕ} {s : Bytes} {xs : List Bytes}
      → Marked m s
      → AllMarked n xs
      → AllMarked (m + n) (s ∷ xs)

pub recount_all : {m n : ℕ} {xs : List Bytes} → m ≡ n → AllMarked m xs → AllMarked n xs
recount_all {xs} e h = subst (λ k. AllMarked k xs) e h

pub AllMarked-plain :
    {A : Type 0} (f : A → Bytes) (xs : List A)
    → All (λ x. Marked 0 (f x)) xs
    → AllMarked 0 (map f xs)
AllMarked-plain f [] h = nothing
AllMarked-plain f (x ∷ xs) (h, more) =
    recount_all (omega arith) (next h (AllMarked-plain f xs more))

-- One placeholder for each.
pub AllMarked-each :
    {A : Type 0} (f : A → Bytes) (xs : List A)
    → All (λ x. Marked 1 (f x)) xs
    → AllMarked (length xs) (map f xs)
AllMarked-each f [] h = nothing
AllMarked-each f (x ∷ xs) (h, more) = recount_all (omega arith) (next h (AllMarked-each f xs more))

pub join_with-Marked :
    {n : ℕ} {sep : Bytes} {xs : List Bytes}
    → Marked 0 sep
    → AllMarked n xs
    → Marked n (join_with sep xs)
unfolding join_with
join_with-Marked k nothing = plain refl refl
join_with-Marked k (next h nothing) = recount (omega arith) h
join_with-Marked k (next h (next h' more)) =
    recount (omega arith) (h <> k <> join_with-Marked k (next h' more))
