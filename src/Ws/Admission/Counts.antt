-- ===== src/Ws/Admission/Counts.antt =====
-- crates/sutegi-ws/src/reactor.rs: the counts per address.
use sutegi.Base.{
  ℕ, suc, ◌+◌, ◌-◌, ◌≡◌, refl, Option, none, some, List, [], ◌∷◌, ◌++◌, length, ◌==◌, if◌then◌else◌,
  arith, if_rule, ap,
}
use sutegi.Ws.Admission.{count_of, add_one, sub_one}

-- One where the two are the same address.
abbrev pub hit : ℕ → ℕ → ℕ
hit i k = if k == i then 1 else 0

-- An entry hides none behind it.
abbrev pub Distinct : List (ℕ × ℕ) → Type 0
Distinct [] = Unit
Distinct ((k, n) ∷ m) = (count_of k m ≡ 0) × Distinct m

pub count_of-add_one :
    (i k : ℕ) (m : List (ℕ × ℕ)) → count_of i (add_one k m) ≡ hit i k + count_of i m
unfolding count_of add_one
count_of-add_one i k [] = ground arith
count_of-add_one i k ((j, n) ∷ m) =
    if_rule (λ r. count_of i r ≡ hit i k + count_of i ((j, n) ∷ m)) (j == k) _ _ (λ e. ground arith)
      (λ e. ground (arith, count_of-add_one i k m))

pub add_one-Distinct : (k : ℕ) (m : List (ℕ × ℕ)) → Distinct m → Distinct (add_one k m)
unfolding add_one
add_one-Distinct k [] d = (unfold count_of in refl, tt)
add_one-Distinct k ((j, n) ∷ m) (p, d) =
    if_rule Distinct (j == k) _ _ (λ e. (p, d))
      (λ e. (ground (arith, count_of-add_one j k m), add_one-Distinct k m d))

pub count_of-sub_one :
    (i k : ℕ) (m : List (ℕ × ℕ)) → Distinct m → count_of i (sub_one k m) ≡ count_of i m - hit i k
unfolding count_of sub_one
count_of-sub_one i k [] d = ground arith
count_of-sub_one i k ((j, n) ∷ m) (p, d) =
    if_rule (λ r. count_of i r ≡ count_of i ((j, n) ∷ m) - hit i k) (j == k) _ _
      (λ e.
        if_rule (λ r. count_of i r ≡ count_of i ((j, n) ∷ m) - hit i k) (n - 1 == 0) _ _
          (λ z.
            if_rule (λ c. count_of i m ≡ c - hit i k) (j == i) _ _
              (λ same.
                let here : j ≡ i = ground arith in ground (arith, ap (λ x. count_of x m) here))
              (λ other. ground arith))
          (λ z. ground arith))
      (λ e. ground (arith, count_of-sub_one i k m d))

pub sub_one-Distinct : (k : ℕ) (m : List (ℕ × ℕ)) → Distinct m → Distinct (sub_one k m)
unfolding sub_one
sub_one-Distinct k [] d = tt
sub_one-Distinct k ((j, n) ∷ m) (p, d) =
    if_rule Distinct (j == k) _ _ (λ e. if_rule Distinct (n - 1 == 0) _ _ (λ _. d) (λ _. (p, d)))
      (λ e. (ground (arith, count_of-sub_one j k m d), sub_one-Distinct k m d))

-- How many of the connections come from an address.
abbrev pub occurs : ℕ → List (Option ℕ) → ℕ
occurs i [] = 0
occurs i (none ∷ xs) = occurs i xs
occurs i (some k ∷ xs) = hit i k + occurs i xs

abbrev pub one_of : ℕ → Option ℕ → ℕ
one_of i none = 0
one_of i (some k) = hit i k

pub occurs-middle :
    (i : ℕ) (x : Option ℕ) (xs ys : List (Option ℕ))
    → occurs i (xs ++ x ∷ ys) ≡ one_of i x + occurs i (xs ++ ys)
occurs-middle i none [] ys = omega arith
occurs-middle i (some k) [] ys = omega arith
occurs-middle i x (none ∷ xs) ys = occurs-middle i x xs ys
occurs-middle i x (some k ∷ xs) ys = omega (arith, occurs-middle i x xs ys)

pub length-middle {ℓ} :
    {A : Type ℓ} (x : A) (xs ys : List A) → length (xs ++ x ∷ ys) ≡ suc (length (xs ++ ys))
length-middle x [] ys = refl
length-middle x (y ∷ xs) ys = omega (arith, length-middle x xs ys)
