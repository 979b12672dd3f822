-- ===== src/Ws/Admission/Restore.antt =====
-- crates/sutegi-ws/src/reactor.rs: `reserve` and `release` of one thread alone.
use sutegi.Base.{
  ℕ, ◌≡◌, ◌<◌, refl, Bool, true, false, Option, none, some, leb, ◌==◌, arith, if_rule,
}
use sutegi.Ws.Admission.{
  Caps, Admission, count_of, add_one, sub_one, enter_total, leave_total, take_ip, forget_ip,
  reserve, release,
}
use sutegi.Ws.Admission.Counts.{Distinct, count_of-add_one, add_one-Distinct, count_of-sub_one}

-- The same total and the same count for every address.
abbrev pub Same : Admission → Admission → Type 0
Same a b = (a.total ≡ b.total) × ((i : ℕ) → count_of i a.per_ip ≡ count_of i b.per_ip)

-- What each answer of `reserve` leaves.
abbrev pub Restored : Caps → Option ℕ → Admission → Admission × Bool → Type 0
Restored caps ip a (b, true) = Same (release caps ip b) a × (a.total < caps.max_total)
Restored caps ip a (b, false) = Same b a

-- A refused reservation leaves the counters as they were; a granted one was below the global cap, and
-- its release restores them, where the map has one entry for an address.
pub reserve-Restored :
    (caps : Caps) (ip : Option ℕ) (a : Admission)
    → Distinct a.per_ip
    → Restored caps ip a (reserve caps ip a)
unfolding reserve release enter_total leave_total take_ip forget_ip
reserve-Restored caps none a d =
    if_rule (Restored caps none a) (leb caps.max_total a.total) _ _ (λ _. (omega arith, λ i. refl))
      (λ room. ((omega arith, λ i. refl), ground arith))
reserve-Restored caps (some ip) a d =
    if_rule (Restored caps (some ip) a) (leb caps.max_total a.total) _ _
      (λ _. (omega arith, λ i. refl)) by_cap
  where
    after : Option Admission → Admission × Bool
    after o = elim o [ none ↦ (leave_total (enter_total a), false) | some b ↦ (b, true) ]

    P : Option Admission → Type 0
    P o = Restored caps (some ip) a (after o)

    given_back : (i : ℕ) → count_of i (sub_one ip (add_one ip a.per_ip)) ≡ count_of i a.per_ip
    given_back i = omega (
      arith,
      count_of-sub_one i ip (add_one ip a.per_ip) (add_one-Distinct ip a.per_ip d),
      count_of-add_one i ip a.per_ip,
    )

    by_cap :
        leb caps.max_total a.total ≡ false
        → Restored caps (some ip) a (after (take_ip caps (some ip) (enter_total a)))
    by_cap room =
        if_rule P (caps.max_per_ip == 0) _ _
          (λ off. (
            if_rule (λ b. Same b a) (caps.max_per_ip == 0) _ _ (λ _. (omega arith, λ i. refl))
                (λ on. absurd (let no : ⊥ = ground arith in no)),
            ground arith,
          ))
          (λ on.
            if_rule P (leb caps.max_per_ip (count_of ip a.per_ip)) _ _
              (λ _. (omega arith, λ i. refl))
              (λ _. (
                if_rule (λ b. Same b a) (caps.max_per_ip == 0) _ _
                    (λ off. absurd (let no : ⊥ = ground arith in no))
                    (λ _. (omega arith, given_back)),
                ground arith,
              )))
