-- ===== src/Ws/Admission/Interleaving.antt =====
-- crates/sutegi-ws/src/reactor.rs: `reserve` and `release` by many threads at once. Their atomic
-- operations on the counter and on the map interleave in any order.
use sutegi.Base.{
  ℕ, ◌+◌, ◌≡◌, ◌≤◌, ◌<◌, false, Option, none, some, List, ◌∷◌, ◌++◌, length, leb, ◌==◌,
  if◌then◌else◌, arith, if_rule, ap,
}
use sutegi.Ws.Admission.{
  Caps, Admission, count_of, add_one, enter_total, leave_total, take_ip, forget_ip,
}
use sutegi.Ws.Admission.Counts.{
  Distinct, hit, occurs, one_of, count_of-add_one, add_one-Distinct, count_of-sub_one,
  sub_one-Distinct, occurs-middle, length-middle,
}

-- The counters, and where each thread stands: past the test of the total, about to give its place back,
-- holding a place, or between the two halves of `release`.
pub record World : Type 0 where
  pub adm : Admission
  pub entering : List (Option ℕ)
  pub backing : ℕ
  pub holders : List (Option ℕ)
  pub leaving : List (Option ℕ)

-- `fetch_add` and the test of what it returned.
unfoldable pub begin : Caps → Option ℕ → World → World
begin caps ip w =
    if leb caps.max_total w.adm.total
    then record w { adm = enter_total w.adm; backing = w.backing + 1 }
    else record w { adm = enter_total w.adm; entering = ip ∷ w.entering }

-- The part under the lock; the thread is off the list of those entering already.
unfoldable pub check : Caps → Option ℕ → World → World
check caps ip w = elim (take_ip caps ip w.adm) [
  | none ↦ record w { backing = w.backing + 1 }
  | some a ↦ record w { adm = a; holders = ip ∷ w.holders }
]

pub data Step (caps : Caps) : World → World → Type 0 where
  begins : (ip : Option ℕ) (w : World) → Step caps w (begin caps ip w)
  checks :
      (xs ys : List (Option ℕ)) (ip : Option ℕ) (w : World)
      → Step caps
          (record w { entering = xs ++ ip ∷ ys })
          (check caps ip (record w { entering = xs ++ ys }))
  backs_out :
      (n : ℕ) (w : World)
      → Step caps (record w { backing = n + 1 }) (record w { adm = leave_total w.adm; backing = n })
  releases :
      (xs ys : List (Option ℕ)) (ip : Option ℕ) (w : World)
      → Step caps
          (record w { holders = xs ++ ip ∷ ys })
          (record w { adm = leave_total w.adm; holders = xs ++ ys; leaving = ip ∷ w.leaving })
  forgets :
      (xs ys : List (Option ℕ)) (ip : Option ℕ) (w : World)
      → Step caps
          (record w { leaving = xs ++ ip ∷ ys })
          (record w { adm = forget_ip caps ip w.adm; leaving = xs ++ ys })

pub data History (caps : Caps) (w : World) : World → Type 0 where
  here : History caps w w
  next : {u v : World} → History caps w u → Step caps u v → History caps w v

pub record IsValid (caps : Caps) (w : World) : Type 0 where
  pub total : w.adm.total ≡ length w.entering + w.backing + length w.holders
  pub within : length w.entering + length w.holders ≤ caps.max_total
  pub distinct : Distinct w.adm.per_ip
  pub counted :
      (i : ℕ)
      → 0 < caps.max_per_ip
      → count_of i w.adm.per_ip ≡ occurs i w.holders + occurs i w.leaving
  pub capped : (i : ℕ) → 0 < caps.max_per_ip → count_of i w.adm.per_ip ≤ caps.max_per_ip

module _ (caps : Caps) where
  begin-IsValid : (ip : Option ℕ) (w : World) → IsValid caps w → IsValid caps (begin caps ip w)
  unfolding begin enter_total
  begin-IsValid ip w v =
      if_rule (IsValid caps) (leb caps.max_total w.adm.total) _ _
        (λ full. record {
          total = let t = v.total in omega arith;
          within = v.within;
          distinct = v.distinct;
          counted = v.counted;
          capped = v.capped;
        })
        (λ room. record {
          total = let t = v.total in omega arith;
          within = let t = v.total in ground arith;
          distinct = v.distinct;
          counted = v.counted;
          capped = v.capped;
        })

  -- What the part under the lock makes of the counts.
  take_ip-IsValid :
      (ip : Option ℕ) (w : World)
      → IsValid caps (record w { entering = ip ∷ w.entering })
      → IsValid caps (check caps ip w)
  unfolding check take_ip
  take_ip-IsValid none w v = record {
    total = let t = v.total in omega arith;
    within = let t = v.within in omega arith;
    distinct = v.distinct;
    counted = v.counted;
    capped = v.capped;
  }
  take_ip-IsValid (some ip) w v =
      let P : Option Admission → Type 0 = λ o. IsValid caps (elim o [
        | none ↦ record w { backing = w.backing + 1 }
        | some a ↦ record w { adm = a; holders = some ip ∷ w.holders }
      ]) in
      if_rule P (caps.max_per_ip == 0) _ _
        (λ off. record {
          total = let t = v.total in omega arith;
          within = let t = v.within in omega arith;
          distinct = v.distinct;
          counted = λ i on. absurd (let no : ⊥ = ground arith in no);
          capped = v.capped;
        })
        (λ on.
          if_rule P (leb caps.max_per_ip (count_of ip w.adm.per_ip)) _ _
            (λ full. record {
              total = let t = v.total in omega arith;
              within = let t = v.within in omega arith;
              distinct = v.distinct;
              counted = v.counted;
              capped = v.capped;
            })
            (λ room. record {
              total = let t = v.total in omega arith;
              within = let t = v.within in omega arith;
              distinct = add_one-Distinct ip w.adm.per_ip v.distinct;
              counted = λ i p.
                  let c = v.counted i p in ground (arith, count_of-add_one i ip w.adm.per_ip);
              capped = λ i p. added i p room;
            }))
    where
      added :
          (i : ℕ)
          → 0 < caps.max_per_ip
          → leb caps.max_per_ip (count_of ip w.adm.per_ip) ≡ false
          → count_of i (add_one ip w.adm.per_ip) ≤ caps.max_per_ip
      added i p room =
          let old = v.capped i p in
          let sum = count_of-add_one i ip w.adm.per_ip in
          let bound : hit i ip + count_of i w.adm.per_ip ≤ caps.max_per_ip =
            if_rule (λ h. h + count_of i w.adm.per_ip ≤ caps.max_per_ip) (ip == i) 1 0
              (λ same.
                let e : ip ≡ i = ground arith in
                let c : count_of ip w.adm.per_ip ≡ count_of i w.adm.per_ip =
                  ap (λ x. count_of x w.adm.per_ip) e in
                ground arith)
              (λ other. omega arith) in
          omega arith

  forget_ip-IsValid :
      (ip : Option ℕ) (w : World)
      → IsValid caps (record w { leaving = ip ∷ w.leaving })
      → IsValid caps (record w { adm = forget_ip caps ip w.adm })
  unfolding forget_ip
  forget_ip-IsValid none w v = record {
    total = v.total;
    within = v.within;
    distinct = v.distinct;
    counted = v.counted;
    capped = v.capped;
  }
  forget_ip-IsValid (some ip) w v =
      if_rule (λ a. IsValid caps (record w { adm = a })) (caps.max_per_ip == 0) _ _
        (λ off. record {
          total = v.total;
          within = v.within;
          distinct = v.distinct;
          counted = λ i on. absurd (let no : ⊥ = ground arith in no);
          capped = v.capped;
        })
        (λ on. record {
          total = v.total;
          within = v.within;
          distinct = sub_one-Distinct ip w.adm.per_ip v.distinct;
          counted = λ i p.
              let c = v.counted i p in
              ground (arith, count_of-sub_one i ip w.adm.per_ip v.distinct);
          capped = λ i p.
              let c = v.capped i p in ground (arith, count_of-sub_one i ip w.adm.per_ip v.distinct);
        })

  -- A thread is taken from anywhere in its list.
  checks-IsValid :
      (xs ys : List (Option ℕ)) (ip : Option ℕ) (w : World)
      → IsValid caps (record w { entering = xs ++ ip ∷ ys })
      → IsValid caps (record w { entering = ip ∷ (xs ++ ys) })
  checks-IsValid xs ys ip w v =
      let n = length-middle ip xs ys in
      record {
        total = let t = v.total in omega arith;
        within = let t = v.within in omega arith;
        distinct = v.distinct;
        counted = v.counted;
        capped = v.capped;
      }

  leaving-IsValid :
      (xs ys : List (Option ℕ)) (ip : Option ℕ) (w : World)
      → IsValid caps (record w { leaving = xs ++ ip ∷ ys })
      → IsValid caps (record w { leaving = ip ∷ (xs ++ ys) })
  leaving-IsValid xs ys none w v = record {
    total = v.total;
    within = v.within;
    distinct = v.distinct;
    counted = λ i p. let c = v.counted i p in omega (arith, occurs-middle i none xs ys);
    capped = v.capped;
  }
  leaving-IsValid xs ys (some ip) w v = record {
    total = v.total;
    within = v.within;
    distinct = v.distinct;
    counted = λ i p. let c = v.counted i p in omega (arith, occurs-middle i (some ip) xs ys);
    capped = v.capped;
  }

  releases-IsValid :
      (xs ys : List (Option ℕ)) (ip : Option ℕ) (w : World)
      → IsValid caps (record w { holders = xs ++ ip ∷ ys })
      → IsValid caps
          (record w { adm = leave_total w.adm; holders = xs ++ ys; leaving = ip ∷ w.leaving })
  unfolding leave_total
  releases-IsValid xs ys ip w v =
      let n = length-middle ip xs ys in
      record {
        total = let t = v.total in omega arith;
        within = let t = v.within in omega arith;
        distinct = v.distinct;
        counted = λ i p. by_address i p ip (occurs-middle i ip xs ys) (v.counted i p);
        capped = v.capped;
      }
    where
      by_address :
          (i : ℕ)
          → 0 < caps.max_per_ip
          → (ip : Option ℕ) → occurs i (xs ++ ip ∷ ys) ≡ one_of i ip + occurs i (xs ++ ys)
          → count_of i w.adm.per_ip ≡ occurs i (xs ++ ip ∷ ys) + occurs i w.leaving
          → count_of i w.adm.per_ip ≡ occurs i (xs ++ ys) + occurs i (ip ∷ w.leaving)
      by_address i p none m c = omega arith
      by_address i p (some k) m c = omega arith

  backs_out-IsValid :
      (n : ℕ) (w : World)
      → IsValid caps (record w { backing = n + 1 })
      → IsValid caps (record w { adm = leave_total w.adm; backing = n })
  unfolding leave_total
  backs_out-IsValid n w v = record {
    total = let t = v.total in omega arith;
    within = v.within;
    distinct = v.distinct;
    counted = v.counted;
    capped = v.capped;
  }

  Step-IsValid : {w u : World} → Step caps w u → IsValid caps w → IsValid caps u
  Step-IsValid (Step.begins ip w) v = begin-IsValid ip w v
  Step-IsValid (Step.checks xs ys ip w) v =
      take_ip-IsValid ip (record w { entering = xs ++ ys }) (checks-IsValid xs ys ip w v)
  Step-IsValid (Step.backs_out n w) v = backs_out-IsValid n w v
  Step-IsValid (Step.releases xs ys ip w) v = releases-IsValid xs ys ip w v
  Step-IsValid (Step.forgets xs ys ip w) v =
      forget_ip-IsValid ip (record w { leaving = xs ++ ys }) (leaving-IsValid xs ys ip w v)

-- In every interleaving of reservations and releases: the counter is the number of threads past its
-- increment that have not taken it back, the held places stay within the global cap, and where there is a cap per
-- address, the map's count for each address is that of its held places and of those being released,
-- and is within that cap.
pub History-IsValid :
    (caps : Caps) {w u : World} → IsValid caps w → History caps w u → IsValid caps u
History-IsValid caps v History.here = v
History-IsValid caps v (History.next r s) = Step-IsValid caps s (History-IsValid caps v r)
