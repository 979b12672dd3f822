-- ===== src/Ws/Admission.antt =====
-- crates/sutegi-ws/src/reactor.rs: the caps on connections, `Admission`. An address is only compared and
-- stands as a number; the map is a list of pairs. The counters never come near the end of their words.
pub mod Counts
pub mod Interleaving
pub mod Restore
mod Examples
use sutegi.Base.{
  ℕ, zero, suc, ◌+◌, ◌-◌, Bool, true, false, not, Option, none, some, List, [], ◌∷◌, ltb, leb, ◌==◌,
  if◌then◌else◌,
}

pub record Caps : Type 0 where
  pub max_total : ℕ
  pub max_per_ip : ℕ

pub record Admission : Type 0 where
  pub total : ℕ
  pub per_ip : List (ℕ × ℕ)

unfoldable pub count_of : ℕ → List (ℕ × ℕ) → ℕ
count_of ip [] = 0
count_of ip ((k, n) ∷ m) = if k == ip then n else count_of ip m

-- `*map.entry(ip).or_insert(0) += 1`.
unfoldable pub add_one : ℕ → List (ℕ × ℕ) → List (ℕ × ℕ)
add_one ip [] = (ip, 1) ∷ []
add_one ip ((k, n) ∷ m) = if k == ip then (k, n + 1) ∷ m else (k, n) ∷ add_one ip m

-- `*n -= 1`, and the entry goes at zero.
unfoldable pub sub_one : ℕ → List (ℕ × ℕ) → List (ℕ × ℕ)
sub_one ip [] = []
sub_one ip ((k, n) ∷ m) =
    if k == ip then (if n - 1 == 0 then m else (k, n - 1) ∷ m) else (k, n) ∷ sub_one ip m

unfoldable pub enter_total : Admission → Admission
enter_total a = record a { total = a.total + 1 }

unfoldable pub leave_total : Admission → Admission
leave_total a = record a { total = a.total - 1 }

-- The part of `reserve` under the lock: `none` is a refusal.
unfoldable pub take_ip : Caps → Option ℕ → Admission → Option Admission
take_ip caps none a = some a
take_ip caps (some ip) a =
    if caps.max_per_ip == 0
    then some a
    else if leb caps.max_per_ip (count_of ip a.per_ip)
    then none
    else some (record a { per_ip = add_one ip a.per_ip })

-- The part of `release` under the lock.
unfoldable pub forget_ip : Caps → Option ℕ → Admission → Admission
forget_ip caps none a = a
forget_ip caps (some ip) a =
    if caps.max_per_ip == 0 then a else record a { per_ip = sub_one ip a.per_ip }

unfoldable pub reserve : Caps → Option ℕ → Admission → Admission × Bool
reserve caps ip a =
    if leb caps.max_total a.total
    then (leave_total (enter_total a), false)
    else elim (take_ip caps ip (enter_total a)) [
      | none ↦ (leave_total (enter_total a), false)
      | some b ↦ (b, true)
    ]

unfoldable pub release : Caps → Option ℕ → Admission → Admission
release caps ip a = forget_ip caps ip (leave_total a)

unfoldable pub has_capacity : Caps → Admission → Bool
has_capacity caps a = ltb a.total caps.max_total
