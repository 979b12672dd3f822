-- ===== src/Ws/Admission/Examples.antt =====
-- crates/sutegi-ws: the admission control at concrete inputs.
use sutegi.Base.{refl, some, [], ◌∷◌, arith}
use sutegi.Ws.Admission.{Caps, Admission, reserve, enter_total, count_of}
use sutegi.Ws.Admission.Interleaving.{World, begin, check, Step, History, IsValid, History-IsValid}
use sutegi.Ws.Admission.Restore.{Restored, reserve-Restored}

abbrev caps : Caps
caps = record { max_total = 2; max_per_ip = 1 }

abbrev empty : World
empty = record {
  adm = record { total = 0; per_ip = [] };
  entering = [];
  backing = 0;
  holders = [];
  leaving = [];
}

empty-IsValid : IsValid caps empty
unfolding count_of
empty-IsValid = record {
  total = omega arith;
  within = omega arith;
  distinct = tt;
  counted = λ i p. refl;
  capped = λ i p. omega arith;
}

-- Two threads for one address pass the test of the total before either looks at the map.
abbrev two_entering : World
two_entering = record empty {
  adm = record { total = 2; per_ip = [] };
  entering = some 7 ∷ some 7 ∷ [];
}

two_enter : History caps empty two_entering
unfolding begin enter_total
two_enter =
    History.next (History.next History.here (Step.begins (some 7) empty)) (Step.begins (some 7) _)

abbrev one_checked : World
one_checked = check caps (some 7) (record two_entering { entering = some 7 ∷ [] })

History-IsValid_example : IsValid caps one_checked
History-IsValid_example =
    History-IsValid caps {w = empty} {u = one_checked} empty-IsValid
      (History.next two_enter (Step.checks [] (some 7 ∷ []) (some 7) two_entering))

abbrev one_held : Admission
one_held = record { total = 1; per_ip = (7, 1) ∷ [] }

reserve-Restored_example : Restored caps (some 7) one_held (reserve caps (some 7) one_held)
unfolding count_of
reserve-Restored_example = reserve-Restored caps (some 7) one_held (refl, tt)
