-- ===== src/Channels/Examples.antt =====
-- crates/sutegi-channels/src/presence.rs: what changes between two states of a room, whose metas are numbers.
use sutegi.Base.{ℕ, ◌+◌, Bool, true, ◌≡◌, refl, ap, [], ◌∷◌, codes, bytes_eq, ◌==◌, ==_iff}
use sutegi.Channels.{
  Presence, metas_of, has_key, extend_entry, extend_some, take_out, diff_metas, diff_new, diff_old,
  diff_states,
}
use sutegi.Channels.Balance.{diff_states-balance}
use sutegi.Channels.Counts.{tally, IsMap}

abbrev same : ℕ → ℕ → Bool
same a b = a == b

abbrev before : Presence ℕ
before = (codes "ann", 1 ∷ 1 ∷ 2 ∷ []) ∷ (codes "bob", 3 ∷ []) ∷ []

abbrev after : Presence ℕ
after = (codes "ann", 1 ∷ 4 ∷ []) ∷ (codes "cy", 5 ∷ []) ∷ []

same-congruent : (m n x : ℕ) → same m n ≡ true → same m x ≡ same n x
same-congruent m n x e = ap (λ t. t == x) ((==_iff m n).0 e)

before-IsMap : IsMap before
unfolding has_key bytes_eq
before-IsMap = (refl, (refl, tt))

after-IsMap : IsMap after
unfolding has_key bytes_eq
after-IsMap = (refl, (refl, tt))

diff_states-balance_example :
    tally same 1 (codes "ann") before
      + tally same 1 (codes "ann") ((diff_states same before after).0)
    ≡ tally same 1 (codes "ann") after
      + tally same 1 (codes "ann") ((diff_states same before after).1)
diff_states-balance_example =
    diff_states-balance same same-congruent 1 (codes "ann") before after before-IsMap after-IsMap

changed : diff_states same before after ≡ (
  (codes "ann", 4 ∷ []) ∷ (codes "cy", 5 ∷ []) ∷ [],
  (codes "ann", 1 ∷ 2 ∷ []) ∷ (codes "bob", 3 ∷ []) ∷ [],
)
unfolding diff_states diff_new diff_old diff_metas take_out metas_of has_key extend_entry
    extend_some bytes_eq
changed = refl
