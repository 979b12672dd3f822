-- ===== src/Channels/Balance.antt =====
-- crates/sutegi-channels/src/presence.rs: what joined and what left makes the new state of the old.
use sutegi.Base.{
  ℕ, ◌+◌, ◌≡◌, refl, sym, ap, ◌∙◌, arith, Bool, true, false, not, List, [], ◌∷◌, Bytes,
  if◌then◌else◌, bytes_eq, bytes_eq→eq, if_rule,
}
use sutegi.Channels.{
  Presence, metas_of, has_key, extend_entry, extend_some, diff_metas, diff_new, diff_old,
  diff_states,
}
use sutegi.Channels.Counts.{
  IsMap, has_none, count, tally, pick, count-diff_metas, tally-extend_entry, tally-extend_some,
}

module _ {A : Type 0} (same : A → A → Bool) where
  module _ (congruent : (m n x : A) → same m n ≡ true → same m x ≡ same n x) where
    cons_balance :
        (b h : Bool) (x : A) (o j' l' j l joined remaining : ℕ) (metas others : List A)
        → (b ≡ true → o + joined ≡ count same x metas + remaining)
        → (b ≡ true → h ≡ false)
        → (b ≡ true → count same x others ≡ 0)
        → pick h o + (j' + (l + pick b remaining))
          ≡ count same x others + (l' + (j + pick b joined))
        → pick (if b then true else h) o + (j' + l)
          ≡ count same x (if b then metas else others) + (l' + j)
    cons_balance true h x o j' l' j l joined remaining metas others d f z e =
        let gone : pick h o ≡ 0 = ap (λ t. pick t o) (f refl) in omega (arith, d refl, z refl)
    cons_balance false h x o j' l' j l joined remaining metas others d f z e = omega arith

    diff_new-balance :
        (x : A) (k : Bytes) (old new : Presence A) (joins leaves : Presence A)
        → IsMap new
        → pick (has_key k new) (tally same x k old)
            + (tally same x k ((diff_new same old new (joins, leaves)).0) + tally same x k leaves)
          ≡ tally same x k new
            + (tally same x k ((diff_new same old new (joins, leaves)).1) + tally same x k joins)
    unfolding diff_new has_key metas_of
    diff_new-balance x k old [] joins leaves u = omega arith
    diff_new-balance x k old ((key, metas) ∷ new) joins leaves (fresh, u) =
        let d : List A × List A = diff_metas same (metas_of key old) metas in
        let same_key : bytes_eq key k ≡ true → key ≡ k = λ e. bytes_eq→eq key k e in
        cons_balance (bytes_eq key k) (has_key k new) x (tally same x k old) _ _
          (tally same x k joins) (tally same x k leaves) (count same x d.0) (count same x d.1) metas
          (metas_of k new)
          (λ e.
            ap (λ t. tally same x t old + count same x d.0) (sym (same_key e))
            ∙ count-diff_metas same congruent x (metas_of key old) metas)
          (λ e. ap (λ t. has_key t new) (sym (same_key e)) ∙ fresh)
          (λ e.
            ap (count same x) (has_none k new (ap (λ t. has_key t new) (sym (same_key e)) ∙ fresh)))
          (omega (
            arith,
            diff_new-balance x k old new (extend_some key d.0 joins) (extend_some key d.1 leaves) u,
            tally-extend_some same congruent x k key d.0 joins,
            tally-extend_some same congruent x k key d.1 leaves,
          ))

    old_gone :
        (b held h : Bool) (x : A) (base total : ℕ) (metas others : List A)
        → (b ≡ true → held ≡ h)
        → (b ≡ true → count same x others ≡ 0)
        → not held ≡ true
        → total ≡ base + pick b (count same x metas) + pick (not h) (count same x others)
        → total ≡ base + pick (not h) (count same x (if b then metas else others))
    old_gone true true h x base total metas others f z e g = cc
    old_gone true false true x base total metas others f z e g =
        absurd (let no : false ≡ true = f refl in cc)
    old_gone true false false x base total metas others f z e g = omega (arith, z refl)
    old_gone false held h x base total metas others f z e g = omega arith

    old_kept :
        (b held h : Bool) (x : A) (base total : ℕ) (metas others : List A)
        → (b ≡ true → held ≡ h)
        → (b ≡ true → count same x others ≡ 0)
        → not held ≡ false
        → total ≡ base + pick (not h) (count same x others)
        → total ≡ base + pick (not h) (count same x (if b then metas else others))
    old_kept true false h x base total metas others f z e g = cc
    old_kept true true false x base total metas others f z e g =
        absurd (let no : true ≡ false = f refl in cc)
    old_kept true true true x base total metas others f z e g = g
    old_kept false held h x base total metas others f z e g = g

    diff_old-balance :
        (x : A) (k : Bytes) (new old leaves : Presence A)
        → IsMap old
        → tally same x k (diff_old same new old leaves)
          ≡ tally same x k leaves + pick (not (has_key k new)) (tally same x k old)
    unfolding diff_old has_key metas_of
    diff_old-balance x k new [] leaves u = omega (arith, nothing (not (has_key k new)))
      where
        nothing : (b : Bool) → pick b 0 ≡ 0
        nothing true = refl
        nothing false = refl
    diff_old-balance x k new ((key, metas) ∷ old) leaves (fresh, u) =
        let same_key : bytes_eq key k ≡ true → key ≡ k = λ e. bytes_eq→eq key k e in
        let kept = diff_old-balance x k new old leaves u in
        let gone = diff_old-balance x k new old (extend_entry key metas leaves) u in
        let entry = tally-extend_entry same congruent x k key metas leaves in
        if_rule
          (λ (r : Presence A).
            tally same x k r
            ≡ tally same x k leaves
              + pick (not (has_key k new)) (tally same x k ((key, metas) ∷ old)))
          (not (has_key key new)) _ _
          (λ e.
            old_gone (bytes_eq key k) (has_key key new) (has_key k new) x (tally same x k leaves) _
              metas (metas_of k old) (λ q. ap (λ t. has_key t new) (same_key q))
              (λ q.
                ap (count same x)
                  (has_none k old (ap (λ t. has_key t old) (sym (same_key q)) ∙ fresh)))
              e (omega (arith, gone, entry)))
          (λ e.
            old_kept (bytes_eq key k) (has_key key new) (has_key k new) x (tally same x k leaves) _
              metas (metas_of k old) (λ q. ap (λ t. has_key t new) (same_key q))
              (λ q.
                ap (count same x)
                  (has_none k old (ap (λ t. has_key t old) (sym (same_key q)) ∙ fresh)))
              e kept)

    -- For each key and each meta, the old state with what joined has as many as the new state with what left, where
    -- a key has one entry in each, and equal metas are equal to the same metas.
    pub diff_states-balance :
        (x : A) (k : Bytes) (old new : Presence A)
        → IsMap old
        → IsMap new
        → tally same x k old + tally same x k ((diff_states same old new).0)
          ≡ tally same x k new + tally same x k ((diff_states same old new).1)
    unfolding diff_states
    diff_states-balance x k old new u v =
        let parts : Presence A × Presence A = diff_new same old new ([], []) in
        all_keys (has_key k new) (tally same x k old) (tally same x k new) (tally same x k parts.0)
          (tally same x k parts.1) _ (λ e. ap (count same x) (has_none k new e))
          (omega (arith, diff_new-balance x k old new [] [] v))
          (diff_old-balance x k new old parts.1 u)
      where
        all_keys :
            (h : Bool) (o n joins part leaves : ℕ)
            → (h ≡ false → n ≡ 0)
            → pick h o + joins ≡ n + part
            → leaves ≡ part + pick (not h) o
            → o + joins ≡ n + leaves
        all_keys true o n joins part leaves z e g = omega arith
        all_keys false o n joins part leaves z e g = omega (arith, z refl)
