-- ===== src/Pubsub/Topics.antt =====
-- crates/sutegi-pubsub/src/lib.rs: the subscriptions to a topic after one operation.
use sutegi.Base.{
  ℕ, ◌≡◌, refl, sym, ap, ◌∙◌, Bool, true, false, not, Option, none, some, [], ◌∷◌, ◌++◌, Bytes,
  ◌==◌, if◌then◌else◌, bytes_eq, bytes_eq→eq, bytes_eq_refl, if_rule, option_rule,
}
use mathlib.Core.Path.{subst}
use sutegi.Pubsub.{
  Subs, Topics, find_topic, push_entry, put_entry, remove_entry, retain, is_empty, Registry,
  unsubscribe,
}

-- A change of the entry of `t` leaves the others.
other_key : (t u v : Bytes) → bytes_eq t u ≡ false → bytes_eq v t ≡ true → bytes_eq v u ≡ false
other_key t u v n e = subst (λ (w : Bytes). bytes_eq w u ≡ false) (sym (bytes_eq→eq v t e)) n

module _ {L : Type 0} where
  abbrev pub subs_of : Bytes → Topics L → Subs L
  subs_of topic m = elim (find_topic topic m) [ none ↦ [] | some subs ↦ subs ]

  cons_same :
      (t u : Bytes) (s : Subs L) (m : Topics L) → bytes_eq t u ≡ true → subs_of u ((t, s) ∷ m) ≡ s
  unfolding find_topic
  cons_same t u s m e = rw (e, subs_of) refl

  cons_other :
      (t u : Bytes) (s : Subs L) (m : Topics L)
      → bytes_eq t u ≡ false
      → subs_of u ((t, s) ∷ m) ≡ subs_of u m
  unfolding find_topic
  cons_other t u s m e = rw (e, subs_of) refl

  below_cons :
      (v u : Bytes) (s : Subs L) (m m' : Topics L)
      → subs_of u m ≡ subs_of u m'
      → subs_of u ((v, s) ∷ m) ≡ subs_of u ((v, s) ∷ m')
  unfolding find_topic
  below_cons v u s m m' h =
      if_rule (λ (b : Bool). subs_of u ((v, s) ∷ m) ≡ subs_of u ((v, s) ∷ m')) (bytes_eq v u) true
        false (λ e. cons_same v u s m e ∙ sym (cons_same v u s m' e))
        (λ e. cons_other v u s m e ∙ h ∙ sym (cons_other v u s m' e))

  pub push-same :
      (t : Bytes) (x : ℕ × L) (m : Topics L) → subs_of t (push_entry t x m) ≡ subs_of t m ++ x ∷ []
  unfolding push_entry find_topic
  push-same t x [] = cons_same t t (x ∷ []) [] (bytes_eq_refl t)
  push-same t x ((u, s) ∷ m) =
      if_rule (λ r. subs_of t r ≡ subs_of t ((u, s) ∷ m) ++ x ∷ []) (bytes_eq u t) _ _
        (λ e. cons_same u t (s ++ x ∷ []) m e ∙ ap (λ r. r ++ x ∷ []) (sym (cons_same u t s m e)))
        (λ n.
          cons_other u t s (push_entry t x m) n
          ∙ push-same t x m
          ∙ ap (λ r. r ++ x ∷ []) (sym (cons_other u t s m n)))

  pub push-other :
      (t u : Bytes) (x : ℕ × L) (m : Topics L)
      → bytes_eq t u ≡ false
      → subs_of u (push_entry t x m) ≡ subs_of u m
  unfolding push_entry find_topic
  push-other t u x [] n = cons_other t u (x ∷ []) [] n
  push-other t u x ((v, s) ∷ m) n =
      if_rule (λ r. subs_of u r ≡ subs_of u ((v, s) ∷ m)) (bytes_eq v t) _ _
        (λ e.
          cons_other v u _ m (other_key t u v n e) ∙ sym (cons_other v u s m (other_key t u v n e)))
        (λ _. below_cons v u s _ m (push-other t u x m n))

  put-same :
      (t : Bytes) (kept s0 : Subs L) (m : Topics L)
      → find_topic t m ≡ some s0
      → subs_of t (put_entry t kept m) ≡ kept
  unfolding put_entry find_topic
  put-same t kept s0 [] f = cc
  put-same t kept s0 ((u, s) ∷ m) f =
      if_rule (λ o. o ≡ some s0 → subs_of t (put_entry t kept ((u, s) ∷ m)) ≡ kept) (bytes_eq u t)
        (some s) (find_topic t m)
        (λ e f.
          ap (λ b. subs_of t (if b then (u, kept) ∷ m else (u, s) ∷ put_entry t kept m)) e
          ∙ cons_same u t kept m e)
        (λ e f.
          ap (λ b. subs_of t (if b then (u, kept) ∷ m else (u, s) ∷ put_entry t kept m)) e
          ∙ cons_other u t s (put_entry t kept m) e
          ∙ put-same t kept s0 m f)
        f

  put-other :
      (t u : Bytes) (kept : Subs L) (m : Topics L)
      → bytes_eq t u ≡ false
      → subs_of u (put_entry t kept m) ≡ subs_of u m
  unfolding put_entry find_topic
  put-other t u kept [] n = refl
  put-other t u kept ((v, s) ∷ m) n =
      if_rule (λ r. subs_of u r ≡ subs_of u ((v, s) ∷ m)) (bytes_eq v t) _ _
        (λ e.
          cons_other v u _ m (other_key t u v n e) ∙ sym (cons_other v u s m (other_key t u v n e)))
        (λ _. below_cons v u s _ m (put-other t u kept m n))

  remove-same : (t : Bytes) (m : Topics L) → subs_of t (remove_entry t m) ≡ []
  unfolding remove_entry find_topic
  remove-same t [] = refl
  remove-same t ((u, s) ∷ m) =
      if_rule (λ r. subs_of t r ≡ []) (bytes_eq u t) _ _ (λ _. remove-same t m)
        (λ e. cons_other u t s _ e ∙ remove-same t m)

  remove-other :
      (t u : Bytes) (m : Topics L)
      → bytes_eq t u ≡ false
      → subs_of u (remove_entry t m) ≡ subs_of u m
  unfolding remove_entry find_topic
  remove-other t u [] n = refl
  remove-other t u ((v, s) ∷ m) n =
      if_rule (λ r. subs_of u r ≡ subs_of u ((v, s) ∷ m)) (bytes_eq v t) _ _
        (λ e. remove-other t u m n ∙ sym (cons_other v u s m (other_key t u v n e)))
        (λ _. below_cons v u s _ m (remove-other t u m n))

  nil_of_empty : (s : Subs L) → is_empty s ≡ true → s ≡ []
  nil_of_empty [] h = refl
  nil_of_empty (x ∷ s) h = cc

  pub unsubscribe-same :
      (t : Bytes) (id : ℕ) (reg : Registry L)
      → subs_of t ((unsubscribe t id reg).topics)
        ≡ retain (λ sid. not (sid == id)) (subs_of t reg.topics)
  unfolding unsubscribe retain
  unsubscribe-same t id reg =
      let p : ℕ → Bool = λ sid. not (sid == id) in
      let P : Registry L → Type 0 = λ r. subs_of t r.topics ≡ retain p (subs_of t reg.topics) in
      option_rule P (find_topic t reg.topics) _ _
        (λ e.
          let none_there : subs_of t reg.topics ≡ [] =
            ap (λ (o : Option (Subs L)). elim o [ none ↦ [] | some subs ↦ subs ]) e in
          none_there ∙ sym (ap (retain p) none_there))
        (λ subs e.
          let there : subs_of t reg.topics ≡ subs =
            ap (λ (o : Option (Subs L)). elim o [ none ↦ [] | some subs ↦ subs ]) e in
          if_rule P (is_empty (retain p subs)) _ _
            (λ empty.
              remove-same t reg.topics
              ∙ sym (ap (retain p) there ∙ nil_of_empty (retain p subs) empty))
            (λ _. put-same t (retain p subs) subs reg.topics e ∙ sym (ap (retain p) there)))

  pub unsubscribe-other :
      (t u : Bytes) (id : ℕ) (reg : Registry L)
      → bytes_eq t u ≡ false
      → subs_of u ((unsubscribe t id reg).topics) ≡ subs_of u reg.topics
  unfolding unsubscribe
  unsubscribe-other t u id reg n =
      option_rule (λ (r : Registry L). subs_of u r.topics ≡ subs_of u reg.topics)
        (find_topic t reg.topics) _ _ (λ _. refl)
        λ subs _.
          if_rule (λ (r : Registry L). subs_of u r.topics ≡ subs_of u reg.topics)
            (is_empty (retain (λ sid. not (sid == id)) subs)) _ _
            (λ _. remove-other t u reg.topics n) (λ _. put-other t u _ reg.topics n)
