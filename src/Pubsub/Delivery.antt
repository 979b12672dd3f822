-- ===== src/Pubsub/Delivery.antt =====
-- crates/sutegi-pubsub/src/lib.rs: whom a message is delivered to, told from what happened before.
use sutegi.Base.{
  ℕ, ◌+◌, ◌%◌, ◌^◌, ◌≡◌, refl, sym, ap, ◌∙◌, arith, Bool, true, false, not, ◌&&◌, Option, none,
  some, List, [], ◌∷◌, ◌++◌, append-nil, append_assoc, map, Bytes, ◌==◌, if◌then◌else◌, bytes_eq,
  bytes_eq→eq, if_rule, option_rule,
}
use sutegi.Pubsub.{
  Subs, Topics, find_topic, push_entry, retain, is_empty, Registry, subscribe, unsubscribe, publish,
}
use sutegi.Pubsub.Topics.{subs_of, push-same, push-other, unsubscribe-same, unsubscribe-other}

pub data Op (L : Type 0) : Type 0 where
  subscribed : Bytes → L → Op L
  unsubscribed : Bytes → ℕ → Op L

module _ {L : Type 0} where
  abbrev pub step : Op L → Registry L → Registry L
  step (subscribed topic l) reg = (subscribe topic l reg).1
  step (unsubscribed topic id) reg = unsubscribe topic id reg

  abbrev pub run : List (Op L) → Registry L → Registry L
  run [] reg = reg
  run (op ∷ ops) reg = run ops (step op reg)

  -- Whether a subscription is among those that are taken back.
  abbrev pub stays : Bytes → List (Op L) → ℕ → Bool
  stays topic [] sid = true
  stays topic (subscribed t l ∷ ops) sid = stays topic ops sid
  stays topic (unsubscribed t id ∷ ops) sid =
      not (bytes_eq t topic && (sid == id)) && stays topic ops sid

  -- The subscriptions to a topic that are not taken back later, in their order, where `n` was the last id.
  abbrev pub live : ℕ → Bytes → List (Op L) → Subs L
  live n topic [] = []
  live n topic (subscribed t l ∷ ops) =
      let id : ℕ = (n + 1) % 2 ^ 64 in
      if bytes_eq t topic && stays topic ops id
      then (id, l) ∷ live id topic ops
      else live id topic ops
  live n topic (unsubscribed t id ∷ ops) = live n topic ops

  retain-append : (p : ℕ → Bool) (a b : Subs L) → retain p (a ++ b) ≡ retain p a ++ retain p b
  unfolding retain
  retain-append p [] b = refl
  retain-append p ((sid, l) ∷ a) b =
      if_rule
        (λ r. (if p sid then (sid, l) ∷ retain p (a ++ b) else retain p (a ++ b)) ≡ r ++ retain p b)
        (p sid) _ _ (λ e. rw (e, retain-append p a b)) (λ e. rw (e, retain-append p a b))

  retain-retain :
      (p q : ℕ → Bool) (a : Subs L) → retain p (retain q a) ≡ retain (λ sid. q sid && p sid) a
  unfolding retain
  retain-retain p q [] = refl
  retain-retain p q ((sid, l) ∷ a) = ground (arith, retain-retain p q a)

  retain_all : (a : Subs L) → retain (λ sid. true) a ≡ a
  unfolding retain
  retain_all [] = refl
  retain_all (x ∷ a) = ap (λ r. x ∷ r) (retain_all a)

  next_id-unsubscribe :
      (t : Bytes) (id : ℕ) (reg : Registry L) → (unsubscribe t id reg).next_id ≡ reg.next_id
  unfolding unsubscribe
  next_id-unsubscribe t id reg =
      option_rule (λ (r : Registry L). r.next_id ≡ reg.next_id) (find_topic t reg.topics) _ _
        (λ _. refl)
        λ subs _.
          if_rule (λ (r : Registry L). r.next_id ≡ reg.next_id)
            (is_empty (retain (λ sid. not (sid == id)) subs)) _ _ (λ _. refl) (λ _. refl)

  one_more :
      (b : Bool) (a rest : Subs L) (x : ℕ × L)
      → (a ++ (if b then x ∷ [] else [])) ++ rest ≡ a ++ (if b then x ∷ rest else rest)
  one_more true a rest x = append_assoc a (x ∷ []) rest
  one_more false a rest x = ap (λ r. r ++ rest) (append-nil a)

  after_subscribe :
      (topic t : Bytes) (p : ℕ → Bool) (x : ℕ × L) (m : Topics L) (rest : Subs L)
      → retain p (subs_of topic (push_entry t x m)) ++ rest
        ≡ retain p (subs_of topic m) ++ (if bytes_eq t topic && p x.0 then x ∷ rest else rest)
  unfolding retain
  after_subscribe topic t p x m rest =
      if_rule
        (λ (b : Bool).
          retain p (subs_of topic (push_entry t x m)) ++ rest
          ≡ retain p (subs_of topic m) ++ (if bytes_eq t topic && p x.0 then x ∷ rest else rest))
        (bytes_eq t topic) true false
        (λ e.
          let same : t ≡ topic = bytes_eq→eq t topic e in
          ap (λ u. retain p (subs_of topic (push_entry u x m)) ++ rest) same
          ∙ ap (λ s. retain p s ++ rest) (push-same topic x m)
          ∙ ap (λ s. s ++ rest) (retain-append p (subs_of topic m) (x ∷ []))
          ∙ one_more (p x.0) (retain p (subs_of topic m)) rest x
          ∙ ap (λ b. retain p (subs_of topic m) ++ (if b && p x.0 then x ∷ rest else rest)) (sym e))
        (λ e.
          ap (λ s. retain p s ++ rest) (push-other t topic x m e)
          ∙ ap (λ b. retain p (subs_of topic m) ++ (if b && p x.0 then x ∷ rest else rest)) (sym e))

  after_unsubscribe :
      (topic t : Bytes) (p : ℕ → Bool) (id : ℕ) (reg : Registry L)
      → retain p (subs_of topic ((unsubscribe t id reg).topics))
        ≡ retain (λ sid. not (bytes_eq t topic && (sid == id)) && p sid) (subs_of topic reg.topics)
  after_unsubscribe topic t p id reg =
      let s : Subs L = subs_of topic reg.topics in
      if_rule
        (λ (b : Bool).
          retain p (subs_of topic ((unsubscribe t id reg).topics))
          ≡ retain (λ sid. not (bytes_eq t topic && (sid == id)) && p sid) s)
        (bytes_eq t topic) true false
        (λ e.
          let same : t ≡ topic = bytes_eq→eq t topic e in
          ap (λ u. retain p (subs_of topic ((unsubscribe u id reg).topics))) same
          ∙ ap (retain p) (unsubscribe-same topic id reg)
          ∙ retain-retain p (λ sid. not (sid == id)) s
          ∙ ap (λ b. retain (λ sid. not (b && (sid == id)) && p sid) s) (sym e))
        (λ e.
          ap (retain p) (unsubscribe-other t topic id reg e)
          ∙ ap (λ b. retain (λ sid. not (b && (sid == id)) && p sid) s) (sym e))

  -- What is there to be called is what was there and stays, and then the later subscriptions that stay.
  run-live :
      (topic : Bytes) (ops : List (Op L)) (reg : Registry L)
      → subs_of topic ((run ops reg).topics)
        ≡ retain (stays topic ops) (subs_of topic reg.topics) ++ live reg.next_id topic ops
  unfolding subscribe
  run-live topic [] reg = sym (append-nil _ ∙ retain_all (subs_of topic reg.topics))
  run-live topic (subscribed t l ∷ ops) reg =
      run-live topic ops (step (subscribed t l) reg)
      ∙ after_subscribe topic t (stays topic ops) ((reg.next_id + 1) % 2 ^ 64, l) reg.topics _
  run-live topic (unsubscribed t id ∷ ops) reg =
      run-live topic ops (step (unsubscribed t id) reg)
      ∙ ap
          (λ n.
            retain (stays topic ops) (subs_of topic ((unsubscribe t id reg).topics))
            ++ live n topic ops)
          (next_id-unsubscribe t id reg)
      ∙ ap (λ s. s ++ live reg.next_id topic ops)
          (after_unsubscribe topic t (stays topic ops) id reg)

  calls_of :
      (o : Option (Subs L)) (f : ℕ × L → L × Bytes)
      → elim o [ none ↦ [] | some subs ↦ map f subs ]
        ≡ map f (elim o [ none ↦ [] | some subs ↦ subs ])
  calls_of none f = refl
  calls_of (some subs) f = refl

  publish-calls :
      (topic message : Bytes) (reg : Registry L)
      → publish topic message reg ≡ map (λ s. (s.1, message)) (subs_of topic reg.topics)
  unfolding publish
  publish-calls topic message reg = calls_of (find_topic topic reg.topics) (λ s. (s.1, message))

  -- After any subscriptions and removals on a new broker, a message is delivered to the subscriptions to its
  -- topic that were not taken back afterwards, once to each and in the order of subscription.
  pub publish-live :
      (topic message : Bytes) (ops : List (Op L))
      → publish topic message (run ops (record { topics = []; next_id = 0 }))
        ≡ map (λ s. (s.1, message)) (live 0 topic ops)
  publish-live topic message ops =
      publish-calls topic message (run ops (record { topics = []; next_id = 0 }))
      ∙ ap (map (λ s. (s.1, message)))
          (unfold find_topic retain in run-live topic ops (record { topics = []; next_id = 0 }))
