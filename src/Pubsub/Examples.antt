-- ===== src/Pubsub/Examples.antt =====
-- crates/sutegi-pubsub: a history of a broker.
use sutegi.Base.{ℕ, ◌≡◌, refl, List, [], ◌∷◌, map, codes, bytes_eq}
use sutegi.Pubsub.{
  publish, subscribe, unsubscribe, find_topic, push_entry, put_entry, remove_entry, retain,
}
use sutegi.Pubsub.Delivery.{Op, subscribed, unsubscribed, run, live, publish-live}

-- Three listeners of a room, of which the second is removed.
abbrev history : List (Op ℕ)
history =
    subscribed (codes "room") 10
    ∷ subscribed (codes "room") 20
    ∷ subscribed (codes "log") 30
    ∷ unsubscribed (codes "room") 2
    ∷ subscribed (codes "room") 40
    ∷ []

publish-live_example :
    publish (codes "room") (codes "hi") (run history (record { topics = []; next_id = 0 }))
    ≡ map (λ s. (s.1, codes "hi")) (live 0 (codes "room") history)
publish-live_example = publish-live (codes "room") (codes "hi") history

delivered :
    publish (codes "room") (codes "hi") (run history (record { topics = []; next_id = 0 }))
    ≡ (10, codes "hi") ∷ (40, codes "hi") ∷ []
unfolding publish subscribe unsubscribe find_topic push_entry put_entry remove_entry retain bytes_eq
delivered = refl
