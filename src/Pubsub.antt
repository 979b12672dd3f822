-- ===== src/Pubsub.antt =====
-- crates/sutegi-pubsub/src/lib.rs: the in-process broker. The registry stands behind one lock, so an operation
-- is one step; a listener is any value, and what `publish` calls is the list of its calls.
pub mod Topics
pub mod Delivery
mod Examples
use sutegi.Base.{
  ℕ, suc, ◌+◌, ◌%◌, ◌^◌, Bool, true, false, not, Option, none, some, List, [], ◌∷◌, ◌++◌, map,
  Bytes, ◌==◌, if◌then◌else◌, length, bytes_eq,
}

abbrev pub Subs : Type 0 → Type 0
Subs L = List (ℕ × L)

-- The entries of the `HashMap`.
abbrev pub Topics : Type 0 → Type 0
Topics L = List (Bytes × Subs L)

pub record Registry (L : Type 0) : Type 0 where
  pub topics : Topics L
  pub next_id : ℕ

module _ {L : Type 0} where
  unfoldable pub find_topic : Bytes → Topics L → Option (Subs L)
  find_topic t [] = none
  find_topic t ((u, subs) ∷ m) = if bytes_eq u t then some subs else find_topic t m

  -- `entry(topic).or_default().push(…)`.
  unfoldable pub push_entry : Bytes → ℕ × L → Topics L → Topics L
  push_entry t x [] = (t, x ∷ []) ∷ []
  push_entry t x ((u, subs) ∷ m) =
      let rest = push_entry t x m in
      if bytes_eq u t then (u, subs ++ x ∷ []) ∷ m else (u, subs) ∷ rest

  -- What `get_mut` leaves in the place of the subscriptions.
  unfoldable pub put_entry : Bytes → Subs L → Topics L → Topics L
  put_entry t kept [] = []
  put_entry t kept ((u, subs) ∷ m) =
      let rest = put_entry t kept m in if bytes_eq u t then (u, kept) ∷ m else (u, subs) ∷ rest

  -- `HashMap::remove`; a key has one entry.
  unfoldable pub remove_entry : Bytes → Topics L → Topics L
  remove_entry t [] = []
  remove_entry t ((u, subs) ∷ m) =
      let rest = remove_entry t m in if bytes_eq u t then rest else (u, subs) ∷ rest

  unfoldable pub retain : (ℕ → Bool) → Subs L → Subs L
  retain keep [] = []
  retain keep ((sid, l) ∷ subs) =
      let rest = retain keep subs in if keep sid then (sid, l) ∷ rest else rest

  abbrev pub is_empty : Subs L → Bool
  is_empty [] = true
  is_empty (_ ∷ _) = false

  unfoldable pub subscribe : Bytes → L → Registry L → ℕ × Registry L
  subscribe topic listener reg =
      let id : ℕ = (reg.next_id + 1) % 2 ^ 64 in
      (id, record { topics = push_entry topic (id, listener) reg.topics; next_id = id })

  unfoldable pub unsubscribe : Bytes → ℕ → Registry L → Registry L
  unsubscribe topic id reg = elim (find_topic topic reg.topics) [
    | none ↦ reg
    | some subs ↦
        let kept : Subs L = retain (λ sid. not (sid == id)) subs in
        if is_empty kept
        then record { topics = remove_entry topic reg.topics; next_id = reg.next_id }
        else record { topics = put_entry topic kept reg.topics; next_id = reg.next_id }
  ]

  -- The calls of the listeners, in order.
  unfoldable pub publish : Bytes → Bytes → Registry L → List (L × Bytes)
  publish topic message reg = elim (find_topic topic reg.topics) [
    | none ↦ []
    | some subs ↦ map (λ s. (s.1, message)) subs
  ]

  unfoldable pub subscriber_count : Bytes → Registry L → ℕ
  subscriber_count topic reg = elim (find_topic topic reg.topics) [
    | none ↦ 0
    | some subs ↦ length subs
  ]
