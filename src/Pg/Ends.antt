-- ===== src/Pg/Ends.antt =====
-- crates/sutegi-pg/src/protocol.rs: how the authentication exchange ends.
use sutegi.Base.{
  ℕ, zero, suc, ◌-◌, ◌≡◌, ◌⊎◌, inl, inr, ◌<◌, refl, ap, ◌∙◌, arith, Bool, not, Option, none, some,
  List, [], ◌∷◌, ◌++◌, Bytes, ltb, leb, ltb→lt, ==_iff, ◌==◌, if◌then◌else◌, length, length-drop,
  drop, if_rule, option_rule,
}
use mathlib.Core.Path.{subst}
use sutegi.Pg.{Received, message, broken, panicked, be_i32, recv_body, recv, frame}
use sutegi.Pg.Scram.{Config, Scram, new_scram, handle_server_first, verify_server_final}
use sutegi.Pg.Auth.{
  Auth, authenticated, refused, auth_panicked, auth_fuel, on_request, authenticate, then_send,
  scram_first_message,
}

-- A stream and what is left of it after some messages.
pub data Reaches : Bytes → Bytes → Type 0 where
  here : (s : Bytes) → Reaches s s
  later :
      (s t : Bytes) (tag : ℕ) (body rest : Bytes)
      → recv s ≡ message tag body rest
      → Reaches rest t
      → Reaches s t

-- The next message has a negative length, or is a request for an MD5 password with less than its salt.
abbrev pub IsShort : Bytes → Type 0
IsShort t =
    (recv t ≡ panicked)
    ⊎ ((body : Bytes) × (rest : Bytes) × (recv t ≡ message b'R' body rest)
        × (be_i32 body 0 ≡ 5)
        × (length body < 8))

-- What an end says of the stream.
abbrev pub Explains : Bytes → Auth → Type 0
Explains s (authenticated rest sent) =
    (t : Bytes) × (body : Bytes) × Reaches s t
    × (recv t ≡ message b'R' body rest)
    × (be_i32 body 0 ≡ 0)
Explains s refused = Unit
Explains s auth_panicked = (t : Bytes) × Reaches s t × IsShort t
Explains s auth_fuel = ⊥

Explains-later :
    (s : Bytes) (tag : ℕ) (body rest : Bytes) (a : Auth)
    → recv s ≡ message tag body rest
    → Explains rest a
    → Explains s a
Explains-later s tag body rest (authenticated left sent) e (t, b, r, m, z) =
    (t, b, later s t tag body rest e r, m, z)
Explains-later s tag body rest refused e x = tt
Explains-later s tag body rest auth_panicked e (t, r, x) = (t, later s t tag body rest e r, x)
Explains-later s tag body rest auth_fuel e x = x

-- A message takes bytes of the stream.
abbrev Shorter : ℕ → Received → Type 0
Shorter n (message tag body rest) = length rest < n
Shorter n broken = Unit
Shorter n panicked = Unit

recv-Shorter : (s : Bytes) → Shorter (length s) (recv s)
unfolding recv recv_body
recv-Shorter [] = tt
recv-Shorter (t ∷ []) = tt
recv-Shorter (t ∷ a ∷ []) = tt
recv-Shorter (t ∷ a ∷ b ∷ []) = tt
recv-Shorter (t ∷ a ∷ b ∷ c ∷ []) = tt
recv-Shorter (t ∷ a ∷ b ∷ c ∷ d ∷ s) =
    let n : ℕ = be_i32 (a ∷ b ∷ c ∷ d ∷ []) 0 in
    let P : Received → Type 0 = Shorter (length (t ∷ a ∷ b ∷ c ∷ d ∷ s)) in
    if_rule P (leb (2147483648) n) _ _ (λ _. tt)
      λ _.
        if_rule P (ltb n 4) _ _ (λ _. tt)
          λ _.
            if_rule P (ltb (length s) (n - 4)) _ _ (λ _. tt)
              (λ _. omega (arith, length-drop (n - 4) s))

received_rule {ℓ κ} :
    {A : Type ℓ} (P : A → Type κ) (r : Received) (x y : A) (f : ℕ → Bytes → Bytes → A)
    → (r ≡ broken → P x)
    → (r ≡ panicked → P y)
    → ((tag : ℕ) (body rest : Bytes) → r ≡ message tag body rest → P (f tag body rest))
    → P (elim r [ broken ↦ x | panicked ↦ y | message tag body rest ↦ f tag body rest ])
received_rule P broken x y f p q k = p refl
received_rule P panicked x y f p q k = q refl
received_rule P (message tag body rest) x y f p q k = k tag body rest refl

module _ (is_utf8 : Bytes → Bool) (can_send : ℕ → Bool) (random : Option Bytes) (cfg : Config) where
  module _ (s body rest : Bytes) (e : recv s ≡ message b'R' body rest)
      (next : Option Scram → List Bytes → Auth)
      (good : (scram : Option Scram) (sent : List Bytes) → Explains rest (next scram sent)) where
    forward : (scram : Option Scram) (sent : List Bytes) → Explains s (next scram sent)
    forward scram sent = Explains-later s b'R' body rest (next scram sent) e (good scram sent)

    then_send-Explains :
        (out : Bytes) (sent : List Bytes) (scram : Option Scram)
        → Explains s (then_send is_utf8 can_send random cfg out sent (next scram))
    then_send-Explains out sent scram =
        if_rule (Explains s) (can_send (length sent)) _ _
          (λ _. forward scram (sent ++ frame b'p' out ∷ [])) (λ _. tt)

    sasl-Explains :
        (mechanisms : Bool) (sent : List Bytes)
        → Explains s (
            if mechanisms then refused else elim (new_scram random) [
              | none ↦ refused
              | some x ↦
                  then_send is_utf8 can_send random cfg (scram_first_message x) sent (next (some x))
            ])
    sasl-Explains mechanisms sent =
        if_rule (Explains s) mechanisms _ _ (λ _. tt)
          λ _.
            option_rule (Explains s) (new_scram random) _ _ (λ _. tt)
              (λ x _. then_send-Explains _ sent (some x))

    on_request-Explains :
        (scram : Option Scram) (sent : List Bytes)
        → Explains s (on_request is_utf8 can_send random cfg body rest scram sent next)
    unfolding on_request
    on_request-Explains scram sent =
        let code : ℕ = be_i32 body 0 in
        let payload : Bytes = drop 4 body in
        if_rule (Explains s) (code == 0) _ _ (λ z. (s, body, here s, e, (==_iff code 0).0 z))
          λ _.
            if_rule (Explains s) (code == 3) _ _ (λ _. then_send-Explains _ sent scram)
              λ _.
                if_rule (Explains s) (code == 5) _ _
                  (λ five.
                    if_rule (Explains s) (ltb (length body) 8) _ _
                      (λ short. (
                        s,
                        here s,
                        inr (body, rest, e, (==_iff code 5).0 five, ltb→lt (length body) 8 short),
                      ))
                      (λ _. then_send-Explains _ sent scram))
                  λ _.
                    if_rule (Explains s) (code == 10) _ _ (λ _. sasl-Explains _ sent)
                      λ _.
                        if_rule (Explains s) (code == 11) _ _
                          (λ _.
                            option_rule (Explains s) scram _ _ (λ _. tt)
                              λ x _.
                                if_rule (Explains s) (not (is_utf8 payload)) _ _ (λ _. tt)
                                  λ _.
                                    option_rule (Explains s) (handle_server_first cfg payload x) _ _
                                      (λ _. tt) (λ r _. then_send-Explains _ sent (some (r.1))))
                          λ _.
                            if_rule (Explains s) (code == 12) _ _
                              (λ _.
                                option_rule (Explains s) scram _ _ (λ _. tt)
                                  λ x _.
                                    if_rule (Explains s) (not (is_utf8 payload)) _ _ (λ _. tt)
                                      λ _.
                                        if_rule (Explains s) (verify_server_final payload x) _ _
                                          (λ _. forward (some x) sent) (λ _. tt))
                              (λ _. tt)

  -- The exchange ends, on more fuel than the stream has bytes. Where it succeeds, the last message taken is a
  -- request whose code reads 0; where it panics, the next message has a negative length, or is a request for an
  -- MD5 password of less than eight bytes.
  pub authenticate-Explains :
      (fuel : ℕ) (s : Bytes) (scram : Option Scram) (sent : List Bytes)
      → length s < fuel
      → Explains s (authenticate is_utf8 can_send random cfg fuel s scram sent)
  unfolding authenticate
  authenticate-Explains zero s scram sent h = omega arith
  authenticate-Explains (suc fuel) s scram sent h =
      received_rule (Explains s) (recv s) _ _ _ (λ _. tt) (λ e. (s, here s, inl e))
        λ tag body rest e.
          let less : length rest < length s = subst (Shorter (length s)) e (recv-Shorter s) in
          if_rule (Explains s) (tag == b'R') _ _
            (λ is_r.
              on_request-Explains s body rest
                (e ∙ ap (λ t. message t body rest) ((==_iff tag b'R').0 is_r)) _
                (λ scram' sent'. authenticate-Explains fuel rest scram' sent' (omega arith)) scram
                sent)
            (λ _. tt)
