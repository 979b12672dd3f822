-- ===== src/Pg/Auth.antt =====
-- crates/sutegi-pg/src/protocol.rs: the authentication exchange. `can_send n` says whether the write of the
-- message after `n` others succeeds; `is_utf8` stands for `std::str::from_utf8`.
use sutegi.Base.{
  ℕ, zero, suc, Bool, not, Option, none, some, List, [], ◌∷◌, ◌++◌, Bytes, ltb, ◌==◌, if◌then◌else◌,
  any, length, take, drop, codes, bytes_eq,
}
use sutegi.Crypto.{hex}
use sutegi.Crypto.Legacy.{md5}
use sutegi.Crypto.Sha256.{to_be_bytes}
use sutegi.Pg.{message, broken, panicked, be_i32, recv, frame}
use sutegi.Pg.Scram.{
  Config, Scram, new_scram, password_of, handle_server_first, verify_server_final,
}

-- How the exchange ends, with what was sent; `auth_fuel` is no answer of the code.
pub data Auth : Type 0 where
  authenticated : Bytes → List Bytes → Auth
  refused auth_panicked auth_fuel : Auth

-- The pieces between NULs, of which those that are empty are left out.
unfoldable pub cstr_from : Bytes → Bytes → List Bytes
cstr_from cur [] = elim cur [ [] ↦ [] | c ∷ cs ↦ (c ∷ cs) ∷ [] ]
cstr_from cur (b ∷ buf) =
    let closed = cstr_from [] buf in
    let longer = cstr_from (cur ++ b ∷ []) buf in
    if b == 0 then elim cur [ [] ↦ closed | c ∷ cs ↦ (c ∷ cs) ∷ closed ] else longer

unfoldable pub parse_cstr_list : Bytes → List Bytes
parse_cstr_list buf = cstr_from [] buf

unfoldable pub cleartext_message : Config → Bytes
cleartext_message cfg = password_of cfg ++ 0 ∷ []

unfoldable pub md5_message : Config → Bytes → Bytes
md5_message cfg salt =
    let inner : Bytes = hex (md5 (password_of cfg ++ cfg.user)) in
    codes "md5" ++ hex (md5 (inner ++ salt)) ++ 0 ∷ []

unfoldable pub scram_first_message : Scram → Bytes
scram_first_message s =
    let client_first : Bytes = codes "n,," ++ s.client_first_bare in
    codes "SCRAM-SHA-256" ++ 0 ∷ (to_be_bytes 4 (length client_first) ++ client_first)

module _ (is_utf8 : Bytes → Bool) (can_send : ℕ → Bool) (random : Option Bytes) (cfg : Config) where
  -- A message of the client, and the exchange after it.
  abbrev pub then_send : Bytes → List Bytes → (List Bytes → Auth) → Auth
  then_send body sent next =
      let more = next (sent ++ frame b'p' body ∷ []) in
      if can_send (length sent) then more else refused

  -- One authentication request, with the exchange after it.
  unfoldable pub on_request :
      Bytes → Bytes → Option Scram → List Bytes → (Option Scram → List Bytes → Auth) → Auth
  on_request body stream scram sent next =
      let code : ℕ = be_i32 body 0 in
      let payload : Bytes = drop 4 body in
      if code == 0
      then authenticated stream sent
      else if code == 3
      then then_send (cleartext_message cfg) sent (next scram)
      else if code == 5
      then (if ltb (length body) 8
          then auth_panicked
          else then_send (md5_message cfg (take 4 payload)) sent (next scram))
      else if code == 10
      then (if not (any (λ m. bytes_eq m (codes "SCRAM-SHA-256")) (parse_cstr_list payload))
          then refused
          else elim (new_scram random) [
            | none ↦ refused
            | some s ↦ then_send (scram_first_message s) sent (next (some s))
          ])
      else if code == 11
      then elim scram [
        | none ↦ refused
        | some s ↦
            if not (is_utf8 payload) then refused else elim (handle_server_first cfg payload s) [
              | none ↦ refused
              | some (out, s') ↦ then_send out sent (next (some s'))
            ]
      ]
      else if code == 12
      then elim scram [
        | none ↦ refused
        | some s ↦
            if not (is_utf8 payload)
            then refused
            else if verify_server_final payload s
            then next (some s) sent
            else refused
      ]
      else refused

  -- The loop of `authenticate`; each message takes a unit of fuel.
  unfoldable pub authenticate : ℕ → Bytes → Option Scram → List Bytes → Auth
  authenticate zero stream scram sent = auth_fuel
  authenticate (suc fuel) stream scram sent = elim (recv stream) [
    | broken ↦ refused
    | panicked ↦ auth_panicked
    | message tag body rest ↦
        if tag == b'R'
        then on_request body rest scram sent (λ scram' sent'. authenticate fuel rest scram' sent')
        else refused
  ]
