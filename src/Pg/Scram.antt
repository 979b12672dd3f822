-- ===== src/Pg/Scram.antt =====
-- crates/sutegi-pg/src/protocol.rs: the client's side of SCRAM-SHA-256. An error text is left out of `Option`.
use sutegi.Base.{
  ℕ, ◌^◌, Bool, false, not, ◌&&◌, Option, none, some, List, [], ◌∷◌, ◌++◌, Bytes, leb, ◌==◌,
  if◌then◌else◌, all, codes, bytes_eq, starts_with,
}
use sutegi.Crypto.{base64_encode, base64_decode, ◌>>=◌}
use sutegi.Crypto.Sha256.{sha256}
use sutegi.Crypto.Sha256.Keyed.{hmac_sha256, pbkdf2_hmac_sha256, xor_bytes}
use sutegi.Http.{split_once}
use sutegi.Http.Cookie.{split_at}
use sutegi.Http.Parse.{is_digit, digits_value}

pub record Config : Type 0 where
  pub user : Bytes
  pub password : Option Bytes

pub record Scram : Type 0 where
  pub client_nonce : Bytes
  pub client_first_bare : Bytes
  pub server_signature : Option Bytes

-- `Scram::new`, where the 18 random bytes, if the system gives any, are `random`.
unfoldable pub new_scram : Option Bytes → Option Scram
new_scram random = do
  bytes ← random
  some (record {
    client_nonce = base64_encode bytes;
    client_first_bare = codes "n=,r=" ++ base64_encode bytes;
    server_signature = none;
  })

-- `str::parse::<u32>`: a sign and digits, below 2^32.
unfoldable pub parse_digits : Bytes → Option ℕ
parse_digits [] = none
parse_digits (c ∷ s) =
    if not (all is_digit (c ∷ s))
    then none
    else if leb (2 ^ 32) (digits_value 0 (c ∷ s))
    then none
    else some (digits_value 0 (c ∷ s))

unfoldable pub parse_u32 : Bytes → Option ℕ
parse_u32 [] = none
parse_u32 (c ∷ s) = if c == b'+' then parse_digits s else parse_digits (c ∷ s)

pub record Attrs : Type 0 where
  pub nonce : Option Bytes
  pub salt_b64 : Option Bytes
  pub iterations : Option ℕ

-- The loop over the attributes of the server's first message: the last of each name counts.
unfoldable pub take_attr : Bytes × Bytes → Attrs → Attrs
take_attr (k, v) a =
    if bytes_eq k (codes "r")
    then record a { nonce = some v }
    else if bytes_eq k (codes "s")
    then record a { salt_b64 = some v }
    else if bytes_eq k (codes "i")
    then record a { iterations = parse_u32 v }
    else a

unfoldable pub take_attrs : List Bytes → Attrs → Attrs
take_attrs [] a = a
take_attrs (attr ∷ attrs) a =
    take_attrs attrs (elim (split_once b'=' attr) [ none ↦ a | some kv ↦ take_attr kv a ])

abbrev pub password_of : Config → Bytes
password_of cfg = elim cfg.password [ none ↦ [] | some p ↦ p ]

abbrev pub client_final_bare : Bytes → Bytes
client_final_bare nonce = codes "c=biws,r=" ++ nonce

abbrev pub auth_message : Bytes → Bytes → Bytes → Bytes
auth_message first server_first nonce =
    first ++ b',' ∷ (server_first ++ b',' ∷ client_final_bare nonce)

-- The keys that a password and a salt give.
abbrev pub client_key : Bytes → Bytes
client_key salted = hmac_sha256 salted (codes "Client Key")

abbrev pub server_key : Bytes → Bytes
server_key salted = hmac_sha256 salted (codes "Server Key")

abbrev pub stored_key : Bytes → Bytes
stored_key salted = sha256 (client_key salted)

-- The client's last message, and the state with the signature expected of the server.
unfoldable pub client_final : Bytes → Bytes → Bytes → Scram → Bytes × Scram
client_final salted nonce server_first s =
    let message : Bytes = auth_message s.client_first_bare server_first nonce in
    let proof : Bytes = xor_bytes (client_key salted) (hmac_sha256 (stored_key salted) message) in
    (
      client_final_bare nonce ++ codes ",p=" ++ base64_encode proof,
      record s { server_signature = some (hmac_sha256 (server_key salted) message) },
    )

-- The checks on the attributes, and the answer.
unfoldable pub answer_first : Config → Bytes → Scram → Bytes → Bytes → ℕ → Option (Bytes × Scram)
answer_first cfg server_first s nonce salt iterations =
    if not (leb 1 iterations && leb iterations 1000000)
    then none
    else if not (starts_with s.client_nonce nonce)
    then none
    else some
        (client_final (pbkdf2_hmac_sha256 (password_of cfg) salt iterations) nonce server_first s)

unfoldable pub server_attrs : Bytes → Attrs
server_attrs server_first =
    take_attrs (split_at b',' [] server_first)
      (record { nonce = none; salt_b64 = none; iterations = none })

unfoldable pub handle_server_first : Config → Bytes → Scram → Option (Bytes × Scram)
handle_server_first cfg server_first s = do
  nonce ← (server_attrs server_first).nonce
  text ← (server_attrs server_first).salt_b64
  salt ← base64_decode text
  iterations ← (server_attrs server_first).iterations
  answer_first cfg server_first s nonce salt iterations

-- The loop over the attributes of the server's last message.
unfoldable pub verify_attrs : Bytes → List Bytes → Bool
verify_attrs expected [] = false
verify_attrs expected (attr ∷ attrs) =
    let next = verify_attrs expected attrs in
    elim (split_once b'=' attr) [
      | none ↦ next
      | some (k, v) ↦
          if bytes_eq k (codes "v")
          then elim (base64_decode v) [ none ↦ false | some got ↦ bytes_eq got expected ]
          else next
    ]

-- Whether `verify_server_final` is no error.
unfoldable pub verify_server_final : Bytes → Scram → Bool
verify_server_final server_final s = elim s.server_signature [
  | none ↦ false
  | some expected ↦ verify_attrs expected (split_at b',' [] server_final)
]
