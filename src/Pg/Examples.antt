-- ===== src/Pg/Examples.antt =====
-- crates/sutegi-pg: messages and handshakes at concrete inputs.
use sutegi.Base.{
  ◌≡◌, refl, arith, true, none, some, [], ◌∷◌, ◌++◌, Bytes, codes, bytes_eq, starts_with,
}
use sutegi.Crypto.{base64_encode, base64_decode, strip_padding, decode_chunks, val}
use sutegi.Crypto.Sha256.Keyed.{pbkdf2_hmac_sha256}
use sutegi.Http.{split_once}
use sutegi.Http.Cookie.{split_at}
use sutegi.Http.Parse.{is_digit, digits_value}
use sutegi.Crypto.Sha256.{to_be_bytes, from_be_bytes}
use sutegi.Pg.{message, be_i32, be_i32_front, recv_body, recv, frame}
use sutegi.Pg.Frames.{recv-frame}
use sutegi.Pg.Scram.{
  Config, Scram, client_final, handle_server_first, new_scram, server_attrs, take_attrs, take_attr,
  parse_u32, parse_digits, answer_first,
}
use sutegi.Session.{decimal, decimal_digits}
use sutegi.Pg.Proof.{first_message}
use sutegi.Pg.Auth.{
  authenticated, auth_panicked, authenticate, on_request, parse_cstr_list, cstr_from,
  scram_first_message,
}
use sutegi.Pg.Ends.{Explains, authenticate-Explains}

abbrev config : Config
config = record { user = codes "user"; password = some (codes "pencil") }

recv-frame_example :
    recv (frame b'R' (0 ∷ 0 ∷ 0 ∷ 0 ∷ []) ++ codes "Z")
    ≡ message b'R' (0 ∷ 0 ∷ 0 ∷ 0 ∷ []) (codes "Z")
recv-frame_example = recv-frame b'R' (0 ∷ 0 ∷ 0 ∷ 0 ∷ []) (codes "Z") (omega arith)

-- A request for an MD5 password without the salt.
abbrev short_md5 : Bytes
short_md5 = frame b'R' (0 ∷ 0 ∷ 0 ∷ 5 ∷ [])

authenticate-Explains_example :
    Explains short_md5 (authenticate (λ s. true) (λ n. true) none config 10 short_md5 none [])
unfolding frame to_be_bytes
authenticate-Explains_example =
    authenticate-Explains (λ s. true) (λ n. true) none config 10 short_md5 none [] (omega arith)

short_md5_panics :
    authenticate (λ s. true) (λ n. true) none config 10 short_md5 none [] ≡ auth_panicked
unfolding authenticate recv recv_body on_request be_i32 be_i32_front from_be_bytes frame to_be_bytes
short_md5_panics = refl

-- A message of no code at all is taken for the end of the exchange.
no_code_authenticates :
    authenticate (λ s. true) (λ n. true) none config 10 (frame b'R' []) none []
    ≡ authenticated [] []
unfolding authenticate recv recv_body on_request be_i32 be_i32_front from_be_bytes frame to_be_bytes
no_code_authenticates = refl

abbrev client : Scram
client = record {
  client_nonce = codes "rOprNGfw";
  client_first_bare = codes "n=,r=rOprNGfw";
  server_signature = none;
}

abbrev server_first : Bytes
server_first = codes "r=rOprNGfwEbeR,s=W22ZaJ0SNY7soEsUEjb6gQ==,i=1"

abbrev salt : Bytes
salt =
    0x5B ∷ 0x6D ∷ 0x99 ∷ 0x68 ∷ 0x9D ∷ 0x12 ∷ 0x35 ∷ 0x8E ∷ 0xEC ∷ 0xA0 ∷ 0x4B ∷ 0x14 ∷ 0x12 ∷ 0x36
    ∷ 0xFA ∷ 0x81 ∷ []

abbrev answer : Bytes × Scram
answer =
    client_final (pbkdf2_hmac_sha256 (codes "pencil") salt 1) (codes "rOprNGfwEbeR") server_first
      client

answered : handle_server_first config server_first client ≡ some answer
unfolding handle_server_first server_attrs take_attrs take_attr parse_u32 parse_digits digits_value
    is_digit answer_first split_at split_once base64_decode strip_padding decode_chunks val
    starts_with bytes_eq
answered = refl

-- The same message, of its parts.
server_first_lem : first_message (codes "rOprNGfwEbeR") salt 1 ≡ server_first
unfolding base64_encode decimal decimal_digits
server_first_lem = refl

abbrev first : Scram
first = record {
  client_nonce = codes "AQID";
  client_first_bare = codes "n=,r=AQID";
  server_signature = none;
}

-- After SASL was begun, an end of the exchange is taken without the signature of the server.
unverified_server_authenticates :
    authenticate
      (λ s. true)
      (λ n. true)
      (some (1 ∷ 2 ∷ 3 ∷ []))
      config
      90
      (frame b'R' (0 ∷ 0 ∷ 0 ∷ 10 ∷ (codes "SCRAM-SHA-256" ++ 0 ∷ 0 ∷ []))
        ++ frame b'R' (0 ∷ 0 ∷ 0 ∷ 0 ∷ []))
      none
      []
    ≡ authenticated [] (frame b'p' (scram_first_message first) ∷ [])
unfolding authenticate recv recv_body on_request be_i32 be_i32_front from_be_bytes frame to_be_bytes
    parse_cstr_list cstr_from bytes_eq new_scram base64_encode scram_first_message
unverified_server_authenticates = refl
