-- ===== src/Pg/Proof.antt =====
-- crates/sutegi-pg/src/protocol.rs: what the two sides of SCRAM check of each other.
use sutegi.Base.{ℕ, ◌≡◌, ◌≤◌, true, Option, none, some, ◌∷◌, ◌++◌, Bytes, codes, starts_with}
use sutegi.Crypto.{base64_encode}
use sutegi.Crypto.Sha256.{sha256}
use sutegi.Crypto.Sha256.Keyed.{hmac_sha256, pbkdf2_hmac_sha256, xor_bytes}
use sutegi.Session.{decimal}
use sutegi.Pg.Scram.{
  Config, Scram, password_of, client_final_bare, auth_message, server_key, stored_key,
  verify_server_final,
}

-- The answer to a server's first message of that nonce, salt and number of iterations.
pub record IsAnswer (cfg : Config) (nonce salt : Bytes) (iterations : ℕ) (server_first : Bytes)
    (s : Scram) (out : Bytes) (s' : Scram) : Type 0 where
  pub proof : Bytes
  pub bounded : (1 ≤ iterations) × (iterations ≤ 1000000)
  pub extends : starts_with s.client_nonce nonce ≡ true
  pub text : out ≡ client_final_bare nonce ++ codes ",p=" ++ base64_encode proof
  -- What the server checks: the proof without the client's signature is a key whose hash is the stored key.
  pub proves :
      sha256 (
        xor_bytes proof (
          hmac_sha256
            (stored_key (pbkdf2_hmac_sha256 (password_of cfg) salt iterations))
            (auth_message s.client_first_bare server_first nonce)))
      ≡ stored_key (pbkdf2_hmac_sha256 (password_of cfg) salt iterations)
  -- The signature of a server that has the key is taken.
  pub verifies :
      verify_server_final
        (codes "v="
          ++ base64_encode (
              hmac_sha256
                (server_key (pbkdf2_hmac_sha256 (password_of cfg) salt iterations))
                (auth_message s.client_first_bare server_first nonce)))
        s'
      ≡ true

-- Without an answer, the iterations are out of their range or the client's nonce is not extended.
abbrev pub Answered : Config → Bytes → Bytes → ℕ → Bytes → Scram → Option (Bytes × Scram) → Type 0
Answered cfg nonce salt iterations server_first s none =
    ¬ ((1 ≤ iterations) × (iterations ≤ 1000000) × (starts_with s.client_nonce nonce ≡ true))
Answered cfg nonce salt iterations server_first s (some (out, s')) =
    IsAnswer cfg nonce salt iterations server_first s out s'

-- RFC 5802, section 7: `server-first-message`, without extensions.
abbrev pub first_message : Bytes → Bytes → ℕ → Bytes
first_message nonce salt iterations =
    (codes "r=" ++ nonce)
    ++ b',' ∷ ((codes "s=" ++ base64_encode salt) ++ b',' ∷ (codes "i=" ++ decimal iterations))
