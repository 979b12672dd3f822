-- ===== src/Session.antt =====
-- crates/sutegi-session/src/lib.rs: sessions in signed cookies. A text is the list of its UTF-8 bytes; the
-- signed payload is checked to be UTF-8 by `is_utf8`, which stands for `std::str::from_utf8`.
pub mod Signed
pub mod RoundTrip
mod Examples
use sutegi.Base.{
  ℕ, zero, suc, ◌+◌, ◌-◌, ◌*◌, ◌/◌, ◌%◌, Bool, true, false, not, ◌&&◌, ◌||◌, Option, none, some,
  List, [], ◌∷◌, ◌++◌, Bytes, ltb, ◌==◌, if◌then◌else◌, codes, bytes_eq,
}
use sutegi.Crypto.{hex, from_hex, constant_time_eq, ◌>>=◌}
use sutegi.Crypto.Sha256.Keyed.{hmac_sha256}
use sutegi.Http.{Request, Response, split_once, with_header}
use sutegi.Http.Cookie.{cookie}
use sutegi.Json.{Floats, Json, str, obj, Fields, end, field, insert, lookup, as_text, write_to}
use sutegi.Json.Parse.{Result, ok, parse}

pub record Sessions : Type 0 where
  pub secret : Bytes
  pub cookie_name : Bytes
  pub secure : Bool
  pub max_age : Option ℕ

pub record Session : Type 0 where
  pub entries : Fields
  pub dirty : Bool

abbrev pub new : Bytes → Sessions
new secret = record {
  secret = secret;
  cookie_name = codes "sutegi_session";
  secure = true;
  max_age = some 86400;
}

-- The decimal digits of a number, given more fuel than it has digits.
unfoldable pub decimal_digits : ℕ → ℕ → Bytes → Bytes
decimal_digits zero n done = done
decimal_digits (suc fuel) n done =
    let done' : Bytes = (b'0' + n % 10) ∷ done in
    let more = decimal_digits fuel (n / 10) done' in if ltb n 10 then done' else more

-- `{}` of a `u64`, which has at most twenty digits.
unfoldable pub decimal : ℕ → Bytes
decimal n = decimal_digits 20 n []

unfoldable pub sign : Sessions → Bytes → Bytes
sign m msg = hex (hmac_sha256 m.secret msg)

-- `<value-hex>.<sig>`.
unfoldable pub token : Sessions → Bytes → Bytes
token m value = hex value ++ b'.' ∷ sign m value

-- What was signed, of a text as `token` writes it.
unfoldable pub signed_bytes : Sessions → Bytes → Option Bytes
signed_bytes m text = do
  (payload_hex, sig) ← split_once b'.' text
  bytes ← from_hex payload_hex
  if constant_time_eq (sign m bytes) sig then some bytes else none

unfoldable pub verify_token : (Bytes → Bool) → Sessions → Bytes → Option Bytes
verify_token is_utf8 m text = do
  bytes ← signed_bytes m text
  if is_utf8 bytes then some bytes else none

unfoldable pub object_of : Result Json → Option Fields
object_of (ok (obj fs)) = some fs
object_of _ = none

unfoldable pub session_of : Option Fields → Session
session_of none = record { entries = end; dirty = false }
session_of (some fs) = record { entries = fs; dirty = false }

unfoldable pub attributes : Sessions → Bytes
attributes m =
    codes "; Path=/; HttpOnly; SameSite=Lax"
    ++ (if m.secure then codes "; Secure" else [])
    ++ elim m.max_age [ none ↦ [] | some age ↦ codes "; Max-Age=" ++ decimal age ]

unfoldable pub get_str : Bytes → Session → Option Bytes
get_str key s = lookup key s.entries >>= as_text

unfoldable pub set : Bytes → Json → Session → Session
set key value s = record { entries = insert key value s.entries; dirty = true }

-- `BTreeMap::remove`.
unfoldable pub remove_key : Bytes → Fields → Fields
remove_key k end = end
remove_key k (field j v fs) =
    let rest = remove_key k fs in if bytes_eq k j then fs else field j v rest

unfoldable pub remove : Bytes → Session → Session
remove key s = record { entries = remove_key key s.entries; dirty = true }

abbrev csrf_key : Bytes
csrf_key = codes "_csrf"

-- `csrf`, where the system's 32 random bytes, if it gives any, are `random`.
unfoldable pub csrf : Option Bytes → Session → Option (Bytes × Session)
csrf random s = elim (get_str csrf_key s) [
  | some t ↦ some (t, s)
  | none ↦ random >>= λ bytes. some (hex bytes, set csrf_key (str (hex bytes)) s)
]

unfoldable pub verify_csrf : Session → Bytes → Bool
verify_csrf s presented = elim (get_str csrf_key s) [
  | none ↦ false
  | some t ↦ if bytes_eq presented [] then false else constant_time_eq t presented
]

module _ (floats : Floats) where
  -- `<payload-hex>.<sig>` of a session.
  unfoldable pub cookie_value : Sessions → Session → Bytes
  cookie_value m s = token m (write_to floats (obj s.entries))

  unfoldable pub cookie_for : Sessions → Session → Bytes
  cookie_for m s = m.cookie_name ++ b'=' ∷ (cookie_value m s ++ attributes m)

  unfoldable pub save : Sessions → Session → Response → Response
  save m s resp = with_header (codes "set-cookie") (cookie_for m s) resp

  unfoldable pub load : (Bytes → Bool) → Sessions → Request → Session
  load is_utf8 m req = session_of (do
    raw ← cookie m.cookie_name req
    text ← verify_token is_utf8 m raw
    object_of (parse floats text))
