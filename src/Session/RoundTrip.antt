-- ===== src/Session/RoundTrip.antt =====
-- crates/sutegi-session/src/lib.rs: a session, saved and loaded.
use sutegi.Base.{
  ◌≡◌, ◌≤◌, refl, sym, append_assoc, ap, ◌∙◌, arith, Bool, true, false, ◌≢◌, if_rule, Option, none,
  some, ◌∷◌, ◌++◌, Bytes, All, All-append, IsByte, all, codes,
}
use sutegi.Crypto.{hex}
use sutegi.Http.{Request, find_header, split_once, is_whitespace}
use sutegi.Http.Cookie.{
  cookie, is_plain, is_name_char, all_mono, all-append, cookie-pair, is_not, split_once-append,
}
use sutegi.Json.{Floats, Json, null, bool, num, str, arr, obj, Fields, end, depth, write_to}
use sutegi.Json.Parse.{Result, parse, ok, err, out_of_fuel}
use sutegi.Json.Numbers.{IsPrintable}
use sutegi.Json.Order.{IsPlain}
use sutegi.Json.RoundTrip.{parse-write_to}
use sutegi.Session.{
  Sessions, Session, sign, token, signed_bytes, verify_token, object_of, session_of, cookie_value,
  cookie_for, attributes, load,
}
use sutegi.Session.Signed.{
  is_hex_char, hex_chars-IsByte, all-hex, sign-hex_chars, signed_bytes-token, bind-some, IsSigned,
  signed_bytes-IsSigned,
}

-- A value signed into a token is verified to be that value, where it is UTF-8.
pub verify_token-token :
    (is_utf8 : Bytes → Bool) (m : Sessions) (v : Bytes)
    → All IsByte v
    → is_utf8 v ≡ true
    → verify_token is_utf8 m (token m v) ≡ some v
unfolding verify_token
verify_token-token is_utf8 m v h u = rw (signed_bytes-token m v h, u) refl

hex_char-plain : (s : Bytes) → all is_hex_char s ≡ true → all is_plain s ≡ true
unfolding is_whitespace
hex_char-plain s h = all_mono is_hex_char is_plain s (λ c k. ground arith) h

pub token-plain : (m : Sessions) (v : Bytes) → All IsByte v → all is_plain (token m v) ≡ true
unfolding token is_whitespace
token-plain m v h =
    all-append is_plain (hex v) (b'.' ∷ sign m v) (hex_char-plain (hex v) (all-hex v h))
      (hex_char-plain (sign m v) (sign-hex_chars m v))

pub token-IsByte : (m : Sessions) (v : Bytes) → All IsByte v → All IsByte (token m v)
unfolding token
token-IsByte m v h =
    All-append IsByte (hex v) (b'.' ∷ sign m v) (hex_chars-IsByte _ (all-hex v h))
      (omega arith, hex_chars-IsByte _ (sign-hex_chars m v))

object_of-some : (r : Result Json) (fs : Fields) → object_of r ≡ some fs → r ≡ ok (obj fs)
unfolding object_of
object_of-some (ok null) fs e = cc
object_of-some (ok (bool b)) fs e = cc
object_of-some (ok (num n)) fs e = cc
object_of-some (ok (str s)) fs e = cc
object_of-some (ok (arr xs)) fs e = cc
object_of-some (ok (obj gs)) fs e = let same : gs ≡ fs = cc in ap (λ t. ok (obj t)) same
object_of-some (err x) fs e = cc
object_of-some out_of_fuel fs e = cc

session_of-some :
    (o : Option Fields) → (session_of o).entries ≢ end → o ≡ some ((session_of o).entries)
unfolding session_of
session_of-some none h = absurd (h refl)
session_of-some (some fs) h = refl

verify_token-signed :
    (is_utf8 : Bytes → Bool) (m : Sessions) (raw text : Bytes)
    → verify_token is_utf8 m raw ≡ some text
    → signed_bytes m raw ≡ some text
unfolding verify_token
verify_token-signed is_utf8 m raw text e =
    let (bytes, signed, e1) = bind-some (signed_bytes m raw) _ text e in
    signed
    ∙ if_rule (λ (o : Option Bytes). o ≡ some text → some bytes ≡ some text) (is_utf8 bytes)
        (some bytes) none (λ _ q. q) (λ _ q. cc) e1

some_first :
    (a b c d : Bytes) → ◌≡◌ {A = Option (Bytes × Bytes)} (some (a, b)) (some (c, d)) → a ≡ c
some_first a b c d e =
    let pair : ◌≡◌ {A = Bytes × Bytes} (a, b) (c, d) = cc in ap (λ (r : Bytes × Bytes). r.0) pair

module _ (floats : Floats) (is_utf8 : Bytes → Bool) (m : Sessions) where
  load-cookie_value :
      (s : Session) (req : Request)
      → all is_name_char m.cookie_name ≡ true
      → IsPlain (IsPrintable floats) (obj s.entries)
      → depth (obj s.entries) ≤ 128
      → All IsByte (write_to floats (obj s.entries))
      → is_utf8 (write_to floats (obj s.entries)) ≡ true
      → find_header (codes "cookie") req.headers
        ≡ some (m.cookie_name ++ b'=' ∷ cookie_value floats m s)
      → load floats is_utf8 m req ≡ record { entries = s.entries; dirty = false }
  unfolding load cookie_value session_of object_of
  load-cookie_value s req n p d bytes u header =
      let text : Bytes = write_to floats (obj s.entries) in
      let raw : cookie m.cookie_name req ≡ some (token m text) =
        cookie-pair m.cookie_name (token m text) req header n (token-plain m text bytes) in
      let verified : verify_token is_utf8 m (token m text) ≡ some text =
        verify_token-token is_utf8 m text bytes u in
      let parsed : parse floats text ≡ ok (obj s.entries) =
        parse-write_to floats (obj s.entries) p d in
      rw (raw, verified, parsed) refl

  pub split_once-cookie_for :
      (s : Session)
      → all is_name_char m.cookie_name ≡ true
      → All IsByte (write_to floats (obj s.entries))
      → (rest : Bytes) × (split_once b';' (cookie_for floats m s)
          ≡ some (m.cookie_name ++ b'=' ∷ cookie_value floats m s, rest))
  unfolding cookie_for cookie_value attributes is_whitespace
  split_once-cookie_for s n bytes =
      let value : Bytes = token m (write_to floats (obj s.entries)) in
      let plain : all is_plain (m.cookie_name ++ b'=' ∷ value) ≡ true =
        all-append is_plain m.cookie_name (b'=' ∷ value)
          (all_mono is_name_char is_plain m.cookie_name (λ c h. ground arith) n)
          (token-plain m (write_to floats (obj s.entries)) bytes) in
      (
        _,
        ap (split_once b';') (sym (append_assoc m.cookie_name (b'=' ∷ value) (attributes m)))
            ∙ split_once-append b';' (m.cookie_name ++ b'=' ∷ value) _ (
                all_mono is_plain (is_not b';') (m.cookie_name ++ b'=' ∷ value)
                  (λ c h. ground arith) plain),
      )

  -- A request that brings back what stands before the first `;` of a session's `Set-Cookie` loads that session:
  -- under a cookie name without white space, `;` and `=`, for entries whose text is of bytes and UTF-8, whose
  -- numbers are printable and whose keys are in order at every level, and which nest at most 128 deep.
  pub load-cookie_for :
      (s : Session) (req : Request) (pair others : Bytes)
      → all is_name_char m.cookie_name ≡ true
      → IsPlain (IsPrintable floats) (obj s.entries)
      → depth (obj s.entries) ≤ 128
      → All IsByte (write_to floats (obj s.entries))
      → is_utf8 (write_to floats (obj s.entries)) ≡ true
      → split_once b';' (cookie_for floats m s) ≡ some (pair, others)
      → find_header (codes "cookie") req.headers ≡ some pair
      → load floats is_utf8 m req ≡ record { entries = s.entries; dirty = false }
  load-cookie_for s req pair others n p d bytes u cut header =
      let (rest, e) = split_once-cookie_for s n bytes in
      let same : pair ≡ m.cookie_name ++ b'=' ∷ cookie_value floats m s =
        some_first pair others _ rest (sym cut ∙ e) in
      load-cookie_value s req n p d bytes u (header ∙ ap some same)

  -- Where a session with entries is loaded, and the cookie is of bytes, the cookie holds a text signed under the secret of which
  -- those entries are the parsed object.
  pub load-IsSigned :
      (req : Request)
      → ((raw : Bytes) → cookie m.cookie_name req ≡ some raw → All IsByte raw)
      → (load floats is_utf8 m req).entries ≢ end
      → (raw : Bytes) × (text : Bytes) × (cookie m.cookie_name req ≡ some raw)
        × IsSigned m raw text
        × (parse floats text ≡ ok (obj (load floats is_utf8 m req).entries))
  unfolding load
  load-IsSigned req bytes nonempty =
      let found : _ = session_of-some _ nonempty in
      let (raw, has_cookie, e1) = bind-some (cookie m.cookie_name req) _ _ found in
      let (text, verified, e2) = bind-some (verify_token is_utf8 m raw) _ _ e1 in
      (
        raw,
        text,
        has_cookie,
        signed_bytes-IsSigned m raw text (bytes raw has_cookie)
            (verify_token-signed is_utf8 m raw text verified),
        object_of-some (parse floats text) _ e2,
      )
