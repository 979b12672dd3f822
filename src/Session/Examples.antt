-- ===== src/Session/Examples.antt =====
-- crates/sutegi-session: a session that is saved and brought back.
use sutegi.Base.{
  ◌≡◌, ◌≤◌, ◌≢◌, refl, arith, Bool, true, false, none, some, [], ◌∷◌, ◌++◌, Bytes, All, IsByte, all,
  codes,
}
use mathlib.Core.Path.{subst, sym, ◌∙◌}
use sutegi.Http.{Request, Method, find_header, to_lower, eq_ignore_case, is_whitespace}
use sutegi.Http.Cookie.{cookie, cookie-pair, is_name_char}
use sutegi.Json.{Floats, str, obj, end, field, depth, write_to, escape_into, escape, escape_byte}
use sutegi.Json.Parse.{ok, parse}
use sutegi.Json.Numbers.{IsPrintable}
use sutegi.Json.Order.{IsPlain}
use sutegi.Session.{Sessions, Session, new, cookie_value, load}
use sutegi.Session.Signed.{IsSigned}
use sutegi.Session.RoundTrip.{
  load-cookie_for, load-IsSigned, split_once-cookie_for, token-IsByte, token-plain,
}

-- No numbers at all.
abbrev no_floats : Floats
no_floats = record {
  is_finite = λ n. false;
  is_small_integral = λ n. false;
  show_integer = λ n. [];
  show_float = λ n. [];
  parse_float = λ s. none;
}

abbrev any_text : Bytes → Bool
any_text s = true

abbrev manager : Sessions
manager = new (codes "k")

abbrev visitor : Session
visitor = record { entries = field (codes "user") (str (codes "eneko")) end; dirty = true }

visitor-IsPlain : IsPlain (IsPrintable no_floats) (obj (visitor.entries))
unfolding IsPlain
visitor-IsPlain = (tt, tt, tt)

visitor-depth : depth (obj (visitor.entries)) ≤ 128
unfolding depth
visitor-depth = omega arith

visitor-IsByte : All IsByte (write_to no_floats (obj (visitor.entries)))
unfolding write_to escape_into escape escape_byte
visitor-IsByte = omega arith

abbrev pair : Bytes
pair = manager.cookie_name ++ b'=' ∷ cookie_value no_floats manager visitor

abbrev request : Request
request = record {
  method = Method.get;
  path = codes "/";
  query = [];
  version = codes "HTTP/1.1";
  headers = (codes "Cookie", pair) ∷ [];
  body = [];
  peer = none;
}

header_found : find_header (codes "cookie") (request.headers) ≡ some pair
unfolding find_header eq_ignore_case to_lower
header_found = refl

name_chars : all is_name_char (manager.cookie_name) ≡ true
unfolding is_whitespace
name_chars = refl

load-cookie_for_example :
    load no_floats any_text manager request ≡ record { entries = visitor.entries; dirty = false }
load-cookie_for_example =
    load-cookie_for no_floats any_text manager visitor request pair
      (split_once-cookie_for no_floats any_text manager visitor name_chars visitor-IsByte).0
      name_chars visitor-IsPlain visitor-depth visitor-IsByte refl
      (split_once-cookie_for no_floats any_text manager visitor name_chars visitor-IsByte).1
      header_found

cookie_found : cookie (manager.cookie_name) request ≡ some (cookie_value no_floats manager visitor)
unfolding cookie_value
cookie_found =
    cookie-pair (manager.cookie_name) (cookie_value no_floats manager visitor) request header_found
      name_chars (token-plain manager (write_to no_floats (obj (visitor.entries))) visitor-IsByte)

cookie_bytes : (raw : Bytes) → cookie (manager.cookie_name) request ≡ some raw → All IsByte raw
unfolding cookie_value
cookie_bytes raw e =
    let same : cookie_value no_floats manager visitor ≡ raw = some_inj (sym cookie_found ∙ e) in
    subst (All IsByte) same
      (token-IsByte manager (write_to no_floats (obj (visitor.entries))) visitor-IsByte)
  where
    some_inj : {x y : Bytes} → some x ≡ some y → x ≡ y
    some_inj e = cc

still_there : (load no_floats any_text manager request).entries ≢ end
still_there =
    subst (λ s. s.entries ≢ end) (sym load-cookie_for_example) (λ (e : visitor.entries ≡ end). cc)

load-IsSigned_example :
    (raw : Bytes) × (text : Bytes) × (cookie (manager.cookie_name) request ≡ some raw)
    × IsSigned manager raw text
    × (parse no_floats text ≡ ok (obj ((load no_floats any_text manager request).entries)))
load-IsSigned_example = load-IsSigned no_floats any_text manager request cookie_bytes still_there
