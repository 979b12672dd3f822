-- ===== src/Http.antt =====
-- crates/sutegi-http/src/lib.rs: methods, requests and responses. A text is the list of its characters'
-- code points.
pub mod Parse
pub mod Cookie
mod Examples
use sutegi.Base.{
  ℕ, zero, suc, ◌+◌, ◌-◌, ◌*◌, Bool, true, false, not, ◌&&◌, ◌||◌, Option, none, some, List, [],
  ◌∷◌, ◌++◌, Bytes, ltb, leb, ◌==◌, if◌then◌else◌, length, codes, bytes_eq,
}
use mathlib.Core.List.{reverse}

pub data Method : Type 0 where
  get post put patch delete head options other : Method

unfoldable pub parse_method : Bytes → Method
parse_method s =
    if bytes_eq s (codes "GET")
    then get
    else if bytes_eq s (codes "POST")
    then post
    else if bytes_eq s (codes "PUT")
    then put
    else if bytes_eq s (codes "PATCH")
    then patch
    else if bytes_eq s (codes "DELETE")
    then delete
    else if bytes_eq s (codes "HEAD")
    then head
    else if bytes_eq s (codes "OPTIONS")
    then options
    else other

unfoldable pub as_str : Method → Bytes
as_str get = codes "GET"
as_str post = codes "POST"
as_str put = codes "PUT"
as_str patch = codes "PATCH"
as_str delete = codes "DELETE"
as_str head = codes "HEAD"
as_str options = codes "OPTIONS"
as_str other = codes "OTHER"

pub record Request : Type 0 where
  pub method : Method
  pub path : Bytes
  pub query : Bytes
  pub version : Bytes
  pub headers : List (Bytes × Bytes)
  pub body : Bytes
  pub peer : Option Bytes

-- `str::eq_ignore_ascii_case`.
unfoldable pub to_lower : ℕ → ℕ
to_lower c = if leb b'A' c && leb c b'Z' then c + 32 else c

unfoldable pub eq_ignore_case : Bytes → Bytes → Bool
eq_ignore_case [] [] = true
eq_ignore_case [] (_ ∷ _) = false
eq_ignore_case (_ ∷ _) [] = false
eq_ignore_case (a ∷ xs) (b ∷ ys) = (to_lower a == to_lower b) && eq_ignore_case xs ys

unfoldable pub find_header : Bytes → List (Bytes × Bytes) → Option Bytes
find_header name [] = none
find_header name ((k, v) ∷ hs) = if eq_ignore_case k name then some v else find_header name hs

-- `char::is_whitespace`: the code points of Unicode's White_Space.
unfoldable pub is_whitespace : ℕ → Bool
is_whitespace c =
    leb 0x09 c && leb c 0x0D
    || c == 0x20
    || c == 0x85
    || c == 0xA0
    || c == 0x1680
    || leb 0x2000 c && leb c 0x200A
    || c == 0x2028
    || c == 0x2029
    || c == 0x202F
    || c == 0x205F
    || c == 0x3000

unfoldable pub skip_while : (ℕ → Bool) → Bytes → Bytes
skip_while p [] = []
skip_while p (c ∷ s) = let rest = skip_while p s in if p c then rest else c ∷ s

unfoldable pub trim_end_by : (ℕ → Bool) → Bytes → Bytes
trim_end_by p s = reverse (skip_while p (reverse s))

unfoldable pub trim : Bytes → Bytes
trim s = trim_end_by is_whitespace (skip_while is_whitespace s)

-- `str::split_once` at a character.
unfoldable pub split_once : ℕ → Bytes → Option (Bytes × Bytes)
split_once d [] = none
split_once d (c ∷ s) =
    if c == d
    then some ([], s)
    else elim (split_once d s) [ none ↦ none | some (a, b) ↦ some (c ∷ a, b) ]

-- `split_whitespace`: the words between runs of white space.
unfoldable pub words_from : Bytes → Bytes → List Bytes
words_from cur [] = elim cur [ [] ↦ [] | c ∷ cs ↦ (c ∷ cs) ∷ [] ]
words_from cur (c ∷ s) =
    let next = words_from [] s in
    let longer = words_from (cur ++ c ∷ []) s in
    if is_whitespace c then elim cur [ [] ↦ next | d ∷ ds ↦ (d ∷ ds) ∷ next ] else longer

unfoldable pub split_whitespace : Bytes → List Bytes
split_whitespace s = words_from [] s

-- The body of a response; a stream or an upgrade holds a closure, which is left out.
pub data Body : Type 0 where
  full : Bytes → Body
  stream upgrade : Body

pub record Response : Type 0 where
  pub status : ℕ
  pub headers : List (Bytes × Bytes)
  pub body : Body

unfoldable pub strip_crlf : Bytes → Bytes
strip_crlf [] = []
strip_crlf (c ∷ s) = let rest = strip_crlf s in if c == 13 || c == 10 then rest else c ∷ rest

unfoldable pub new_response : ℕ → Response
new_response status = record { status = status; headers = []; body = full [] }

unfoldable pub with_header : Bytes → Bytes → Response → Response
with_header name value r = record r {
  headers = r.headers ++ (strip_crlf name, strip_crlf value) ∷ [];
}

unfoldable pub with_body : Bytes → Response → Response
with_body body r = record r { body = full body }

-- `PartialEq` of `Method`.
unfoldable pub same_method : Method → Method → Bool
same_method a b = bytes_eq (as_str a) (as_str b)
