-- ===== src/Web/Form.antt =====
-- crates/sutegi-web/src/lib.rs: the decoder of query strings and form bodies. Texts are bytes; `lossy`
-- stands for `String::from_utf8_lossy`.
pub mod Escapes
use sutegi.Base.{
  ℕ, zero, suc, ◌+◌, ◌-◌, ◌*◌, Bool, true, false, ◌&&◌, Option, none, some, List, [], ◌∷◌, ◌++◌,
  Bytes, leb, ◌==◌, if◌then◌else◌,
}
use sutegi.Http.{split_once}
use sutegi.Web.Router.{Params, insert}

unfoldable pub hex_val : ℕ → Option ℕ
hex_val b =
    if leb b'0' b && leb b b'9'
    then some (b - b'0')
    else if leb b'a' b && leb b b'f'
    then some (b - b'a' + 10)
    else if leb b'A' b && leb b b'F'
    then some (b - b'A' + 10)
    else none

unfoldable pub hex_pair : ℕ → ℕ → Option ℕ
hex_pair h l = elim (hex_val h) [
  | none ↦ none
  | some hi ↦ elim (hex_val l) [ none ↦ none | some lo ↦ some (hi * 16 + lo) ]
]

abbrev pub plus_or : ℕ → ℕ
plus_or c = if c == b'+' then b' ' else c

-- The loop of `url_decode`; a `%` needs two bytes behind it.
unfoldable pub decode_bytes : Bytes → Bytes
decode_bytes [] = []
decode_bytes (c ∷ []) = plus_or c ∷ []
decode_bytes (c ∷ h ∷ []) = plus_or c ∷ decode_bytes (h ∷ [])
decode_bytes (c ∷ h ∷ l ∷ s) =
    let one = decode_bytes (h ∷ l ∷ s) in
    let three = decode_bytes s in
    if c == b'+'
    then b' ' ∷ one
    else if c == b'%'
    then elim (hex_pair h l) [ none ↦ c ∷ one | some v ↦ v ∷ three ]
    else c ∷ one

-- `split('&')`.
unfoldable pub split_pairs : Bytes → Bytes → List Bytes
split_pairs cur [] = cur ∷ []
split_pairs cur (c ∷ s) =
    let closed = cur ∷ split_pairs [] s in
    let longer = split_pairs (cur ++ c ∷ []) s in if c == b'&' then closed else longer

module _ (lossy : Bytes → Bytes) where
  unfoldable pub url_decode : Bytes → Bytes
  url_decode s = lossy (decode_bytes s)

  -- One pair goes into the map; an empty one is passed over.
  unfoldable pub add_pair : Bytes → Params → Params
  add_pair [] m = m
  add_pair (c ∷ s) m = elim (split_once b'=' (c ∷ s)) [
    | some (k, v) ↦ insert (url_decode k) (url_decode v) m
    | none ↦ insert (url_decode (c ∷ s)) [] m
  ]

  unfoldable pub add_pairs : List Bytes → Params → Params
  add_pairs [] m = m
  add_pairs (p ∷ ps) m = add_pairs ps (add_pair p m)

  unfoldable pub parse_urlencoded : Bytes → Params
  parse_urlencoded input = add_pairs (split_pairs [] input) []
