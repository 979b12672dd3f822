-- ===== src/Orm/Path.antt =====
-- crates/sutegi-orm/src/builder.rs: paths into a JSON column, and how each engine spells them.
use sutegi.Base.{
  ℕ, zero, suc, ◌^◌, not, ◌||◌, Option, none, some, List, [], ◌∷◌, ◌++◌, map, all, length, Bytes,
  codes, leb, ◌==◌, if◌then◌else◌,
}
use sutegi.Http.Parse.{is_digit, digits_value}
use sutegi.Session.{decimal}
use sutegi.Orm.{
  PathFault, invalid_path, out_of_fuel, no_dollar, empty_key, bad_key, unclosed, bad_index, no_step,
  no_segments, Result, ok, err, join_with,
}
use sutegi.Orm.Ident.{is_alphabetic, is_word}

pub data JsonSeg : Type 0 where
  key : Bytes → JsonSeg
  index : ℕ → JsonSeg

-- The longest start of word characters, and the rest.
unfoldable pub span_word : Bytes → Bytes × Bytes
span_word [] = ([], [])
span_word (c ∷ s) =
    let (word, rest) = span_word s in if is_word c then (c ∷ word, rest) else ([], c ∷ s)

-- What stands before the first `]`, and after it.
unfoldable pub split_close : Bytes → Option (Bytes × Bytes)
split_close [] = none
split_close (c ∷ s) =
    let later = split_close s in
    if c == b']'
    then some ([], s)
    else elim later [ none ↦ none | some (inner, rest) ↦ some (c ∷ inner, rest) ]

-- `str::parse::<u64>`: a sign and digits, below 2^64.
unfoldable pub digits_u64 : Bytes → Option ℕ
digits_u64 [] = none
digits_u64 (c ∷ s) =
    if not (all is_digit (c ∷ s))
    then none
    else if leb (2 ^ 64) (digits_value 0 (c ∷ s))
    then none
    else some (digits_value 0 (c ∷ s))

unfoldable pub parse_u64 : Bytes → Option ℕ
parse_u64 [] = none
parse_u64 (c ∷ s) = if c == b'+' then digits_u64 s else digits_u64 (c ∷ s)

-- One round of the loop: a segment and the rest.
pub data Step : Type 0 where
  seg : JsonSeg → Bytes → Step
  fault : PathFault → Step

unfoldable pub key_step : Bytes × Bytes → Step
key_step ([], rest) = fault empty_key
key_step (c ∷ word, rest) =
    if not (is_alphabetic c || c == b'_') then fault bad_key else seg (key (c ∷ word)) rest

unfoldable pub index_step : Option (Bytes × Bytes) → Step
index_step none = fault unclosed
index_step (some (inner, rest)) = elim (parse_u64 inner) [
  | none ↦ fault bad_index
  | some n ↦ seg (index n) rest
]

unfoldable pub path_step : ℕ → Bytes → Step
path_step c r =
    if c == b'.'
    then key_step (span_word r)
    else if c == b'['
    then index_step (split_close r)
    else fault no_step

unfoldable pub finish_path : Bytes → List JsonSeg → Result (List JsonSeg)
finish_path path [] = err (invalid_path path no_segments)
finish_path path (s ∷ segs) = ok (s ∷ segs)

-- The loop, where `path` is only reported. Each round takes a byte at least.
unfoldable pub path_loop : ℕ → Bytes → Bytes → List JsonSeg → Result (List JsonSeg)
path_loop fuel path [] segs = finish_path path segs
path_loop zero path (c ∷ r) segs = err out_of_fuel
path_loop (suc fuel) path (c ∷ r) segs = elim (path_step c r) [
  | fault why ↦ err (invalid_path path why)
  | seg s rest ↦ path_loop fuel path rest (segs ++ s ∷ [])
]

unfoldable pub parse_json_path : Bytes → Result (List JsonSeg)
parse_json_path [] = err (invalid_path [] no_dollar)
parse_json_path (c ∷ rest) =
    if c == b'$'
    then path_loop (length rest) (c ∷ rest) rest []
    else err (invalid_path (c ∷ rest) no_dollar)

unfoldable pub sqlite_seg : JsonSeg → Bytes
sqlite_seg (key k) = b'.' ∷ k
sqlite_seg (index n) = b'[' ∷ decimal n ++ b']' ∷ []

unfoldable pub sqlite_segs : List JsonSeg → Bytes
sqlite_segs [] = []
sqlite_segs (s ∷ segs) = sqlite_seg s ++ sqlite_segs segs

unfoldable pub sqlite_json_path : List JsonSeg → Bytes
sqlite_json_path segs = b'$' ∷ sqlite_segs segs

unfoldable pub pg_part : JsonSeg → Bytes
pg_part (key k) = k
pg_part (index n) = decimal n

unfoldable pub pg_json_path_array : List JsonSeg → Bytes
pg_json_path_array segs = b'{' ∷ join_with (codes ",") (map pg_part segs) ++ b'}' ∷ []
