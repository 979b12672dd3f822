-- ===== src/Web/Router.antt =====
-- crates/sutegi-web/src/lib.rs: patterns, segments and matching. A text is the list of its bytes; the
-- captured parameters are a `BTreeMap`, here a list of pairs that `insert` keeps free of repeats.
pub mod Laws
pub mod Matching
use sutegi.Base.{
  ℕ, zero, suc, ◌+◌, Bool, true, false, not, ◌&&◌, ◌||◌, Option, none, some, List, [], ◌∷◌, ◌++◌,
  map, Bytes, ltb, leb, ◌==◌, if◌then◌else◌, length, bytes_eq,
}
use mathlib.Core.List.{reverse}

pub data Seg : Type 0 where
  lit param rest : Bytes → Seg

-- `trim_start_matches('/')` and `trim_end_matches('/')`.
unfoldable pub trim_start : Bytes → Bytes
trim_start [] = []
trim_start (c ∷ s) = let t = trim_start s in if c == b'/' then t else c ∷ s

unfoldable pub trim_end : Bytes → Bytes
trim_end s = reverse (trim_start (reverse s))

unfoldable pub trim_matches : Bytes → Bytes
trim_matches s = trim_end (trim_start s)

-- `split('/')`: the segments are never none.
unfoldable pub split_from : Bytes → Bytes → List Bytes
split_from cur [] = cur ∷ []
split_from cur (c ∷ s) =
    let closed = cur ∷ split_from [] s in
    let longer = split_from (cur ++ c ∷ []) s in if c == b'/' then closed else longer

unfoldable pub split_slash : Bytes → List Bytes
split_slash s = split_from [] s

-- `strip_prefix(':')`, then `strip_prefix('*')`.
unfoldable pub compile_seg : Bytes → Seg
compile_seg [] = lit []
compile_seg (c ∷ name) =
    if c == b':' then param name else if c == b'*' then rest name else lit (c ∷ name)

unfoldable pub compile_pattern : Bytes → List Seg
compile_pattern pattern = map compile_seg (split_slash (trim_matches pattern))

unfoldable pub split_segments : Bytes → List Bytes
split_segments path = split_slash (trim_matches path)

unfoldable pub join_parts : Bytes → Bytes → Bytes
join_parts [] s = b'/' ∷ s
join_parts (c ∷ p) [] = c ∷ p
join_parts (c ∷ p) (d ∷ s) = (c ∷ p) ++ b'/' ∷ d ∷ s

unfoldable pub join_prefix : Bytes → Bytes → Bytes
join_prefix prefix pattern = join_parts (trim_end prefix) (trim_start pattern)

abbrev pub Params : Type 0
Params = List (Bytes × Bytes)

unfoldable pub insert : Bytes → Bytes → Params → Params
insert k v [] = (k, v) ∷ []
insert k v ((j, w) ∷ m) = if bytes_eq j k then (k, v) ∷ m else (j, w) ∷ insert k v m

unfoldable pub get : Bytes → Params → Option Bytes
get k [] = none
get k ((j, w) ∷ m) = if bytes_eq j k then some w else get k m

-- `segments.join("/")`.
unfoldable pub join : List Bytes → Bytes
join [] = []
join (s ∷ []) = s
join (s ∷ t ∷ ts) = s ++ b'/' ∷ join (t ∷ ts)

-- `matches!(pattern.last(), Some(Seg::Rest(_)))`.
unfoldable pub has_rest : List Seg → Bool
has_rest [] = false
has_rest (rest name ∷ []) = true
has_rest (_ ∷ []) = false
has_rest (_ ∷ s ∷ segs) = has_rest (s ∷ segs)

-- The loop of `match_segs`, with `path[i..]` for the path. An index past the end panics, which the
-- length test before the loop excludes; `none` stands for it.
unfoldable pub match_loop : List Seg → List Bytes → Params → Option Params
match_loop [] path params = some params
match_loop (rest name ∷ segs) path params = some (insert name (join path) params)
match_loop (lit l ∷ segs) [] params = none
match_loop (lit l ∷ segs) (p ∷ path) params =
    let more = match_loop segs path params in if not (bytes_eq l p) then none else more
match_loop (param name ∷ segs) [] params = none
match_loop (param name ∷ segs) (p ∷ path) params = match_loop segs path (insert name p params)

unfoldable pub match_segs : List Seg → List Bytes → Option Params
match_segs pattern path =
    if has_rest pattern
    then (if ltb (length path + 1) (length pattern) then none else match_loop pattern path [])
    else if not (length pattern == length path)
    then none
    else match_loop pattern path []
