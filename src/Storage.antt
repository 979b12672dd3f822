-- ===== src/Storage.antt =====
-- crates/sutegi-storage/src/lib.rs: the keys of stored objects. A text is the list of its code points; its
-- length is that of its UTF-8 bytes.
pub mod Safety
mod Examples
use sutegi.Base.{
  ℕ, zero, suc, ◌+◌, Bool, true, false, ◌&&◌, ◌||◌, Option, none, some, List, [], ◌∷◌, Bytes, codes,
  ltb, leb, ◌==◌, if◌then◌else◌, any, bytes_eq, starts_with,
}
use mathlib.Core.List.{reverse}
use sutegi.Web.Router.{split_slash}

pub data KeyError : Type 0 where
  is_empty too_long backslash control slash_at_end empty_segment traversal reserved : KeyError

-- `char::is_control`.
unfoldable pub is_control : ℕ → Bool
is_control c = ltb c 0x20 || leb 0x7F c && ltb c 0xA0

-- `str::len`.
unfoldable pub utf8_length : Bytes → ℕ
utf8_length [] = 0
utf8_length (c ∷ s) =
    (if ltb c 0x80 then 1 else if ltb c 0x800 then 2 else if ltb c 0x10000 then 3 else 4)
    + utf8_length s

unfoldable pub begins_with_slash : Bytes → Bool
begins_with_slash [] = false
begins_with_slash (c ∷ s) = c == b'/'

unfoldable pub check_segment : Bytes → Option KeyError
check_segment seg =
    if bytes_eq seg []
    then some empty_segment
    else if bytes_eq seg (codes ".") || bytes_eq seg (codes "..")
    then some traversal
    else if starts_with (codes ".sutegi-") seg
    then some reserved
    else none

unfoldable pub check_segments : List Bytes → Option KeyError
check_segments [] = none
check_segments (s ∷ segs) =
    let later = check_segments segs in elim (check_segment s) [ some e ↦ some e | none ↦ later ]

-- `none` is `Ok(())`.
unfoldable pub validate_key : Bytes → Option KeyError
validate_key key =
    if bytes_eq key []
    then some is_empty
    else if ltb 1024 (utf8_length key)
    then some too_long
    else if any (λ c. c == 92) key
    then some backslash
    else if any is_control key
    then some control
    else if begins_with_slash key || begins_with_slash (reverse key)
    then some slash_at_end
    else check_segments (split_slash key)
