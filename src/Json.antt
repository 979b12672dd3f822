-- ===== src/Json.antt =====
-- crates/sutegi-json/src/lib.rs: the value type, its accessors and the compact writer. A text is the list of
-- its UTF-8 bytes, an object the list of its pairs in the order of the `BTreeMap`. A number is the bit
-- pattern of an `f64`; what `std` does with floats is a parameter.
pub mod Parse
pub mod Strings
pub mod Numbers
pub mod Order
pub mod Steps
pub mod RoundTrip
pub mod Tokens
pub mod Taken
pub mod Termination
mod Examples
use sutegi.Base.{
  ℕ, zero, suc, ◌+◌, ◌-◌, ◌*◌, ◌/◌, ◌%◌, ◌^◌, Bool, true, false, not, ◌&&◌, ◌||◌, Option, none,
  some, List, [], ◌∷◌, ◌++◌, Bytes, codes, ltb, leb, ◌==◌, if◌then◌else◌, bytes_eq, get_or,
}
use Prim.Native.Nat.{max}

pub record Floats : Type 0 where
  pub is_finite : ℕ → Bool
  pub is_small_integral : ℕ → Bool
  pub show_integer : ℕ → Bytes
  pub show_float : ℕ → Bytes
  pub parse_float : Bytes → Option ℕ

mutual
  pub data Json : Type 0 where
    null : Json
    bool : Bool → Json
    num : ℕ → Json
    str : Bytes → Json
    arr : Items → Json
    obj : Fields → Json

  pub data Items : Type 0 where
    nil : Items
    cons : Json → Items → Items

  pub data Fields : Type 0 where
    end : Fields
    field : Bytes → Json → Fields → Fields

-- The order of strings: byte by byte.
unfoldable pub bytes_lt : Bytes → Bytes → Bool
bytes_lt [] [] = false
bytes_lt [] (_ ∷ _) = true
bytes_lt (_ ∷ _) [] = false
bytes_lt (a ∷ xs) (b ∷ ys) = ltb a b || (a == b) && bytes_lt xs ys

unfoldable pub lookup : Bytes → Fields → Option Json
lookup k end = none
lookup k (field j v fs) = if bytes_eq j k then some v else lookup k fs

-- `BTreeMap::insert`.
unfoldable pub insert : Bytes → Json → Fields → Fields
insert k v end = field k v end
insert k v (field j w fs) =
    if bytes_eq k j
    then field j v fs
    else if bytes_lt k j
    then field k v (field j w fs)
    else field j w (insert k v fs)

unfoldable pub get : Bytes → Json → Option Json
get k (obj fs) = lookup k fs
get k _ = none

unfoldable pub as_text : Json → Option Bytes
as_text (str s) = some s
as_text _ = none

unfoldable pub as_bool : Json → Option Bool
as_bool (bool b) = some b
as_bool _ = none

unfoldable pub is_null : Json → Bool
is_null null = true
is_null _ = false

unfoldable pub nth : ℕ → Items → Option Json
nth i nil = none
nth zero (cons v xs) = some v
nth (suc i) (cons v xs) = nth i xs

-- `json["key"]` and `json[i]`.
unfoldable pub index_key : Bytes → Json → Json
index_key k j = elim (get k j) [ none ↦ null | some v ↦ v ]

unfoldable pub index_at : ℕ → Json → Json
index_at i (arr xs) = elim (nth i xs) [ none ↦ null | some v ↦ v ]
index_at i _ = null

abbrev pub hex_digit : ℕ → ℕ
hex_digit n = get_or (codes "0123456789abcdef") n 0

-- The bytes that stand for one byte of a string; `{:04x}` of a byte begins with two zeros.
unfoldable pub escape_byte : ℕ → Bytes
escape_byte b =
    if b == 0x22
    then codes "\\\""
    else if b == 0x5C
    then codes "\\\\"
    else if b == 0x0A
    then codes "\\n"
    else if b == 0x0D
    then codes "\\r"
    else if b == 0x09
    then codes "\\t"
    else if b == 0x08
    then codes "\\b"
    else if b == 0x0C
    then codes "\\f"
    else if ltb b 0x20
    then codes "\\u00" ++ hex_digit (b / 16) ∷ hex_digit (b % 16) ∷ []
    else b ∷ []

unfoldable pub escape : Bytes → Bytes
escape [] = []
escape (b ∷ s) = escape_byte b ++ escape s

unfoldable pub escape_into : Bytes → Bytes
escape_into s = 0x22 ∷ (escape s ++ 0x22 ∷ [])

unfoldable pub write_bool : Bool → Bytes
write_bool true = codes "true"
write_bool false = codes "false"

module _ (floats : Floats) where
  unfoldable pub write_num : ℕ → Bytes
  write_num n =
      if floats.is_finite n && floats.is_small_integral n
      then floats.show_integer n
      else if floats.is_finite n
      then floats.show_float n
      else codes "null"

  -- The comma before every element but the first.
  abbrev pub separator : Bool → Bytes
  separator first = if first then [] else b',' ∷ []

  unfoldable mutual
    pub write_to : Json → Bytes
    write_to null = codes "null"
    write_to (bool b) = write_bool b
    write_to (num n) = write_num n
    write_to (str s) = escape_into s
    write_to (arr xs) = b'[' ∷ (write_items true xs ++ b']' ∷ [])
    write_to (obj fs) = b'{' ∷ (write_fields true fs ++ b'}' ∷ [])

    pub write_items : Bool → Items → Bytes
    write_items first nil = []
    write_items first (cons v xs) = separator first ++ (write_to v ++ write_items false xs)

    pub write_fields : Bool → Fields → Bytes
    write_fields first end = []
    write_fields first (field k v fs) =
        separator first ++ (escape_into k ++ b':' ∷ (write_to v ++ write_fields false fs))

-- How deep containers nest.
unfoldable mutual
  pub depth : Json → ℕ
  depth null = 0
  depth (bool b) = 0
  depth (num n) = 0
  depth (str s) = 0
  depth (arr xs) = suc (depth_items xs)
  depth (obj fs) = suc (depth_fields fs)

  pub depth_items : Items → ℕ
  depth_items nil = 0
  depth_items (cons v xs) = max (depth v) (depth_items xs)

  pub depth_fields : Fields → ℕ
  depth_fields end = 0
  depth_fields (field k v fs) = max (depth v) (depth_fields fs)
