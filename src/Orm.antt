-- ===== src/Orm.antt =====
-- crates/sutegi-orm/src: the values that are bound to a query, the dialects, and the errors of the builders.
pub mod Ident
pub mod Path
pub mod Predicates
pub mod Builder
pub mod Schema
pub mod Update
pub mod Delete
pub mod Marks
mod Examples
use sutegi.Base.{ℕ, suc, ◌+◌, Bool, List, [], ◌∷◌, ◌++◌, Bytes}
use sutegi.Json.{Json}
use sutegi.Session.{decimal}

-- An `i64`: `negsuc n` is -(n + 1).
pub data ℤ : Type 0 where
  pos : ℕ → ℤ
  negsuc : ℕ → ℤ

-- `{}` of an `i64`.
unfoldable pub show_int : ℤ → Bytes
show_int (pos n) = decimal n
show_int (negsuc n) = b'-' ∷ decimal (suc n)

-- A float is its bit pattern.
pub data Value : Type 0 where
  null : Value
  int : ℤ → Value
  real : ℕ → Value
  text : Bytes → Value
  bool : Bool → Value
  json : Json → Value
  vector : List ℕ → Value

pub data Dialect : Type 0 where
  sqlite postgres : Dialect

pub data PathFault : Type 0 where
  no_dollar empty_key bad_key unclosed bad_index no_step no_segments : PathFault

-- What a builder reports. `out_of_fuel` is no answer of the code.
pub data Error : Type 0 where
  invalid_identifier : Bytes → Bytes → Error
  invalid_operator : Bytes → Error
  invalid_path : Bytes → PathFault → Error
  lock_required : Bytes → Error
  unsupported : Bytes → Bytes → Error
  out_of_fuel : Error

pub data Result {ℓ} (A : Type ℓ) : Type ℓ where
  ok : A → Result A
  err : Error → Result A

infixl 5 ◌>>=◌
abbrev pub ◌>>=◌ {ℓ κ} : {A : Type ℓ} {B : Type κ} → Result A → (A → Result B) → Result B
ok a >>= f = f a
err e >>= f = err e

-- `join` of the standard library.
unfoldable pub join_with : Bytes → List Bytes → Bytes
join_with sep [] = []
join_with sep (x ∷ []) = x
join_with sep (x ∷ y ∷ xs) = x ++ sep ++ join_with sep (y ∷ xs)
