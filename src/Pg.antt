-- ===== src/Pg.antt =====
-- crates/sutegi-pg/src/protocol.rs: messages of the wire protocol and the statements kept on a connection. A
-- signed 32-bit number is its bit pattern; the stream is what the server sends before it closes.
pub mod Frames
pub mod Scram
pub mod Numbers
pub mod Proof
pub mod Auth
pub mod Ends
mod Examples
use sutegi.Base.{
  ℕ, zero, suc, ◌+◌, ◌-◌, ◌*◌, ◌^◌, Bool, true, false, not, Option, none, some, List, [], ◌∷◌, ◌++◌,
  Bytes, ltb, leb, ◌==◌, if◌then◌else◌, length, take, drop, codes, bytes_eq,
}
use sutegi.Crypto.Sha256.{to_be_bytes, from_be_bytes}
use sutegi.Session.{decimal}

-- What the reader of a message comes to. A length that is negative as a 32-bit number is no length of a `Vec`.
pub data Received : Type 0 where
  message : ℕ → Bytes → Bytes → Received
  broken panicked : Received

unfoldable pub be_i32_front : Bytes → ℕ
be_i32_front (a ∷ b ∷ c ∷ d ∷ s) = from_be_bytes a b c d
be_i32_front _ = 0

-- `be_i32`, which reads 0 past the end.
unfoldable pub be_i32 : Bytes → ℕ → ℕ
be_i32 buf at = be_i32_front (drop at buf)

unfoldable pub recv_body : ℕ → ℕ → Bytes → Received
recv_body tag len s =
    if leb (2 ^ 31) len
    then panicked
    else if ltb len 4
    then broken
    else if ltb (length s) (len - 4)
    then broken
    else message tag (take (len - 4) s) (drop (len - 4) s)

unfoldable pub recv : Bytes → Received
recv (tag ∷ a ∷ b ∷ c ∷ d ∷ s) = recv_body tag (be_i32 (a ∷ b ∷ c ∷ d ∷ []) 0) s
recv _ = broken

-- `send_msg` and `frame`: the tag, the length with its own four bytes, the body.
unfoldable pub frame : ℕ → Bytes → Bytes
frame tag body = tag ∷ (to_be_bytes 4 (length body + 4) ++ body)

-- The entries of the cache, from the text of a statement to its name.
abbrev pub Cache : Type 0
Cache = List (Bytes × Bytes)

unfoldable pub cached : Bytes → Cache → Option Bytes
cached sql [] = none
cached sql ((text, name) ∷ cache) = if bytes_eq text sql then some name else cached sql cache

-- The name to bind, whether to parse, and the sequence number afterwards.
unfoldable pub pick_statement : Cache → ℕ → Bool → Bytes → (Bytes × Bool) × ℕ
pick_statement cache seq enabled sql =
    if not enabled then (([], true), seq) else elim (cached sql cache) [
      | some name ↦ ((name, false), seq)
      | none ↦
          if leb 256 (length cache)
          then (([], true), seq)
          else ((codes "sutegi_s" ++ decimal (seq + 1), true), seq + 1)
    ]
