-- ===== src/Crypto/Sha256.antt =====
-- crates/sutegi-crypto/src/lib.rs: SHA-256, whole and in pieces. A 32-bit word is a number below `2 ^ 32` and
-- its sums wrap around. The pending bytes of the hasher are the list of the first `buf_len` of `buf`.
pub mod Blocks
pub mod Streaming
pub mod Keyed
pub mod Derive
mod Examples
use sutegi.Base.{
  ℕ, zero, suc, ◌+◌, ◌-◌, ◌*◌, ◌/◌, ◌%◌, ◌^◌, min, bit_and, bit_xor, Bool, true, false, List, [],
  ◌∷◌, ◌++◌, Bytes, ltb, ◌==◌, if◌then◌else◌, length, get_or, take, drop,
}

abbrev sha256_k : List ℕ
sha256_k =
    0x428a2f98 ∷ 0x71374491 ∷ 0xb5c0fbcf ∷ 0xe9b5dba5 ∷ 0x3956c25b ∷ 0x59f111f1 ∷ 0x923f82a4
    ∷ 0xab1c5ed5 ∷ 0xd807aa98 ∷ 0x12835b01 ∷ 0x243185be ∷ 0x550c7dc3 ∷ 0x72be5d74 ∷ 0x80deb1fe
    ∷ 0x9bdc06a7 ∷ 0xc19bf174 ∷ 0xe49b69c1 ∷ 0xefbe4786 ∷ 0x0fc19dc6 ∷ 0x240ca1cc ∷ 0x2de92c6f
    ∷ 0x4a7484aa ∷ 0x5cb0a9dc ∷ 0x76f988da ∷ 0x983e5152 ∷ 0xa831c66d ∷ 0xb00327c8 ∷ 0xbf597fc7
    ∷ 0xc6e00bf3 ∷ 0xd5a79147 ∷ 0x06ca6351 ∷ 0x14292967 ∷ 0x27b70a85 ∷ 0x2e1b2138 ∷ 0x4d2c6dfc
    ∷ 0x53380d13 ∷ 0x650a7354 ∷ 0x766a0abb ∷ 0x81c2c92e ∷ 0x92722c85 ∷ 0xa2bfe8a1 ∷ 0xa81a664b
    ∷ 0xc24b8b70 ∷ 0xc76c51a3 ∷ 0xd192e819 ∷ 0xd6990624 ∷ 0xf40e3585 ∷ 0x106aa070 ∷ 0x19a4c116
    ∷ 0x1e376c08 ∷ 0x2748774c ∷ 0x34b0bcb5 ∷ 0x391c0cb3 ∷ 0x4ed8aa4a ∷ 0x5b9cca4f ∷ 0x682e6ff3
    ∷ 0x748f82ee ∷ 0x78a5636f ∷ 0x84c87814 ∷ 0x8cc70208 ∷ 0x90befffa ∷ 0xa4506ceb ∷ 0xbef9a3f7
    ∷ 0xc67178f2 ∷ []

-- The eight words of the hash, and the working variables `v`.
pub record Words : Type 0 where
  pub v0 : ℕ
  pub v1 : ℕ
  pub v2 : ℕ
  pub v3 : ℕ
  pub v4 : ℕ
  pub v5 : ℕ
  pub v6 : ℕ
  pub v7 : ℕ

abbrev pub sha256_init : Words
sha256_init = record {
  v0 = 0x6a09e667;
  v1 = 0xbb67ae85;
  v2 = 0x3c6ef372;
  v3 = 0xa54ff53a;
  v4 = 0x510e527f;
  v5 = 0x9b05688c;
  v6 = 0x1f83d9ab;
  v7 = 0x5be0cd19;
}

unfoldable pub wrapping_add : ℕ → ℕ → ℕ
wrapping_add a b = (a + b) % 2 ^ 32

unfoldable pub rotate_right : ℕ → ℕ → ℕ
rotate_right x n = x / 2 ^ n + x % 2 ^ n * 2 ^ (32 - n)

-- `!x` of a word.
abbrev bit_not : ℕ → ℕ
bit_not x = 2 ^ 32 - 1 - x

unfoldable pub from_be_bytes : ℕ → ℕ → ℕ → ℕ → ℕ
from_be_bytes a b c d = a * 2 ^ 24 + b * 2 ^ 16 + c * 2 ^ 8 + d

-- The first sixteen words of the schedule, the last first.
unfoldable pub block_words : List ℕ → Bytes → List ℕ
block_words w (a ∷ b ∷ c ∷ d ∷ block) = block_words (from_be_bytes a b c d ∷ w) block
block_words w _ = w

-- The next word, from the words before it, the last first.
unfoldable pub next_word : List ℕ → ℕ
next_word w =
    let x : ℕ = get_or w 14 0 in
    let y : ℕ = get_or w 1 0 in
    let s0 : ℕ = bit_xor (bit_xor (rotate_right x 7) (rotate_right x 18)) (x / 2 ^ 3) in
    let s1 : ℕ = bit_xor (bit_xor (rotate_right y 17) (rotate_right y 19)) (y / 2 ^ 10) in
    wrapping_add (wrapping_add (wrapping_add (get_or w 15 0) s0) (get_or w 6 0)) s1

unfoldable pub extend_words : ℕ → List ℕ → List ℕ
extend_words zero w = w
extend_words (suc n) w = extend_words n (next_word w ∷ w)

unfoldable pub round : ℕ → ℕ → Words → Words
round k w v =
    let s1 : ℕ =
      bit_xor (bit_xor (rotate_right v.v4 6) (rotate_right v.v4 11)) (rotate_right v.v4 25) in
    let ch : ℕ = bit_xor (bit_and v.v4 v.v5) (bit_and (bit_not v.v4) v.v6) in
    let t1 : ℕ = wrapping_add (wrapping_add (wrapping_add (wrapping_add v.v7 s1) ch) k) w in
    let s0 : ℕ =
      bit_xor (bit_xor (rotate_right v.v0 2) (rotate_right v.v0 13)) (rotate_right v.v0 22) in
    let maj : ℕ = bit_xor (bit_xor (bit_and v.v0 v.v1) (bit_and v.v0 v.v2)) (bit_and v.v1 v.v2) in
    let t2 : ℕ = wrapping_add s0 maj in
    record {
      v0 = wrapping_add t1 t2;
      v1 = v.v0;
      v2 = v.v1;
      v3 = v.v2;
      v4 = wrapping_add v.v3 t1;
      v5 = v.v4;
      v6 = v.v5;
      v7 = v.v6;
    }

unfoldable pub rounds : List ℕ → List ℕ → Words → Words
rounds (k ∷ ks) (w ∷ ws) v = rounds ks ws (round k w v)
rounds _ _ v = v

unfoldable pub backwards : List ℕ → List ℕ → List ℕ
backwards [] ys = ys
backwards (x ∷ xs) ys = backwards xs (x ∷ ys)

unfoldable pub sha256_compress : Words → Bytes → Words
sha256_compress h block =
    let v : Words = rounds sha256_k (backwards (extend_words 48 (block_words [] block)) []) h in
    record {
      v0 = wrapping_add h.v0 v.v0;
      v1 = wrapping_add h.v1 v.v1;
      v2 = wrapping_add h.v2 v.v2;
      v3 = wrapping_add h.v3 v.v3;
      v4 = wrapping_add h.v4 v.v4;
      v5 = wrapping_add h.v5 v.v5;
      v6 = wrapping_add h.v6 v.v6;
      v7 = wrapping_add h.v7 v.v7;
    }

pub record Sha256 : Type 0 where
  pub h : Words
  pub buf : Bytes
  pub total_len : ℕ

abbrev pub new : Sha256
new = record { h = sha256_init; buf = []; total_len = 0 }

-- The whole blocks of `chunks_exact(64)`, and the rest. Each round takes a unit of fuel.
unfoldable pub whole_blocks : ℕ → Words → Bytes → Words × Bytes
whole_blocks zero h input = (h, input)
whole_blocks (suc fuel) h input =
    let more = whole_blocks fuel (sha256_compress h (take 64 input)) (drop 64 input) in
    if ltb (length input) 64 then (h, input) else more

unfoldable pub absorb : Words → Bytes → ℕ → Sha256
absorb h input total =
    let (h', rest) = whole_blocks (length input) h input in
    record { h = h'; buf = rest; total_len = total }

unfoldable pub update : Bytes → Sha256 → Sha256
update input s =
    let total : ℕ = (s.total_len + length input) % 2 ^ 64 in
    let n : ℕ = min (64 - length s.buf) (length input) in
    let filled : Bytes = s.buf ++ take n input in
    if ltb 0 (length s.buf)
    then (if ltb (length filled) 64
        then record { h = s.h; buf = filled; total_len = total }
        else absorb (sha256_compress s.h filled) (drop n input) total)
    else absorb s.h input total

-- The bytes of a number of `n` bytes, the highest first.
unfoldable pub to_be_bytes : ℕ → ℕ → Bytes
to_be_bytes zero x = []
to_be_bytes (suc n) x = x / 2 ^ (8 * n) % 2 ^ 8 ∷ to_be_bytes n x

-- `while self.buf_len != 56`, which needs no more than 64 rounds.
unfoldable pub pad_loop : ℕ → Sha256 → Sha256
pad_loop zero s = s
pad_loop (suc fuel) s =
    let more = pad_loop fuel (update (0 ∷ []) s) in if length s.buf == 56 then s else more

unfoldable pub word_bytes : Words → Bytes
word_bytes h =
    to_be_bytes 4 h.v0
    ++ to_be_bytes 4 h.v1
    ++ to_be_bytes 4 h.v2
    ++ to_be_bytes 4 h.v3
    ++ to_be_bytes 4 h.v4
    ++ to_be_bytes 4 h.v5
    ++ to_be_bytes 4 h.v6
    ++ to_be_bytes 4 h.v7

unfoldable pub finalize : Sha256 → Bytes
finalize s =
    let bit_len : ℕ = s.total_len * 8 % 2 ^ 64 in
    word_bytes ((update (to_be_bytes 8 bit_len) (pad_loop 64 (update (0x80 ∷ []) s))).h)

unfoldable pub sha256 : Bytes → Bytes
sha256 input = finalize (update input new)
