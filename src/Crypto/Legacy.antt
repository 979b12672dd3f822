-- ===== src/Crypto/Legacy.antt =====
-- crates/sutegi-crypto/src/lib.rs: SHA-1 and MD5, each over the whole padded message.
use sutegi.Base.{
  ℕ, zero, suc, ◌+◌, ◌-◌, ◌*◌, ◌/◌, ◌%◌, ◌^◌, bit_and, bit_or, bit_xor, List, [], ◌∷◌, ◌++◌, Bytes,
  ltb, ◌==◌, if◌then◌else◌, length, get_or, take, drop,
}
use sutegi.Crypto.Sha256.{wrapping_add, from_be_bytes, to_be_bytes}

abbrev md5_s : List ℕ
md5_s =
    7 ∷ 12 ∷ 17 ∷ 22 ∷ 7 ∷ 12 ∷ 17 ∷ 22 ∷ 7 ∷ 12 ∷ 17 ∷ 22 ∷ 7 ∷ 12 ∷ 17 ∷ 22 ∷ 5 ∷ 9 ∷ 14 ∷ 20 ∷ 5
    ∷ 9 ∷ 14 ∷ 20 ∷ 5 ∷ 9 ∷ 14 ∷ 20 ∷ 5 ∷ 9 ∷ 14 ∷ 20 ∷ 4 ∷ 11 ∷ 16 ∷ 23 ∷ 4 ∷ 11 ∷ 16 ∷ 23 ∷ 4 ∷ 11
    ∷ 16 ∷ 23 ∷ 4 ∷ 11 ∷ 16 ∷ 23 ∷ 6 ∷ 10 ∷ 15 ∷ 21 ∷ 6 ∷ 10 ∷ 15 ∷ 21 ∷ 6 ∷ 10 ∷ 15 ∷ 21 ∷ 6 ∷ 10
    ∷ 15 ∷ 21 ∷ []

abbrev md5_k : List ℕ
md5_k =
    0xd76aa478 ∷ 0xe8c7b756 ∷ 0x242070db ∷ 0xc1bdceee ∷ 0xf57c0faf ∷ 0x4787c62a ∷ 0xa8304613
    ∷ 0xfd469501 ∷ 0x698098d8 ∷ 0x8b44f7af ∷ 0xffff5bb1 ∷ 0x895cd7be ∷ 0x6b901122 ∷ 0xfd987193
    ∷ 0xa679438e ∷ 0x49b40821 ∷ 0xf61e2562 ∷ 0xc040b340 ∷ 0x265e5a51 ∷ 0xe9b6c7aa ∷ 0xd62f105d
    ∷ 0x02441453 ∷ 0xd8a1e681 ∷ 0xe7d3fbc8 ∷ 0x21e1cde6 ∷ 0xc33707d6 ∷ 0xf4d50d87 ∷ 0x455a14ed
    ∷ 0xa9e3e905 ∷ 0xfcefa3f8 ∷ 0x676f02d9 ∷ 0x8d2a4c8a ∷ 0xfffa3942 ∷ 0x8771f681 ∷ 0x6d9d6122
    ∷ 0xfde5380c ∷ 0xa4beea44 ∷ 0x4bdecfa9 ∷ 0xf6bb4b60 ∷ 0xbebfbc70 ∷ 0x289b7ec6 ∷ 0xeaa127fa
    ∷ 0xd4ef3085 ∷ 0x04881d05 ∷ 0xd9d4d039 ∷ 0xe6db99e5 ∷ 0x1fa27cf8 ∷ 0xc4ac5665 ∷ 0xf4292244
    ∷ 0x432aff97 ∷ 0xab9423a7 ∷ 0xfc93a039 ∷ 0x655b59c3 ∷ 0x8f0ccc92 ∷ 0xffeff47d ∷ 0x85845dd1
    ∷ 0x6fa87e4f ∷ 0xfe2ce6e0 ∷ 0xa3014314 ∷ 0x4e0811a1 ∷ 0xf7537e82 ∷ 0xbd3af235 ∷ 0x2ad7d2bb
    ∷ 0xeb86d391 ∷ []

unfoldable pub rotate_left : ℕ → ℕ → ℕ
rotate_left x n = x % 2 ^ (32 - n) * 2 ^ n + x / 2 ^ (32 - n)

-- `!x` of a word.
abbrev complement : ℕ → ℕ
complement x = 2 ^ 32 - 1 - x

-- The bytes of a number of `n` bytes, the lowest first.
unfoldable pub to_le_bytes : ℕ → ℕ → Bytes
to_le_bytes zero x = []
to_le_bytes (suc n) x = x % 2 ^ 8 ∷ to_le_bytes n (x / 2 ^ 8)

-- `while msg.len() % 64 != 56`, on `len` bytes so far.
unfoldable pub pad_zeros : ℕ → ℕ → Bytes
pad_zeros zero len = []
pad_zeros (suc fuel) len =
    let more = 0 ∷ pad_zeros fuel (len + 1) in if len % 64 == 56 then [] else more

abbrev bit_len : Bytes → ℕ
bit_len input = length input * 8 % 2 ^ 64

unfoldable pub padded_with : (ℕ → Bytes) → Bytes → Bytes
padded_with bytes input = input ++ 0x80 ∷ (pad_zeros 64 (length input + 1) ++ bytes (bit_len input))

-- The sixteen words of a block, by `word` from its four bytes.
unfoldable pub words_of : (ℕ → ℕ → ℕ → ℕ → ℕ) → Bytes → List ℕ
words_of word (a ∷ b ∷ c ∷ d ∷ block) = word a b c d ∷ words_of word block
words_of word _ = []

-- `chunks_exact(64)`, where the message has no more blocks than bytes.
unfoldable pub over_blocks {ℓ} : {H : Type ℓ} → ℕ → (Bytes → H → H) → Bytes → H → H
over_blocks zero block msg h = h
over_blocks (suc fuel) block msg h =
    let more = over_blocks fuel block (drop 64 msg) (block (take 64 msg) h) in
    if ltb (length msg) 64 then h else more

pub record Md5 : Type 0 where
  pub a : ℕ
  pub b : ℕ
  pub c : ℕ
  pub d : ℕ

unfoldable pub md5_round : List ℕ → ℕ → Md5 → Md5
md5_round m i v =
    let mixed : ℕ × ℕ =
      if ltb i 16
      then (bit_or (bit_and v.b v.c) (bit_and (complement v.b) v.d), i)
      else if ltb i 32
      then (bit_or (bit_and v.d v.b) (bit_and (complement v.d) v.c), (5 * i + 1) % 16)
      else if ltb i 48
      then (bit_xor (bit_xor v.b v.c) v.d, (3 * i + 5) % 16)
      else (bit_xor v.c (bit_or v.b (complement v.d)), 7 * i % 16) in
    let f : ℕ =
      wrapping_add (wrapping_add (wrapping_add mixed.0 v.a) (get_or md5_k i 0))
        (get_or m mixed.1 0) in
    record { a = v.d; d = v.c; c = v.b; b = wrapping_add v.b (rotate_left f (get_or md5_s i 0)) }

unfoldable pub md5_rounds : ℕ → ℕ → List ℕ → Md5 → Md5
md5_rounds zero i m v = v
md5_rounds (suc n) i m v = md5_rounds n (i + 1) m (md5_round m i v)

unfoldable pub md5_block : Bytes → Md5 → Md5
md5_block block h =
    let v : Md5 = md5_rounds 64 0 (words_of (λ p q r s. from_be_bytes s r q p) block) h in
    record {
      a = wrapping_add h.a v.a;
      b = wrapping_add h.b v.b;
      c = wrapping_add h.c v.c;
      d = wrapping_add h.d v.d;
    }

unfoldable pub md5 : Bytes → Bytes
md5 input =
    let msg : Bytes = padded_with (to_le_bytes 8) input in
    let start : Md5 = record { a = 0x67452301; b = 0xefcdab89; c = 0x98badcfe; d = 0x10325476 } in
    let h : Md5 = over_blocks (length msg) md5_block msg start in
    to_le_bytes 4 h.a ++ to_le_bytes 4 h.b ++ to_le_bytes 4 h.c ++ to_le_bytes 4 h.d

pub record Sha1 : Type 0 where
  pub a : ℕ
  pub b : ℕ
  pub c : ℕ
  pub d : ℕ
  pub e : ℕ

unfoldable pub sha1_round : ℕ → ℕ → Sha1 → Sha1
sha1_round i wi v =
    let choice : ℕ × ℕ =
      if ltb i 20
      then (bit_or (bit_and v.b v.c) (bit_and (complement v.b) v.d), 0x5a827999)
      else if ltb i 40
      then (bit_xor (bit_xor v.b v.c) v.d, 0x6ed9eba1)
      else if ltb i 60
      then (bit_or (bit_or (bit_and v.b v.c) (bit_and v.b v.d)) (bit_and v.c v.d), 0x8f1bbcdc)
      else (bit_xor (bit_xor v.b v.c) v.d, 0xca62c1d6) in
    let t : ℕ =
      wrapping_add
        (wrapping_add (wrapping_add (wrapping_add (rotate_left v.a 5) choice.0) v.e) choice.1) wi in
    record { e = v.d; d = v.c; c = rotate_left v.b 30; b = v.a; a = t }

-- `w` holds sixteen words of the schedule, the one of this round first.
unfoldable pub sha1_rounds : ℕ → ℕ → List ℕ → Sha1 → Sha1
sha1_rounds zero i w v = v
sha1_rounds (suc n) i w v =
    let next : ℕ =
      rotate_left
        (bit_xor (bit_xor (bit_xor (get_or w 13 0) (get_or w 8 0)) (get_or w 2 0)) (get_or w 0 0))
        1 in
    sha1_rounds n (i + 1) (drop 1 w ++ next ∷ []) (sha1_round i (get_or w 0 0) v)

unfoldable pub sha1_block : Bytes → Sha1 → Sha1
sha1_block block h =
    let v : Sha1 = sha1_rounds 80 0 (words_of from_be_bytes block) h in
    record {
      a = wrapping_add h.a v.a;
      b = wrapping_add h.b v.b;
      c = wrapping_add h.c v.c;
      d = wrapping_add h.d v.d;
      e = wrapping_add h.e v.e;
    }

unfoldable pub sha1 : Bytes → Bytes
sha1 input =
    let msg : Bytes = padded_with (to_be_bytes 8) input in
    let start : Sha1 = record {
      a = 0x67452301;
      b = 0xefcdab89;
      c = 0x98badcfe;
      d = 0x10325476;
      e = 0xc3d2e1f0;
    } in
    let h : Sha1 = over_blocks (length msg) sha1_block msg start in
    to_be_bytes 4 h.a
    ++ to_be_bytes 4 h.b
    ++ to_be_bytes 4 h.c
    ++ to_be_bytes 4 h.d
    ++ to_be_bytes 4 h.e
