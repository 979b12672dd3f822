-- ===== src/Ws/Protocol/Masking.antt =====
-- crates/sutegi-ws/src/protocol.rs: unmasking eight bytes at a time and byte by byte.
use sutegi.Base.{
  ℕ, zero, suc, ◌+◌, ◌*◌, ◌%◌, ◌<◌, ◌≡◌, refl, arith, ap, sym, ◌∙◌, bit_xor, [], ◌∷◌, ◌++◌, Bytes,
  IsByte, All, length, ◌==◌, if◌then◌else◌,
}
use mathlib.Core.Path.{ap₂}
use sutegi.Base.Bits.{bit_xor-fields, bit_xor-lt, bit_xor_twice, bit_and_3}
use sutegi.Ws.Protocol.{
  Mask, mask_at, from_ne_bytes, byte_of, to_ne_bytes, unmask_rest, unmask_words, unmask,
}

-- RFC 6455, section 5.3: octet i of the output is octet i of the input XOR octet (i MOD 4) of the key.
unfoldable pub octet : Mask → ℕ → ℕ
octet m zero = m.m0
octet m (suc zero) = m.m1
octet m (suc (suc zero)) = m.m2
octet m (suc (suc (suc i))) = m.m3

unfoldable pub mask_bytes : Mask → ℕ → Bytes → Bytes
mask_bytes m i [] = []
mask_bytes m i (b ∷ rest) = bit_xor b (octet m (i % 4)) ∷ mask_bytes m (i + 1) rest

pub record IsKey (m : Mask) : Type 0 where
  pub k0 : m.m0 < 256
  pub k1 : m.m1 < 256
  pub k2 : m.m2 < 256
  pub k3 : m.m3 < 256

-- One byte on top of a word below it.
xor_byte :
    (a x b y : ℕ)
    → x < 256
    → y < 256
    → bit_xor (a * 256 + x) (b * 256 + y) ≡ bit_xor a b * 256 + bit_xor x y
xor_byte a x b y p q = bit_xor-fields 8 a x b y p q

xor_word :
    (a b c d e f g h a' b' c' d' e' f' g' h' : ℕ)
    → a < 256
    → b < 256
    → c < 256
    → d < 256
    → e < 256
    → f < 256
    → g < 256
    → a' < 256
    → b' < 256
    → c' < 256
    → d' < 256
    → e' < 256
    → f' < 256
    → g' < 256
    → bit_xor (from_ne_bytes a b c d e f g h) (from_ne_bytes a' b' c' d' e' f' g' h')
      ≡ from_ne_bytes
          (bit_xor a a')
          (bit_xor b b')
          (bit_xor c c')
          (bit_xor d d')
          (bit_xor e e')
          (bit_xor f f')
          (bit_xor g g')
          (bit_xor h h')
xor_word a b c d e f g h a' b' c' d' e' f' g' h' ha hb hc hd he hf hg ka kb kc kd ke kf kg = rw (
  xor_byte _ a _ a' ha ka,
  xor_byte _ b _ b' hb kb,
  xor_byte _ c _ c' hc kc,
  xor_byte _ d _ d' hd kd,
  xor_byte _ e _ e' he ke,
  xor_byte _ f _ f' hf kf,
  xor_byte h g h' g' hg kg,
)

word_bytes :
    (a b c d e f g h : ℕ)
    → a < 256
    → b < 256
    → c < 256
    → d < 256
    → e < 256
    → f < 256
    → g < 256
    → h < 256
    → to_ne_bytes (from_ne_bytes a b c d e f g h) ≡ a ∷ b ∷ c ∷ d ∷ e ∷ f ∷ g ∷ h ∷ []
unfolding to_ne_bytes
word_bytes a b c d e f g h ha hb hc hd he hf hg hh =
    let w = from_ne_bytes a b c d e f g h in
    let e0 : byte_of w 0 ≡ a = omega arith in
    let e1 : byte_of w 8 ≡ b = omega arith in
    let e2 : byte_of w 16 ≡ c = omega arith in
    let e3 : byte_of w 24 ≡ d = omega arith in
    let e4 : byte_of w 32 ≡ e = omega arith in
    let e5 : byte_of w 40 ≡ f = omega arith in
    let e6 : byte_of w 48 ≡ g = omega arith in let e7 : byte_of w 56 ≡ h = omega arith in cc

mask_at-octet : (m : Mask) (i : ℕ) → mask_at m i ≡ octet m (i % 4)
unfolding mask_at
mask_at-octet m i = rw bit_and_3 (below (i % 4) (omega arith))
  where
    below :
        (k : ℕ)
        → k < 4
        → (if k == 0 then m.m0 else if k == 1 then m.m1 else if k == 2 then m.m2 else m.m3)
          ≡ octet m k
    below zero p = unfold octet in refl
    below (suc zero) p = unfold octet in refl
    below (suc (suc zero)) p = unfold octet in refl
    below (suc (suc (suc zero))) p = unfold octet in refl
    below (suc (suc (suc (suc k)))) p = absurd (omega arith)

unmask_rest_lem :
    (m : Mask) (i j : ℕ) (s : Bytes) → i % 4 ≡ j % 4 → unmask_rest m i s ≡ mask_bytes m j s
unfolding unmask_rest mask_bytes
unmask_rest_lem m i j [] e = refl
unmask_rest_lem m i j (b ∷ s) e =
    rw (mask_at-octet m i, e)
      (ap (λ r. bit_xor b (octet m (j % 4)) ∷ r)
        (unmask_rest_lem m (i + 1) (j + 1) s (omega arith)))

byte_xor : (x m : ℕ) → x < 256 → m < 256 → bit_xor x m < 256
byte_xor x m p q = omega (arith, bit_xor-lt x m p q)

abbrev key_word : Mask → ℕ
key_word m = from_ne_bytes m.m0 m.m1 m.m2 m.m3 m.m0 m.m1 m.m2 m.m3

-- A whole word of the loop.
word_step :
    (m : Mask) (a b c d e f g h : ℕ) (rest : Bytes)
    → IsKey m
    → a < 256
    → b < 256
    → c < 256
    → d < 256
    → e < 256
    → f < 256
    → g < 256
    → h < 256
    → to_ne_bytes (bit_xor (from_ne_bytes a b c d e f g h) (key_word m)) ++ rest
      ≡ bit_xor a m.m0
        ∷ bit_xor b m.m1
        ∷ bit_xor c m.m2
        ∷ bit_xor d m.m3
        ∷ bit_xor e m.m0
        ∷ bit_xor f m.m1
        ∷ bit_xor g m.m2
        ∷ bit_xor h m.m3
        ∷ rest
word_step m a b c d e f g h rest k ha hb hc hd he hf hg hh = rw (
  xor_word a b c d e f g h m.m0 m.m1 m.m2 m.m3 m.m0 m.m1 m.m2 m.m3 ha hb hc hd he hf hg k.k0 k.k1
      k.k2 k.k3 k.k0 k.k1 k.k2,
  word_bytes (bit_xor a m.m0) (bit_xor b m.m1) (bit_xor c m.m2) (bit_xor d m.m3) (bit_xor e m.m0)
      (bit_xor f m.m1) (bit_xor g m.m2) (bit_xor h m.m3) (byte_xor a m.m0 ha k.k0)
      (byte_xor b m.m1 hb k.k1) (byte_xor c m.m2 hc k.k2) (byte_xor d m.m3 hd k.k3)
      (byte_xor e m.m0 he k.k0) (byte_xor f m.m1 hf k.k1) (byte_xor g m.m2 hg k.k2)
      (byte_xor h m.m3 hh k.k3),
)

octet_next : (m : Mask) (i k : ℕ) → i % 4 ≡ k → octet m (i % 4) ≡ octet m k
octet_next m i k e = ap (octet m) e

mask_bytes_eight :
    (m : Mask) (i : ℕ) (a b c d e f g h : ℕ) (rest : Bytes)
    → i % 4 ≡ 0
    → mask_bytes m i (a ∷ b ∷ c ∷ d ∷ e ∷ f ∷ g ∷ h ∷ rest)
      ≡ bit_xor a m.m0
        ∷ bit_xor b m.m1
        ∷ bit_xor c m.m2
        ∷ bit_xor d m.m3
        ∷ bit_xor e m.m0
        ∷ bit_xor f m.m1
        ∷ bit_xor g m.m2
        ∷ bit_xor h m.m3
        ∷ mask_bytes m (i + 1 + 1 + 1 + 1 + 1 + 1 + 1 + 1) rest
unfolding mask_bytes octet
mask_bytes_eight m i a b c d e f g h rest z =
    let e1 : (i + 1) % 4 ≡ 1 = omega arith in
    let e2 : (i + 1 + 1) % 4 ≡ 2 = omega arith in
    let e3 : (i + 1 + 1 + 1) % 4 ≡ 3 = omega arith in
    let e4 : (i + 1 + 1 + 1 + 1) % 4 ≡ 0 = omega arith in
    let e5 : (i + 1 + 1 + 1 + 1 + 1) % 4 ≡ 1 = omega arith in
    let e6 : (i + 1 + 1 + 1 + 1 + 1 + 1) % 4 ≡ 2 = omega arith in
    let e7 : (i + 1 + 1 + 1 + 1 + 1 + 1 + 1) % 4 ≡ 3 = omega arith in
    rw (z, e1, e2, e3, e4, e5, e6, e7)

unmask_words_lem :
    (m : Mask) (i : ℕ) (s : Bytes)
    → IsKey m
    → All IsByte s
    → i % 4 ≡ 0
    → unmask_words m (key_word m) s ≡ mask_bytes m i s
unfolding unmask_words
unmask_words_lem m i (a ∷ b ∷ c ∷ d ∷ e ∷ f ∷ g ∷ h ∷ rest) k
      (ha, (hb, (hc, (hd, (he, (hf, (hg, (hh, hs)))))))) z =
    word_step m a b c d e f g h (unmask_words m (key_word m) rest) k ha hb hc hd he hf hg hh
    ∙ rw (unmask_words_lem m (i + 1 + 1 + 1 + 1 + 1 + 1 + 1 + 1) rest k hs (omega arith))
        (sym (mask_bytes_eight m i a b c d e f g h rest z))
unmask_words_lem m i s k hs z = unmask_rest_lem m 0 i s (omega arith)

-- The word-at-a-time loop applies octet i mod 4 of the key to octet i of the payload, for a key and a
-- payload of bytes.
pub unmask-eq-mask_bytes :
    (m : Mask) (s : Bytes) → IsKey m → All IsByte s → unmask m s ≡ mask_bytes m 0 s
unfolding unmask
unmask-eq-mask_bytes m s k h = unmask_words_lem m 0 s k h refl

octet-IsByte : (m : Mask) (i : ℕ) → IsKey m → octet m i < 256
unfolding octet
octet-IsByte m zero k = k.k0
octet-IsByte m (suc zero) k = k.k1
octet-IsByte m (suc (suc zero)) k = k.k2
octet-IsByte m (suc (suc (suc i))) k = k.k3

mask_bytes_shape :
    (m : Mask) (i : ℕ) (s : Bytes)
    → IsKey m
    → All IsByte s
    → All IsByte (mask_bytes m i s) × (mask_bytes m i (mask_bytes m i s) ≡ s)
unfolding mask_bytes
mask_bytes_shape m i [] k h = (tt, refl)
mask_bytes_shape m i (b ∷ s) k (hb, hs) =
    let (bytes, back) = mask_bytes_shape m (i + 1) s k hs in
    let o = octet-IsByte m (i % 4) k in
    ((byte_xor b _ hb o, bytes), ap₂ ◌∷◌ (bit_xor_twice b _ hb o) back)

pub length-mask_bytes : (m : Mask) (i : ℕ) (s : Bytes) → length (mask_bytes m i s) ≡ length s
unfolding mask_bytes
length-mask_bytes m i [] = refl
length-mask_bytes m i (b ∷ s) = ap suc (length-mask_bytes m (i + 1) s)

-- Unmasking a payload that was masked with the same key gives the payload back, for a key and a
-- payload of bytes.
pub unmask-mask_bytes :
    (m : Mask) (s : Bytes) → IsKey m → All IsByte s → unmask m (mask_bytes m 0 s) ≡ s
unmask-mask_bytes m s k h =
    let (bytes, back) = mask_bytes_shape m 0 s k h in
    unmask-eq-mask_bytes m (mask_bytes m 0 s) k bytes ∙ back
