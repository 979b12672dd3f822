-- ===== src/Crypto/Compare.antt =====
-- crates/sutegi-crypto/src/lib.rs: the comparison without an early exit.
use sutegi.Base.{
  ℕ, ◌/◌, ◌<◌, ◌≡◌, ◌↔◌, refl, arith, bit_or, bit_xor, true, [], ◌∷◌, Bytes, IsByte, All, length,
}
use sutegi.Base.Bits.{bit_or-lt, bit_or-zero_iff, bit_xor-lt, bit_xor_self, eq_of_bit_xor}
use sutegi.Crypto.{diff_loop, constant_time_eq}

byte_of_quotient : (n : ℕ) → n / 256 ≡ 0 → n < 256
byte_of_quotient n h = omega arith

step-IsByte : (diff x y : ℕ) → diff < 256 → x < 256 → y < 256 → bit_or diff (bit_xor x y) < 256
step-IsByte diff x y p q r =
    byte_of_quotient _ (bit_or-lt diff (bit_xor x y) p (byte_of_quotient _ (bit_xor-lt x y q r)))

diff_loop-zero :
    (diff : ℕ) (xs ys : Bytes)
    → diff < 256
    → All IsByte xs
    → All IsByte ys
    → length xs ≡ length ys
    → diff_loop diff xs ys ≡ 0
    → (diff ≡ 0) × (xs ≡ ys)
unfolding diff_loop
diff_loop-zero diff [] [] p hx hy e z = (z, refl)
diff_loop-zero diff [] (y ∷ ys) p hx hy e z = absurd (omega arith)
diff_loop-zero diff (x ∷ xs) [] p hx hy e z = absurd (omega arith)
diff_loop-zero diff (x ∷ xs) (y ∷ ys) p (hx, hxs) (hy, hys) e z =
    let (now, same) =
      diff_loop-zero (bit_or diff (bit_xor x y)) xs ys (step-IsByte diff x y p hx hy) hxs hys
        (omega arith) z in
    let (d, w) =
      (bit_or-zero_iff diff (bit_xor x y) p (byte_of_quotient _ (bit_xor-lt x y hx hy))).0 now in
    (d, cc (same, eq_of_bit_xor x y hx hy w))

diff_loop_self : (xs : Bytes) → All IsByte xs → diff_loop 0 xs xs ≡ 0
unfolding diff_loop
diff_loop_self [] h = refl
diff_loop_self (x ∷ xs) (p, h) =
    let e : bit_xor x x ≡ 0 = bit_xor_self x p in
    let z : bit_or 0 0 ≡ 0 = refl in rw (e, z) (diff_loop_self xs h)

-- On byte strings the comparison answers true exactly when they are equal.
pub constant_time_eq_iff :
    (xs ys : Bytes) → All IsByte xs → All IsByte ys → (constant_time_eq xs ys ≡ true) ↔ (xs ≡ ys)
unfolding constant_time_eq
constant_time_eq_iff xs ys hx hy = (to, from)
  where
    to : constant_time_eq xs ys ≡ true → xs ≡ ys
    to h = (diff_loop-zero 0 xs ys (omega arith) hx hy (ground arith) (ground arith)).1

    from : xs ≡ ys → constant_time_eq xs ys ≡ true
    from e = rw (← e) (ground (arith, diff_loop_self xs hx))
