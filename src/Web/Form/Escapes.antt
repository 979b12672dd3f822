-- ===== src/Web/Form/Escapes.antt =====
-- crates/sutegi-web/src/lib.rs: the form decoder and the texts that stand for given bytes.
use sutegi.Base.{
  ℕ, zero, suc, ◌+◌, ◌*◌, ◌/◌, ◌%◌, ◌≡◌, ◌≢◌, ◌⊎◌, inl, inr, refl, sym, ap, ◌∙◌, arith, some, [],
  ◌∷◌, Bytes, codes, get_elem?,
}
use sutegi.Web.Form.{hex_val, hex_pair, decode_bytes}

-- The digit of a number below 16, in lower or upper case.
abbrev pub IsHexDigit : ℕ → ℕ → Type 0
IsHexDigit c v =
    (get_elem? (codes "0123456789abcdef") v ≡ some c)
    ⊎ (get_elem? (codes "0123456789ABCDEF") v ≡ some c)

-- A text stands for bytes: a space is `+`, any byte may be `%` and its two hex digits, each of either case, and a
-- byte that is neither `+` nor `%` may stand for itself.
pub data Encodes : Bytes → Bytes → Type 0 where
  done : Encodes [] []
  plain : {e s : Bytes} (b : ℕ) → b ≢ b'+' → b ≢ b'%' → Encodes e s → Encodes (b ∷ e) (b ∷ s)
  space : {e s : Bytes} → Encodes e s → Encodes (b'+' ∷ e) (b' ' ∷ s)
  escaped :
      {e s : Bytes} (b h l : ℕ)
      → IsHexDigit h (b / 16)
      → IsHexDigit l (b % 16)
      → Encodes e s
      → Encodes (b'%' ∷ h ∷ l ∷ e) (b ∷ s)

-- The decoder reads the digits of a table as its positions.
abbrev Reads : ℕ → Bytes → Type 0
Reads n [] = Unit
Reads n (c ∷ digits) = (hex_val c ≡ some n) × Reads (suc n) digits

read_at :
    (n : ℕ) (digits : Bytes) (v c : ℕ)
    → Reads n digits
    → get_elem? digits v ≡ some c
    → hex_val c ≡ some (n + v)
read_at n [] v c r e = cc
read_at n (x ∷ digits) zero c (here, r) e =
    let same : x ≡ c = cc in
    ap hex_val (sym same) ∙ here ∙ ap some (let m : n ≡ n + 0 = omega arith in m)
read_at n (x ∷ digits) (suc v) c (here, r) e =
    read_at (suc n) digits v c r e ∙ ap some (let m : suc n + v ≡ n + suc v = omega arith in m)

hex_val-IsHexDigit : (c v : ℕ) → IsHexDigit c v → hex_val c ≡ some v
unfolding hex_val
hex_val-IsHexDigit c v (inl e) =
    read_at 0 (codes "0123456789abcdef") v c
      (
        refl,
        (
          refl,
          (
            refl,
            (
              refl,
              (
                refl,
                (
                  refl,
                  (
                    refl,
                    (refl, (refl, (refl, (refl, (refl, (refl, (refl, (refl, (refl, tt))))))))),
                  ),
                ),
              ),
            ),
          ),
        ),
      )
      e
    ∙ ap some (let m : 0 + v ≡ v = omega arith in m)
hex_val-IsHexDigit c v (inr e) =
    read_at 0 (codes "0123456789ABCDEF") v c
      (
        refl,
        (
          refl,
          (
            refl,
            (
              refl,
              (
                refl,
                (
                  refl,
                  (
                    refl,
                    (refl, (refl, (refl, (refl, (refl, (refl, (refl, (refl, (refl, tt))))))))),
                  ),
                ),
              ),
            ),
          ),
        ),
      )
      e
    ∙ ap some (let m : 0 + v ≡ v = omega arith in m)

plain_step : (b : ℕ) (e : Bytes) → b ≢ b'+' → b ≢ b'%' → decode_bytes (b ∷ e) ≡ b ∷ decode_bytes e
unfolding decode_bytes
plain_step b [] p q = ground arith
plain_step b (h ∷ []) p q = ground arith
plain_step b (h ∷ l ∷ e) p q = ground arith

space_step : (e : Bytes) → decode_bytes (b'+' ∷ e) ≡ b' ' ∷ decode_bytes e
unfolding decode_bytes
space_step [] = refl
space_step (h ∷ []) = refl
space_step (h ∷ l ∷ e) = refl

escaped_step :
    (b h l : ℕ) (e : Bytes)
    → IsHexDigit h (b / 16)
    → IsHexDigit l (b % 16)
    → decode_bytes (b'%' ∷ h ∷ l ∷ e) ≡ b ∷ decode_bytes e
unfolding decode_bytes hex_pair
escaped_step b h l e p q =
    rw (hex_val-IsHexDigit h (b / 16) p, hex_val-IsHexDigit l (b % 16) q)
      (ap (λ v. v ∷ decode_bytes e) (let whole : b / 16 * 16 + b % 16 ≡ b = omega arith in whole))

-- Every text that stands for given bytes is decoded to those bytes, however it writes them.
pub decode_bytes-Encodes : {e s : Bytes} → Encodes e s → decode_bytes e ≡ s
decode_bytes-Encodes Encodes.done = unfold decode_bytes in refl
decode_bytes-Encodes (Encodes.plain {e} b p q m) =
    plain_step b e p q ∙ ap (λ r. b ∷ r) (decode_bytes-Encodes m)
decode_bytes-Encodes (Encodes.space {e} m) =
    space_step e ∙ ap (λ r. b' ' ∷ r) (decode_bytes-Encodes m)
decode_bytes-Encodes (Encodes.escaped {e} b h l p q m) =
    escaped_step b h l e p q ∙ ap (λ r. b ∷ r) (decode_bytes-Encodes m)
