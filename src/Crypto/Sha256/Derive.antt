-- ===== src/Crypto/Sha256/Derive.antt =====
-- crates/sutegi-crypto/src/lib.rs: how many bytes `hkdf_sha256` derives.
use sutegi.Base.{
  ℕ, zero, suc, ◌+◌, ◌*◌, ◌%◌, ◌^◌, ◌≡◌, ◌↔◌, ◌≤◌, ◌<◌, refl, arith, Bool, true, false, ◌&&◌, [],
  ◌∷◌, ◌++◌, Bytes, ltb, leb, length, length-append, length-take, if_rule, ltb→lt, leb→le,
}
use mathlib.Core.Path.{subst}
use sutegi.Crypto.Sha256.Keyed.{
  hmac_sha256, Derived, derived, panicked, out_of_fuel, hkdf_loop, hkdf_sha256, length-hmac_sha256,
}

-- An answer of so many bytes.
abbrev pub HasLength : ℕ → Derived → Type 0
HasLength len (derived okm) = length okm ≡ len
HasLength len panicked = ⊥
HasLength len out_of_fuel = ⊥

ltb-false : (a b : ℕ) → ltb a b ≡ false → b ≤ a
ltb-false a b h = ground arith

hkdf_loop-HasLength :
    (checks : Bool) (n fuel len : ℕ) (prk info prev : Bytes) (i : ℕ) (okm : Bytes)
    → len ≤ length okm + 32 * n
    → n < fuel
    → i + n ≤ 255
    → HasLength len (hkdf_loop checks fuel len prk info prev i okm)
unfolding hkdf_loop
hkdf_loop-HasLength checks n zero len prk info prev i okm h f g = omega arith
hkdf_loop-HasLength checks zero (suc fuel) len prk info prev i okm h f g =
    if_rule (HasLength len) (ltb (length okm) len) _ _
      (λ short. absurd (let s : _ = ltb→lt (length okm) len short in omega arith))
      (λ full. omega (arith, length-take len okm))
hkdf_loop-HasLength checks (suc n) (suc fuel) len prk info prev i okm h f g =
    let block : Bytes = hmac_sha256 prk (prev ++ info ++ i ∷ []) in
    let size : length block ≡ 32 = length-hmac_sha256 prk (prev ++ info ++ i ∷ []) in
    let sum : length (okm ++ block) ≡ length okm + length block = length-append okm block in
    if_rule (HasLength len) (ltb (length okm) len) _ _
      (λ short.
        if_rule (HasLength len) (checks && leb 255 i) _ _
          (λ over. absurd (let no : ⊥ = ground arith in no))
          (λ _.
            hkdf_loop-HasLength checks n fuel len prk info block ((i + 1) % 2 ^ 8) (okm ++ block)
              (omega arith) (omega arith) (omega arith)))
      (λ full.
        let enough : len ≤ length okm = ltb-false (length okm) len full in
        omega (arith, length-take len okm))

-- Up to 254 blocks of 32 bytes, `hkdf_sha256` answers with the bytes asked for.
pub hkdf_sha256-HasLength :
    (checks : Bool) (ikm salt info : Bytes) (len : ℕ)
    → len ≤ 8128
    → HasLength len (hkdf_sha256 checks ikm salt info len)
unfolding hkdf_sha256
hkdf_sha256-HasLength checks ikm salt info len h =
    if_rule (HasLength len) (leb len (255 * 32)) _ _
      (λ _.
        hkdf_loop-HasLength checks 254 256 len _ info [] 1 [] (omega arith) (omega arith)
          (omega arith))
      (λ big. absurd (let no : ⊥ = ground arith in no))

hkdf_loop-panicked :
    (n fuel len : ℕ) (prk info prev : Bytes) (i : ℕ) (okm : Bytes)
    → length okm + 32 * n ≡ 8128
    → 8128 < len
    → n < fuel
    → i + n ≡ 255
    → hkdf_loop true fuel len prk info prev i okm ≡ panicked
unfolding hkdf_loop
hkdf_loop-panicked n zero len prk info prev i okm l h f g = absurd (omega arith)
hkdf_loop-panicked zero (suc fuel) len prk info prev i okm l h f g =
    if_rule (λ t. t ≡ panicked) (ltb (length okm) len) _ _
      (λ _.
        if_rule (λ t. t ≡ panicked) (leb 255 i) _ _ (λ _. refl)
          (λ no. absurd (let n : ⊥ = ground arith in n)))
      (λ full.
        absurd (let enough : len ≤ length okm = ltb-false (length okm) len full in omega arith))
hkdf_loop-panicked (suc n) (suc fuel) len prk info prev i okm l h f g =
    let block : Bytes = hmac_sha256 prk (prev ++ info ++ i ∷ []) in
    let size : length block ≡ 32 = length-hmac_sha256 prk (prev ++ info ++ i ∷ []) in
    let sum : length (okm ++ block) ≡ length okm + length block = length-append okm block in
    if_rule (λ t. t ≡ panicked) (ltb (length okm) len) _ _
      (λ _.
        if_rule (λ t. t ≡ panicked) (leb 255 i) _ _ (λ _. refl)
          (λ _.
            hkdf_loop-panicked n fuel len prk info block ((i + 1) % 2 ^ 8) (okm ++ block)
              (omega arith) h (omega arith) (omega arith)))
      (λ full.
        absurd (let enough : len ≤ length okm = ltb-false (length okm) len full in omega arith))

-- Where overflow is checked, the program stops exactly on more than 8128 bytes, although 8160 are allowed.
pub hkdf_sha256-panicked_iff :
    (ikm salt info : Bytes) (len : ℕ)
    → (hkdf_sha256 true ikm salt info len ≡ panicked) ↔ (8128 < len)
hkdf_sha256-panicked_iff ikm salt info len = (only, stops)
  where
    stops : 8128 < len → hkdf_sha256 true ikm salt info len ≡ panicked
    stops h =
        unfold hkdf_sha256 in
        if_rule (λ t. t ≡ panicked) (leb len (255 * 32)) _ _
          (λ _.
            hkdf_loop-panicked 254 256 len _ info [] 1 [] (omega arith) h (omega arith)
              (omega arith))
          (λ _. refl)

    only : hkdf_sha256 true ikm salt info len ≡ panicked → 8128 < len
    only e =
        if_rule (λ (t : Bool). 8128 < len) (leb len 8128) true false
          (λ small. absurd (
            subst (HasLength len) e
              (hkdf_sha256-HasLength true ikm salt info len (leb→le len 8128 small))))
          (λ big. ground arith)
