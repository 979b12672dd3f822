-- ===== src/Crypto/Sha256/Keyed.antt =====
-- crates/sutegi-crypto/src/lib.rs: HMAC, PBKDF2 and HKDF over SHA-256. `overflow_checks` says whether the
-- program was built to stop where `i += 1` passes 255, as a debug build is.
use sutegi.Base.{
  All, All-append, IsByte, ℕ, zero, suc, ◌+◌, ◌-◌, ◌*◌, ◌%◌, ◌^◌, ◌≡◌, ◌<◌, map, true, false, refl,
  sym, ap, ◌∙◌, arith, bit_xor, Bool, ◌&&◌, [], ◌∷◌, ◌++◌, Bytes, ltb, leb, if◌then◌else◌, length,
  take,
}
use sutegi.Crypto.Sha256.{Words, Sha256, new, update, to_be_bytes, word_bytes, finalize, sha256}
use sutegi.Crypto.Sha256.Streaming.{update-update}

unfoldable pub xor_with : ℕ → Bytes → Bytes
xor_with m [] = []
xor_with m (b ∷ bs) = bit_xor m b ∷ xor_with m bs

-- A slice copied to the front of `n` zeros.
unfoldable pub copied : ℕ → Bytes → Bytes
copied zero s = []
copied (suc n) [] = 0 ∷ copied n []
copied (suc n) (b ∷ s) = b ∷ copied n s

unfoldable pub block_key : Bytes → Bytes
block_key key = if ltb 64 (length key) then copied 64 (sha256 key) else copied 64 key

unfoldable pub hmac_sha256 : Bytes → Bytes → Bytes
hmac_sha256 key msg =
    let k : Bytes = block_key key in
    let inner_hash : Bytes = finalize (update msg (update (xor_with 0x36 k) new)) in
    finalize (update inner_hash (update (xor_with 0x5c k) new))

unfoldable pub xor_bytes : Bytes → Bytes → Bytes
xor_bytes (r ∷ rs) (x ∷ xs) = bit_xor r x ∷ xor_bytes rs xs
xor_bytes rs _ = rs

unfoldable pub iterate : Bytes → ℕ → Bytes → Bytes → Bytes
iterate password zero u result = result
iterate password (suc n) u result =
    let u' = hmac_sha256 password u in iterate password n u' (xor_bytes result u')

unfoldable pub pbkdf2_hmac_sha256 : Bytes → Bytes → ℕ → Bytes
pbkdf2_hmac_sha256 password salt iterations =
    let u : Bytes = hmac_sha256 password (salt ++ to_be_bytes 4 1) in
    iterate password (iterations - 1) u u

pub data Derived : Type 0 where
  derived : Bytes → Derived
  panicked : Derived
  out_of_fuel : Derived

-- The loop of `hkdf_sha256`; `prev` is empty before the first block.
unfoldable pub hkdf_loop : Bool → ℕ → ℕ → Bytes → Bytes → Bytes → ℕ → Bytes → Derived
hkdf_loop overflow_checks zero len prk info prev i okm = out_of_fuel
hkdf_loop overflow_checks (suc fuel) len prk info prev i okm =
    let block : Bytes = hmac_sha256 prk (prev ++ info ++ i ∷ []) in
    let more = hkdf_loop overflow_checks fuel len prk info block ((i + 1) % 2 ^ 8) (okm ++ block) in
    if ltb (length okm) len
    then (if overflow_checks && leb 255 i then panicked else more)
    else derived (take len okm)

-- 256 rounds are enough for 8160 bytes.
unfoldable pub hkdf_sha256 : Bool → Bytes → Bytes → Bytes → ℕ → Derived
hkdf_sha256 overflow_checks ikm salt info len =
    if leb len (255 * 32)
    then hkdf_loop overflow_checks 256 len (hmac_sha256 salt ikm) info [] 1 []
    else panicked

length-word_bytes : (w : Words) → length (word_bytes w) ≡ 32
unfolding word_bytes to_be_bytes
length-word_bytes w = refl

length-sha256 : (s : Bytes) → length (sha256 s) ≡ 32
unfolding sha256 finalize
length-sha256 s = length-word_bytes _

abbrev pub zero_filled : ℕ → Bytes → Bytes
zero_filled zero key = key
zero_filled (suc n) key = zero_filled n key ++ 0 ∷ []

copied-nil : (n : ℕ) → copied n [] ≡ zero_filled n []
unfolding copied
copied-nil zero = refl
copied-nil (suc n) = ap (λ z. 0 ∷ z) (copied-nil n) ∙ shifted n
  where
    shifted : (n : ℕ) → 0 ∷ zero_filled n [] ≡ zero_filled n [] ++ 0 ∷ []
    shifted zero = refl
    shifted (suc n) = ap (λ z. z ++ 0 ∷ []) (shifted n)

zero_filled-cons : (n b : ℕ) (s : Bytes) → zero_filled n (b ∷ s) ≡ b ∷ zero_filled n s
zero_filled-cons zero b s = refl
zero_filled-cons (suc n) b s = ap (λ z. z ++ 0 ∷ []) (zero_filled-cons n b s)

copied-zero_filled : (n : ℕ) (s : Bytes) → copied (n + length s) s ≡ zero_filled n s
unfolding copied
copied-zero_filled n [] = (let e : n + 0 ≡ n = omega arith in rw e (copied-nil n))
copied-zero_filled n (b ∷ s) =
    let e : n + suc (length s) ≡ suc (n + length s) = omega arith in
    rw e (ap (λ z. b ∷ z) (copied-zero_filled n s)) ∙ sym (zero_filled-cons n b s)

xor_with-map : (m : ℕ) (s : Bytes) → xor_with m s ≡ map (bit_xor m) s
unfolding xor_with
xor_with-map m [] = refl
xor_with-map m (b ∷ s) = ap (λ z. bit_xor m b ∷ z) (xor_with-map m s)

-- RFC 2104, section 2: the key, or the hash of a key of more than 64 bytes, with zeros behind it to 64 bytes.
pub data IsPadded (key : Bytes) : Bytes → Type 0 where
  whole : (zeros : ℕ) → zeros + length key ≡ 64 → IsPadded key (zero_filled zeros key)
  hashed : 64 < length key → IsPadded key (zero_filled 32 (sha256 key))

block_key-IsPadded : (key k : Bytes) → IsPadded key k → block_key key ≡ k
unfolding block_key
block_key-IsPadded key k (whole n e) =
    let fits : ltb 64 (length key) ≡ false = ground arith in
    rw fits (rw⁻¹ e (copied-zero_filled n key))
block_key-IsPadded key k (hashed h) =
    let long : ltb 64 (length key) ≡ true = ground arith in
    rw long (
      let e : 32 + length (sha256 key) ≡ 64 = omega (arith, length-sha256 key) in
      rw⁻¹ e (copied-zero_filled 32 (sha256 key)))

nested :
    (key msg : Bytes)
    → hmac_sha256 key msg
      ≡ sha256 (xor_with 0x5c (block_key key) ++ sha256 (xor_with 0x36 (block_key key) ++ msg))
unfolding hmac_sha256 sha256
nested key msg =
    let k : Bytes = block_key key in
    update_new (xor_with 0x5c k) _
    ∙ ap (λ h. finalize (update (xor_with 0x5c k ++ h) new)) (update_new (xor_with 0x36 k) msg)
  where
    update_new : (a b : Bytes) → finalize (update b (update a new)) ≡ finalize (update (a ++ b) new)
    update_new a b = ap finalize (update-update a b new (omega arith))

-- The keyed hash is the nested hash of RFC 2104: of the padded key, each byte with 0x5c, before the hash of the
-- padded key, each byte with 0x36, and the message; a key of more than 64 bytes is hashed before it is padded.
pub hmac_sha256_lem :
    (key k msg : Bytes)
    → IsPadded key k
    → hmac_sha256 key msg ≡ sha256 (map (bit_xor 0x5c) k ++ sha256 (map (bit_xor 0x36) k ++ msg))
hmac_sha256_lem key k msg h =
    nested key msg
    ∙ ap (λ b. sha256 (xor_with 0x5c b ++ sha256 (xor_with 0x36 b ++ msg)))
        (block_key-IsPadded key k h)
    ∙ ap (λ o. sha256 (o ++ sha256 (xor_with 0x36 k ++ msg))) (xor_with-map 0x5c k)
    ∙ ap (λ i. sha256 (map (bit_xor 0x5c) k ++ sha256 (i ++ msg))) (xor_with-map 0x36 k)

pub length-hmac_sha256 : (key msg : Bytes) → length (hmac_sha256 key msg) ≡ 32
unfolding hmac_sha256 finalize
length-hmac_sha256 key msg = length-word_bytes _

to_be_bytes-IsByte : (n x : ℕ) → All IsByte (to_be_bytes n x)
unfolding to_be_bytes
to_be_bytes-IsByte zero x = tt
to_be_bytes-IsByte (suc n) x = (omega arith, to_be_bytes-IsByte n x)

word_bytes-IsByte : (w : Words) → All IsByte (word_bytes w)
unfolding word_bytes
word_bytes-IsByte w =
    both _ _
      (both _ _
        (both _ _
          (both _ _ (both _ _ (both _ _ (both _ _ (word w.v0) (word w.v1)) (word w.v2)) (word w.v3))
            (word w.v4))
          (word w.v5))
        (word w.v6))
      (word w.v7)
  where
    word : (x : ℕ) → All IsByte (to_be_bytes 4 x)
    word x = to_be_bytes-IsByte 4 x

    both : (a b : Bytes) → All IsByte a → All IsByte b → All IsByte (a ++ b)
    both a b = All-append IsByte a b

finalize-IsByte : (s : Sha256) → All IsByte (finalize s)
unfolding finalize
finalize-IsByte s = word_bytes-IsByte _

pub hmac_sha256-IsByte : (key msg : Bytes) → All IsByte (hmac_sha256 key msg)
unfolding hmac_sha256
hmac_sha256-IsByte key msg = finalize-IsByte _
