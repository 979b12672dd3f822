-- ===== src/Crypto/Sha256/Streaming.antt =====
-- crates/sutegi-crypto/src/lib.rs: a message hashed in pieces, and the hash of the standard.
use sutegi.Base.{
  ℕ, zero, suc, ◌+◌, ◌-◌, ◌*◌, ◌%◌, ◌^◌, ◌≡◌, ◌<◌, refl, sym, ap, ◌∙◌, arith, List, [], ◌∷◌, ◌++◌,
  Bytes, ◌==◌, length, length-append, append_assoc, append-nil, All, if_rule,
}
use mathlib.Core.Path.{subst}
use sutegi.Crypto.Sha256.{
  Words, sha256_init, sha256_compress, Sha256, new, absorb, update, to_be_bytes, pad_loop,
  word_bytes, finalize,
}
use sutegi.Crypto.Sha256.Blocks.{
  consume, consume_short, consume_block, consume-append, consume-length, update_lem,
}

-- A hasher after the message `m`.
record Hashes (s : Sha256) (m : Bytes) : Type 0 where
  state : consume sha256_init m ≡ (s.h, s.buf)
  total : s.total_len ≡ length m % 2 ^ 64

new-Hashes : Hashes new []
new-Hashes = record { state = consume_short sha256_init [] (omega arith); total = refl }

pending : (s : Sha256) (m : Bytes) → Hashes s m → length s.buf ≡ length m % 64
pending s m k = ap (λ r. length r.1) (sym k.state) ∙ consume-length sha256_init m

update-Hashes : (d : Bytes) (s : Sha256) (m : Bytes) → Hashes s m → Hashes (update d s) (m ++ d)
update-Hashes d s m k =
    let size : length s.buf ≡ length m % 64 = pending s m k in
    let sum : _ = length-append m d in
    let t : s.total_len ≡ length m % 2 ^ 64 = k.total in
    subst (λ s'. Hashes s' (m ++ d)) (sym (update_lem d s (omega arith)))
      (unfold absorb in
        record {
          state = consume-append sha256_init m d ∙ ap (λ r. consume r.0 (r.1 ++ d)) k.state;
          total = omega arith;
        })

-- Pieces given in order.
abbrev pub feed : List Bytes → Sha256 → Sha256
feed [] s = s
feed (d ∷ ds) s = feed ds (update d s)

abbrev pub concat : List Bytes → Bytes
concat [] = []
concat (d ∷ ds) = d ++ concat ds

abbrev pub zeros : ℕ → Bytes
zeros zero = []
zeros (suc n) = 0 ∷ zeros n

-- The padded message of the standard.
abbrev pub padded : Bytes → Bytes
padded m = m ++ 0x80 ∷ (zeros ((119 - length m % 64) % 64) ++ to_be_bytes 8 (length m * 8 % 2 ^ 64))

abbrev pub fold_blocks : Words → List Bytes → Words
fold_blocks h [] = h
fold_blocks h (b ∷ bs) = fold_blocks (sha256_compress h b) bs

feed-Hashes :
    (ds : List Bytes) (s : Sha256) (m : Bytes) → Hashes s m → Hashes (feed ds s) (m ++ concat ds)
feed-Hashes [] s m k = subst (Hashes s) (sym (append-nil m)) k
feed-Hashes (d ∷ ds) s m k =
    subst (Hashes _) (append_assoc m d (concat ds))
      (feed-Hashes ds (update d s) (m ++ d) (update-Hashes d s m k))

pad_loop-Hashes :
    (k fuel : ℕ) (s : Sha256) (m : Bytes)
    → (length m + k) % 64 ≡ 56
    → k < 64
    → k < fuel
    → Hashes s m
    → Hashes (pad_loop fuel s) (m ++ zeros k)
unfolding pad_loop
pad_loop-Hashes k zero s m e p q h = absurd (omega arith)
pad_loop-Hashes zero (suc fuel) s m e p q h =
    let size : length s.buf ≡ length m % 64 = pending s m h in
    if_rule (λ t. Hashes t (m ++ [])) (length s.buf == 56) s _
      (λ _. subst (Hashes s) (sym (append-nil m)) h) (λ no. absurd (let n : ⊥ = ground arith in n))
pad_loop-Hashes (suc k) (suc fuel) s m e p q h =
    let size : length s.buf ≡ length m % 64 = pending s m h in
    let sum : length (m ++ 0 ∷ []) ≡ length m + 1 = length-append m (0 ∷ []) in
    if_rule (λ t. Hashes t (m ++ zeros (suc k))) (length s.buf == 56) s
      (pad_loop fuel (update (0 ∷ []) s)) (λ yes. absurd (let n : ⊥ = ground arith in n))
      (λ _. subst (Hashes _) (append_assoc m (0 ∷ []) (zeros k)) (
        pad_loop-Hashes k fuel (update (0 ∷ []) s) (m ++ 0 ∷ []) (omega arith) (omega arith)
          (omega arith) (update-Hashes (0 ∷ []) s m h)))

finalize-Hashes :
    (s : Sha256) (m : Bytes)
    → Hashes s m
    → finalize s ≡ word_bytes ((consume sha256_init (padded m)).0)
unfolding finalize
finalize-Hashes s m k =
    let z : ℕ = (119 - length m % 64) % 64 in
    let bits : Bytes = to_be_bytes 8 (length m * 8 % 2 ^ 64) in
    let t : s.total_len ≡ length m % 2 ^ 64 = k.total in
    let sum : length (m ++ 0x80 ∷ []) ≡ length m + 1 = length-append m (0x80 ∷ []) in
    let length_bits : s.total_len * 8 % 2 ^ 64 ≡ length m * 8 % 2 ^ 64 = omega arith in
    let filled : Hashes (pad_loop 64 (update (0x80 ∷ []) s)) ((m ++ 0x80 ∷ []) ++ zeros z) =
      pad_loop-Hashes z 64 _ _ (omega arith) (omega arith) (omega arith)
        (update-Hashes (0x80 ∷ []) s m k) in
    let whole : Hashes (update bits (pad_loop 64 (update (0x80 ∷ []) s)))
        (((m ++ 0x80 ∷ []) ++ zeros z) ++ bits) =
      update-Hashes bits _ _ filled in
    let text : ((m ++ 0x80 ∷ []) ++ zeros z) ++ bits ≡ padded m =
      append_assoc (m ++ 0x80 ∷ []) (zeros z) bits ∙ append_assoc m (0x80 ∷ []) (zeros z ++ bits) in
    ap (λ n. word_bytes ((update (to_be_bytes 8 n) (pad_loop 64 (update (0x80 ∷ []) s))).h))
      length_bits
    ∙ ap (λ r. word_bytes r.0) (sym whole.state)
    ∙ ap (λ t. word_bytes ((consume sha256_init t).0)) text

consume-concat :
    (h : Words) (blocks : List Bytes)
    → All (λ b. length b ≡ 64) blocks
    → (consume h (concat blocks)).0 ≡ fold_blocks h blocks
consume-concat h [] p = ap (λ r. r.0) (consume_short h [] (omega arith))
consume-concat h (b ∷ blocks) (e, p) =
    ap (λ r. r.0) (consume_block h b (concat blocks) e)
    ∙ consume-concat (sha256_compress h b) blocks p

-- Whatever pieces a message is hashed in, the digest is that of the standard: the blocks of 64 bytes that the
-- padded message is cut into, compressed one after the other from the initial words.
pub finalize-feed :
    (chunks blocks : List Bytes)
    → All (λ b. length b ≡ 64) blocks
    → concat blocks ≡ padded (concat chunks)
    → finalize (feed chunks new) ≡ word_bytes (fold_blocks sha256_init blocks)
finalize-feed chunks blocks p e =
    finalize-Hashes _ (concat chunks) (feed-Hashes chunks new [] new-Hashes)
    ∙ ap (λ t. word_bytes ((consume sha256_init t).0)) (sym e)
    ∙ ap word_bytes (consume-concat sha256_init blocks p)

-- Two updates are one with both pieces, where the hasher has less than a block pending.
pub update-update :
    (a b : Bytes) (s : Sha256) → length s.buf < 64 → update b (update a s) ≡ update (a ++ b) s
unfolding absorb
update-update a b s p =
    let t : ℕ = (s.total_len + length a) % 2 ^ 64 in
    let first : Sha256 = absorb s.h (s.buf ++ a) t in
    let size : length first.buf ≡ length (s.buf ++ a) % 64 = consume-length s.h (s.buf ++ a) in
    let sum : (t + length b) % 2 ^ 64 ≡ (s.total_len + length (a ++ b)) % 2 ^ 64 =
      omega (arith, length-append a b) in
    ap (update b) (update_lem a s p)
    ∙ update_lem b first (omega arith)
    ∙ ap (λ r. record { h = r.0; buf = r.1; total_len = (t + length b) % 2 ^ 64 })
        (sym (consume-append s.h (s.buf ++ a) b) ∙ ap (consume s.h) (append_assoc s.buf a b))
    ∙ ap (absorb s.h (s.buf ++ (a ++ b))) sum
    ∙ sym (update_lem (a ++ b) s p)
