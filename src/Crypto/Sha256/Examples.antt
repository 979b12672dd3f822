-- ===== src/Crypto/Sha256/Examples.antt =====
-- crates/sutegi-crypto/src/lib.rs: digests of short messages.
use sutegi.Base.{
  arith, map, bit_xor, Bytes, ◌≡◌, ◌↔◌, ◌<◌, refl, true, ◌∷◌, ◌++◌, [], Bytes, length, codes,
}
use sutegi.Crypto.{hex, base64_encode}
use sutegi.Crypto.Legacy.{
  md5, sha1, padded_with, pad_zeros, over_blocks, md5_block, md5_rounds, md5_round, sha1_block,
  sha1_rounds, sha1_round, rotate_left, words_of, to_le_bytes,
}
use sutegi.Http.{trim, trim_end_by, skip_while, is_whitespace}
use sutegi.Ws.Handshake.{accept_key}
use sutegi.Crypto.Sha256.Streaming.{padded, concat, feed, fold_blocks, finalize-feed}
use sutegi.Crypto.Sha256.Keyed.{
  block_key, copied, xor_with, hmac_sha256, hmac_sha256_lem, zero_filled, IsPadded, panicked,
  hkdf_sha256,
}
use sutegi.Crypto.Sha256.Derive.{hkdf_sha256-panicked_iff}
use sutegi.Crypto.Sha256.{
  sha256_init, sha256, finalize, update, new, absorb, whole_blocks, sha256_compress, rounds, round,
  backwards, extend_words, next_word, block_words, from_be_bytes, rotate_right, wrapping_add,
  pad_loop, word_bytes, to_be_bytes,
}

sha256_abc :
    hex (sha256 (codes "abc"))
    ≡ codes "ba7816bf8f01cfea414140de5dae2223b00361a396177a9cb410ff61f20015ad"
unfolding hex sha256 finalize update absorb whole_blocks sha256_compress rounds round backwards
    extend_words next_word block_words from_be_bytes rotate_right wrapping_add pad_loop word_bytes
    to_be_bytes
sha256_abc = refl

abbrev abc_block : Bytes
abc_block = padded (codes "abc")

abc_chunks : concat (abc_block ∷ []) ≡ padded (concat (codes "a" ∷ codes "bc" ∷ []))
unfolding to_be_bytes
abc_chunks = refl

abc_length : length abc_block ≡ 64
unfolding to_be_bytes
abc_length = refl

finalize-feed_example :
    finalize (feed (codes "a" ∷ codes "bc" ∷ []) new)
    ≡ word_bytes (fold_blocks sha256_init (abc_block ∷ []))
finalize-feed_example =
    finalize-feed (codes "a" ∷ codes "bc" ∷ []) (abc_block ∷ []) (abc_length, tt) abc_chunks

-- A key of 65 bytes.
abbrev long_key : Bytes
long_key = codes "a key of more than one block is hashed before it is used as a key"

hmac_sha256_lem_example :
    hmac_sha256 long_key (codes "hi")
    ≡ sha256 (
        map (bit_xor 0x5c) (zero_filled 32 (sha256 long_key))
        ++ sha256 (map (bit_xor 0x36) (zero_filled 32 (sha256 long_key)) ++ codes "hi"))
hmac_sha256_lem_example =
    hmac_sha256_lem long_key (zero_filled 32 (sha256 long_key)) (codes "hi")
      (IsPadded.hashed (omega arith))

hkdf_sha256-panicked_iff_example :
    (hkdf_sha256 true (codes "key") [] (codes "info") 8160 ≡ panicked) ↔ (8128 < 8160)
hkdf_sha256-panicked_iff_example = hkdf_sha256-panicked_iff (codes "key") [] (codes "info") 8160

-- The second test of RFC 4231.
hmac_sha256_rfc4231 :
    hex (hmac_sha256 (codes "Jefe") (codes "what do ya want for nothing?"))
    ≡ codes "5bdcc146bf60754e6a042426089575c75a003f089d2739839dec58b964ec3843"
unfolding hex hmac_sha256 block_key copied xor_with sha256 finalize update absorb whole_blocks
    sha256_compress rounds round backwards extend_words next_word block_words from_be_bytes
    rotate_right wrapping_add pad_loop word_bytes to_be_bytes
hmac_sha256_rfc4231 = refl

md5_abc : hex (md5 (codes "abc")) ≡ codes "900150983cd24fb0d6963f7d28e17f72"
unfolding hex md5 padded_with pad_zeros over_blocks md5_block md5_rounds md5_round rotate_left
    words_of from_be_bytes wrapping_add to_le_bytes
md5_abc = refl

-- The example of RFC 6455.
accept_key_rfc6455 :
    accept_key (codes "dGhlIHNhbXBsZSBub25jZQ==") ≡ codes "s3pPLMBiTxaQ9kYGzzhZRbK+xOo="
unfolding accept_key base64_encode sha1 padded_with pad_zeros over_blocks sha1_block sha1_rounds
    sha1_round rotate_left words_of from_be_bytes wrapping_add to_be_bytes trim trim_end_by
    skip_while is_whitespace
accept_key_rfc6455 = refl
