-- ===== src/Pg/Frames.antt =====
-- crates/sutegi-pg/src/protocol.rs: a message, sent and received.
use sutegi.Base.{
  ℕ, ◌+◌, ◌-◌, ◌/◌, ◌%◌, ◌^◌, ◌≡◌, ◌<◌, refl, ap, ◌∙◌, arith, [], ◌∷◌, ◌++◌, Bytes, ltb, leb,
  length, length-append, take, drop, take-length-append, if_rule,
}
use sutegi.Crypto.Sha256.{to_be_bytes, from_be_bytes}
use sutegi.Pg.{Received, message, be_i32, be_i32_front, recv_body, recv, frame}

drop-length-append : (a b : Bytes) → drop (length a) (a ++ b) ≡ b
drop-length-append [] b = refl
drop-length-append (x ∷ a) b = drop-length-append a b

from_be_bytes-to_be_bytes :
    (n : ℕ)
    → n < 2 ^ 31
    → from_be_bytes
        (n / 2 ^ 24 % 2 ^ 8)
        (n / 2 ^ 16 % 2 ^ 8)
        (n / 2 ^ 8 % 2 ^ 8)
        (n / 2 ^ 0 % 2 ^ 8)
      ≡ n
unfolding from_be_bytes
from_be_bytes-to_be_bytes n h = omega arith

recv_body-whole :
    (tag : ℕ) (body rest : Bytes)
    → length body + 4 < 2 ^ 31
    → recv_body tag (length body + 4) (body ++ rest) ≡ message tag body rest
unfolding recv_body
recv_body-whole tag body rest h =
    let n : ℕ = length body + 4 in
    let size : n - 4 ≡ length body = omega arith in
    let sum : length (body ++ rest) ≡ length body + length rest = length-append body rest in
    let P : Received → Type 0 = λ r. r ≡ message tag body rest in
    if_rule P (leb (2 ^ 31) n) _ _ (λ e. absurd (let no : ⊥ = ground arith in no))
      λ _.
        if_rule P (ltb n 4) _ _ (λ e. absurd (let no : ⊥ = ground arith in no))
          λ _.
            if_rule P (ltb (length (body ++ rest)) (n - 4)) _ _
              (λ e. absurd (let no : ⊥ = ground arith in no))
              (λ _.
                ap (λ k. message tag (take k (body ++ rest)) (drop k (body ++ rest))) size
                ∙ ap (λ t. message tag t (drop (length body) (body ++ rest)))
                    (take-length-append body rest)
                ∙ ap (λ t. message tag body t) (drop-length-append body rest))

-- A message whose length is below 2^31 is received as it was sent, whatever follows it.
pub recv-frame :
    (tag : ℕ) (body rest : Bytes)
    → length body + 4 < 2 ^ 31
    → recv (frame tag body ++ rest) ≡ message tag body rest
unfolding recv frame to_be_bytes be_i32 be_i32_front
recv-frame tag body rest h =
    ap (λ n. recv_body tag n (body ++ rest)) (from_be_bytes-to_be_bytes (length body + 4) h)
    ∙ recv_body-whole tag body rest h
