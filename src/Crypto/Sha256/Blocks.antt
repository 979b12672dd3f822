-- ===== src/Crypto/Sha256/Blocks.antt =====
-- crates/sutegi-crypto/src/lib.rs: the blocks of a message, taken in pieces.
use sutegi.Base.{
  ℕ, zero, suc, ◌+◌, ◌-◌, ◌%◌, ◌^◌, ◌≡◌, ◌≤◌, ◌<◌, refl, sym, ap, ◌∙◌, arith, min, Bool, true,
  false, [], ◌∷◌, ◌++◌, Bytes, ltb, if◌then◌else◌, length, length-append, length-take, length-drop,
  append_assoc, take, drop, take-append_of_le, take-append-drop, if_rule, ltb→lt,
}
use sutegi.Crypto.Sha256.{Words, sha256_compress, whole_blocks, Sha256, absorb, update}

drop-append : (n : ℕ) (a b : Bytes) → n ≤ length a → drop n (a ++ b) ≡ drop n a ++ b
drop-append zero a b h = refl
drop-append (suc n) [] b h = absurd (omega arith)
drop-append (suc n) (x ∷ a) b h = drop-append n a b (omega arith)

take_all : (n : ℕ) (a : Bytes) → length a ≤ n → take n a ≡ a
take_all zero [] h = refl
take_all zero (x ∷ a) h = absurd (omega arith)
take_all (suc n) [] h = refl
take_all (suc n) (x ∷ a) h = ap (λ r. x ∷ r) (take_all n a (omega arith))

drop_all : (n : ℕ) (a : Bytes) → length a ≤ n → drop n a ≡ []
drop_all zero [] h = refl
drop_all zero (x ∷ a) h = absurd (omega arith)
drop_all (suc n) [] h = refl
drop_all (suc n) (x ∷ a) h = drop_all n a (omega arith)

not_short : (a b : ℕ) → a < b → ltb a b ≡ false → ⊥
not_short a b h e = ground arith

not_whole : (a b : ℕ) → b ≤ a → ltb a b ≡ true → ⊥
not_whole a b h e = ground arith

-- The blocks of a whole message, and the rest.
abbrev pub consume : Words → Bytes → Words × Bytes
consume h m = whole_blocks (length m) h m

whole_blocks_fuel :
    (f g : ℕ) (h : Words) (m : Bytes)
    → length m ≤ f
    → length m ≤ g
    → whole_blocks f h m ≡ whole_blocks g h m
unfolding whole_blocks
whole_blocks_fuel zero zero h m p q = refl
whole_blocks_fuel zero (suc g) h m p q = ground arith
whole_blocks_fuel (suc f) zero h m p q = ground arith
whole_blocks_fuel (suc f) (suc g) h m p q =
    if_rule
      (λ t.
        (if ltb (length m) 64
          then (h, m)
          else whole_blocks f (sha256_compress h (take 64 m)) (drop 64 m))
        ≡ t)
      (ltb (length m) 64) _ _ (λ e. rw e refl)
      (λ e. rw e (
        whole_blocks_fuel f g _ (drop 64 m) (omega (arith, length-drop 64 m))
          (omega (arith, length-drop 64 m))))

pub consume_short : (h : Words) (m : Bytes) → length m < 64 → consume h m ≡ (h, m)
unfolding whole_blocks
consume_short h [] p = refl
consume_short h (x ∷ m) p =
    if_rule (λ t. t ≡ (h, x ∷ m)) (ltb (suc (length m)) 64) _ _ (λ _. refl)
      (λ e. absurd (not_short (suc (length m)) 64 p e))

pub consume_step :
    (h : Words) (m : Bytes)
    → 64 ≤ length m
    → consume h m ≡ consume (sha256_compress h (take 64 m)) (drop 64 m)
unfolding whole_blocks
consume_step h [] p = absurd (omega arith)
consume_step h (x ∷ m) p =
    if_rule (λ t. t ≡ consume (sha256_compress h (take 64 (x ∷ m))) (drop 64 (x ∷ m)))
      (ltb (suc (length m)) 64) _ _ (λ e. absurd (not_whole (suc (length m)) 64 p e))
      (λ e.
        whole_blocks_fuel (length m) (length (drop 64 (x ∷ m)))
          (sha256_compress h (take 64 (x ∷ m))) (drop 64 (x ∷ m))
          (omega (arith, length-drop 64 (x ∷ m))) (omega arith))

consume-append-fuel :
    (fuel : ℕ) (h : Words) (a b : Bytes)
    → length a ≤ fuel
    → consume h (a ++ b) ≡ consume ((consume h a).0) ((consume h a).1 ++ b)
consume-append-fuel zero h [] b p = unfold whole_blocks in refl
consume-append-fuel zero h (x ∷ a) b p = absurd (omega arith)
consume-append-fuel (suc fuel) h a b p =
    if_rule (λ (t : Bool). consume h (a ++ b) ≡ consume ((consume h a).0) ((consume h a).1 ++ b))
      (ltb (length a) 64) true false (λ short. rw (consume_short h a (ltb→lt _ _ short)) refl)
      (λ whole.
        let big : 64 ≤ length a = ground arith in
        let h' : Words = sha256_compress h (take 64 a) in
        let front : _ = take-append_of_le 64 a b big in
        let back : _ = drop-append 64 a b big in
        consume_step h (a ++ b) (omega (arith, length-append a b))
        ∙ ap (λ t. consume (sha256_compress h t) (drop 64 (a ++ b))) front
        ∙ ap (λ t. consume h' t) back
        ∙ consume-append-fuel fuel h' (drop 64 a) b (omega (arith, length-drop 64 a))
        ∙ ap (λ r. consume r.0 (r.1 ++ b)) (sym (consume_step h a big)))

-- The blocks of a message in two pieces are those of the first piece, and then of its rest with the second.
pub consume-append :
    (h : Words) (a b : Bytes)
    → consume h (a ++ b) ≡ consume ((consume h a).0) ((consume h a).1 ++ b)
consume-append h a b = consume-append-fuel (length a) h a b (omega arith)

consume-length-fuel :
    (fuel : ℕ) (h : Words) (a : Bytes) → length a ≤ fuel → length ((consume h a).1) ≡ length a % 64
consume-length-fuel zero h [] p = unfold whole_blocks in refl
consume-length-fuel zero h (x ∷ a) p = absurd (omega arith)
consume-length-fuel (suc fuel) h a p =
    if_rule (λ (t : Bool). length ((consume h a).1) ≡ length a % 64) (ltb (length a) 64) true false
      (λ short. rw (consume_short h a (ltb→lt _ _ short)) (ground arith))
      (λ whole.
        let big : 64 ≤ length a = ground arith in
        ap (λ r. length r.1) (consume_step h a big)
        ∙ consume-length-fuel fuel (sha256_compress h (take 64 a)) (drop 64 a)
            (omega (arith, length-drop 64 a))
        ∙ omega (arith, length-drop 64 a))

pub consume-length : (h : Words) (a : Bytes) → length ((consume h a).1) ≡ length a % 64
consume-length h a = consume-length-fuel (length a) h a (omega arith)

pub consume_block :
    (h : Words) (block rest : Bytes)
    → length block ≡ 64
    → consume h (block ++ rest) ≡ consume (sha256_compress h block) rest
consume_block h block rest e =
    let front : take 64 (block ++ rest) ≡ block =
      take-append_of_le 64 block rest (omega arith) ∙ take_all 64 block (omega arith) in
    let back : drop 64 (block ++ rest) ≡ rest =
      drop-append 64 block rest (omega arith)
      ∙ ap (λ t. t ++ rest) (drop_all 64 block (omega arith)) in
    consume_step h (block ++ rest) (omega (arith, length-append block rest))
    ∙ ap (λ t. consume (sha256_compress h t) (drop 64 (block ++ rest))) front
    ∙ ap (λ t. consume (sha256_compress h block) t) back

absorb_block :
    (h : Words) (block rest : Bytes) (total : ℕ)
    → length block ≡ 64
    → absorb h (block ++ rest) total ≡ absorb (sha256_compress h block) rest total
unfolding absorb
absorb_block h block rest total e =
    ap (λ r. record { h = r.0; buf = r.1; total_len = total }) (consume_block h block rest e)

absorb_short :
    (h : Words) (m : Bytes) (total : ℕ)
    → length m < 64
    → absorb h m total ≡ record { h = h; buf = m; total_len = total }
unfolding absorb
absorb_short h m total p =
    ap (λ r. record { h = r.0; buf = r.1; total_len = total }) (consume_short h m p)

no_room : (b d f : ℕ) → f ≡ b + min (min (64 - b) d) d → ltb f 64 ≡ true → d ≤ min (64 - b) d
no_room b d f e h = let short : f < 64 = ltb→lt f 64 h in omega arith

no_rest : (b d f : ℕ) → b < 64 → f ≡ b + min (min (64 - b) d) d → ltb f 64 ≡ false → f ≡ 64
no_rest b d f p e h = ground arith

empty_of_length : (b : Bytes) → ltb 0 (length b) ≡ false → b ≡ []
empty_of_length [] h = refl
empty_of_length (x ∷ b) h = absurd (let no : ⊥ = ground arith in no)

-- The hasher takes the pending bytes and the new ones as one message.
pub update_lem :
    (d : Bytes) (s : Sha256)
    → length s.buf < 64
    → update d s ≡ absorb s.h (s.buf ++ d) ((s.total_len + length d) % 2 ^ 64)
unfolding update
update_lem d s p =
    let total : ℕ = (s.total_len + length d) % 2 ^ 64 in
    let target : Sha256 = absorb s.h (s.buf ++ d) total in
    let n : ℕ = min (64 - length s.buf) (length d) in
    let filled : Bytes = s.buf ++ take n d in
    let size : length filled ≡ length s.buf + min n (length d) =
      length-append s.buf (take n d) ∙ ap (λ k. length s.buf + k) (length-take n d) in
    let whole : filled ++ drop n d ≡ s.buf ++ d =
      append_assoc s.buf (take n d) (drop n d) ∙ ap (λ t. s.buf ++ t) (take-append-drop n d) in
    if_rule (λ t. t ≡ target) (ltb 0 (length s.buf)) _ _
      (λ pending.
        if_rule (λ t. t ≡ target) (ltb (length filled) 64) _ _
          (λ short.
            let all_of_it : take n d ≡ d =
              take_all n d (no_room (length s.buf) (length d) (length filled) size short) in
            sym (
              ap (λ t. absorb s.h (s.buf ++ t) total) (sym all_of_it)
              ∙ absorb_short s.h filled _ (ltb→lt _ _ short)))
          (λ full. sym (
            ap (λ t. absorb s.h t total) (sym whole)
            ∙ absorb_block s.h filled (drop n d) _
                (no_rest (length s.buf) (length d) (length filled) p size full))))
      (λ fresh. ap (λ t. absorb s.h (t ++ d) total) (sym (empty_of_length s.buf fresh)))
