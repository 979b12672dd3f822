-- ===== src/Session/Signed.antt =====
-- crates/sutegi-session/src/lib.rs: what is signed, and what is taken for signed.
use sutegi.Base.{
  ℕ, ◌≡◌, ◌<◌, refl, sym, ap, ◌∙◌, arith, Bool, true, Option, none, some, [], ◌∷◌, ◌++◌, Bytes, leb,
  ◌&&◌, ◌||◌, ◌==◌, if◌then◌else◌, All, IsByte, all, if_rule,
}
use mathlib.Core.Path.{subst}
use sutegi.Base.Bits.{holds_below, holds_below_lem}
use sutegi.Crypto.{hex, from_hex, constant_time_eq, ◌>>=◌}
use sutegi.Crypto.Hex.{from_hex-hex}
use sutegi.Crypto.Compare.{constant_time_eq_iff}
use sutegi.Crypto.Sha256.Keyed.{hmac_sha256-IsByte}
use sutegi.Http.{split_once}
use sutegi.Http.Cookie.{is_not, split_once-append, all_mono, all-append}
use sutegi.Session.{Sessions, sign, token, signed_bytes}

-- A character of a hex text.
abbrev pub is_hex_char : ℕ → Bool
is_hex_char c = leb b'0' c && leb c b'9' || leb b'a' c && leb c b'f'

abbrev pair_is_hex : ℕ → Bool
pair_is_hex b = all is_hex_char (hex (b ∷ []))

pair_table : (b : ℕ) → b < 256 → pair_is_hex b ≡ true
unfolding holds_below hex
pair_table b h = holds_below_lem pair_is_hex 256 b h refl

pub all-hex : (bs : Bytes) → All IsByte bs → all is_hex_char (hex bs) ≡ true
unfolding hex
all-hex [] h = refl
all-hex (b ∷ bs) (p, h) =
    all-append is_hex_char (hex (b ∷ [])) (hex bs) (pair_table b p) (all-hex bs h)

pub hex_chars-IsByte : (s : Bytes) → all is_hex_char s ≡ true → All IsByte s
hex_chars-IsByte [] h = tt
hex_chars-IsByte (c ∷ s) h = (ground arith, hex_chars-IsByte s (ground arith))

pub sign-hex_chars : (m : Sessions) (v : Bytes) → all is_hex_char (sign m v) ≡ true
unfolding sign
sign-hex_chars m v = all-hex _ (hmac_sha256-IsByte m.secret v)

pub bind-some {ℓ κ} :
    {A : Type ℓ} {B : Type κ} (o : Option A) (f : A → Option B) (b : B)
    → (o >>= f) ≡ some b
    → (a : A) × (o ≡ some a) × (f a ≡ some b)
bind-some none f b e = cc
bind-some (some a) f b e = (a, refl, e)

split_once_later :
    (d c : ℕ) (s a b : Bytes) (o : Option (Bytes × Bytes))
    → ((x y : Bytes) → o ≡ some (x, y) → s ≡ x ++ d ∷ y)
    → ◌≡◌ {A = Option (Bytes × Bytes)}
        (elim o [ none ↦ none | some (x, y) ↦ some (c ∷ x, y) ])
        (some (a, b))
    → c ∷ s ≡ a ++ d ∷ b
split_once_later d c s a b none f e = cc
split_once_later d c s a b (some (x, y)) f e =
    let back : s ≡ x ++ d ∷ y = f x y refl in
    let pair : ◌≡◌ {A = Bytes × Bytes} (c ∷ x, y) (a, b) = cc in
    ap (λ t. c ∷ t) back ∙ ap (λ (r : Bytes × Bytes). r.0 ++ d ∷ r.1) pair

split_once-eq : (d : ℕ) (s a b : Bytes) → split_once d s ≡ some (a, b) → s ≡ a ++ d ∷ b
unfolding split_once
split_once-eq d [] a b e = cc
split_once-eq d (c ∷ s) a b e =
    if_rule (λ o. o ≡ some (a, b) → c ∷ s ≡ a ++ d ∷ b) (c == d) _ _
      (λ same e.
        let at_d : c ≡ d = ground arith in
        let pair : ◌≡◌ {A = Bytes × Bytes} ([], s) (a, b) = cc in
        ap (λ t. t ∷ s) at_d ∙ ap (λ (r : Bytes × Bytes). r.0 ++ d ∷ r.1) pair)
      (λ _ e. split_once_later d c s a b (split_once d s) (split_once-eq d s) e) e

-- A token is taken for signed, with the value it was made of, which is of bytes.
pub signed_bytes-token :
    (m : Sessions) (v : Bytes) → All IsByte v → signed_bytes m (token m v) ≡ some v
unfolding signed_bytes token
signed_bytes-token m v h =
    let chars : all is_hex_char (hex v) ≡ true = all-hex v h in
    let bytes : All IsByte (sign m v) = hex_chars-IsByte _ (sign-hex_chars m v) in
    let same : constant_time_eq (sign m v) (sign m v) ≡ true =
      (constant_time_eq_iff _ _ bytes bytes).1 refl in
    rw
      (
        split_once-append b'.' (hex v) (sign m v)
            (all_mono is_hex_char (is_not b'.') (hex v) (λ c h. ground arith) chars),
        from_hex-hex v h,
        same,
      )
      refl

-- The parts of a text that is taken for signed.
pub record IsSigned (m : Sessions) (text v : Bytes) : Type 0 where
  pub payload_hex : Bytes
  pub whole : text ≡ payload_hex ++ b'.' ∷ sign m v
  pub decodes : from_hex payload_hex ≡ some v

All-append-right : (P : ℕ → Type 0) (a b : Bytes) → All P (a ++ b) → All P b
All-append-right P [] b h = h
All-append-right P (x ∷ a) b (p, h) = All-append-right P a b h

IsSigned-parts :
    (m : Sessions) (text v payload_hex sig bytes : Bytes)
    → All IsByte text
    → text ≡ payload_hex ++ b'.' ∷ sig
    → from_hex payload_hex ≡ some bytes
    → (if constant_time_eq (sign m bytes) sig then some bytes else none) ≡ some v
    → IsSigned m text v
IsSigned-parts m text v payload_hex sig bytes h cut decoded =
    if_rule (λ o. o ≡ some v → IsSigned m text v) (constant_time_eq (sign m bytes) sig) (some bytes)
      none
      (λ same e.
        let value : bytes ≡ v = cc in
        let (_, sig_bytes) =
          All-append-right IsByte payload_hex (b'.' ∷ sig) (subst (All IsByte) cut h) in
        let equal : sign m bytes ≡ sig =
          (constant_time_eq_iff _ _ (hex_chars-IsByte _ (sign-hex_chars m bytes)) sig_bytes).0
            same in
        record {
          payload_hex = payload_hex;
          whole =
              cut
              ∙ ap (λ t. payload_hex ++ b'.' ∷ t) (sym equal)
              ∙ ap (λ t. payload_hex ++ b'.' ∷ sign m t) value;
          decodes = decoded ∙ ap some value;
        })
      (λ _ e. cc)

-- What is taken for signed carries the signature of its value under the secret, where it is of bytes.
pub signed_bytes-IsSigned :
    (m : Sessions) (text v : Bytes)
    → All IsByte text
    → signed_bytes m text ≡ some v
    → IsSigned m text v
unfolding signed_bytes
signed_bytes-IsSigned m text v h e =
    let ((payload_hex, sig), cut, e1) = bind-some (split_once b'.' text) _ v e in
    let (bytes, decoded, e2) = bind-some (from_hex payload_hex) _ v e1 in
    IsSigned-parts m text v payload_hex sig bytes h (split_once-eq b'.' text payload_hex sig cut)
      decoded e2
