-- ===== src/Crypto/Examples.antt =====
-- crates/sutegi-crypto: the codecs at concrete inputs.
use sutegi.Base.{◌≡◌, refl, some, [], ◌∷◌, codes, arith}
use sutegi.Crypto.{hex, base64_encode, base64_decode}
use sutegi.Crypto.Base64.{base64_decode-encode}

hex_of_two : hex (0x0F ∷ 0xA0 ∷ []) ≡ codes "0fa0"
unfolding hex
hex_of_two = refl

base64_of_two : base64_encode (codes "hi") ≡ codes "aGk="
unfolding base64_encode
base64_of_two = refl

base64_decode-encode_example :
    base64_decode (base64_encode (0 ∷ 255 ∷ 128 ∷ 7 ∷ [])) ≡ some (0 ∷ 255 ∷ 128 ∷ 7 ∷ [])
base64_decode-encode_example =
    base64_decode-encode (0 ∷ 255 ∷ 128 ∷ 7 ∷ [])
      (omega arith, (omega arith, (omega arith, (omega arith, tt))))
