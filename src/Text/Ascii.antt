-- ===== src/Text/Ascii.antt =====
-- Texts of ASCII: one byte for each code unit, and back.
use cubrid_client.Base.{ℕ, ◌<◌, ◌≡◌, refl, List, [], ◌∷◌, arith, All}
use cubrid_client.Text.{utf8_encode, utf8_decode}

abbrev pub IsAscii : List ℕ → Type 0
IsAscii s = All (λ u. u < 128) s

pub utf8_encode_ascii : (s : List ℕ) → IsAscii s → utf8_encode s ≡ s
unfolding utf8_encode
utf8_encode_ascii [] h = refl
utf8_encode_ascii (u ∷ []) h = ground arith
utf8_encode_ascii (u ∷ v ∷ s) h = ground (arith, utf8_encode_ascii (v ∷ s) h.1)

pub utf8_decode_ascii : (s : List ℕ) → IsAscii s → utf8_decode s ≡ s
unfolding utf8_decode
utf8_decode_ascii [] h = refl
utf8_decode_ascii (u ∷ s) h = ground (arith, utf8_decode_ascii s h.1)

-- A two-byte, a three-byte and a four-byte sequence, and a byte that is no UTF-8.
decode_samples :
    utf8_decode (0xc3 ∷ 0xa9 ∷ 0xed ∷ 0x95 ∷ 0x9c ∷ 0xf0 ∷ 0x9f ∷ 0x98 ∷ 0x80 ∷ 0xff ∷ [])
    ≡ 0xe9 ∷ 0xd55c ∷ 0xd83d ∷ 0xde00 ∷ 0xfffd ∷ []
unfolding utf8_decode
decode_samples = refl

encode_samples :
    utf8_encode (0xe9 ∷ 0xd55c ∷ 0xd83d ∷ 0xde00 ∷ 0xd83d ∷ [])
    ≡ 0xc3 ∷ 0xa9 ∷ 0xed ∷ 0x95 ∷ 0x9c ∷ 0xf0 ∷ 0x9f ∷ 0x98 ∷ 0x80 ∷ 0xef ∷ 0xbf ∷ 0xbd ∷ []
unfolding utf8_encode
encode_samples = refl
