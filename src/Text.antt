-- ===== src/Text.antt =====
-- JavaScript strings as their UTF-16 code units, and Node's UTF-8 encoder and decoder on them.
-- A lone surrogate is encoded as U+FFFD; the decoder replaces what is not UTF-8 by U+FFFD, one for
-- each maximal part of a sequence (the WHATWG decoder, with its bounds on the second byte).
pub mod Ascii
use cubrid_client.Base.{
  ℕ, ◌+◌, ◌-◌, ◌*◌, ◌/◌, ◌%◌, Bool, ◌&&◌, ◌||◌, List, [], ◌∷◌, ◌++◌, ltb, leb, ◌==◌, if◌then◌else◌,
  zero, suc,
}

abbrev pub is_lead : ℕ → Bool
is_lead u = leb 0xd800 u && ltb u 0xdc00

abbrev pub is_trail : ℕ → Bool
is_trail u = leb 0xdc00 u && ltb u 0xe000

-- The bytes of one code point.
unfoldable pub utf8_point : ℕ → List ℕ
utf8_point p =
    if ltb p 0x80
    then p ∷ []
    else if ltb p 0x800
    then (0xc0 + p / 64) ∷ (0x80 + p % 64) ∷ []
    else if ltb p 0x10000
    then (0xe0 + p / 4096) ∷ (0x80 + p / 64 % 64) ∷ (0x80 + p % 64) ∷ []
    else (0xf0 + p / 262144) ∷ (0x80 + p / 4096 % 64) ∷ (0x80 + p / 64 % 64) ∷ (0x80 + p % 64) ∷ []

-- A surrogate that has no partner is encoded as the replacement character.
unfoldable pub utf8_encode : List ℕ → List ℕ
unfolding utf8_point
utf8_encode [] = []
utf8_encode (u ∷ []) = utf8_point (if is_lead u || is_trail u then 0xfffd else u)
utf8_encode (u ∷ v ∷ rest) =
    let pair = utf8_point (0x10000 + (u - 0xd800) * 1024 + (v - 0xdc00)) ++ utf8_encode rest in
    let alone =
      utf8_point (if is_lead u || is_trail u then 0xfffd else u) ++ utf8_encode (v ∷ rest) in
    if is_lead u && is_trail v then pair else alone

-- The code units of one code point.
abbrev utf16_point : ℕ → List ℕ
utf16_point p =
    if ltb p 0x10000
    then p ∷ []
    else (0xd800 + (p - 0x10000) / 1024) ∷ (0xdc00 + (p - 0x10000) % 1024) ∷ []

-- The bytes still wanted, the code point so far, and the bounds on the next byte.
record Pending : Type 0 where
  needed : ℕ
  point : ℕ
  lower : ℕ
  upper : ℕ

abbrev idle : Pending
idle = record { needed = 0; point = 0; lower = 0x80; upper = 0xbf }

-- A byte that starts a sequence: what it emits, and the state behind it.
abbrev first_byte : ℕ → List ℕ × Pending
first_byte b =
    if ltb b 0x80
    then (b ∷ [], idle)
    else if leb 0xc2 b && leb b 0xdf
    then ([], record { needed = 1; point = b - 0xc0; lower = 0x80; upper = 0xbf })
    else if leb 0xe0 b && leb b 0xef
    then (
      [],
      record {
        needed = 2;
        point = b - 0xe0;
        lower = if b == 0xe0 then 0xa0 else 0x80;
        upper = if b == 0xed then 0x9f else 0xbf;
      },
    )
    else if leb 0xf0 b && leb b 0xf4
    then (
      [],
      record {
        needed = 3;
        point = b - 0xf0;
        lower = if b == 0xf0 then 0x90 else 0x80;
        upper = if b == 0xf4 then 0x8f else 0xbf;
      },
    )
    else (0xfffd ∷ [], idle)

-- A byte that should continue a sequence; one that does not starts a new one.
abbrev next_byte : Pending → ℕ → List ℕ × Pending
next_byte s b =
    if leb s.lower b && leb b s.upper
    then (let p = s.point * 64 + (b - 0x80) in
        if s.needed == 1
        then (utf16_point p, idle)
        else ([], record { needed = s.needed - 1; point = p; lower = 0x80; upper = 0xbf }))
    else let (out, s') = first_byte b in (0xfffd ∷ out, s')

decode_step : Pending → ℕ → List ℕ × Pending
decode_step s b = if s.needed == 0 then first_byte b else next_byte s b

decode_from : Pending → List ℕ → List ℕ
unfolding decode_step
decode_from s [] = if s.needed == 0 then [] else 0xfffd ∷ []
decode_from s (b ∷ bs) = let (out, s') = decode_step s b in out ++ decode_from s' bs

unfoldable pub utf8_decode : List ℕ → List ℕ
unfolding decode_from
utf8_decode bs = decode_from idle bs
