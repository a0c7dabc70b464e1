-- ===== src/Param/Double.antt =====
-- IEEE doubles by their bit patterns: sign, exponent and fraction, and the whole number that a
-- pattern stands for, if it does.
use cubrid_client.Base.{
  ℕ, ◌+◌, ◌-◌, ◌*◌, ◌/◌, ◌%◌, ◌^◌, Bool, not, ◌&&◌, leb, ltb, ◌==◌, if◌then◌else◌, ℤ, pos, negsuc,
  sub_ℕ, Option, some, none, ◌≡◌, refl, pos_part, neg_part,
}
use mathlib.Core.Option

abbrev exponent : ℕ → ℕ
exponent bits = bits / 2 ^ 52 % 2048

abbrev significand : ℕ → ℕ
significand bits = bits % 2 ^ 52 + (if exponent bits == 0 then 0 else 2 ^ 52)

-- The binary point stands `1075 - exponent` bits from the right of the significand.
abbrev true_exponent : ℕ → ℕ
true_exponent bits = if exponent bits == 0 then 1 else exponent bits

-- `Number.isFinite`.
unfoldable pub is_finite : ℕ → Bool
is_finite bits = not (exponent bits == 2047)

-- The magnitude of a finite double, if it is a whole number.
unfoldable pub whole_magnitude : ℕ → Option ℕ
whole_magnitude bits =
    let e = true_exponent bits in
    if leb 1075 e
    then some (significand bits * 2 ^ (e - 1075))
    else if significand bits % 2 ^ (1075 - e) == 0
    then some (significand bits / 2 ^ (1075 - e))
    else none

abbrev with_sign : ℕ → ℕ → ℤ
with_sign bits n = if ltb bits (2 ^ 63) then pos n else sub_ℕ 0 n

-- The integer that `Number.isInteger` accepts and `BigInt` gives; `none` for any other number.
unfoldable pub whole : ℕ → Option ℤ
unfolding is_finite whole_magnitude
whole bits = if is_finite bits then Option.map (with_sign bits) (whole_magnitude bits) else none

-- `Number.isSafeInteger`, for an integer.
unfoldable pub is_safe : ℤ → Bool
is_safe v = leb (pos_part v) (2 ^ 53 - 1) && leb (neg_part v) (2 ^ 53 - 1)

whole_samples :
    (whole 0x4045000000000000 ≡ some (pos 42))
    × (whole 0xc008000000000000 ≡ some (negsuc 2))
    × (whole 0x3fe0000000000000 ≡ none)
    × (whole 0x7ff0000000000000 ≡ none)
unfolding whole
whole_samples = (refl, refl, refl, refl)
