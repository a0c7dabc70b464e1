-- ===== src/Sql/Scan.antt =====
-- The loop of interpolateParams. Its four flags are never up together: they are one mode.
use cubrid_client.Base.{
  ℕ, Bool, true, false, ◌&&◌, ◌||◌, List, [], ◌∷◌, ◌++◌, ◌==◌, if◌then◌else◌, Option, some, none,
}
use cubrid_client.Failure.{Result, ok, fail, error, ◌>>=◌}
use cubrid_client.Param.{Param}
use cubrid_client.Sql.{format_value, backslash, quote, carriage_return, line_feed}

pub data Mode : Type 0 where
  plain single_quoted double_quoted block_comment line_comment : Mode

-- What a round does: copy the character, copy it with the next one, or put a parameter in.
pub data Move : Type 0 where
  one two : Mode → Move
  placeholder : Move

abbrev next_is : Option ℕ → ℕ → Bool
next_is none c = false
next_is (some n) c = n == c

abbrev has_next : Option ℕ → Bool
has_next none = false
has_next (some n) = true

-- Inside a literal that `mark` closes: a backslash takes the next character along, and a doubled
-- mark stays inside.
abbrev quoted_move : ℕ → Mode → ℕ → Option ℕ → Move
quoted_move mark inside ch next =
    if ch == backslash && has_next next
    then two inside
    else if ch == mark
    then (if next_is next mark then two inside else one plain)
    else one inside

unfoldable pub move : Mode → ℕ → Option ℕ → Move
move single_quoted ch next = quoted_move quote single_quoted ch next
move double_quoted ch next = quoted_move 0x22 double_quoted ch next
move block_comment ch next =
    if ch == b'*' && next_is next b'/' then two plain else one block_comment
move line_comment ch next =
    if ch == line_feed || ch == carriage_return then one plain else one line_comment
move plain ch next =
    if ch == quote
    then one single_quoted
    else if ch == 0x22
    then one double_quoted
    else if ch == b'/' && next_is next b'*'
    then two block_comment
    else if ch == b'-' && next_is next b'-'
    then two line_comment
    else if ch == b'?'
    then placeholder
    else one plain

-- A copied character in front of what the rest gives.
abbrev pub emit : List ℕ → Result (List ℕ) → Result (List ℕ)
emit front r = do rest ← r; ok (front ++ rest)

-- The next parameter's text in front of the rest; too few parameters are an error.
abbrev pub substitute :
    (Param → Result (List ℕ)) → List Param → (List Param → Result (List ℕ)) → Result (List ℕ)
substitute format [] rest = fail error
substitute format (p ∷ ps) rest = do s ← format p; emit s (rest ps)

unfoldable pub scan : (Param → Result (List ℕ)) → Mode → List ℕ → List Param → Result (List ℕ)
scan format mode [] params = ok []
scan format mode (ch ∷ []) params = elim (move mode ch none) [
  | one m ↦ ok (ch ∷ [])
  | two m ↦ ok (ch ∷ [])
  | placeholder ↦ substitute format params (λ ps. ok [])
]
scan format mode (ch ∷ next ∷ rest) params = elim (move mode ch (some next)) [
  | one m ↦ emit (ch ∷ []) (scan format m (next ∷ rest) params)
  | two m ↦ emit (ch ∷ next ∷ []) (scan format m rest params)
  | placeholder ↦ substitute format params (scan format plain (next ∷ rest))
]

unfoldable pub interpolate_params : (ℕ → List ℕ) → List ℕ → List Param → Bool → Result (List ℕ)
unfolding scan
interpolate_params number_text sql params no_backslash_escapes =
    scan (λ p. format_value number_text p no_backslash_escapes) plain sql params
