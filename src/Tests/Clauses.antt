-- ===== src/Tests/Clauses.antt =====
-- Clauses of buildWhere at concrete names.
use cubrid_client.Base.{ℕ, ◌≡◌, refl, List, [], ◌∷◌, Option, some, none, length}
use cubrid_client.Sql.Scan.{plain, move}
use cubrid_client.Sql.Interpolate.{placeholders}
use cubrid_client.Where.{
  escape_identifier, double_brackets, build_where, join_conditions, params_of,
}
use cubrid_client.Where.Placeholders.{build_where-placeholders}

bracketed :
    escape_identifier (b'a' ∷ b']' ∷ b'b' ∷ []) ≡ b'[' ∷ b'a' ∷ b']' ∷ b']' ∷ b'b' ∷ b']' ∷ []
unfolding escape_identifier double_brackets
bracketed = refl

abbrev entries : List (List ℕ × Option ℕ)
entries = (b'a' ∷ b']' ∷ [], some 1) ∷ (b'b' ∷ [], none) ∷ (b'c' ∷ [], some 2) ∷ []

build_where-placeholders_example :
    placeholders plain (build_where entries).0 ≡ length (build_where entries).1
build_where-placeholders_example =
    build_where-placeholders entries ((refl, (refl, tt)), ((refl, tt), ((refl, tt), tt)))

-- A question mark in a name counts as a placeholder, although it stands in brackets.
abbrev asking_name : List (List ℕ × Option ℕ)
asking_name = (b'a' ∷ b'?' ∷ [], some 1) ∷ []

two_for_one :
    (placeholders plain (build_where asking_name).0 ≡ 2) × ((build_where asking_name).1 ≡ 1 ∷ [])
unfolding placeholders move build_where join_conditions params_of escape_identifier double_brackets
two_for_one = (refl, refl)
