-- ===== src/Where.antt =====
-- escapeIdentifier and buildWhere of src/utils/query.ts. Names are the code units of their strings;
-- `none` is a null value.
pub mod Placeholders
use cubrid_client.Base.{
  ℕ, Bool, true, false, List, [], ◌∷◌, ◌++◌, ◌==◌, if◌then◌else◌, Option, some, none,
}

-- `name.replace(/\]/g, "]]")`.
unfoldable pub double_brackets : List ℕ → List ℕ
double_brackets [] = []
double_brackets (c ∷ cs) =
    if c == b']' then b']' ∷ b']' ∷ double_brackets cs else c ∷ double_brackets cs

unfoldable pub escape_identifier : List ℕ → List ℕ
unfolding double_brackets
escape_identifier name = b'[' ∷ (double_brackets name ++ (b']' ∷ []))

abbrev pub is_null : List ℕ
is_null = b' ' ∷ b'I' ∷ b'S' ∷ b' ' ∷ b'N' ∷ b'U' ∷ b'L' ∷ b'L' ∷ []

abbrev pub equals_placeholder : List ℕ
equals_placeholder = b' ' ∷ b'=' ∷ b' ' ∷ b'?' ∷ []

abbrev pub and_word : List ℕ
and_word = b' ' ∷ b'A' ∷ b'N' ∷ b'D' ∷ b' ' ∷ []

abbrev pub where_word : List ℕ
where_word = b'W' ∷ b'H' ∷ b'E' ∷ b'R' ∷ b'E' ∷ b' ' ∷ []

module _ {A : Type 0} where
  abbrev pub suffix : Option A → List ℕ
  suffix none = is_null
  suffix (some value) = equals_placeholder

  -- `parts.join(" AND ")`.
  unfoldable pub join_conditions : List (List ℕ × Option A) → List ℕ
  unfolding escape_identifier
  join_conditions [] = []
  join_conditions ((key, value) ∷ []) = escape_identifier key ++ suffix value
  join_conditions ((key, value) ∷ entry ∷ rest) =
      escape_identifier key ++ (suffix value ++ (and_word ++ join_conditions (entry ∷ rest)))

  abbrev pub and_param : Option A → List A → List A
  and_param none params = params
  and_param (some value) params = value ∷ params

  unfoldable pub params_of : List (List ℕ × Option A) → List A
  params_of [] = []
  params_of ((key, value) ∷ rest) = and_param value (params_of rest)

  -- `buildWhere`: the clause and the parameters.
  unfoldable pub build_where : List (List ℕ × Option A) → List ℕ × List A
  unfolding join_conditions params_of
  build_where [] = ([], [])
  build_where (entry ∷ rest) =
      (where_word ++ join_conditions (entry ∷ rest), params_of (entry ∷ rest))
