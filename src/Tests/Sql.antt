-- ===== src/Tests/Sql.antt =====
-- Runs of escapeString and interpolateParams.
use cubrid_client.Base.{ℕ, ◌≡◌, refl, arith, true, false, List, [], ◌∷◌, ◌++◌, some}
use cubrid_client.Failure.{Result, ok}
use cubrid_client.Param.{Param, null, text}
use cubrid_client.Sql.{backslash, quote, escape_string, escape_body, format_value}
use cubrid_client.Sql.Scan.{plain, move, scan, interpolate_params}
use cubrid_client.Sql.Literal.{
  read_literal, KeepsEscaped, escape_units, escape_body-escape_units, read_literal-escape_string,
}
use cubrid_client.Sql.Interpolate.{placeholders, scan_restores}
use cubrid_client.Sql.Backslash.{interpolate_misses_placeholders}

-- `a'\`.
abbrev value : List ℕ
value = b'a' ∷ quote ∷ backslash ∷ []

abbrev no_text : ℕ → List ℕ
no_text n = []

-- A reader that takes every escaped character for itself.
abbrev same : ℕ → ℕ
same c = c

same-KeepsEscaped : KeepsEscaped same
same-KeepsEscaped = record { of_backslash = refl; of_carriage_return = refl; of_line_feed = refl }

-- `='?'?`, where the first mark is inside a literal.
abbrev sql : List ℕ
sql = b'=' ∷ quote ∷ b'?' ∷ quote ∷ b'?' ∷ []

abbrev as_null : Param → Result (List ℕ)
as_null p = ok (b'N' ∷ [])

interpolates :
    interpolate_params no_text sql (text value ∷ []) true
    ≡ ok (b'=' ∷ quote ∷ b'?' ∷ quote ∷ quote ∷ b'a' ∷ quote ∷ quote ∷ backslash ∷ quote ∷ [])
unfolding interpolate_params move format_value
interpolates = refl

escape_body-escape_units_example : escape_body value false ≡ escape_units false value
escape_body-escape_units_example = escape_body-escape_units value false

read_literal-escape_string_example :
    (body : List ℕ) × (quote ∷ b'a' ∷ quote ∷ quote ∷ backslash ∷ backslash ∷ quote ∷ []
      ≡ quote ∷ body)
    × (read_literal same false (body ++ (b',' ∷ [])) ≡ some (value, b',' ∷ []))
unfolding escape_string
read_literal-escape_string_example =
    read_literal-escape_string same false value
      (quote ∷ b'a' ∷ quote ∷ quote ∷ backslash ∷ backslash ∷ quote ∷ []) (b',' ∷ [])
      same-KeepsEscaped (omega arith) refl

scan_restores_example : scan (λ _. ok (b'?' ∷ [])) plain sql (null ∷ []) ≡ ok sql
unfolding placeholders move
scan_restores_example = scan_restores plain sql (null ∷ []) (omega arith)

-- `'a\'=?`: the reader ends the literal, and the mark behind it stays.
interpolate_misses_placeholders_example :
    (read_literal same true (b'a' ∷ backslash ∷ quote ∷ b'=' ∷ b'?' ∷ [])
      ≡ some (b'a' ∷ backslash ∷ [], b'=' ∷ b'?' ∷ []))
    × (interpolate_params no_text
          (quote ∷ b'a' ∷ backslash ∷ quote ∷ b'=' ∷ b'?' ∷ [])
          (null ∷ [])
          true
        ≡ ok (quote ∷ b'a' ∷ backslash ∷ quote ∷ b'=' ∷ b'?' ∷ []))
interpolate_misses_placeholders_example =
    interpolate_misses_placeholders no_text same (b'a' ∷ []) (b'=' ∷ b'?' ∷ []) (null ∷ [])
      ((omega arith, omega arith), tt)
      ((omega arith, omega arith), ((omega arith, omega arith), tt))
