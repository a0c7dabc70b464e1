-- ===== src/Sql/Backslash.antt =====
-- interpolateParams in literal mode, on a literal with a backslash.
use cubrid_client.Base.{ℕ, ◌≡◌, ◌≢◌, refl, arith, true, List, [], ◌∷◌, ◌++◌, All, some}
use cubrid_client.Failure.{Result, ok}
use cubrid_client.Param.{Param}
use cubrid_client.Sql.{backslash, quote}
use cubrid_client.Sql.Literal.{read_literal, EndsLiteral}
use cubrid_client.Sql.Scan.{plain, single_quoted, move, scan, interpolate_params}

-- A character that neither ends a literal nor escapes.
abbrev pub IsOrdinary : ℕ → Type 0
IsOrdinary c = (c ≢ quote) × (c ≢ backslash)

module _ (format : Param → Result (List ℕ)) (params : List Param) where
  -- One ordinary character inside a literal is copied.
  scan_ordinary :
      (c : ℕ) (t t' : List ℕ)
      → IsOrdinary c
      → scan format single_quoted t params ≡ ok t'
      → scan format single_quoted (c ∷ t) params ≡ ok (c ∷ t')
  unfolding scan move
  scan_ordinary c [] t' h e = ground arith
  scan_ordinary c (d ∷ t) t' h e = ground arith

  scan_inside : (s : List ℕ) → All IsOrdinary s → scan format single_quoted s params ≡ ok s
  scan_inside [] h = unfold scan in refl
  scan_inside (c ∷ s) (p, h) = scan_ordinary c s s p (scan_inside s h)

  -- Behind a backslash and a quote the scanner is still inside the literal.
  scan_escape :
      (rest : List ℕ)
      → All IsOrdinary rest
      → scan format single_quoted (backslash ∷ quote ∷ rest) params ≡ ok (backslash ∷ quote ∷ rest)
  unfolding scan move
  scan_escape rest h = rw (scan_inside rest h)

  scan_literal :
      (s rest : List ℕ)
      → All IsOrdinary s
      → All IsOrdinary rest
      → scan format single_quoted (s ++ backslash ∷ quote ∷ rest) params
        ≡ ok (s ++ backslash ∷ quote ∷ rest)
  scan_literal [] rest h k = scan_escape rest k
  scan_literal (c ∷ s) rest (p, h) k = scan_ordinary c _ _ p (scan_literal s rest h k)

  scan_open :
      (t : List ℕ)
      → scan format single_quoted t params ≡ ok t
      → scan format plain (quote ∷ t) params ≡ ok (quote ∷ t)
  unfolding scan move
  scan_open [] e = refl
  scan_open (c ∷ t) e = rw e

-- How a server in literal mode reads the same text: the literal ends at the quote.
read_literal_ordinary :
    (unescape : ℕ → ℕ) (s rest : List ℕ)
    → All IsOrdinary s
    → EndsLiteral rest
    → read_literal unescape true (s ++ backslash ∷ quote ∷ rest) ≡ some (s ++ backslash ∷ [], rest)
unfolding read_literal
read_literal_ordinary unescape [] [] h k = refl
read_literal_ordinary unescape [] (c ∷ rest) h k = ground arith
read_literal_ordinary unescape (c ∷ []) rest (p, h) k =
    ground (arith, read_literal_ordinary unescape [] rest tt k)
read_literal_ordinary unescape (c ∷ d ∷ s) rest (p, h) k =
    ground (arith, read_literal_ordinary unescape (d ∷ s) rest h k)

All-EndsLiteral : (rest : List ℕ) → All IsOrdinary rest → EndsLiteral rest
All-EndsLiteral [] h = tt
All-EndsLiteral (c ∷ rest) h = h.0.0

-- For a statement that begins with a literal, `s` and then a backslash, and goes on with `rest`,
-- where `s` and `rest` have no quote and no backslash: a reader in literal mode ends the literal at
-- the second quote, and interpolateParams, told of that mode, returns the statement unchanged,
-- whatever the parameters and the `?` in `rest`.
pub interpolate_misses_placeholders :
    (number_text : ℕ → List ℕ) (unescape : ℕ → ℕ) (s rest : List ℕ) (params : List Param)
    → All IsOrdinary s
    → All IsOrdinary rest
    → (read_literal unescape true (s ++ backslash ∷ quote ∷ rest)
        ≡ some (s ++ backslash ∷ [], rest))
      × (interpolate_params number_text (quote ∷ s ++ backslash ∷ quote ∷ rest) params true
          ≡ ok (quote ∷ s ++ backslash ∷ quote ∷ rest))
unfolding interpolate_params
interpolate_misses_placeholders number_text unescape s rest params h k = (
  read_literal_ordinary unescape s rest h (All-EndsLiteral rest k),
  scan_open _ params _ (scan_literal _ params s rest h k),
)
