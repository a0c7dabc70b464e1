-- ===== src/Sql/Literal.antt =====
-- escapeString against a server's reader of string literals, in both modes of
-- `no_backslash_escapes`.
use cubrid_client.Base.{
  ℕ, Bool, true, false, ◌≡◌, ◌≢◌, refl, ap, sym, ◌∙◌, arith, List, [], ◌∷◌, ◌++◌, append_assoc, inl,
  inr, ◌⊎◌, ◌↔◌, ◌==◌, if◌then◌else◌, Option, some, none, includes,
}
use mathlib.Core.Option
use native.Mathlib.Decide.{ℕ_discrete}
use cubrid_client.Failure.{ok}
use cubrid_client.Sql.{backslash, quote, carriage_return, line_feed, escape_body, escape_string}

-- What one character becomes between the quotes.
abbrev pub escape_unit : Bool → ℕ → List ℕ
escape_unit true c = if c == quote then quote ∷ quote ∷ [] else c ∷ []
escape_unit false c =
    if c == backslash
    then backslash ∷ backslash ∷ []
    else if c == quote
    then quote ∷ quote ∷ []
    else if c == carriage_return
    then backslash ∷ carriage_return ∷ []
    else if c == line_feed
    then backslash ∷ line_feed ∷ []
    else c ∷ []

abbrev pub escape_units : Bool → List ℕ → List ℕ
escape_units mode [] = []
escape_units mode (c ∷ s) = escape_unit mode c ++ escape_units mode s

-- The replacements of each mode, one after another over the whole text, are one pass that writes
-- `escape_unit` for each character.
pub escape_body-escape_units : (s : List ℕ) (mode : Bool) → escape_body s mode ≡ escape_units mode s
unfolding escape_body
escape_body-escape_units [] true = refl
escape_body-escape_units [] false = refl
escape_body-escape_units (c ∷ s) true =
    ap (λ t. escape_unit true c ++ t) (escape_body-escape_units s true)
escape_body-escape_units (c ∷ s) false = ground (arith, escape_body-escape_units s false)

-- A server's reader, behind the opening quote: the text and what follows the closing quote. A
-- doubled quote is a quote; in escape mode a backslash takes the next character, read by `unescape`.
unfoldable pub read_literal : (ℕ → ℕ) → Bool → List ℕ → Option (List ℕ × List ℕ)
read_literal unescape mode [] = none
read_literal unescape mode (c ∷ []) = if c == quote then some ([], []) else none
read_literal unescape mode (c ∷ d ∷ rest) =
    let skipped = Option.map (λ p. (d ∷ p.0, p.1)) (read_literal unescape mode rest) in
    let escaped = Option.map (λ p. (unescape d ∷ p.0, p.1)) (read_literal unescape mode rest) in
    let plain = Option.map (λ p. (c ∷ p.0, p.1)) (read_literal unescape mode (d ∷ rest)) in
    if c == quote
    then (if d == quote then skipped else some ([], d ∷ rest))
    else if c == backslash
    then (if mode then plain else escaped)
    else plain

-- What stands behind a literal does not go on with a quote.
abbrev pub EndsLiteral : List ℕ → Type 0
EndsLiteral [] = Unit
EndsLiteral (c ∷ rest) = c ≢ quote

-- The escapes that the driver relies on: a backslash before a backslash, a CR or an LF.
pub record KeepsEscaped (unescape : ℕ → ℕ) : Type 0 where
  pub of_backslash : unescape backslash ≡ backslash
  pub of_carriage_return : unescape carriage_return ≡ carriage_return
  pub of_line_feed : unescape line_feed ≡ line_feed

plain_unit :
    (c : ℕ)
    → c ≢ backslash
    → c ≢ quote
    → c ≢ carriage_return
    → c ≢ line_feed
    → escape_unit false c ≡ c ∷ []
plain_unit c p q r s = ground arith

literal_unit : (c : ℕ) → c ≢ quote → escape_unit true c ≡ c ∷ []
literal_unit c q = ground arith

module _ (unescape : ℕ → ℕ) where
  read_literal-plain :
      (mode : Bool) (c : ℕ) (t : List ℕ)
      → c ≢ quote
      → ((mode ≡ true) ⊎ (c ≢ backslash))
      → read_literal unescape mode (c ∷ t)
        ≡ Option.map (λ p. (c ∷ p.0, p.1)) (read_literal unescape mode t)
  unfolding read_literal
  read_literal-plain mode c [] h k = ground arith
  read_literal-plain mode c (d ∷ t) h k = ground arith

  -- One character of the text, as the escaper writes it, reads as that character.
  read_literal-escape_unit :
      (mode : Bool) (c : ℕ) (t : List ℕ)
      → KeepsEscaped unescape
      → read_literal unescape mode (escape_unit mode c ++ t)
        ≡ Option.map (λ p. (c ∷ p.0, p.1)) (read_literal unescape mode t)
  unfolding read_literal
  read_literal-escape_unit true c t k = elim (ℕ_discrete c quote) [
    | yes e ↦ rw e
    | no not_quote ↦
        rw (literal_unit c not_quote) (read_literal-plain true c t not_quote (inl refl))
  ]
  read_literal-escape_unit false c t k = elim (ℕ_discrete c backslash) [
    | yes e ↦ rw (e, k.of_backslash)
    | no not_backslash ↦ elim (ℕ_discrete c quote) [
      | yes e ↦ rw e
      | no not_quote ↦ elim (ℕ_discrete c carriage_return) [
        | yes e ↦ rw (e, k.of_carriage_return)
        | no not_cr ↦ elim (ℕ_discrete c line_feed) [
          | yes e ↦ rw (e, k.of_line_feed)
          | no not_lf ↦
              rw (plain_unit c not_backslash not_quote not_cr not_lf)
                (read_literal-plain false c t not_quote (inr not_backslash))
        ]
      ]
    ]
  ]

  read_literal-end :
      (mode : Bool) (rest : List ℕ)
      → EndsLiteral rest
      → read_literal unescape mode (quote ∷ rest) ≡ some ([], rest)
  unfolding read_literal
  read_literal-end mode [] h = refl
  read_literal-end mode (c ∷ rest) h = ground arith

  read_literal-escape_units :
      (mode : Bool) (s rest : List ℕ)
      → KeepsEscaped unescape
      → EndsLiteral rest
      → read_literal unescape mode (escape_units mode s ++ quote ∷ rest) ≡ some (s, rest)
  read_literal-escape_units mode [] rest k h = read_literal-end mode rest h
  read_literal-escape_units mode (c ∷ s) rest k h = rw append_assoc (
      read_literal-escape_unit mode c (escape_units mode s ++ quote ∷ rest) k
      ∙ ap (Option.map (λ p. (c ∷ p.0, p.1))) (read_literal-escape_units mode s rest k h))

  -- If `unescape` keeps a backslash, a CR and a LF, and the text behind does not begin with a quote:
  -- what `escapeString` returns is an opening quote and then a body from which a reader of literals
  -- in the same mode reads the value back, and stops exactly at the closing quote.
  pub read_literal-escape_string :
      (mode : Bool) (value out rest : List ℕ)
      → KeepsEscaped unescape
      → EndsLiteral rest
      → escape_string value mode ≡ ok out
      → (body : List ℕ) × (out ≡ quote ∷ body)
        × (read_literal unescape mode (body ++ rest) ≡ some (value, rest))
  unfolding escape_string
  read_literal-escape_string mode value out rest k h e = (
    escape_body value mode ++ (quote ∷ []),
    sym (ground (arith, e)),
    rw (append_assoc, escape_body-escape_units) (read_literal-escape_units mode value rest k h),
  )

-- Exactly the texts with no NUL and no Ctrl-Z are accepted, in either mode.
pub escape_string-accepts_iff :
    (value : List ℕ) (mode : Bool)
    → ((out : List ℕ) × (escape_string value mode ≡ ok out))
      ↔ ((includes 0 value ≡ false) × (includes 0x1a value ≡ false))
unfolding escape_string
escape_string-accepts_iff value mode = (
  λ (out, e). ground (arith, e),
  λ h. (quote ∷ escape_body value mode ++ (quote ∷ []), ground (arith, h.0, h.1)),
)
