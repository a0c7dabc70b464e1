-- ===== src/Value/Fuel.antt =====
-- readValue and readCollection: the fuel that a nesting of collections takes.
use cubrid_client.Base.{
  ℕ, zero, suc, ◌+◌, ◌-◌, ◌≤◌, ◌<◌, ◌≡◌, refl, arith, Bool, false, not, ◌||◌, List, [], ℤ, pos,
  negsuc, pos_part, leb, length, drop, length-take-le, some, none, ◌⊎◌, inl, inr, Bool-cases,
}
use cubrid_client.Buffer.{be_value}
use cubrid_client.Constants.{CubridDataType, type_of_code}
use cubrid_client.Failure.{range_error, error, unsupported_value, diverges}
use cubrid_client.Reader.{
  PacketReader, Outcome, done, thrown, Parse, ◌>>=◌, guard, within, remaining, sub_reader,
  new_reader, parse_int, parse_ubyte, fixed, window, advance,
}
use cubrid_client.Reader.Rules.{
  Onward, Good, Good-after, Good-Onward, Steady, steady_rules, Steady-return, Steady-throw,
  Steady-bind, Steady-then, Steady-if, Steady-guard, Steady-parse_int, Steady-remaining,
  Steady-within,
}
use cubrid_client.Value.{Value, null, bytes, Values, nil, is_bit_type, is_lob_type}
use cubrid_client.Value.Collection.{
  read_whole, read_collection_element, read_elements, read_collection_cell, read_collection,
  attempt, is_none, push, count_fits, collection_end,
}
use cubrid_client.Value.Read.{read_value_fuel, read_value}
use cubrid_client.Value.Scalars.{Steady-assert_exact_length, Steady-read_value_with}

-- A reader over a cell of `size` bytes at most, behind its first byte: what is left is shorter.
Confined : ℕ → PacketReader → Type 0
Confined size r = (length r.buf ≤ size) × (1 ≤ r.offset)

Confined-Onward :
    (size : ℕ) (r r' : PacketReader) → Onward r r' → Confined size r → Confined size r'
unfolding Confined
Confined-Onward size r r' (e, h) (c, d) = (rw e c, omega arith)

-- The sub-reader, if its bytes are there.
sub_reader-cases :
    (n : ℕ) (r : PacketReader)
    → ((n ≤ length r.buf - r.offset)
        × (sub_reader (pos n) r ≡ done (new_reader (window n r)) (advance n r)))
      ⊎ (sub_reader (pos n) r ≡ thrown range_error r)
unfolding sub_reader
sub_reader-cases n r = elim (Bool-cases (leb n (length r.buf - r.offset))) [
  | inl e ↦ inl (ground arith, rw e)
  | inr e ↦ inr (rw e)
]

Good-attempt {ℓ} :
    {A : Type ℓ} (p : Parse A) (r : PacketReader) → Good r (p r) → Good r (attempt p r)
Good-attempt {A} p r = go (p r)
  where
    go :
        (o : Outcome A)
        → Good r o
        → Good r (elim o [
          | done a r' ↦ done (some a) r'
          | thrown e r' ↦ elim e [ unsupported_value ↦ done none r' | other ↦ thrown other r' ]
        ])
    go (done a r') g = g
    go (thrown unsupported_value r') (g, x) = g
    go (thrown diverges r') (g, x) = absurd x
    go (thrown e r') g = g

parse_ubyte-cases :
    (r : PacketReader)
    → ((b : ℕ) × (parse_ubyte r ≡ done b (advance 1 r))) ⊎ (parse_ubyte r ≡ thrown range_error r)
unfolding parse_ubyte fixed
parse_ubyte-cases r = elim (Bool-cases (leb (r.offset + 1) (length r.buf))) [
  | inl e ↦ inl (be_value 0 (window 1 r), rw e)
  | inr e ↦ inr (rw e)
]

length-window : (n : ℕ) (r : PacketReader) → length (window n r) ≤ n
length-window n r = length-take-le n (drop r.offset r.buf)

Good-within {ℓ} :
    {A : Type ℓ} (cell : PacketReader) (p : Parse A) (r : PacketReader)
    → Good cell (p cell)
    → Good r (within cell p r)
Good-within {A} cell p r = go (p cell)
  where
    go :
        (o : Outcome A)
        → Good cell o
        → Good r (elim o [ done a _ ↦ done a r | thrown e _ ↦ thrown e r ])
    go (done a r') g = (refl, omega arith)
    go (thrown e r') (g, x) = ((refl, omega arith), x)

-- What follows the elements of a collection.
Steady-end : (size : ℕ) (vs : Values) (seen : Bool) → Steady (collection_end size vs seen)
unfolding collection_end
Steady-end size vs seen = search (steady_rules, Steady-assert_exact_length) depth 12

module _ (read : CubridDataType → ℕ → Parse Value) (size : ℕ)
    (deep : (t : CubridDataType) (n : ℕ) → n < size → Steady (read t n)) where
  Steady-read_whole : (t : CubridDataType) (n : ℕ) → n < size → Steady (read_whole (read t n) n)
  unfolding read_whole
  Steady-read_whole t n h = Steady-bind (deep t n h) (λ v.
      Steady-bind Steady-remaining
        (λ left. Steady-then (Steady-assert_exact_length (n - left) n) (Steady-return v)))

  Good-element :
      (t : CubridDataType) (declared : ℤ) (r : PacketReader)
      → Confined size r
      → Good r (read_collection_element read t declared r)
  unfolding read_collection_element Confined
  Good-element t (negsuc zero) r c = (Steady-return null).at r
  Good-element t (negsuc (suc n)) r c = (Steady-throw {A = Value} error tt).at r
  Good-element t (pos zero) r c =
      (Steady-if (is_bit_type t) (Steady-return (bytes [])) (Steady-throw error tt)).at r
  Good-element t (pos (suc n)) r (c, d) = elim (sub_reader-cases (suc n) r) [
    | inl (room, e) ↦ rw e (
        Good-Onward _ (refl, omega arith)
          ((Steady-then (Steady-guard (not (is_lob_type t)) unsupported_value tt) (
              Steady-within (new_reader (window (suc n) r))
                (Steady-read_whole t (suc n) (omega arith)))).at
            (advance (suc n) r)))
    | inr e ↦ rw e ((refl, omega arith), tt)
  ]

  element : CubridDataType → Parse Value
  element t = do declared ← parse_int; read_collection_element read t declared

  element-Good : (t : CubridDataType) (r : PacketReader) → Confined size r → Good r (element t r)
  unfolding element
  element-Good t r c =
      Good-after (parse_int r) (read_collection_element read t) (Steady-parse_int.at r)
        (λ declared r' on. Good-element t declared r' (Confined-Onward size r r' on c))

  Good-elements :
      (n : ℕ) (t : CubridDataType) (seen : Bool) (r : PacketReader)
      → Confined size r
      → Good r (read_elements read n t seen r)
  unfolding read_elements element
  Good-elements zero t seen r c = (Steady-return {A = Values × Bool} (nil, seen)).at r
  Good-elements (suc n) t seen r c =
      Good-after (guard (leb 4 (remaining r)) error r) _
        ((Steady-guard (leb 4 (remaining r)) error tt).at r)
        (λ _ r₁ on₁.
          let c₁ = Confined-Onward size r r₁ on₁ c in
          Good-after (attempt (element t) r₁) _ (Good-attempt (element t) r₁ (element-Good t r₁ c₁))
            (λ got r₂ on₂.
              Good-after (read_elements read n t (seen || is_none got) r₂) _
                (Good-elements n t (seen || is_none got) r₂ (Confined-Onward size r₁ r₂ on₂ c₁))
                (λ (vs, seen') r₃ on₃.
                  (Steady-return {A = Values × Bool} (push got vs, seen')).at r₃)))

  -- The cell starts at its first byte, which the element type takes.
  Good-cell :
      (cell : List ℕ)
      → length cell ≤ size
      → Good (new_reader cell) (read_collection_cell read size (new_reader cell))
  unfolding read_collection_cell Confined new_reader
  Good-cell cell h = elim (parse_ubyte-cases (new_reader cell)) [
    | inr e ↦ rw e ((refl, omega arith), tt)
    | inl (code, e) ↦
        let r₁ = advance 1 (new_reader cell) in
        let c₁ : Confined size r₁ = (h, omega arith) in
        rw e (
          Good-Onward _ (refl, omega arith)
            (Good-after (parse_int r₁) _ (Steady-parse_int.at r₁) (λ count r₂ on₂.
              Good-after (guard (count_fits count (remaining r₂)) error r₂) _
                ((Steady-guard _ error tt).at r₂)
                (λ _ r₃ on₃.
                  let c₃ = Confined-Onward size r₂ r₃ on₃ (Confined-Onward size r₁ r₂ on₂ c₁) in
                  Good-after (read_elements read (pos_part count) (type_of_code code) false r₃) _
                    (Good-elements (pos_part count) (type_of_code code) false r₃ c₃)
                    (λ (vs, seen) r₄ on₄. (Steady-end size vs seen).at r₄)))))
  ]

  Steady-read_collection : Steady (read_collection read size)
  unfolding read_collection
  Steady-read_collection = record {
    at = λ r. elim (sub_reader-cases size r) [
      | inl (room, e) ↦ rw e (
          Good-Onward _ (refl, omega arith)
            (Good-after (guard (leb 5 size) error (advance size r)) _
              ((Steady-guard (leb 5 size) error tt).at (advance size r))
              (λ _ r₂ on₂.
                Good-within (new_reader (window size r)) (read_collection_cell read size) r₂
                  (Good-cell (window size r) (length-window size r)))))
      | inr e ↦ rw e ((refl, omega arith), tt)
    ];
  }

-- With more fuel than the size, the decoder is steady on every reader.
Steady-read_value_fuel :
    (fuel : ℕ) (t : CubridDataType) (size : ℕ) → size < fuel → Steady (read_value_fuel fuel t size)
unfolding read_value_fuel
Steady-read_value_fuel zero t size h = absurd (omega arith)
Steady-read_value_fuel (suc fuel) t size h =
    Steady-read_value_with (read_value_fuel fuel) size
      (Steady-read_collection (read_value_fuel fuel) size
        (λ t' n k. Steady-read_value_fuel fuel t' n (omega arith)))
      t

pub Steady-read_value : (t : CubridDataType) (size : ℕ) → Steady (read_value t size)
unfolding read_value
Steady-read_value t size = Steady-read_value_fuel (size + 1) t size (omega arith)

-- On every reader, for every type and size, `readValue` returns or throws an exception of the code,
-- and never runs out of rounds; the reader that it leaves has the same buffer and stands no further
-- back.
pub read_value-Good :
    (t : CubridDataType) (size : ℕ) (r : PacketReader) → Good r (read_value t size r)
read_value-Good t size r = (Steady-read_value t size).at r
