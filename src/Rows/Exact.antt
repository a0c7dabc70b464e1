-- ===== src/Rows/Exact.antt =====
-- parseRowData: where a cell ends.
use cubrid_client.Base.{
  ℕ, ◌+◌, ◌-◌, ◌≤◌, ◌≡◌, arith, Bool, true, false, not, ◌&&◌, leb, ◌==◌, ℤ, pos, negsuc, sym, ◌⊎◌,
  ◌-ℤ◌, pos_part, Option, none, Bool-cases, inl, inr,
}
use cubrid_client.Columns.{ColumnMeta, ColumnType, parse_column_type}
use cubrid_client.Constants.{CubridDataType}
use cubrid_client.Failure.{
  range_error, error, unsupported_value, malformed_reply, cas_reply, diverges,
}
use cubrid_client.Reader.{
  PacketReader, Outcome, done, thrown, after, ◌>>=◌, ◌>>◌, return, guard, position, remaining, skip,
  assert_available,
}
use cubrid_client.Reader.Rules.{Good}
use cubrid_client.Value.{Value, is_bit_type, assert_exact_length}
use cubrid_client.Value.Read.{read_value}
use cubrid_client.Value.Fuel.{Steady-read_value}
use cubrid_client.Rows.{
  here, caught, decode_cell, read_cell_value, read_typed_cell, read_type_header, read_sized_cell,
}
use cubrid_client.Rows.Laws.{Steady-parse_column_type}

-- A call that returns leaves the reader at this offset.
abbrev pub EndsAt {ℓ} : {A : Type ℓ} → ℕ → Outcome A → Type 0
EndsAt n (done a r) = r.offset ≡ n
EndsAt n (thrown e r) = Unit

decoded-EndsAt :
    (size start : ℕ) (r : PacketReader) (o : Outcome Value)
    → start ≤ r.offset
    → Good r o
    → EndsAt (start + size) (
        after o (λ value. here >>= λ end.
        assert_exact_length (end - start) size >> (guard (not (size == 0)) error >> return value)))
unfolding assert_exact_length position
decoded-EndsAt size start r (thrown e r') h g = tt
decoded-EndsAt size start r (done v r') h g = elim (Bool-cases (r'.offset - start == size)) [
  | inr other ↦ rw other tt
  | inl exact ↦ elim (Bool-cases (size == 0)) [
    | inl empty ↦ rw (exact, empty) tt
    | inr full ↦ rw (exact, full) (ground arith)
  ]
]

decode_cell-EndsAt :
    (t : CubridDataType) (size : ℕ) (r : PacketReader)
    → EndsAt (r.offset + size) (decode_cell t size r.offset r)
unfolding decode_cell
decode_cell-EndsAt t size r =
    decoded-EndsAt size r.offset r (read_value t size r) (omega arith)
      ((Steady-read_value t size).at r)

-- The difference is a number of bytes to go, or negative.
distance-cases :
    (a b : ℕ)
    → ((n : ℕ) × (pos a -ℤ pos b ≡ pos n) × (b + n ≡ a)) ⊎ ((n : ℕ) × (pos a -ℤ pos b ≡ negsuc n))
distance-cases a b = elim (Bool-cases (leb b a)) [
  | inl h ↦ inl (a - b, ground arith, ground arith)
  | inr h ↦ inr (b - a - 1, ground arith)
]

-- Stepping to an offset gets there, or throws.
skip-EndsAt :
    (end : ℕ) (r : PacketReader)
    → EndsAt end ((skip (pos end -ℤ pos (position r)) >> return {A = Option Value} none) r)
unfolding skip assert_available position
skip-EndsAt end r = elim (distance-cases end r.offset) [
  | inl (n, e, h) ↦ elim (Bool-cases (leb n (remaining r))) [
    | inl there ↦ rw (e, there) h
    | inr short ↦ rw (e, short) tt
  ]
  | inr (n, e) ↦ rw e tt
]

caught-EndsAt : (end : ℕ) (o : Outcome Value) → EndsAt end o → EndsAt end (caught end o)
caught-EndsAt end (done v r) h = h
caught-EndsAt end (thrown unsupported_value r) h = skip-EndsAt end r
caught-EndsAt end (thrown range_error r) h = tt
caught-EndsAt end (thrown error r) h = tt
caught-EndsAt end (thrown malformed_reply r) h = tt
caught-EndsAt end (thrown (cas_reply a b m) r) h = tt
caught-EndsAt end (thrown diverges r) h = tt

read_cell_value-EndsAt :
    (t : CubridDataType) (size : ℕ) (r : PacketReader)
    → EndsAt (r.offset + size) (read_cell_value t size r)
unfolding read_cell_value position
read_cell_value-EndsAt t size r =
    caught-EndsAt (r.offset + size) (decode_cell t size r.offset r) (decode_cell-EndsAt t size r)

read_typed_cell-EndsAt :
    (t : CubridDataType) (size : ℕ) (r : PacketReader)
    → EndsAt (r.offset + size) (read_typed_cell (t, size) r)
unfolding read_typed_cell
read_typed_cell-EndsAt t size r = elim (Bool-cases (size == 0 && is_bit_type t)) [
  | inl empty ↦ rw empty (ground (arith, empty))
  | inr other ↦ rw other (read_cell_value-EndsAt t size r)
]

-- Behind a type header the rest of the cell is what is left of its size.
header-EndsAt :
    (size start : ℕ) (r : PacketReader) (o : Outcome ColumnType)
    → start ≤ r.offset
    → Good r o
    → EndsAt (start + size) (
        after
          (after o (λ stated. here >>= λ end.
            guard (leb (end - start) size) error >> return (stated.type, size - (end - start))))
          read_typed_cell)
unfolding position
header-EndsAt size start r (thrown e r') h g = tt
header-EndsAt size start r (done stated r') h g = elim (Bool-cases (leb (r'.offset - start) size)) [
  | inr beyond ↦ rw beyond tt
  | inl fits ↦
      let total : r'.offset + (size - (r'.offset - start)) ≡ start + size =
        ground (arith, fits, h, g.1) in
      rw (fits, sym total) (read_typed_cell-EndsAt stated.type (size - (r'.offset - start)) r')
]

-- For every column, flag and size, on every reader: if reading a cell of that length returns, the
-- reader stands exactly that many bytes further, and not at all further for SQL NULL.
pub read_sized_cell-EndsAt :
    (column : ColumnMeta) (has_type_header : Bool) (size : ℤ) (r : PacketReader)
    → EndsAt (r.offset + pos_part size) (read_sized_cell column has_type_header size r)
unfolding read_sized_cell read_type_header
read_sized_cell-EndsAt column true (pos n) r =
    header-EndsAt n r.offset r (parse_column_type r) (omega arith) (Steady-parse_column_type.at r)
read_sized_cell-EndsAt column false (pos n) r = read_typed_cell-EndsAt column.type n r
read_sized_cell-EndsAt column has_type_header (negsuc n) r = omega arith
