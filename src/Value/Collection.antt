-- ===== src/Value/Collection.antt =====
-- readCollection and readCollectionElement, over the decoder of a single value.
use cubrid_client.Base.{
  ℕ, zero, suc, ◌-◌, ◌*◌, Bool, true, false, not, ◌||◌, [], leb, if◌then◌else◌, ℤ, pos, negsuc,
  pos_part, Option, some, none,
}
use cubrid_client.Constants.{CubridDataType, type_of_code}
use cubrid_client.Failure.{error, unsupported_value}
use cubrid_client.Reader.{
  Parse, done, thrown, return, throw, guard, within, ◌>>=◌, ◌>>◌, sub_reader, parse_int,
  parse_ubyte, remaining,
}
use cubrid_client.Value.{
  Value, null, bytes, collection, Values, nil, cons, is_bit_type, is_lob_type, assert_exact_length,
}

-- A value on a reader over exactly its bytes, which it must use up.
unfoldable pub read_whole : Parse Value → ℕ → Parse Value
unfolding assert_exact_length remaining
read_whole read size = do
  value ← read
  left ← (λ r. done (remaining r) r)
  assert_exact_length (size - left) size
  return value

-- `try { values.push(...) } catch`: an unsupported element is passed over, any other failure goes on.
abbrev pub attempt {ℓ} : {A : Type ℓ} → Parse A → Parse (Option A)
attempt p r = elim (p r) [
  | done a r' ↦ done (some a) r'
  | thrown e r' ↦ elim e [ unsupported_value ↦ done none r' | other ↦ thrown other r' ]
]

abbrev pub is_none {ℓ} : {A : Type ℓ} → Option A → Bool
is_none none = true
is_none (some a) = false

abbrev pub push : Option Value → Values → Values
push none vs = vs
push (some v) vs = cons v vs

-- Each element has at least a length word.
unfoldable pub count_fits : ℤ → ℕ → Bool
count_fits (pos n) left = leb (n * 4) left
count_fits (negsuc n) left = false

-- The elements must fill the cell; then an unsupported one is reported.
unfoldable pub collection_end : ℕ → Values → Bool → Parse Value
unfolding assert_exact_length remaining
collection_end size values seen = do
  rest ← (λ r. done (remaining r) r)
  assert_exact_length (size - rest) size
  guard (not seen) unsupported_value
  return (collection values)

module _ (read_value : CubridDataType → ℕ → Parse Value) where
  unfoldable pub read_collection_element : CubridDataType → ℤ → Parse Value
  unfolding read_whole
  read_collection_element element_type (negsuc zero) = return null
  read_collection_element element_type (negsuc (suc n)) = throw error
  read_collection_element element_type (pos zero) =
      if is_bit_type element_type then return (bytes []) else throw error
  read_collection_element element_type (pos (suc n)) = do
    element ← sub_reader (pos (suc n))
    guard (not (is_lob_type element_type)) unsupported_value
    within element (read_whole (read_value element_type (suc n)) (suc n))

  -- The elements still to read, `n` of them, and whether an unsupported one was seen. An
  -- unsupported element does not stop the walk.
  unfoldable pub read_elements : ℕ → CubridDataType → Bool → Parse (Values × Bool)
  unfolding read_collection_element remaining
  read_elements zero element_type seen = return (nil, seen)
  read_elements (suc n) element_type seen = do
    left ← (λ r. done (remaining r) r)
    guard (leb 4 left) error
    got ← attempt (do size ← parse_int; read_collection_element element_type size)
    (values, seen') ← read_elements n element_type (seen || is_none got)
    return (push got values, seen')

  -- The cell's own reader: the element type, the count, and the elements up to its end.
  unfoldable pub read_collection_cell : ℕ → Parse Value
  unfolding read_elements count_fits collection_end
  read_collection_cell size = do
    element_type ← parse_ubyte
    count ← parse_int
    left ← (λ r. done (remaining r) r)
    guard (count_fits count left) error
    (values, seen) ← read_elements (pos_part count) (type_of_code element_type) false
    collection_end size values seen

  unfoldable pub read_collection : ℕ → Parse Value
  unfolding read_collection_cell
  read_collection size = do
    cell ← sub_reader (pos size)
    guard (leb 5 size) error
    within cell (read_collection_cell size)
