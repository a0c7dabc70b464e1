-- ===== src/Adapter/Lobs.antt =====
-- The LOB contents of a result's rows: loadLobs, measureLobs, readLob, endReadTransaction and
-- decodeLob of src/adapters/native.ts.
pub mod Sized
pub mod Exact
use cubrid_client.Base.{
  ℕ, zero, suc, ◌+◌, ◌-◌, ◌*◌, Bool, true, false, not, ◌&&◌, List, [], ◌∷◌, ◌++◌, ltb, ◌==◌,
  if◌then◌else◌, Option, some, none, pos, length, min,
}
use cubrid_client.Constants.{CubridDataType, type_blob}
use cubrid_client.Failure.{unsupported_value, diverges}
use cubrid_client.Errors.{Thrown, failure, connection_lost}
use cubrid_client.Request.{write_lob_read, write_end_tran}
use cubrid_client.Reply.Simple.{parse_lob_read}
use cubrid_client.Rows.{Row, set_column}
use cubrid_client.Text.{utf8_encode, utf8_decode}
use cubrid_client.Value.{Value, LobLocator, lob, bytes, string}
use cubrid_client.Value.Zoned.{same_bytes}
use cubrid_client.Session.Exchange.{discard_session, send_and_recv_on_session, is_connected}
use cubrid_client.Adapter.{Adapter, Turned, Turn, done, threw, then_turn, at_world}
use cubrid_client.Adapter.Turns.{
  Platform, or_default, ◌>>=◌, ◌>>◌, give, refuse, lifted, catching, the_cas, on_cas, do_if,
  is_malformed, check_reply, answered_or_lost,
}

-- DEFAULT_MAX_LOB_BYTES and LOB_READ_CHUNK_SIZE.
abbrev pub default_max_lob_bytes : ℕ
default_max_lob_bytes = 64 * 1024 * 1024

abbrev pub lob_read_chunk_size : ℕ
lob_read_chunk_size = 128 * 1024

-- A cell that holds a locator: its row's index, its column and the locator.
pub record LobCell : Type 0 where
  pub row : ℕ
  pub name : List ℕ
  pub locator : LobLocator

-- The scan of one row: the cells so far and the bytes that they come to.
unfoldable pub measure_row : ℕ → ℕ → Row → List LobCell × ℕ → Option (List LobCell × ℕ)
measure_row limit index [] found = some found
measure_row limit index ((name, lob locator) ∷ cells) (found, total) =
    if ltb limit (total + locator.size)
    then none
    else measure_row limit index cells
        (found ++ record { row = index; name = name; locator = locator } ∷ [], total + locator.size)
measure_row limit index ((name, v) ∷ cells) found = measure_row limit index cells found

unfoldable pub measure_rows : ℕ → ℕ → List Row → List LobCell × ℕ → Option (List LobCell × ℕ)
unfolding measure_row
measure_rows limit index [] found = some found
measure_rows limit index (row ∷ rows) found = elim (measure_row limit index row found) [
  | none ↦ none
  | some more ↦ measure_rows limit (suc index) rows more
]

-- `CLOB_DECODER.decode`: bytes that are no UTF-8 do not encode back to themselves. A byte order mark
-- is kept.
unfoldable pub decode_clob : List ℕ → Option Value
decode_clob content =
    if same_bytes (utf8_encode (utf8_decode content)) content
    then some (string (utf8_decode content))
    else none

unfoldable pub decode_lob : LobLocator → List ℕ → Option Value
unfolding decode_clob
decode_lob locator content = elim locator.type [
  | type_blob ↦ some (bytes content)
  | _ ↦ decode_clob content
]

-- A cell's content in place of its locator.
abbrev pub set_cell : ℕ → List ℕ → Value → List Row → List Row
set_cell n name value [] = []
set_cell zero name value (row ∷ rows) = set_column name value row ∷ rows
set_cell (suc n) name value (row ∷ rows) = row ∷ set_cell n name value rows

abbrev pub given {ℓ} : {A : Type ℓ} → Option A → Turn A
given none = refuse (failure unsupported_value)
given (some x) = give x

abbrev pub refuse_empty : List ℕ → Turn (Unit {0})
refuse_empty [] = refuse (failure unsupported_value)
refuse_empty (b ∷ bs) = give tt

module _ (p : Platform) (generation : ℕ) where
  -- One LOB_READ.
  unfoldable pub read_chunk : LobLocator → ℕ → ℕ → Turn (List ℕ)
  read_chunk locator received size = do
    c ← the_cas
    f ← lifted (write_lob_read locator.handle (pos received) (pos size) c.cas_info)
    reply ← on_cas (send_and_recv_on_session p.network generation f)
    payload ← answered_or_lost reply
    chunk ← lifted (parse_lob_read payload size)
    refuse_empty chunk
    give chunk

  -- The loop of `readLob`, with the bytes received so far, on fuel.
  unfoldable pub read_chunks : LobLocator → ℕ → List ℕ → Turn (List ℕ)
  unfolding read_chunk
  read_chunks locator zero content a = threw (failure diverges) a
  read_chunks locator (suc fuel) content a =
      if ltb (length content) locator.size
      then (do
        chunk ←
            read_chunk locator (length content)
              (min (locator.size - length content) lob_read_chunk_size)
        read_chunks locator fuel (content ++ chunk))
          a
      else done content a

  -- `readLob` outside a stream. Every chunk brings a byte.
  unfoldable pub read_content : LobLocator → Turn (List ℕ)
  unfolding read_chunks
  read_content locator = read_chunks locator (suc locator.size) []

  unfoldable pub end_read_now : Turn (Unit {0})
  end_read_now = do
    c ← the_cas
    f ← lifted (write_end_tran (pos 1) c.cas_info)
    reply ← on_cas (send_and_recv_on_session p.network generation f)
    check_reply reply

  -- `endReadTransaction`: after a failure nothing more goes on the session.
  unfoldable pub end_read_transaction : Turn (Unit {0})
  unfolding end_read_now
  end_read_transaction a =
      if a.auto_commit
      then catching (end_read_now a)
          (λ e. do c ← the_cas; do_if (is_connected c) (on_cas discard_session))
      else done tt a

  unfoldable pub load_cells : List LobCell → List Row → Turn (List Row)
  unfolding read_content
  load_cells [] rows = give rows
  load_cells (cell ∷ cells) rows = do
    content ← read_content cell.locator
    value ← given (decode_lob cell.locator content)
    load_cells cells (set_cell cell.row cell.name value rows)

  -- The `finally` block of `loadLobs`.
  abbrev pub ending_read {ℓ} : {A : Type ℓ} → Bool → Turned A → Turned A
  ending_read wanted (done x a) = then_turn (do_if wanted end_read_transaction a) (λ _. give x)
  ending_read wanted (threw e a) =
      then_turn (do_if (wanted && not (is_malformed e)) end_read_transaction a) (λ _. refuse e)

  abbrev pub load_measured : Bool → List Row → Option (List LobCell × ℕ) → Turn (List Row)
  load_measured ends_read rows none a = threw (failure unsupported_value) a
  load_measured ends_read rows (some (cells, total)) a =
      ending_read (ltb 0 total && ends_read) (load_cells cells rows a)

  -- `loadLobs`: the sizes are checked before the first read.
  unfoldable pub load_lobs : List Row → Bool → Turn (List Row)
  unfolding measure_rows load_cells end_read_transaction
  load_lobs rows ends_read =
      load_measured ends_read rows
        (measure_rows (or_default p.max_lob_bytes default_max_lob_bytes) 0 rows ([], 0))
