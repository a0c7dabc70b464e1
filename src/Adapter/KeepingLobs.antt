-- ===== src/Adapter/KeepingLobs.antt =====
-- What the LOB reads of a statement leave alone.
use cubrid_client.Base.{
  ℕ, zero, suc, Bool, not, ◌&&◌, List, [], ◌∷◌, ◌++◌, ltb, Option, some, none, length,
}
use cubrid_client.Failure.{unsupported_value}
use cubrid_client.Errors.{failure}
use cubrid_client.Rows.{Row}
use cubrid_client.Value.{Value, LobLocator}
use cubrid_client.Adapter.{Adapter, Turned, done, threw}
use cubrid_client.Adapter.Turns.{Platform, is_malformed}
use cubrid_client.Adapter.Lobs.{
  LobCell, given, refuse_empty, read_chunk, read_chunks, read_content, end_read_now,
  end_read_transaction, load_cells, ending_read, load_measured, load_lobs, measure_rows, set_cell,
  decode_lob,
}
use cubrid_client.Adapter.Kept.{
  Kept, left_by, Kept-refl, Kept-trans, Kept-if, Kept-catching, IsKeeping, IsKeeping-bind,
  IsKeeping-then, answered_or_lost-IsKeeping, IsKeeping-give, IsKeeping-refuse, IsKeeping-lifted,
  the_cas-IsKeeping, do_if-IsKeeping, keeping_rules,
}
use cubrid_client.Adapter.Keeping.{asked-IsKeeping}

module _ (p : Platform) where
  module _ (generation : ℕ) where
    read_chunk-IsKeeping :
        (l : LobLocator) (received size : ℕ) → IsKeeping (read_chunk p generation l received size)
    unfolding read_chunk
    read_chunk-IsKeeping l received size = IsKeeping-bind the_cas-IsKeeping (λ c.
        IsKeeping-bind (IsKeeping-lifted _) (λ f.
          IsKeeping-bind (asked-IsKeeping p generation f) (λ reply.
            IsKeeping-bind (answered_or_lost-IsKeeping reply) (λ payload.
              IsKeeping-bind (IsKeeping-lifted _)
                (λ chunk. IsKeeping-then (full chunk) (IsKeeping-give chunk))))))
      where
        full : (bs : List ℕ) → IsKeeping (refuse_empty bs)
        full [] = record { at = Kept-refl }
        full (b ∷ bs) = record { at = Kept-refl }

    read_chunks-IsKeeping :
        (l : LobLocator) (fuel : ℕ) (content : List ℕ)
        → IsKeeping (read_chunks p generation l fuel content)
    unfolding read_chunks
    read_chunks-IsKeeping l zero content = record { at = Kept-refl }
    read_chunks-IsKeeping l (suc fuel) content = record {
      at = λ a.
          Kept-if (ltb (length content) l.size) _ (done content a)
            ((IsKeeping-bind (read_chunk-IsKeeping l (length content) _)
                (λ chunk. read_chunks-IsKeeping l fuel (content ++ chunk))).at
              a)
            (Kept-refl a);
    }

    end_read_transaction-IsKeeping : IsKeeping (end_read_transaction p generation)
    unfolding end_read_transaction end_read_now
    end_read_transaction-IsKeeping = record {
      at = λ a.
          Kept-if a.auto_commit _ (done tt a)
            (Kept-catching (end_read_now p generation a) _ (ended.at a)
              (λ e. search keeping_rules depth 20))
            (Kept-refl a);
    }
      where
        ended : IsKeeping (end_read_now p generation)
        ended = IsKeeping-bind the_cas-IsKeeping (λ c. IsKeeping-bind (IsKeeping-lifted _) (λ f.
            IsKeeping-bind (asked-IsKeeping p generation f)
              (λ reply. search keeping_rules depth 20)))

    load_cells-IsKeeping :
        (cells : List LobCell) (rows : List Row) → IsKeeping (load_cells p generation cells rows)
    unfolding load_cells read_content
    load_cells-IsKeeping [] rows = IsKeeping-give rows
    load_cells-IsKeeping (cell ∷ cells) rows =
        IsKeeping-bind (read_chunks-IsKeeping cell.locator (suc cell.locator.size) []) (λ content.
          IsKeeping-bind (present (decode_lob cell.locator content))
            (λ value. load_cells-IsKeeping cells (set_cell cell.row cell.name value rows)))
      where
        present : (o : Option Value) → IsKeeping (given o)
        present none = IsKeeping-refuse (failure unsupported_value)
        present (some x) = IsKeeping-give x

    Kept-ending_read {ℓ} :
        {A : Type ℓ} {a : Adapter} (wanted : Bool) (s : Turned A)
        → Kept a (left_by s)
        → Kept a (left_by (ending_read p generation wanted s))
    Kept-ending_read wanted (done x b) k = Kept-trans k (
        (IsKeeping-then (do_if-IsKeeping wanted end_read_transaction-IsKeeping)
            (IsKeeping-give x)).at
          b)
    Kept-ending_read wanted (threw e b) k = Kept-trans k (
        (IsKeeping-then
            (do_if-IsKeeping (wanted && not (is_malformed e)) end_read_transaction-IsKeeping)
            (IsKeeping-refuse e)).at
          b)

    pub load_lobs-IsKeeping :
        (rows : List Row) (ends : Bool) → IsKeeping (load_lobs p generation rows ends)
    unfolding load_lobs
    load_lobs-IsKeeping rows ends = go (measure_rows _ 0 rows ([], 0))
      where
        go : (o : Option (List LobCell × ℕ)) → IsKeeping (load_measured p generation ends rows o)
        go none = record { at = Kept-refl }
        go (some (cells, total)) = record {
          at = λ a.
              Kept-ending_read (ltb 0 total && ends) (load_cells p generation cells rows a)
                ((load_cells-IsKeeping cells rows).at a);
        }
