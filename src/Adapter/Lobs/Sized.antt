-- ===== src/Adapter/Lobs/Sized.antt =====
-- parseLobRead: no more bytes than were asked for.
use cubrid_client.Base.{
  ℕ, ◌-◌, ◌≤◌, ◌≡◌, refl, arith, Bool, true, false, ◌&&◌, List, ltb, leb, ◌==◌, if◌then◌else◌, ℤ,
  pos, negsuc, ◌-ℤ◌, length, length-drop, drop,
}
use cubrid_client.Failure.{Failure, Result, ok, fail, malformed_reply, range_error, cas_reply}
use cubrid_client.Reader.{
  PacketReader, Outcome, done, thrown, after, result, ◌>>=◌, read_error, guard, return, new_reader,
  parse_int, fixed, remaining, signed_value, advance, window,
}
use cubrid_client.Reply.{decode_reply}
use cubrid_client.Reply.Simple.{lob_body, parse_lob_read}

pub data Sized (n : ℕ) : Result (List ℕ) → Type 0 where
  sized : (bytes : List ℕ) → length bytes ≤ n → Sized n (ok bytes)
  unsized : (e : Failure) → Sized n (fail e)

fits_asked : (count asked left : ℕ) → (leb count asked && count == left) ≡ true → left ≤ asked
fits_asked count asked left h = ground arith

guarded-Sized :
    (bytes : List ℕ) (n : ℕ) (b : Bool) (r : PacketReader)
    → (b ≡ true → length bytes ≤ n)
    → Sized n (result ((guard b malformed_reply >>= λ _. return bytes) r))
guarded-Sized bytes n true r h = sized bytes (h refl)
guarded-Sized bytes n false r h = unsized malformed_reply

-- Whatever comes first, what is thrown behind it is no bytes.
thrown-Sized {ℓ} :
    {A : Type ℓ} (n : ℕ) (o : Outcome A) (e : A → Failure)
    → Sized n (result (after {B = List ℕ} o (λ x r. thrown (e x) r)))
thrown-Sized n (done a r) e = unsized (e a)
thrown-Sized n (thrown t r) e = unsized t

lob_body-Sized :
    (data_bytes : List ℕ) (asked : ℕ) (count : ℤ) (r : PacketReader)
    → length data_bytes - 4 ≡ remaining r
    → Sized asked (result (lob_body data_bytes asked count r))
unfolding lob_body
lob_body-Sized data_bytes asked (negsuc n) r h =
    thrown-Sized asked (decode_reply (read_error (pos (length data_bytes) -ℤ pos 4)) r)
      (λ err. cas_reply (negsuc n) err.code err.message)
lob_body-Sized data_bytes asked (pos count) r h =
    guarded-Sized (drop 4 data_bytes) asked (leb count asked && count == remaining r) r
      (λ e. omega (arith, h, length-drop 4 data_bytes, fits_asked count asked (remaining r) e))

-- The count, and then what follows it.
counted-Sized :
    (data_bytes : List ℕ) (asked : ℕ)
    → Sized asked (
        result
          (after (parse_int (new_reader data_bytes)) (λ count. lob_body data_bytes asked count)))
unfolding parse_int fixed new_reader remaining
counted-Sized data_bytes asked = go (leb 4 (length data_bytes))
  where
    go :
        (b : Bool)
        → Sized asked (
            result (
              after {B = List ℕ}
                (after {B = ℤ}
                  (if b
                    then done (window 4 (new_reader data_bytes)) (advance 4 (new_reader data_bytes))
                    else thrown range_error (new_reader data_bytes))
                  (λ bs. return (signed_value 4 bs)))
                (λ count. lob_body data_bytes asked count)))
    go true =
        lob_body-Sized data_bytes asked (signed_value 4 (window 4 (new_reader data_bytes)))
          (advance 4 (new_reader data_bytes)) refl
    go false = unsized range_error

pub parse_lob_read-Sized :
    (data_bytes : List ℕ) (asked : ℕ) → Sized asked (parse_lob_read data_bytes asked)
unfolding parse_lob_read
parse_lob_read-Sized data_bytes asked = go (ltb (length data_bytes) 4)
  where
    go :
        (b : Bool)
        → Sized asked (
            if b
            then fail malformed_reply
            else result (
                after
                  (parse_int (new_reader data_bytes))
                  (λ count. lob_body data_bytes asked count)))
    go true = unsized malformed_reply
    go false = counted-Sized data_bytes asked
