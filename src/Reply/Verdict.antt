-- ===== src/Reply/Verdict.antt =====
-- What leaves a reply parser: a value, or one of three verdicts, an unsupported value, a malformed
-- reply and the server's own error.
use cubrid_client.Base.{
  ℕ, zero, suc, ◌+◌, ◌-◌, ◌≤◌, ◌≡◌, refl, arith, true, List, [], ℤ, pos, negsuc, ◌-ℤ◌, leb, ltb,
  length, inl, inr, Bool-cases,
}
use cubrid_client.Failure.{
  Failure, range_error, error, unsupported_value, malformed_reply, cas_reply, diverges, Result, ok,
  fail,
}
use cubrid_client.Reader.{
  Parse, PacketReader, Outcome, done, thrown, result, fixed, window, advance, new_reader, parse_int,
  parse_null_term_string, read_error, signed_value, strip_nul,
}
use cubrid_client.Reader.Rules.{IsException, Good, Steady}
use cubrid_client.Reply.{as_verdict, decode_reply, throw_server_error, by_code, parse_reply}
use cubrid_client.Text.{utf8_decode}

abbrev pub IsVerdict : Failure → Type 0
IsVerdict unsupported_value = Unit
IsVerdict malformed_reply = Unit
IsVerdict (cas_reply code server_code message) = Unit
IsVerdict _ = ⊥

-- The reply's value, or a verdict.
abbrev pub IsDecided {ℓ} : {A : Type ℓ} → Result A → Type 0
IsDecided (ok v) = Unit
IsDecided (fail e) = IsVerdict e

as_verdict-IsVerdict : (e : Failure) → IsException e → IsVerdict (as_verdict e)
unfolding as_verdict
as_verdict-IsVerdict range_error h = tt
as_verdict-IsVerdict error h = tt
as_verdict-IsVerdict unsupported_value h = tt
as_verdict-IsVerdict malformed_reply h = tt
as_verdict-IsVerdict (cas_reply a b m) h = tt
as_verdict-IsVerdict diverges h = absurd h

abbrev Judged {ℓ} : {A : Type ℓ} → Outcome A → Type 0
Judged (done a r) = Unit
Judged (thrown e r) = IsVerdict e

decode_reply-Judged {ℓ} :
    {A : Type ℓ} (p : Parse A) (r : PacketReader) → Steady p → Judged (decode_reply p r)
unfolding decode_reply
decode_reply-Judged {A} p r h = go (p r) (h.at r)
  where
    go :
        (o : Outcome A)
        → Good r o
        → Judged (elim o [ done a r' ↦ done a r' | thrown e r' ↦ thrown (as_verdict e) r' ])
    go (done a r') g = tt
    go (thrown e r') (g, x) = as_verdict-IsVerdict e x

-- A word that is there is read.
parse_int_done :
    (r : PacketReader)
    → r.offset + 4 ≤ length r.buf
    → (v : ℤ) × (parse_int r ≡ done v (advance 4 r))
unfolding parse_int fixed
parse_int_done r h =
    let e : leb (r.offset + 4) (length r.buf) ≡ true = ground arith in
    (signed_value 4 (window 4 r), rw e)

-- A text of exactly the bytes that are left is read.
rest_text_done :
    (r : PacketReader) (n : ℕ)
    → n ≤ length r.buf - r.offset
    → (s : List ℕ) × (r' : PacketReader) × (parse_null_term_string (pos n) r ≡ done s r')
unfolding parse_null_term_string
rest_text_done r zero h = ([], r, refl)
rest_text_done r (suc n) h =
    let e : leb (suc n) (length r.buf - r.offset) ≡ true = ground arith in
    (utf8_decode (strip_nul (window (suc n) r)), advance (suc n) r, rw e)

-- Behind the response code of a reply of eight bytes or more the error block is there in full.
server_error-Judged {ℓ} :
    (A : Type ℓ) (data_bytes : List ℕ) (code : ℤ)
    → 8 ≤ length data_bytes
    → Judged (
        throw_server_error {A = A} code
          (pos (length data_bytes) -ℤ pos 4)
          (advance 4 (new_reader data_bytes)))
unfolding throw_server_error read_error new_reader
server_error-Judged A data_bytes code h =
    let r = advance 4 (new_reader data_bytes) in
    let (v, e) = parse_int_done r (omega arith) in
    let left : pos (length data_bytes) -ℤ pos 4 -ℤ pos 4 ≡ pos (length data_bytes - 8) =
      ground arith in
    let (s, r', f) = rest_text_done (advance 4 r) (length data_bytes - 8) (omega arith) in
    rw (e, left, f) tt

module _ {ℓ} {A : Type ℓ} (data_bytes : List ℕ) (body : ℤ → Parse A) where
  body-Judged :
      (code : ℤ)
      → ((c : ℤ) → Steady (body c))
      → 8 ≤ length data_bytes
      → Judged (
          by_code
            (pos (length data_bytes) -ℤ pos 4)
            (λ c. decode_reply (body c))
            code
            (advance 4 (new_reader data_bytes)))
  body-Judged (pos n) h k = decode_reply-Judged (body (pos n)) _ (h (pos n))
  body-Judged (negsuc n) h k = server_error-Judged A data_bytes (negsuc n) k

  Judged-result : (o : Outcome A) → Judged o → IsDecided (result o)
  Judged-result (done a r) h = tt
  Judged-result (thrown x r) h = h

  -- A body that ends makes a reply whose failures are verdicts.
  pub parse_reply-IsDecided : ((c : ℤ) → Steady (body c)) → IsDecided (parse_reply data_bytes body)
  unfolding parse_reply new_reader
  parse_reply-IsDecided h = elim (Bool-cases (ltb (length data_bytes) 8)) [
    | inl short ↦ rw short (Judged-result (thrown malformed_reply (new_reader data_bytes)) tt)
    | inr enough ↦
        let (code, f) = parse_int_done (new_reader data_bytes) (ground arith) in
        rw (enough, f) (Judged-result _ (body-Judged code h (ground arith)))
  ]
