-- ===== src/Frame/Framing.antt =====
-- readFrame over a whole frame.
use cubrid_client.Base.{
  ℕ, ◌+◌, ◌≤◌, ◌<◌, ◌^◌, ◌≡◌, sym, ◌∙◌, arith, List, ◌++◌, leb, true, length, pos, length-append,
  take, take-length_append, drop-length_append,
}
use cubrid_client.Buffer.{be_bytes, be_value, signed}
use cubrid_client.Buffer.RoundTrip.{length-be_bytes, be_value-be_bytes_four}
use cubrid_client.Frame.{resolved, read_frame, read_body}
use cubrid_client.Frame.Chunks.{joined, chunks, recv_exact-Splits}

signed-small : (n : ℕ) → n < 2 ^ 31 → signed (2 ^ 31) n ≡ pos n
unfolding signed
signed-small n h = ground arith

-- If the buffer and the chunks to come are the length word of `n`, a body of `n + 4` bytes and
-- `after_it`, with `n` at most `max_frame_length` and below 2 ^ 31: readFrame resolves with the body,
-- and the buffer that it leaves and the chunks that it has not taken are `after_it`.
pub read_frame-Splits :
    (max_frame_length : ℕ) (body after_it buffer : List ℕ) (cs : List (List ℕ)) (n : ℕ)
    → n ≤ max_frame_length
    → n < 2 ^ 31
    → length body ≡ n + 4
    → buffer ++ joined cs ≡ be_bytes 4 n ++ (body ++ after_it)
    → (rest : List ℕ) × (later : List (List ℕ)) × (read_frame max_frame_length buffer (chunks cs)
        ≡ resolved body rest (chunks later))
      × (rest ++ joined later ≡ after_it)
unfolding read_frame read_body
read_frame-Splits limit body after_it buffer cs n small narrow size stream =
    let word = be_bytes 4 n in
    let four : 4 ≡ length word = sym (length-be_bytes 4 n) in
    let first =
      recv_exact-Splits 4 buffer cs
        (rw (stream, length-append) (omega (arith, length-be_bytes 4 n))) in
    let front : take 4 (buffer ++ joined cs) ≡ word =
      rw stream (take-length_append 4 word (body ++ after_it) four) in
    let back : first.buffer ++ joined first.later ≡ body ++ after_it =
      first.rest ∙ rw stream (drop-length_append 4 word (body ++ after_it) four) in
    let second =
      recv_exact-Splits (n + 4) first.buffer first.later (rw (back, length-append) (omega arith)) in
    let value : signed (2 ^ 31) (be_value 0 word) ≡ pos n =
      rw (be_value-be_bytes_four n (omega arith)) (signed-small n narrow) in
    let fits : leb n limit ≡ true = ground arith in
    let whole : take (n + 4) (first.buffer ++ joined first.later) ≡ body =
      rw back (take-length_append (n + 4) body after_it (sym size)) in
    (
      second.buffer,
      second.later,
      rw (first.outcome, front, value, fits, second.outcome, whole),
      second.rest ∙ rw back (drop-length_append (n + 4) body after_it (sym size)),
    )
