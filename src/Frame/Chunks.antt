-- ===== src/Frame/Chunks.antt =====
-- recvExact over bytes that are cut into a receive buffer and chunks.
use cubrid_client.Base.{
  ℕ, ◌≤◌, ◌<◌, ◌≡◌, sym, ◌∙◌, arith, List, [], ◌∷◌, ◌++◌, append_assoc, append-nil, leb, length,
  length-append, take, drop, take-append, drop-append, Bool-cases, inl, inr, false, map,
}
use cubrid_client.Frame.{
  SocketEvent, chunk, Received, resolved, waiting, take_buffered, collect, recv_exact,
}

-- The bytes of a sequence of chunks.
abbrev pub joined : List (List ℕ) → List ℕ
joined [] = []
joined (c ∷ cs) = c ++ joined cs

abbrev pub chunks : List (List ℕ) → List SocketEvent
chunks cs = map chunk cs

-- The receive buffer and the chunks to come, as one stream of bytes, split after `size` of them.
pub record Splits (size : ℕ) (stream : List ℕ) (r : Received) : Type 0 where
  pub buffer : List ℕ
  pub later : List (List ℕ)
  pub outcome : r ≡ resolved (take size stream) buffer (chunks later)
  pub rest : buffer ++ joined later ≡ drop size stream

take_buffered-Splits :
    (size : ℕ) (buffer : List ℕ) (cs : List (List ℕ))
    → size ≤ length buffer
    → Splits size (buffer ++ joined cs) (take_buffered size buffer (chunks cs))
unfolding take_buffered
take_buffered-Splits size buffer cs h = record {
  buffer = drop size buffer;
  later = cs;
  outcome = rw (take-append size buffer (joined cs) h);
  rest = sym (drop-append size buffer (joined cs) h);
}

collect-Splits :
    (size : ℕ) (buffer : List ℕ) (cs : List (List ℕ))
    → length buffer < size
    → size ≤ length (buffer ++ joined cs)
    → Splits size (buffer ++ joined cs) (collect size buffer (chunks cs))
unfolding collect
collect-Splits size buffer [] short h = absurd (omega (arith, length-append buffer []))
collect-Splits size buffer (c ∷ cs) short h =
    rw (← append_assoc buffer c (joined cs)) (elim (Bool-cases (leb size (length (buffer ++ c)))) [
      | inl enough ↦ rw enough (take_buffered-Splits size (buffer ++ c) cs (ground arith))
      | inr more ↦ rw more (
          collect-Splits size (buffer ++ c) cs (ground arith)
            (rw (append_assoc buffer c (joined cs)) h))
    ])

-- If the buffer and the chunks to come hold `size` bytes: recvExact resolves with the first `size`
-- of them, and the buffer that it leaves and the chunks that it has not taken are the rest.
pub recv_exact-Splits :
    (size : ℕ) (buffer : List ℕ) (cs : List (List ℕ))
    → size ≤ length (buffer ++ joined cs)
    → Splits size (buffer ++ joined cs) (recv_exact size buffer (chunks cs))
unfolding recv_exact
recv_exact-Splits size buffer cs h = elim (Bool-cases (leb size (length buffer))) [
  | inl enough ↦ rw enough (take_buffered-Splits size buffer cs (ground arith))
  | inr short ↦ rw short (collect-Splits size buffer cs (ground arith) h)
]

collect-waiting :
    (size : ℕ) (buffer : List ℕ) (cs : List (List ℕ))
    → length (buffer ++ joined cs) < size
    → collect size buffer (chunks cs) ≡ waiting (buffer ++ joined cs)
unfolding collect
collect-waiting size buffer [] h = rw append-nil
collect-waiting size buffer (c ∷ cs) h =
    let e : leb size (length (buffer ++ c)) ≡ false = ground (
      arith,
      length-append buffer (c ++ joined cs),
      length-append buffer c,
      length-append c (joined cs),
    ) in
    rw e (
      collect-waiting size (buffer ++ c) cs (rw (append_assoc buffer c (joined cs)) h)
      ∙ rw (append_assoc buffer c (joined cs)))

-- If the buffer and the chunks to come hold fewer than `size` bytes: recvExact still waits after
-- them, with all of their bytes collected.
pub recv_exact-waiting :
    (size : ℕ) (buffer : List ℕ) (cs : List (List ℕ))
    → length (buffer ++ joined cs) < size
    → recv_exact size buffer (chunks cs) ≡ waiting (buffer ++ joined cs)
unfolding recv_exact
recv_exact-waiting size buffer cs h =
    let e : leb size (length buffer) ≡ false = ground (arith, length-append buffer (joined cs)) in
    rw e (collect-waiting size buffer cs h)
