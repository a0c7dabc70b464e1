-- ===== src/Frame.antt =====
-- Receiving on a CASConnection (src/protocol/connection.ts): takeBuffered, recvExact and readFrame
-- over the events of a socket. Timers are left out.
pub mod Chunks
pub mod Framing
use cubrid_client.Base.{
  ℕ, ◌+◌, ◌^◌, List, [], ◌∷◌, ◌++◌, leb, if◌then◌else◌, ℤ, pos, negsuc, length, take, drop,
}
use cubrid_client.Buffer.{be_value, signed}

-- What the socket emits.
pub data SocketEvent : Type 0 where
  chunk : List ℕ → SocketEvent
  failed closed ended : SocketEvent

-- A promise of bytes: resolved with the bytes, the receive buffer and the events still to come;
-- rejected; or still waiting when the events given are used up.
pub data Received : Type 0 where
  resolved : List ℕ → List ℕ → List SocketEvent → Received
  connection_lost : Received
  invalid_length : ℤ → Received
  waiting : List ℕ → Received

-- `takeBuffered`: the first bytes of the receive buffer, which loses them.
unfoldable pub take_buffered : ℕ → List ℕ → List SocketEvent → Received
take_buffered size buffer events = resolved (take size buffer) (drop size buffer) events

-- The listeners of `recvExact`: chunks are collected until there are bytes enough.
unfoldable pub collect : ℕ → List ℕ → List SocketEvent → Received
unfolding take_buffered
collect size buffer [] = waiting buffer
collect size buffer (chunk bytes ∷ events) =
    let more = collect size (buffer ++ bytes) events in
    if leb size (length (buffer ++ bytes))
    then take_buffered size (buffer ++ bytes) events
    else more
collect size buffer (failed ∷ events) = connection_lost
collect size buffer (closed ∷ events) = connection_lost
collect size buffer (ended ∷ events) = connection_lost

-- On a socket that is not destroyed.
unfoldable pub recv_exact : ℕ → List ℕ → List SocketEvent → Received
unfolding collect take_buffered
recv_exact size buffer events =
    if leb size (length buffer)
    then take_buffered size buffer events
    else collect size buffer events

abbrev pub then_receive : Received → (List ℕ → List ℕ → List SocketEvent → Received) → Received
then_receive (resolved bytes buffer events) f = f bytes buffer events
then_receive connection_lost f = connection_lost
then_receive (invalid_length n) f = invalid_length n
then_receive (waiting buffer) f = waiting buffer

-- The body of a frame whose length word has been read: an impossible length is refused before any
-- byte of the body is awaited.
unfoldable pub read_body : ℕ → ℤ → List ℕ → List SocketEvent → Received
unfolding recv_exact
read_body max_frame_length (negsuc n) buffer events = invalid_length (negsuc n)
read_body max_frame_length (pos n) buffer events =
    if leb n max_frame_length then recv_exact (n + 4) buffer events else invalid_length (pos n)

-- CAS_INFO and the payload of the next frame.
unfoldable pub read_frame : ℕ → List ℕ → List SocketEvent → Received
unfolding recv_exact read_body
read_frame max_frame_length buffer events =
    then_receive (recv_exact 4 buffer events)
      (λ word rest later. read_body max_frame_length (signed (2 ^ 31) (be_value 0 word)) rest later)
