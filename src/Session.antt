-- ===== src/Session.antt =====
-- The session of a CASConnection (src/protocol/connection.ts): its state, the handshake, and the
-- exchanges on it. The queue runs the operations one at a time, so each is a function on the whole
-- state. The network is a parameter: whether a TCP connection opens, and what comes back for what is
-- asked, at each tick. A frame that comes back is the body that Frame.read_frame yields.
pub mod World
pub mod Opening
pub mod Exchange
pub mod Quiet
pub mod Growth
pub mod Control
pub mod Outcome
pub mod Steady
pub mod Settled
pub mod Opened
pub mod Connect
pub mod Safe
pub mod Sound
pub mod Operations
pub mod Live
pub mod Establish
pub mod Recovery
