-- ===== src/Tests.antt =====
-- Concrete runs of the client's code: each child has those of one part, and the examples that apply
-- its theorems to them.
mod Transactions
mod Sql
mod Binds
mod Cells
mod Frames
mod Numbers
mod Requests
mod Replies
mod Sessions
mod Streams
mod Adapters
mod Clauses
mod Clients
mod Settings
mod Statements
