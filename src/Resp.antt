-- ===== src/Resp.antt =====
-- The RESP wire protocol: coredis/parser.py, coredis/_packer.py and what they use.
pub mod Value
pub mod Buffer
pub mod Number
pub mod Errors
pub mod Nodes
pub mod Parser
pub mod Lines
pub mod Settle
pub mod Frame
pub mod Leaves
pub mod Containers
pub mod Fuel
pub mod Induction
pub mod RoundTrip
pub mod Fill
pub mod Extend
pub mod InStep
pub mod Lengths
pub mod Tracks
pub mod Chunks
pub mod Waits
pub mod Pieces
pub mod Packer
pub mod Falsy
pub mod Respond
pub mod Tests
