-- ===== src/Tests.antt =====
-- Concrete inputs for the theorems, and runs of the definitions.
mod Inputs
mod Hops
mod Gates
mod Sessions
mod Launches
mod Chats
mod Files
mod Operator
mod Replies
mod Guest
mod Commands
