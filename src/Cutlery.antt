-- ===== src/Cutlery.antt =====
-- The containers of the Cutlery library, on which the queues and the pipe stand. Their code is not
-- part of the repository: each is an interface of operations, and a record of the documented laws.
pub mod Arraylist
pub mod Singlylist
pub mod Dpipe
pub mod Instances
pub mod Buffers
