-- ===== src/StackQueue.antt =====
-- exercises/16_stack_and_queue/stack_queue.c: a stack and a queue over linked nodes, and what the
-- program builds with them. Both work on the heap of `Nodes`.
pub mod Calls
pub mod Stack
pub mod Queue
pub mod Brackets
pub mod Levels
pub mod Main
mod Tests
