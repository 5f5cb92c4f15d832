-- ===== src/Worker.antt =====
-- worker/service.py: the configuration of a Worker and how it claims work.
pub mod Config
pub mod Service
pub mod Claiming
pub mod Capacity
pub mod Conversation
pub mod Resource
mod Tests
