-- ===== src/Proto.antt =====
-- The generated interface of the service: discord-jockey/src/proto/radio-jockey_pb.ts.
pub mod Messages
pub mod Service
pub mod Methods
