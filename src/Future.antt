-- ===== src/Future.antt =====
-- src/Future: the rendezvous of a producer and a consumer.
pub mod StateMachine
