-- ===== src/Risk.antt =====
-- internal/risk: delivery of risk events, process-local (Dispatcher) and from an outbox (Worker).
pub mod Dispatcher
pub mod Worker
