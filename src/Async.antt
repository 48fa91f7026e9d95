-- ===== src/Async.antt =====
-- src/pyads/async_connection.py: the queue of `AsyncConnection`, and the step chains of
-- `AsyncStepChainRpcObject`.
pub mod Queue
pub mod StepChain
