-- ===== src/Cache.antt =====
-- src/cache/: the pages of GPU memory, and the worker that decides on them.
pub mod VramPages
pub mod PredictWorker
