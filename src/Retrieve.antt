-- ===== src/Retrieve.antt =====
-- The retrieval layer, src/findociq/retrieve: the query cache, reranking and rank fusion.
pub mod Keys
pub mod Pipeline
pub mod Fusion
mod Examples
