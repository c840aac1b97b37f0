-- ===== src/Search.antt =====
-- The search library (src/search): chunking, context budgets, ranking, planning and the pipeline.
pub mod Types
pub mod Platform
pub mod Planning
pub mod Ranking
pub mod Diversity
pub mod Lexical
pub mod Pipeline
pub mod Generations
pub mod Filtering
pub mod Chunking
pub mod Budget
