-- ===== src/Search.antt =====
-- The query side: src/search.
pub mod PathFilter
pub mod QualifiedName
pub mod Hits
pub mod PathClass
pub mod Query
pub mod ConceptQuery
pub mod Declarations
pub mod PathPrior
pub mod Ranking
pub mod Filenames
pub mod Permute
pub mod Rerank
pub mod Retrieval
mod Tests
mod NameTests
mod RankTests
mod FuseTests
