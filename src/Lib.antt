-- ===== src/Lib.antt =====
-- Verification of trufflepig, a local search engine for coding agents.
--
-- The program answers queries over an index of a repository in pages that fit a token budget, and
-- runs one worker process per user for embeddings and reranking. Modelled are the parts that decide,
-- without the file system or the database, what a client gets and when:
--
-- - Worker/Scheduler: src/semantic/worker/scheduler.rs. FairScheduler is a record of the source's
--   four fields; enqueue, push, pop, pending and remove_empty_roots are functions that return the new
--   state. Views gives the abstract state, a queue for each root and class.
-- - Worker/Admission: src/semantic/worker/admission.rs. AdmissionController's counters, try_admit, and
--   the tickets with begin and their destructors. Each call holds the mutex from end to end, so
--   concurrent clients are a sequence of steps in any order (Bounds.Step).
-- - Worker/LoadRetry: src/semantic/worker/load_retry.rs, LoadRetry.
-- - Daemon/Deadline: src/daemon/deadline.rs, QueryDeadline.
-- - Inference/Batch: src/semantic/inference/batch.rs, plan_batch_ranges. Inference/Isolation: the same
--   file's infer_batch_isolated, isolate_batch and infer_one_planned_batch. Inference/Whole: infer_batch and
--   infer. The tokenizer and the
--   embedding model are the record Model, functions of their input; an entry of `valid` holds its
--   text too.
-- - Results/Page: src/results/page.rs, largest_fitting, snippet_page and page.
-- - Search/PathFilter: src/search/path_filter.rs, PathFilter, PathNeedle and BoundPathFilter;
--   its resolve_single_file in SingleFile.
-- - Search/QualifiedName: src/search/qualified_name.rs, all of its functions, over texts as lists of
--   characters (Prelude/Texts); whitespace and alphanumeric characters are the parameter Unicode.
-- - Search/Query: Query::parse, query_terms, fts_terms and filename_score of src/search.rs, and
--   src/search/language_filter.rs. Search/ConceptQuery: src/search/concept_query.rs.
--   Search/Declarations: src/search/declarations.rs over the rows of its statement.
--   Search/Filenames: file_hits of src/search.rs with its heap. Search/PathClass and Search/PathPrior:
--   src/search/path_class.rs and src/search/path_prior.rs. Search/Ranking: src/search/file_ranking.rs,
--   its f64 being a type F with the operations Floats. Search/Permute and Search/Rerank:
--   src/search/rerank_window.rs. Search/Retrieval: search_prepared of src/search.rs and append of
--   src/search/semantic_lane.rs, which put these together; Search/Hits has the hit that they share.
-- - Store/RegionSpans and Store/Regions: src/store/regions.rs, from the definitions of a file to its
--   regions and their rows.
-- - Worker/Frames: the frames of src/semantic/worker/protocol.rs over a socket, whose calls are events.
--   Worker/Requests: the requests and replies of that file, with check_rerank_bounds of
--   src/semantic.rs; JSON is an argument.
-- - Daemon/Pool: src/daemon/pool.rs; Daemon/Pool/Moves has the moves of its threads.
-- - Store/Chains: src/store/inheritance/ordered_chains.rs, the candidate predecessors of one base.
-- - History/SourceDiff: src/history/source_diff.rs, SourceDiff, line_offsets and diff_interned over the
--   hunks of the imara-diff library. History/Correspondence: src/history/source_diff/correspondence.rs,
--   match_facts, with the order in which hash maps are visited as the parameter Visits.
--   History/Declarations: correspond_declarations of that file. History/Fingerprints:
--   src/history/source_diff/fingerprints.rs and ByteSpan of src/identity.rs.
-- - Identity: GitOid of src/identity.rs.
-- - Prelude: tests, lists, the arithmetic of usize, BTreeMap as entries in key order, HashMap as
--   entries.
--
-- The scheduler hands admitted requests to the planner of batches; admission bounds what the
-- scheduler holds; a page is cut from a stored result set whose hits passed a path filter. These
-- models share Prelude: in the source the parts meet in code that does input and output. A request
-- names the scheduler's RequestClass, and Requests sends it in the frames of Frames. The modules
-- of Search are one program: Retrieval runs the lanes that ConceptQuery chooses, Ranking fuses them
-- under the weights of PathPrior, and Rerank moves the first hits.
--
-- Bounds and fuel. usize has 64 bits: additions that the source lets wrap, saturate or check are
-- written so in Prelude/Words, and lengths of vectors, which fit in an isize, are not reduced.
-- plan_from takes the number of inputs as fuel and search takes the width of its range; both are
-- shown to be enough, since each round uses up at least one input or one candidate. isolate_batch
-- takes the length of its batch, which each half is shorter than. settle takes the number of positions,
-- since each swap puts one more element in its place for good. cut takes the length of the file,
-- since no region is empty. Instants and
-- durations are nanoseconds without an upper end, except where a duration saturates.
--
-- Not modelled: SQLite, the tokenizer, the rendering of hits, the embedding model, sockets, files and
-- floats. Rendering and token counts are the parameter Renderer of Results/Page. The indexed paths
-- are a list. Root identifiers are keys with an equality and an order. Telemetry, coverage and snippets
-- of a search are left out, and live regex and cached vectors are parameters of it.
mod Prelude
pub mod Daemon
pub mod History
pub mod Identity
pub mod Inference
pub mod Results
pub mod Search
pub mod Store
pub mod Worker
