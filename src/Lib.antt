-- ===== src/Lib.antt =====
-- Verification of protoprompt: the memory of a language-model agent, and the parts that it stands
-- on. Each part is a module here, and code is named by its path from the root of the repository.
--
-- * Agent (protoprompt/agent/): the working memory, a hot set of items within a token budget,
--   and the demotion of items to a cold store. `Agent/Memory.antt` has the state of
--   WorkingMemory as the record `Memory` and one function for each method of working.py (`add`,
--   `pin`, `unpin`, `touch`, `forget`; `enforce_budget` for _enforce_budget, `enforce_pin_cap`
--   for _enforce_pin_cap, `evict_item` for _evict_item, `next_seq` for _next_id),
--   `Agent/Memory/Assemble.antt` has `assemble`, `Agent/Memory/Note.antt` has `note`, and
--   `Agent/Memory/Snapshot.antt` has `export_state` and `import_state` over the dictionaries of
--   a snapshot, `Agent/Memory/Goal.antt` the goal of goal.py, and `Agent/Memory/ColdWhere.antt`
--   the filter for the cold store. `Agent/Item.antt` is types.py, `Agent/Manifest.antt` is
--   manifest.py and `Agent/References.antt` is the index of references.py.
-- * Scope (protoprompt/scope.py): the host's scope, which is merged into metadata and filters.
-- * Store (protoprompt/store/memory.py): the vector store in memory, which is the cold store of the
--   working memory: an eviction calls the store's `delete` and `add` under the id that
--   `scoped_doc_id` makes.
-- * Cache (protoprompt/cache.py): the LRU cache of embeddings, and in `Cache/Client.antt` the client
--   that looks a text up before it asks the wrapped client.
-- * Chunker (protoprompt/rag/chunker.py): the three text chunkers.
-- * Profile (protoprompt/profile/types.py and merge.py): the user profile and the merge of a delta.
-- * Rag (protoprompt/rag/): the indexer and the retriever over the store, and in `Rag/Rerank.antt`
--   the reranker by a model.
-- * Session (protoprompt/session/strategy.py): the compression of a session to blocks, by sliding
--   windows in `Session.antt` and by a model's summaries in `Session/Summaries.antt`.
-- * Plan (protoprompt/context_plan.py): the receipts of a planned request and what they check.
-- * Ledger (protoprompt/ledger/types.py and sqlite.py): the durable ledger of memory records.
--   `Ledger.antt` has the rows and the tables, `Ledger/Validate.antt` and `Ledger/Load.antt` the
--   checks and the reading of one record, `Ledger/Lifecycle.antt` the states and the columns that a
--   transition sets, and `Ledger/Transition.antt`, `Ledger/Supersede.antt`, `Ledger/Create.antt`,
--   `Ledger/Forget.antt`, `Ledger/Erase.antt` and `Ledger/Active.antt` the methods of
--   SqliteMemoryLedger under their names. A transaction is a function to the value and the tables
--   that it commits, or to the exception with which all is rolled back. `Ledger/Steps.antt` has its
--   writes as a step relation, `Ledger/Invariant.antt` the invariant of the tables, and
--   `Ledger/Trace.antt` sequences of calls. The tables are those of one scope, since each statement
--   selects by the scope; an instant is its second and its microsecond, and where SQLite compares
--   the texts of two instants, so does the model.
-- * Ledger/Policy (protoprompt/ledger/admission.py, policy.py and recall/): the policies that say
--   which candidates are confirmed (`Ledger/Policy/Admission.antt`) and which active records a plan
--   considers (`Ledger/Policy/Recall.antt`), their composition (`Ledger/Policy/Composed.antt`), and
--   how a plan packs the ranked records into its budgets (`Ledger/Policy/Packing.antt`). What is
--   asked of floats is the record `Floats` of `Ledger/Policy.antt`, and json.dumps is a parameter.
-- * Dict, PyText, Value and Exec: Python's dictionaries, strings, metadata values and exceptions.
--   A method that may raise after it has changed the state is a function from a state to a result
--   and the state that it leaves behind, so what is lost on an error path can be seen.
--
-- Numbers are natural numbers, texts are lists of code points, and frozen sets are lists without
-- repetition. Vectors and scores are floats, of which nothing is assumed: their types, the
-- similarity, the score, its rounding and the comparison are parameters, as are token counters,
-- the extraction of names from a text, the digests and the embedding model. The digest of a
-- scope is a function of the list of its four fields, of which the code digests the JSON. A
-- theorem that needs an order of the scores, or digests that do not collide, says so.
--
-- Loops: the `while` loops of the chunkers run on fuel for the length of the text, one round for
-- each position, which is enough since each round moves on; _enforce_budget and _enforce_pin_cap
-- run for the 10,000 rounds that their own guard allows; _next_id runs for as many rounds as there
-- are items, which is enough since each round but the last finds a taken id. The windows of a session
-- run on fuel for its messages, of which each window takes at least one.
--
-- Not modelled: events, logging and traces, which change no state (but the label that they compute
-- may raise, and that is kept); asynchronous scheduling, since the methods are taken to run one after
-- the other; `recall` of the working memory; of the ledger, `purge_payloads` and the review gate with
-- `_apply_admission_review`, which also write its tables, the checkpoints, the schemas, and
-- `list_active` beyond its SELECT, whose check of an admission belongs to the review gate; the
-- explanations of the policies, and the ranking, the sealing and the later validation of a recall
-- plan; the injectors and the service; the profile's sources and stores, the database stores and the
-- integrations, which are I/O. Sequences of calls of the ledger are therefore those of the ten methods
-- that are the constructors of `Call` in `Ledger/Trace.antt`.
pub mod Prelude
pub mod PyText
pub mod Chunker
pub mod Dict
pub mod Cache
pub mod Value
pub mod Scope
pub mod Store
pub mod Exec
pub mod Agent
pub mod Profile
pub mod Session
pub mod Rag
pub mod Plan
pub mod Ledger
mod Tests
