-- ===== src/Lib.antt =====
-- Magnitude: a vector database in Go.
--
-- The program keeps vectors of collections in indexes (internal/index: flat, HNSW, IVF, SPANN, sparse
-- and bitmap), filters them by metadata (internal/metadata), persists them through a write-ahead log
-- and an object store (internal/storage), caches segments read from that store (internal/cache), and
-- spreads collections over nodes (internal/cluster, internal/routing, internal/gossip,
-- internal/failure, internal/migration). A collection (internal/collection) drives its index, its
-- metadata and its log; the HTTP and gRPC servers (internal/api, internal/grpc) drive collections.
--
-- This library models the parts below. Every operation becomes a function on an explicit state, an
-- error a value of `Result` or `Option`, a Go map an association list, and a call under a mutex one
-- atomic step.
--
-- Common: Boolean tests on native numbers, lists measured by them, slices with Go's `copy` and
--   slicing, Go maps (Dict), key lists (Keys) and results (Result).
-- Flat: internal/index/flat/flat.go, the brute-force index. `insert`, `delete`, `get_vector` and
--   `all_vectors` are the methods of FlatIndex; rows lie one after another in one slice. The
--   component type of a vector is a parameter, because no operation modelled computes with it.
-- Hnsw: internal/index/hnsw/hnsw.go, the graph index. The parent file has the state and the simple
--   methods; Tracker the visited tracker, Walk the greedy walks, Beam the beam search of a layer,
--   Link insertLocked, the two critical sections of drainDirtyBuffer, and Rebuild, Search the three
--   searches, and Drains the calls of Insert and of drains whose sections alternate. Their child
--   modules and the other modules are proofs. Distances of internal/distance and container/heap are
--   parameters, the latter with its documented laws; the drawn level, the tracker that the pool
--   hands out and the answers of a context are arguments. A search takes the buffer that it has read
--   before it locks the graph as an argument of its own. Rebuild is modelled with no other call
--   between its drain and its lock.
-- Admission: internal/storage/admission.go, AdmissionController. `acquire`, `cancel` and `release`
--   are the critical sections of Acquire and Release; System gives the steps of many callers in
--   any order.
-- Cache: internal/cache/segment_cache.go, an LRU cache that admits on the second access.
-- Cluster.Ring: internal/cluster/hash.go, consistent hashing. The hash and the name of a virtual node
--   are parameters (SHA-256 and fmt.Sprintf). Cluster.Coordinator: internal/cluster/coordinator.go,
--   membership with the reading of the clock as an argument; it uses the ring, as the code does.
--   Cluster.Consistency: internal/cluster/consistency.go.
--   Cluster.Rendezvous: internal/cluster/rendezvous.go, with its hash as a parameter.
-- Failure: internal/failure/detector.go, with the float test of the phi-accrual estimate as a
--   parameter.
-- Routing: internal/routing/router.go, which sends vectors of a collection to members of the ring and
--   splits a batch by owner.
-- Filter: internal/metadata/filter.go, the parser of filter documents and `Match`. JSON is a data type,
--   float64 a parameter with its `==` and `<`, the `%v` of fmt a parameter. Meaning reads a document
--   directly, as the package comment describes it.
-- Bitmap: internal/index/bitmap_index.go, the bitmaps per field and value and the numeric entries for
--   ranges, with the bitset library as an interface. It resolves the filters of Filter. Its lemmas
--   take `<` as an order and `%v` as injective on numbers: float64 without NaN and the negative zero.
-- Sparse: internal/index/sparse/inverted.go, the inverted index of terms. The splitting of texts and
--   the arithmetic of floats are parameters, so the scores are the code's formulas over any of them.
-- Migration: internal/migration/migration.go and internal/migration/trigger.go, the plans that move
--   collections off a dead node and the worker that executes them. It uses the ring. The source and
--   the transfer are call-backs, here a list of fetches and a function on the state of the target.
--
-- Bounds and fuel: the eviction loop of the cache runs on fuel, the length of the LRU list, which
-- is enough since every round removes one key. The filter parser runs on the code's own depth limit
-- of ten. The greedy walk of the graph index runs on as much fuel as there are nodes and one more,
-- since every round finds a node that is closer, by an irreflexive and transitive `<` on distances;
-- its beam search has two more than nodes, since a round takes away a candidate and a node becomes
-- a candidate once. All other loops recurse on the list or the layer number they run through.
-- Counts, lengths and byte sizes are natural numbers: the code keeps them in 64-bit `int`, which the
-- memory of one process does not exhaust. Where a slice operation can panic (a negative capacity in
-- RemoveNode, an index out of range in the flat index), the model says so.
--
-- Not modelled: distance kernels and anything that computes with float32 (but the formulas of
-- BM25), the IVF and SPANN indexes, the snapshot of the graph index, SQLite, networking, the file
-- system, metrics, and the clients in other languages.
pub mod Common
pub mod Flat
pub mod Admission
pub mod Cache
pub mod Cluster
pub mod Failure
pub mod Routing
pub mod Filter
pub mod Bitmap
pub mod Sparse
pub mod Migration
pub mod Hnsw
