-- ===== src/Lib.antt =====
-- dupa, the duplicate analyzer: a model of its C++ sources under src/, with what is proved of
-- them.
--
-- The program scans directory trees, takes the checksums of their files, and either compares two
-- trees (DirCompare) or looks for equal and similar directories in one (FuzzyDedup). The scan
-- hands its files to a pool of threads. This library models, from the sources up:
--
-- * DirCompare (src/dir_compare.h, src/dir_compare.cpp). A tree is a container of paths with
--   checksums, and `dir_compare` is DirCompare from the two filled containers on: two loops, each
--   a fold of its body (`first_body`, `second_body`) over the container in the order of its ByPath
--   index. An output stream is a record of six functions on a state, one for each virtual function
--   of CompareOutputStream; Streams has the printing stream and CompareOutputStreams, with texts
--   built as the operators << build them. The boost::multi_index container is the parameter
--   MultiIndex (Index), with what its documentation promises: ByPath lists each record once and no
--   path twice, `find` and `equal_range` find what it lists. Tests has a list that fulfils this.
-- * ThreadPool (src/synch_thread_pool.h, src/synch_thread_pool.cpp). SyncThreadPool is a step
--   relation: a worker is at the top of ThreadLoop, blocked on cv_, notified, in a task, or gone;
--   the one user's thread submits tasks and then stops the pool, as the program's scanner does. A
--   step is what a thread does while it holds mutex_. Condition variables may wake a thread
--   without cause. outstanding_ keeps its wrap-around of 64 bits. SyncCounter is in Counter.
-- * FileTree (src/file_tree.h, src/file_tree.cpp). Nodes and equivalence classes live in a store,
--   a pointer is an address. Each operation returns `none` where the source fails an assertion or
--   follows a null pointer. Invariant says what a tree keeps: the counters of unevaluated children
--   count them, and a class lists the nodes that point to it.
--   Printing has BuildPath and the lines of PrintEqClassses and PrintScatteredDirectories.
-- * FuzzyDedup (src/fuzzy_dedup.h, src/fuzzy_dedup.cpp). ClassifyDuplicateFiles,
--   ClassifyEmptyDirs, PropagateEquivalence, CalculateUniqueness and GetInteresingEqClasses over
--   such a store, with the queue of ready nodes and the choice of the closest candidate; Whole has
--   their composition FuzzyDedup, from the tree that TreeCtorProcessor leaves. The ranges of the
--   multimap of checksums and std::sort are the parameter Std, which FuzzyDedup/Grouping fulfils.
--   Ready (FuzzyDedup/Ready) is what the steps after the scan suppose of the tree, and
--   FuzzyDedup/DiskTree and FuzzyDedup/DiskResult join them to the walk of a directory.
-- * HashCache (src/hash_cache.h, src/hash_cache.cpp). HashCache's call operator over the cache by
--   path and the cache by inode, for the file that `open` returns; a file is what fstat says of it
--   and what the calls of `read` return. SHA1 is the parameter Sha, an incremental digest. Table
--   has ReadCacheFromDb and StoreCksums over DbLib; FileList (HashCache/Stored) is what SQLite
--   documents of their statements, and HashCache/Memory a table in memory that fulfils it.
-- * DbLib (src/db_lib.h, src/db_lib_impl.h, src/db_lib.cpp). Statements, streams, iterators and
--   transactions over SQLite's C interface, the parameter Sqlite. Code that may throw is a
--   function from the connection to an Outcome and the connection. Yields (DbLib/Reading) is a
--   statement that gives rows, IsInsert (DbLib/Writing) one that takes them and has to
--   be reset between two rows, IsKept (DbLib/Frame) what a statement does not touch.
-- * DbOutput (src/db_output.h, src/db_output.cpp). DirCompDBStream as a CompareOutputStream whose
--   state is the connection; Tables (DbOutput/Written) is what SQLite documents of its six
--   statements, and DbOutput/Memory has tables in memory, with UNIQUE, that fulfil it. Dumps has
--   the dumps of a classified tree; the addresses that serve as ids are parameters.
-- * Scanner (src/scanner.h, src/scanner_int.h, src/scanner.cpp). A ScanProcessor is a record of
--   three functions on a state. ScanDb and CommonPathPrefix are functions; ScanDirectory
--   (Scanner/Walk) is a step relation: the walking thread opens the top of dirs_to_process and
--   looks at its entries one by one, and a task that was submitted may end at any time. What the
--   disk and HashCache answer is the parameter FileSystem, with `none` for an exception; it does
--   not change during the walk. Keeps (Scanner/Walk/Invariant) is what a processor has to do, and
--   Finite (Scanner/Walk/Ends) says that no directory contains itself. boost::filesystem::path is
--   the parameter Paths (Scanner/FilePaths), with what its documentation says of the elements of a
--   path; Scanner/Lists has lists of elements that fulfil it, Scanner/Disk a small FileSystem. The
--   two processors are PathHashesFiller (DirCompare/Fill, DirCompare/OnDisk) and TreeCtorProcessor
--   (FuzzyDedup/Tree, FuzzyDedup/DiskTree).
-- * Conf (src/conf.h): the settings that the others read. Base: lists, options, Boolean tests and
--   the Platform.
--
-- Platform (Base/Machine) stands for `double` arithmetic and for the order in which an unordered
-- container is walked; WeightLaws (FileTree/Weights) is what the program relies on of weights:
-- they are finite and not negative, and their sums fit in 64 bits. FileTree/Tests fulfils both
-- with numbers of one decimal.
--
-- Fuel: `traverse`, `calculate_uniqueness` and `propagate_loop` get the number of nodes. A path in
-- a tree is shorter than that, and each round of the loop gives one node its class.
-- `is_ancestor_of` and `build_path` have fuel for the steps to the root. `range_for` needs two
-- rounds more than its statement yields rows.
--
-- Not modelled: the singleton HashCache; the command line (src/conf.cpp, src/dupa.cpp), logging,
-- and of src/file_tree.cpp the destructors. Nothing is supposed of what ROLLBACK leaves, which SQLite
-- does not define for the journal_mode OFF that the connection sets. The steps of ScanDirectory stop
-- short of the destruction of its local variables, and the bound on the pool's queue is in ThreadPool.

pub mod Base
pub mod Conf
pub mod DbLib
pub mod FileTree
pub mod FuzzyDedup
pub mod HashCache
pub mod Scanner
pub mod ThreadPool
pub mod DirCompare
pub mod DbOutput
