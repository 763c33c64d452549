-- ===== src/Lib.antt =====
-- Verification of ipc_shm_arena_lend: shared-memory pools that one process owns and lends to
-- others, the fancy pointers into them, and what a session keeps of lent and borrowed objects.
--
-- The parts and how they interact. A process that owns pools keeps them in an
-- `Owner_shm_pool_collection`, which creates and removes SHM objects and tells its listeners; a
-- process that borrows them opens them in a `Borrower_shm_pool_collection`. In either process a
-- repository maps pool IDs to pools and addresses to pools: the owner's is filled from what a
-- listener of the collection is told, the borrower's counts the uses of each pool. A fancy
-- pointer holds an ID and an offset, or a raw address, in 64 bits, and asks the repository for
-- the address. IDs are unique on the machine, by way of one SHM object. An arena allocates
-- objects through jemalloc, from any thread, and keeps its arena of jemalloc as long as an
-- object or a thread cache needs it. It passes what it hears of its collection on to its
-- listeners: the repository's, and one of each session that lends it. Two sessions, one on each
-- side of a channel, tell each other of arenas, pools and objects by messages. A session counts
-- the registrations of each lent or borrowed object, and one registry per process counts the
-- uses of owners, collections and pools by its sessions.
--
-- Files, and the sources they model (below src/ipc/):
--   Base: shared names; Base/Dict: maps as association lists; Base/Tests: Boolean tests and case
--     splits; Base/Words: pointer arithmetic and sign extension.
--   Pool: shm/arena_lend/shm_pool.hpp, .cpp; Pool/Divisible: divisible_shm_pool.hpp, .cpp.
--   PoolId: shm/arena_lend/detail/shm_pool_offset_ptr_data.cpp, with the interleavings of processes
--     in PoolId/Sequence.
--   OffsetPtr: shm/arena_lend/detail/shm_pool_offset_ptr_data.hpp; FancyPtr:
--     shm/arena_lend/shm_pool_offset_ptr.hpp.
--   AddressMap: the `std::map` by base address and its search, shared by shm_pool_collection.cpp
--     and shm_pool_repository.hpp.
--   Repository: shm/arena_lend/shm_pool_repository.hpp, shm_pool_repository_singleton.hpp;
--     Repository/Borrower: borrower_shm_pool_repository.cpp, detail/shm_pool_use_tracker.hpp.
--   Collection: shm/arena_lend/shm_pool_collection.cpp; Collection/Owner:
--     owner_shm_pool_collection.cpp and owner_shm_pool_listener_for_repository.cpp;
--     Collection/Borrower: borrower_shm_pool_collection.cpp.
--   Memory: shm/arena_lend/memory_manager.cpp and jemalloc/memory_manager.cpp.
--   Jemalloc: shm/arena_lend/jemalloc/shm_pool_collection.cpp: the extent hooks; Jemalloc/Start: the
--     arenas of jemalloc; Jemalloc/Caches: the caches of a thread; Jemalloc/Objects: the objects with
--     their deleters, and the caches of all threads, also in the .hpp and in
--     owner_shm_pool_collection.hpp. Below it, Trace says what the calls of jemalloc mean, Sound and
--     Safety are about thread caches, Agreement and Matching about allocations, Ownership about arenas.
--   Arena: shm/arena_lend/jemalloc/ipc_arena.cpp, and what the repository's listener does with its
--     notices; Arena/Process: the arenas of a process and the objects in them, also in the .hpp.
--   Session: session/standalone/shm/arena_lend: Session/Borrower is borrower_collection.cpp,
--     Session/Lender is lender_collection.cpp, Session/Data is shm_session_data.cpp and .hpp, and
--     Session/Registry is borrower_shm_pool_collection_repository.cpp. Session/Protocol is
--     jemalloc/shm_session.cpp: the lender's side, with the handles of objects in Handle, the
--     borrower's side in Borrow with what it receives in Borrow/Messages and a session from begin to
--     end in Borrow/Lifetime, the handlers of messages in Dispatch, and the way of an object between
--     the two sides in Objects. Session/Setup and Session/Server are how the sessions of the
--     application use it, in session/detail/shm/arena_lend/jemalloc and
--     session/shm/arena_lend/jemalloc/session_server.hpp.
--   Tests: concrete input.
-- An operation has the name of its C++ function, without the class. A member function takes the
-- state of its object and returns the new one.
--
-- Conventions. Addresses are numbers below 2 ^ 64 with null as 0; pool offsets and sizes are 32-bit
-- patterns (`int32_t` in the source), pool IDs 31 bits; wrap-around is written out. A pool is valid
-- (`IsValid`) if it satisfies the assertions of the constructor and ends below the top of the
-- address space. What the operating system answers is an argument of the operation, the calls
-- themselves are a list of effects. `util::Use_counted_object`, of another repository, is the
-- interface `UseCounted`. Each operation under a mutex is one step. Loops are structural recursion:
-- no fuel is used.
--
-- Not modelled: logging and printing; the jemalloc library, whose answers are arguments and
-- whose calls are a list; `Jemalloc_pages`, a copy of its page functions, whose calls are
-- arguments too; the activator of an arena, of another repository; the channel of a session,
-- whose answers are arguments; the completion of a log-in that a shutdown aborts, which returns at
-- once; the session classes below those of Session/Setup, with the metadata and the channels that
-- they open, which are of another repository; and the lifetime of what shared pointers hold, but
-- for the objects, the thread caches and the arenas of jemalloc.
pub mod AddressMap
pub mod Arena
pub mod Base
pub mod Collection
pub mod FancyPtr
pub mod Jemalloc
pub mod Memory
pub mod OffsetPtr
pub mod Pool
pub mod PoolId
pub mod Repository
pub mod Session
pub mod Tests
