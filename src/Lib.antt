-- ===== src/Lib.antt =====
-- libgitledger: contexts, structured errors with their JSON, and the library's version.
--
-- A context owns an allocator, a reference count, a generation and a registry of the errors that
-- are alive. An error takes its memory from the context's allocator, keeps a reference on its cause,
-- and is registered until its last reference goes; it renders itself and its causes as JSON, into a
-- caller's buffer or into a cache of its own that the context's generation invalidates. Destroying a
-- context with live errors is refused.
--
-- Which file models what (paths from the repository's root):
--   Text: C strings, and the conversions of `snprintf` that the sources use; Text/Decimal and
--     Text/Strings have their lemmas.
--   Version: src/version.c and libgitledger/core/domain/gitledger.c. Version/Digits and
--     Version/Render compare it with the decimal print and with `snprintf`.
--   Buffer: the text builder of libgitledger/core/domain/error.c, `gl_buf_t`. Buffer/Contents has
--     its invariant, and Buffer/Append treats `gl_buf_append`.
--   ErrorCode: include/gitledger/error.h and the names, default flags and flags_format of error.c.
--     ErrorCode/Names has a dictionary of the names, ErrorCode/FlagsFormat treats flags_format.
--   Memory: the heap with its blocks, the allocator call-backs of include/gitledger/context.h, and
--     the structs of context.c and error.c. Memory/Blocks has the lemmas on reads and writes.
--   Context: libgitledger/core/context.c, all of it. Context/Registry says what a live context is;
--     its children treat the operations. Context/Threads has several threads at the context's lock:
--     Threads/Keeps, Threads/Steps and Threads/Order treat any sections, Threads/Sections and
--     Threads/Unlinking those of `context_register_error` and `context_unregister_error` (together in
--     Threads/Jobs), Threads/Registering the registrations, and Threads/Progress, Threads/Completion
--     and Threads/Ending the way to the end.
--   Error: creation, causes, release, accessors and walk of error.c. Error/Creation treats the
--     creation that fails, Error/Created and Error/Caused (with a cause) the one that succeeds, after
--     the steps in Error/Placed. Error/Release treats the release: of one error in Release/Round, of
--     a chain in Release/Causes and Release/Whole, of a single error in Release/Last. Error/Walk
--     treats the walk.
--   Json: escaping, fields, the loop over the stack of frames, and render_json of error.c. In
--     Json/Render the loop is compared with a recursion over the chain, and the call with `snprintf`.
--     Json/Reader is a reader of JSON strings after RFC 8259, and Json/Values one of JSON values,
--     which Json/Decode and Json/RoundTrip run on the rendered text; Json/NoNul shows that this has
--     no NUL.
--   Cache: gitledger_error_json, json_copy and message_copy of error.c. Cache/Fill treats the empty
--     and the filled cache, Cache/Stale the one of an old generation, Cache/Copy and Cache/Snapshot
--     the copies. Cache/Threads has several threads in gitledger_error_json: Threads/Moves and
--     Threads/Reading treat their steps, Threads/Owners, Threads/Publishing and Threads/Winner what the steps keep, and
--     Threads/Agreement any order of them.
--   Session: a context with all its errors and with how many references to each the callers hold,
--     over the rest of the memory. Session/Items, Session/Taken, Session/Adjust and Session/Swap take
--     an error out of the list and change one in place. Session/Adjust also treats the retaining of an
--     error, Session/Last and Session/Drop its release, Session/Make and Session/Calls the making of errors,
--     Session/Chains and Session/Show their causes and their JSON, Session/Counters the references to
--     the context, and Session/Ends the beginning and the end. Session/Client is a caller that follows
--     the rules of ownership in include/gitledger/context.h and include/gitledger/error.h, as a list
--     of commands; Client/Holding has what it holds, Client/Obeys treats one command, and Client/Life a
--     whole life.
--   Prelude: what all parts share; Prelude/Insert has lists that hold the same items in another order
--     or some of them.
--   Examples: small memories, and the theorems applied to them.
-- The functions keep their names, less the prefixes `gitledger_`, `gl_`, `context_` and `json_`.
--
-- How the program is modelled. Stateful functions run on a `Memory`, and end well, fault (NULL, an
-- address without a block, a double free, another allocator's block), abort, block on a held lock, or
-- run out of fuel. Numbers are natural numbers; counters of 32 bits and `size_t` of 64 bits wrap
-- around where the sources let them. What the repository does not implement is the record `Env`:
-- the allocators' answers, whether `malloc` succeeds, the sizes of structs, and the kind of build.
-- What `vsnprintf` makes of a caller's format is the argument `Format`.
--
-- Fuel. The loop over frames gets 129 rounds: a frame is on top at most twice, and there are at most
-- 64. The decimal loops get one more round than the number. Loops over the nodes of a registry and
-- over the causes of a released error get `rounds` of `Env`; theorems ask for more than the nodes.
--
-- Threads. In Context/Threads the steps of threads interleave: a test-and-set of the lock, one access
-- of a section, or the clearing of the lock. Since the lock is taken with acquire and cleared with
-- release order, and the sections touch shared fields only under it, accesses are in one order.
-- In Cache/Threads they are the check of the generation, the load of the cache, the first rendering,
-- the second into a buffer that no other thread has, the compare-and-exchange, and the return of a
-- buffer. A rendering is one step, since no thread writes what another's rendering reads.
--
-- Sessions. A caller in Session/Client gives up at an error that could not be registered, which
-- belongs to no context. Each command adds at most one error, and at most two references, so that
-- the bounds on rounds and counters are bounds on the number of commands.
--
-- Not modelled: threads that count references at the same time, and threads that drop a cache of an
-- old generation (there each operation runs to its end), the pauses of the spin
-- lock, a failing `snprintf` of the library's own formats, file and function names that are not
-- literals, the command line program, the tests and the start-up code. The array of frames that
-- render_json takes from `malloc` is not a block of the memory, so that its release is not seen. A
-- block of a message without a NUL, which the program never makes, is read to its end.
pub mod Prelude
pub mod Text
pub mod Version
pub mod Buffer
pub mod ErrorCode
pub mod Memory
pub mod Context
pub mod Error
pub mod Json
pub mod Cache
pub mod Session
pub mod Examples
