-- ===== src/Lib.antt =====
-- uDepot: a key value store for fast non-volatile memory, on a log-structured allocator (Salsa). A hash
-- of the key chooses a table in a directory (src/include/uDepot/lsa/udepot-directory-map.hh); the table
-- (src/include/uDepot/lsa/udepot-map.hh) maps the hash to the address of the record on the device; the
-- records go through buffers (src/include/uDepot/mbuff.hh) to the store and to the network.
--
-- The modules.
--   Base           Boolean tests on native numbers, lists as arrays, bit masks, words of 64 bits.
--   Util           src/include/util/debug.h: NUM_BITS and the roundings.
--   HashEntry      src/include/uDepot/lsa/hash-entry.hh: a slot, as a record of its bit fields. A
--                  write to a field keeps the field's low bits.
--   Map            src/include/uDepot/lsa/udepot-map.hh: a table as a record with the list of its
--                  slots; a `HashEntry *` is a slot's index. Map itself has the operations on
--                  buckets, Map/Shift the displacement, Map/Locks the choice of locks, Map/Restore
--                  the geometry of src/uDepot/lsa/udepot-map.cc. The other children prove: Keys
--                  (fingerprints), Scan (the loops), Lookup, Changes, Insert, Remove, Geometry,
--                  LockCover, Displace and ShiftKeeps.
--   Directory      udepot-directory-map.hh and src/uDepot/lsa/udepot-directory-map.cc: the tables,
--                  the choice of one, the operations on it (Directory/Access), and the copy into a
--                  directory of twice the size.
--   Mbuff          src/include/uDepot/mbuff.hh and src/uDepot/mbuff.cc: a list of nodes, each a
--                  buffer with its valid part, and a list of free nodes. Mbuff/Append,
--                  Mbuff/Prepend, Mbuff/Reslice and Mbuff/Iterate have the operations; Valid,
--                  AppendRoom, AppendFills, ResliceKeeps, IterateReads and Trip prove. Mbuff/Combine has
--                  the helpers on two Mbuffs.
--   MbuffCache     src/include/uDepot/mbuff-cache.hh, mbuff-alloc.hh beside it, and
--                  src/include/util/inline-cache.hh: caches of Mbuffs and of nodes; a pointer is an
--                  index.
--   RwLock         src/include/uDepot/rwlock.hh and brlock.hh: a word with its readers and its writer,
--                  and its atomic steps as a relation.
--                  RwLock/PageFault is the lock of the directory
--                  (src/include/uDepot/rwlock-pagefault.hh and src/uDepot/rwlock-pagefault.cc): the words of a
--                  BRLock, each with the steps of RwLock, the writer's loops over them, the flag and
--                  the sleepers; Alone, Drain and Progress prove.
--   KvWire         src/include/uDepot/kv-wire.hh: the headers of requests and responses.
--   Store          src/uDepot/udepot-lsa.cc and udepot-lsa.hh, lsa/store.hh and io/helpers.hh in
--                  src/include/uDepot: the store. A device is its bytes and the errors that it makes; an
--                  Mbuff is the bytes that it holds. Store/Search has the search through the slots
--                  of a fingerprint, where each round may see another directory, as the lock is
--                  given up for the reads; Store/Lookup the three lookups; Store/Write the state
--                  and the write of a record; Store/Put, Store/Get and Store/Erase the operations;
--                  Store/Relocate the callbacks of the garbage collection. Scan is the
--                  specification of the search, and SearchFinds, Unvisited and LookupFinds prove;
--                  Bytes and Records are about the format, and Fresh, GetFinds, Moved and GcEnds about
--                  the operations.
--   Metadata       src/uDepot/lsa/metadata.cc and metadata.hh in src/include/uDepot/lsa: the metadata of the
--                  device and of the segments, as bytes with checksums. Layout, SegTrip, DevTrip,
--                  Disjoint and Inited prove.
--   Growth         src/uDepot/lsa/udepot-directory-map.cc: `grow`, with every error path, on a directory
--                  with its regions, its locks and its calls of Salsa. Regions, Tables, Outcome and Width
--                  prove.
--   Recovery       the same file: the segments that are found after a crash or a restart
--                  (Segments, Timestamps and BothWays prove), and in Recovery/Headers the headers and
--                  footers of the tables, and what `restore` makes of them (HeaderTrip proves).
--   KvConf         src/uDepot/kv-conf.cc: the sanitizing of the parameters, and the search of
--                  `init_local` for a size of segments. Sane and Segments prove.
--   Memcache       src/uDepot/net/mc-helpers.cc and src/include/uDepot/net/mc-helpers.hh: the memcache
--                  protocol on lists of bytes. Tokens has the lines and their tokens, Numbers the
--                  conversions, the times and the arithmetic, Parse the commands, Requests the choice
--                  of the handler, Item the layout of a stored value. TokensJoin, ParseBounds,
--                  ParseJoin and SetGet prove; SetGet joins Memcache and Store.
-- Files whose names end in Tests run small examples.
--
-- How the code is read. A loop over slots or nodes is structural recursion. An error result is `none` or
-- a constructor. Lookup's three results are `hit`, `miss` and `no_space`. A function that a caller
-- passes to `append` or `prepend` is a function from its captured variables and the bytes of the chunk to
-- the new variables, the new bytes and the size that it returns. A chunk is its bytes: the ownership of the
-- pointer is not modelled. A read out of the table gives an empty slot.
--
-- Fuel. `append` and `prepend` take two more rounds than there are free nodes, since each round but the
-- first and the last takes one. `copy_to_buffer` takes one round for each node and one more.
-- `lock_loop` halves a 32-bit number, at most 33 times. `try_shift` has fuel for each of the slots that
-- it may pass, a bucket of steps for each. The search of a lookup has 33 rounds, since each round but
-- the last visits an address, and the code asserts that fewer than 32 were visited before. `gc_loop` has a round for each byte of its
-- region. `put` and `del` take a list of the answers of the allocator, one for each attempt, and `put` a list of
-- those of `grow`: they have no result when the list is too short. The search for a size of segments has a round for each
-- smaller size.
--
-- Assertions. A failed assertion is a result of its own in the search of the lookups, in `get` and in the
-- callbacks of the garbage collection (`assertion_failed`), in `mem_compare`, and in the loop at the end of
-- `restore` (`none`). The other assertions are not modelled: there the code is read as it is built without
-- assertions (`-DNDEBUG`).
--
-- Given from outside. Salsa's answers to a request for grains, its segments and the timestamps and the
-- checksums of the metadata, which sizes of buffers can be had, what `grow` leaves, the hash of a key, and the
-- conversions of numbers of the C library are arguments, and so are crc32, the size of a page, Salsa's
-- iterator over the segments, and what `mmap`, `mprotect`, `munmap` and `msync` answer. The calls of Salsa that have no result are
-- a list in the state. A put, a get and a delete are modelled for the owner of the key.
--
-- Not modelled: the Salsa library, the restore of the records of a segment after a crash and
-- the counts at the end of `restore`, the parsing of the command line, the operations on plain
-- buffers, the remote client, the multiget and the replies' texts of memcache, the task run time, sockets, the drivers of storage,
-- the third-party hash functions (a hash is any number), the bindings, and the locks that guard
-- the slots.
pub mod Base
pub mod Util
pub mod HashEntry
pub mod Map
pub mod Directory
pub mod Mbuff
pub mod RwLock
pub mod KvWire
pub mod MbuffCache
pub mod Store
pub mod Memcache
pub mod Metadata
pub mod Growth
pub mod Recovery
pub mod KvConf
