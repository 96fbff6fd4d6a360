-- ===== src/Lib.antt =====
-- xfutil: a C++ library of codings, hashing, a Bloom filter, string views, a blocking queue, a packer
-- of values into blocks, caches, pools, files and logging. This is a model of its pure and in-memory
-- parts, and of what it makes of the answers of the system, with their theorems.
--
-- Memory. A pointer is an address, a number, and the memory is a function from addresses to bytes
-- (Memory.antt; its laws are in Memory/Laws.antt). A routine that writes returns the memory and
-- the pointer after the call. A `w`-bit integer is a number below `2 ^ w`, and the wrap-around of an
-- operation is written out.
--
-- Files and code:
--   Coding            the result of a decoder, `Decoded`: what it returns, and its reference arguments
--   Coding/Fixed      include/xfutil/coding.h: EncodeFixed, DecodeFixed, the float and double variants
--   Coding/ZigZag     include/xfutil/coding.h: EncodeZigZag, DecodeZigZag, on bit patterns of any width
--   Coding/Varint     src/coding.cpp: EncodeVarint, DecodeVarint, and the overloads in coding.h
--   Coding/Backward   src/coding.cpp: EncodeVarintR, DecodeVarintR
--   Coding/Text       include/xfutil/coding.h: EncodeString; src/coding.cpp: DecodeString
--   Hash              src/hash.cpp: the three Hash32
--   Bloom             src/bloom_filter.cpp, include/xfutil/bloom_filter.h: BloomFilter
--   Str               src/strutil.cpp, include/xfutil/strutil.h: StrView
--   Queue             include/xfutil/queue.h: BlockingQueue
--   Pack              src/pack.cpp: Packer; src/buffer.cpp: BlockBuffer::Alloc, and its Block
--   Buffer            src/buffer.cpp: WriteBuffer, BlockBuffer::Free
--   Unpack            src/unpack.cpp: Unpacker
--   BlockPool         src/block_pool.cpp: BlockPool
--   MemoryBlock       src/memory_block.h, src/memory_block.cpp: MemoryBlockHead and its operations
--   MemoryPool        include/xfutil/memory_pool.h, src/memory_pool.cpp: MemoryPool
--   OwnedString       src/strutil.cpp, include/xfutil/strutil.h: String, StrCpy
--   File              src/file.cpp, include/xfutil/file.h: Read, Write and Copy
--   Ini               src/ini_file.cpp, include/xfutil/ini_file.h: IniFileReader, IniSection
--   Time              src/time.cpp: parsing and formatting of packed times and dates
--   Aio               include/xfutil/aio.h: Command; Aio/Process: the steps of ProcessRequest in
--                     src/aio.cpp; Aio/Threads: Start, Submit, Stop and the threads' loops
--   Ring              include/xfutil/list.h: the circular list of nodes
--   Logger            src/logger_impl.cpp, src/logger_impl.h: the writing side of LoggerImpl
--   FileWatcher       src/file_watcher.cpp, include/xfutil/file_watcher.h: FileWatcher
--   Directory         src/directory.cpp, include/xfutil/directory.h: Create, Create_r
--   Path              include/xfutil/path.h: GetFileName, Combine, CombineEx
--   Lru               include/xfutil/lru_cache.h: LruCache
--   Base              names and lemmas that the parts share: Booleans, lists, bits, order
--   Tests             concrete runs
--
-- How the parts meet. The packer writes with the coders of Coding into blocks whose addresses the
-- allocator chooses (the record Pool), and the unpacker reads them. The strings of Coding/Text and of
-- Pack are the views of Str. The memory pool cuts its blocks with MemoryBlock, and its lists are the
-- sequences that Ring shows. The thread of the logger pops what a BlockingQueue gives it (Logger/Close).
-- FileWatcher makes its paths with Path. The Bloom filter takes hashes as numbers, whichever function
-- made them.
--
-- Loops. EncodeVarint is a recursion on the order of the numbers, for each round divides by 128.
-- DecodeVarint runs for shifts 0, 7, .. below 64, which are ten rounds, so it recurses on ten;
-- DecodeVarintR runs below 32, five rounds. Hash32 consumes four bytes a round, so a quarter of the
-- length, and one, is enough. The loops of the Bloom filter and of the views recurse on the count that
-- bounds them. The loops of LruCache take a node off a list in each round, so its length is enough. The
-- loops of File over interrupted calls have no bound in the code: they recurse on fuel, and one more
-- than the number of interrupted calls is enough. The loops of FileWatcher recurse on the answers of
-- the system, and on the length of a buffer.
--
-- Concurrency. A method of BlockingQueue holds its mutex except while it waits. It is a function of
-- the states that it finds, the first, and one more for each wait that returns. What the threads
-- do between them is a sequence of steps. The threads that work on one asynchronous request share its
-- counters: each of their steps goes up to the next access to a counter, and the steps come in any
-- order. The spin lock of BlockPool and the mutex of LruCache make each of their methods one step.
-- MemoryPool::Alloc takes its mutex twice, so it is two steps, and others come between them.
--
-- Parameters. Coding/Fixed takes the conversion between a float, or a double, and its bits as a record,
-- since it is the machine's. Pack and Buffer take the addresses of new blocks, and Unpack the address
-- of the empty literal. Aio, File and FileWatcher take what system calls return, OwnedString and
-- MemoryPool the addresses that the allocators give, Ini the bytes of the file, and Lru the
-- product with 0.6. Logger takes the file system as the record FileSystem, and the record IsFileSystem
-- of Logger/Rotation states its documented behaviour; Directory has the record Directories likewise.
--
-- Not modelled: the formatting of log lines; what walks a tree of directories; threads, processes, locks
-- and clocks, which wrap system calls; and the overloads of Pack and Unpack that take a callback.
pub mod Base
pub mod Aio
pub mod File
pub mod Ini
pub mod Logger
pub mod Lru
pub mod Memory
pub mod OwnedString
pub mod MemoryBlock
pub mod MemoryPool
pub mod Coding
pub mod Hash
pub mod BlockPool
pub mod Bloom
pub mod Buffer
pub mod Str
pub mod Time
pub mod Queue
pub mod Ring
pub mod Pack
pub mod Path
pub mod Directory
pub mod FileWatcher
pub mod Unpack
mod Tests
