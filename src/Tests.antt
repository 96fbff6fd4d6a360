-- ===== src/Tests.antt =====
-- Concrete runs, and the theorems at concrete inputs.
mod Aio
mod BlockPool
mod Bloom
mod Buffer
mod Coding
mod Directory
mod Hash
mod Ini
mod Logger
mod Lru
mod MemoryBlock
mod MemoryPool
mod OwnedString
mod File
mod Pack
mod Path
mod FileWatcher
mod Queue
mod Ring
mod Str
mod Time
mod Unpack
