-- ===== src/Idgen.antt =====
-- internal/idgen: the word list, its validation, and the allocator of ids.
pub mod Words
pub mod EffList
pub mod Load
pub mod WordsSound
pub mod Hex
pub mod Allocate
