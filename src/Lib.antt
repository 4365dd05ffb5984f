-- ===== src/Lib.antt =====
-- rubidium-c: a C library of core helpers, containers, a packet protocol, number conversion, time and
-- thread primitives (src/rbc). This development models the time functions, the conversions between
-- numbers and text, the packets, the versions, the error messages, the failed assertions, the byte
-- swaps, the exchanges, the vectors, the synchronisation objects and the threads, and proves what makes
-- them correct.
--
-- Prelude: native numbers, lists as buffers, integers, and the wrap of machine words. A signed
-- overflow, undefined in C, wraps in the models.
--
-- Time: src/rbc/time. Time/Duration.antt has the functions of duration.c (`rbc_duration_add` is `add`,
-- and so on); Time/Duration/Convert.antt and Time/Duration/Timespec.antt have its conversions.
-- Time/Duration/Spec.antt is the specification: exact counts of ticks between two infinities.
-- Time/Timespec.antt is timespec.c and Time/Point.antt is time.c; clocks and `time_t` are parameters.
--
-- Core: src/rbc/core. Core/Error.antt has the error codes of error.h; its children have the functions of
-- error.c: the table of messages (Core/Error/Table.antt), the lookup and the copy into a buffer
-- (Core/Error/Message.antt) and the codes of Windows (Core/Error/Windows.antt). The numbers of the codes
-- are the platform's, a parameter. Core/Version.antt is version.c. Core/Bits.antt is the portable
-- branch of bits.h, and Core/Bits/Bytes.antt describes values as bytes in memory. Core/Assert.antt is
-- assert.c, over the mutex and the once flag of Sync, and Core/SourceLocation.antt source_location.c.
--
-- Charconv: src/rbc/utils/charconv.c. Its four macros are `from_chars_signed`, `from_chars_unsigned`
-- (Charconv/FromChars.antt), `to_chars_signed` and `to_chars_unsigned` (Charconv/ToChars.antt), each
-- over the integer type, and Charconv/Generic.antt has the choice by the type; the loops are functions
-- of their own. A pointer is an index of the buffer. The loops over the digits run on fuel 20, the
-- count of the digits of 2^64 - 1: the theorems on the text written hold for every value of every
-- type, so the fuel is enough. Charconv/FromChars/Text.antt and Charconv/ToChars/Digits.antt have the
-- independent description of decimal texts.
--
-- Proto: src/rbc/proto/dcp2/packet.c. Proto/Dcp2.antt has the functions (`rbc_dcp2_packet_from_bytes`
-- is `packet_from_bytes`, and so on); the allocators are parameters, and `none` stands for an access
-- out of bounds or through a null pointer. Proto/Dcp2/Frame.antt is the format by itself.
--
-- Containers: src/rbc/containers. Containers/Vector.antt has the functions that the macros of vector.h
-- define, for any type of elements; calloc is a parameter, and `none` is an access out of bounds.
-- Containers/Vector/Contents.antt says which list a vector stands for. Containers/Array.antt is array.h.
--
-- Sync: src/rbc/sync, with POSIX threads but where Windows is named. Sync/World.antt has the heap
-- blocks and the system's calls, a parameter: what a call returns depends on the system's state,
-- which other threads may change during it. Sync/Impl.antt has the macros of impl.h, and each
-- object has a file of its own (Sync/Mutex.antt is mutex.c, and so on; Sync/Thread.antt has the
-- contents of its blocks too). Sync/Windows has such files for the branches for Windows. A pointer
-- `self->impl` is `none` for NULL, and the use or the release of a block that is gone is a fault.
-- The loops of Sync/ConditionMutex.antt run on fuel, one unit for each wait; they wait for other
-- threads, so that no fuel is enough in general, and how much is enough is a theorem about the
-- rounds after which the condition holds.
--
-- Clients of the threads, and the states that they bring about, are in Sync/Thread/Busy.antt.
--
-- Utils: src/rbc/utils/swap.h, on a memory of bytes.
--
-- Not modelled: the annotations for the analysis of locks and the platform headers (preprocessor
-- selections); the macros that fill in a place of the source; tests and build files.
pub mod Prelude
pub mod Core
pub mod Time
pub mod Charconv
pub mod Proto
pub mod Containers
pub mod Sync
pub mod Utils
