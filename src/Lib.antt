-- ===== src/Lib.antt =====
-- jaulib is a library of containers and utilities for C++. This development models its core and
-- states what makes it correct.
--
-- Prelude holds the names that the other files share: lists indexed by native numbers, Boolean
-- tests, and machine words.
--
-- Ringbuffer is include/jau/ringbuffer.hpp, `class ringbuffer`. Its state is the record
-- `Ringbuffer`: the array, the read and the write position, the null element. Ringbuffer/Ops has
-- the operations that one side calls (moveOutImpl, copyIntoImpl, dropImpl and others),
-- Ringbuffer/Wait their waiting loops: the wake-ups of a wait, and what the other side did before
-- each, are a list that the operation takes, and a call whose wake-ups are used up waits still.
-- Ringbuffer/Reset has the operations that hold both mutexes. Ringbuffer/Queue is the bounded queue
-- that clients are promised, Ringbuffer/Refine relates the two. Ringbuffer/Threads has one putter
-- and one getter of single elements at the same time, in the single accesses of the shared memory,
-- in any order that a scheduler chooses. Size_type is taken at 64 bits, with its wrap-around. Not
-- modelled: printing, and interleavings of the single accesses of ranges.
--
-- Darray is include/jau/darray.hpp, `class darray`. A slot of its storage is raw or holds an
-- object, so that constructing, moving and destroying objects can go wrong: what C++ leaves
-- undefined is a `fault`, an exception after storage was freed that the array still points to is
-- `dangling`. Darray/Ops has the operations, Darray/View the list that an array stands for,
-- Darray/Promise the operations on that list, and Darray/Run relates the two for sequences of
-- calls. The allocator and the growth factor's arithmetic are parameters (`Config`). What
-- `erase_matching` counts is an `int`, which is a fault beyond 32 bits. Loops run over lists or
-- counts, so that no fuel is needed. Darray/Whole has copies, moves and swaps of whole arrays, of
-- an array with itself too. Not modelled: a growth factor of each array's own, secure zeroing,
-- comparison, iterators below the array.
--
-- CowDarray is include/jau/cow_darray.hpp, `class cow_darray`, on top of Darray: the stores that
-- `std::shared_ptr` keeps are one list, which all containers and iterators share, and a reference
-- is a position in it, so that what one call does to a store is seen by all that hold it. A call of
-- a writer is one step, since it holds the write mutex from its beginning to its end.
-- CowDarray/Iterators has the two iterators of include/jau/cow_iterator.hpp and the operations that
-- use them; CowDarray/Shelf views the memory as lists, CowDarray/Effects has the operations on
-- these views, CowDarray/Refines, CowDarray/Erasing and CowDarray/Sessions relate the two,
-- CowDarray/Isolation and CowDarray/Run say what snapshots see, CowDarray/Order compares iterators.
-- The loop of `erase_matching` has more fuel than there are elements. Not modelled: copies of
-- mutable iterators, which share their store, positions before the first element, comparison of
-- whole containers.
--
-- CowVector is include/jau/cow_vector.hpp, `class cow_vector`, in the same way over `std::vector`,
-- a list with a capacity; when memory is to be had, how long a vector may be and how it grows are
-- parameters (`VectorConfig`). CowVector/Run has sequences of calls and the vector that they
-- promise, with the memory that each call asks for; CowVector/Isolation says what that means for
-- the stores.
--
-- ByteUtil is include/jau/byte_util.hpp: `bswap` of each width, the conversions between host order
-- and a given one, and put and get in a byte array, on a host of either order. A type of integers
-- is a record `Uint` of its size, its swap and its bytes in memory; ByteUtil/Swap has the laws that
-- each type fulfils, ByteUtil/Memory what follows from them. Numbers are naturals below the power
-- of two.
--
-- Utf8 is src/dfa_utf8_decode.cpp: the table, the automaton's step, and the loop over a buffer, a
-- list of bytes. Utf8/Encoding is UTF-8 by its definition, Utf8/Decode relates the two.
--
-- BasicTypes is src/basic_types.cpp: bytesHexString and trimInPlace on lists of character codes.
-- What `isspace` takes for a space is a parameter. Not modelled: clocks, exceptions, merge_uint128,
-- get_string.
--
-- Environment is src/environment.cpp: the process environment is an association list, and each
-- method of `class environment` a function on it. What the source uses of the C and C++ libraries
-- (getenv, setenv, strtol, strtoul, find, substr) is written out. The loop over the list of
-- properties has more fuel than the list has characters; Environment/Exploding shows that this is
-- enough. Not modelled: debug messages and their switch, and the singleton.
--
-- StringUtil is `to_decstring` of include/jau/string_util.hpp with what it calls of
-- include/jau/int_math.hpp. The decimal logarithm of the C++ library is a parameter, and theorems
-- say where they take it to be exact, at the number that is printed. A write outside of the string
-- is `none`.
--
-- The other parts of the library are not modelled: atomics, function wrappers, floating-point
-- arithmetic, and the Java bindings.
pub mod Prelude
pub mod BasicTypes
pub mod ByteUtil
pub mod CowDarray
pub mod CowVector
pub mod Darray
pub mod Environment
pub mod Ringbuffer
pub mod StringUtil
pub mod Utf8
