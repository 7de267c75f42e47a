-- ===== src/Lib.antt =====
-- attica, a C library of containers, allocators, text and number routines: a model of its parts
-- and what is proved of them.
--
-- Base holds what the parts share: Boolean tests, arrays as lists, the laws of the bitwise
-- operations, 64-bit words as numbers below 2^64, and `Run`, the result of a call that can end in a
-- failed assertion or in what C leaves undefined.
--
-- Memory is src/core/memory.c. The system allocator is a supply of addresses, given from outside,
-- and the list of the live ones (`Host`); `alloc`, `calloc`, `realloc` and `mem_free` are memory_alloc
-- and so on. The allocators stand on it:
--   Allocator/Arena    src/allocator/arena.c     a bump allocator with checkpoints
--   Allocator/Stack    src/allocator/stack.c     the same with an array of saved offsets
--   Allocator/Pool     src/allocator/pool.c      equal blocks; the words at addresses are a function
--   Allocator/Handle   src/allocator/handle.c    slots with generations
--   Allocator/Page     src/allocator/page.c      blocks with a table of their sizes and alignments
--   Allocator/Lease    src/allocator/lease.c     addresses with policies; the owner is a table
-- The tables of the last two are the hash table below, with addresses for keys; Allocator/Registry
-- has what the two share: which addresses a table tracks, the blocks behind each of them, and all the
-- blocks behind a table.
-- Memory/Fresh says what a call does to the list of live blocks.
-- A record has the fields of the struct, and an operation takes the struct and gives it back. The
-- bytes that a caller keeps in a block are not part of the model.
--
-- Container is src/container/node.c and stack.c: a function from addresses to nodes, and the stack
-- that is a chain of them.
--
-- Map/Linear is src/map/linear.c, the hash table with linear probing, over a type of keys given by a
-- hash and a comparison; Map/Linear/Hash has the hashes and comparisons of the source, over
-- parameters that say what an address points to. Counts are words, and wrap at 2^64. Map/Linear/Ring
-- is the table as a ring of slots, and Map/Linear/Delete follows the deletion around it.
--
-- Sort/Heap is src/sort/heap.c. Numeric/Lehmer is src/numeric/lehmer.c on its integer state, and
-- Numeric/Prime is src/numeric/prime.c, which draws its bases from it.
--
-- Utf8/Byte is src/utf8/byte.c: a pointer is the list of the bytes from it up to the terminator.
-- Utf8/Raw is src/utf8/raw.c, which runs callbacks under the loop of utf8_byte_iterate. Utf8/Path is
-- src/utf8/path.c, the part that works on the text of a path.
--
-- Loops that are not structural take a number of rounds: the length of the string for
-- utf8_byte_iterate, whose rounds move on by a byte each; the size of the table for the probes; a
-- given fuel for page_free_all, for which one more than the slots of the table is enough; the
-- length of the array for heapify, which goes down the tree; the exponent, the candidate or the
-- number itself in Numeric/Prime; and a given fuel for the walk along a free list
-- or a chain, which takes one round for each node.
--
-- Tests runs the definitions on small inputs and applies the theorems to concrete data.
--
-- Not modelled, for want of a store with the pointers of their nodes: src/allocator/freelist.c and
-- src/container/list.c. Not modelled, since they are about floating-point formats, input and output,
-- or code that is not here: src/numeric/type.c and the other floating-point routines; locks, logging
-- and printing; the splitting of strings in src/utf8/raw.c, which is done with PCRE2; the queries of
-- the file system in src/utf8/path.c, and the other calls of the operating system.
pub mod Base
pub mod Memory
pub mod Allocator
pub mod Map
mod Tests
pub mod Utf8
pub mod Numeric
pub mod Sort
pub mod Container
