-- ===== src/Lib.antt =====
-- POST++, a storage of persistent objects in a mapped file: the allocator of the storage and the
-- containers that ship with it.
--
-- Prelude (with Lists, Bits) holds the shared notation: Boolean tests on the native numbers, case
-- lemmas, lists with `length`, `get_or` and `set` on the native numbers.
--
-- Storage is the allocator of storage.h and storage.cxx. Storage/Blocks has the page size, the
-- tables of size classes and the address arithmetic for small objects; Storage/FreePages the chain
-- of free pages, with `free_page` and the search of `alloc_page`; Storage/Alloc puts them
-- together: `allocate` (`_allocate`), `alloc_page`, `get_header` and `free`. Storage/Statics is
-- the static data. An address is an offset from the header of the file, NULL is 0, the free lists
-- are lists of addresses, and the headers of objects are a function of the address.
-- `post_file::set_size` is a parameter. The configuration is the default one, with pages of 512
-- bytes (without LARGE_OBJECTS).
--
-- Balanced has the rotations that avltree.cxx uses on insertion and removal; Avl the tree of keys
-- with the ring of `l2elem` links that runs through all keys in order; the virtual `compare` is a
-- parameter. Names has C strings and the hash function of hashtab.cxx and classinfo.cxx; HashTable
-- the table from names to objects.
--
-- Ttree is the search of the T-tree of ttree.cxx, whose nodes hold sorted arrays of objects, with
-- its insertion in Ttree/Insert, its removal in Ttree/Remove and its purge in Ttree/Purge;
-- `compare` and `predicate` are parameters, and its balancing is that of Balanced.
--
-- Rtree has the rectangles of rtree.h and the pages and the search of rtree.cxx; the levels of the
-- tree are the type of its pages. Rtree/Area has `area` and the choice of a branch, Rtree/Split
-- `split_page`, Rtree/Insert the insertion into a page and into the tree, Rtree/Remove the removal
-- with its list of pages to reinsert, Rtree/Purge the purge. A coordinate is its distance from the
-- least `int`; an `int` has 32 bits and wraps around, a `size_t` has 64. Rtree/Weight has sums
-- over lists: two lists with equal sums for every weight of an element hold the same elements,
-- each as often.
--
-- Text is the search of textobj.cxx for several patterns; `toupper` and `tolower` are parameters, and
-- so are the bytes in front of the patterns and of the text: the comparison of a pattern that has
-- matched in full and does not end the search goes on there, and reaches `astray` where they end.
--
-- Classes is the registry of class descriptors of classinfo.cxx.
--
-- Where the code deletes objects, the model returns their addresses; where it allocates, it takes
-- the address. Fuel: the loop that cuts a page into slots runs on `page_size / 16`, the largest
-- number of slots of a page; `alloc_page` calls itself once for a page map, and such a call makes
-- no further one. The binary search in a node runs on the number of items, and the removal from a
-- T-tree on the height of the tree, since each call goes to a branch; the insertion on twice the
-- height, since a call that is repeated for the same node goes to a branch then. The loops of the
-- text search run on one round more than the text has bytes, since every jump goes on; the loop on
-- the groups of `split_page` has 186 rounds, since each takes one of 185 branches.
--
-- Not modelled: the creation of text objects; opening, closing and transactions of a storage,
-- which are calls of the operating system in file.cxx; garbage collection and class dictionaries;
-- the vendored libraries Judy and GiST; the STL and C interfaces.
pub mod Prelude
pub mod Names
pub mod Balanced
pub mod Classes
pub mod Avl
pub mod HashTable
pub mod Storage
pub mod Ttree
pub mod Rtree
pub mod Text
