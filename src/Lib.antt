-- ===== src/Lib.antt =====
-- Placement strategies of the data distribution simulator: how extents of virtual volumes are
-- mapped to disks, and how the mapping changes when disks are added.
--
-- The program is a family of classes below `Distributor`. Each is given a list of disks
-- (`setConfiguration`, `setDisks`) and answers `placeExtent` with one disk for each copy. Modelled:
--
-- * dadisi/Disk.cpp in Disk: the fields of a disk and its copy.
-- * dadisi/ImprovedMap.cpp in ImprovedMap: the map from a 64-bit hash to the closest stored key
--   below it on the ring. `new` is the constructor and `find_closest` is `findClosest`.
--   ImprovedMap/Floor, /Slices and /Closest are about the search.
-- * dadisi/DistRoundRobin.cpp in RoundRobin: `set_configuration`, `set_disks`, `place_extent` and
--   `get_disks`; the ring is an ImprovedMap. RoundRobin/Striped and RoundRobin/Ring are about the
--   two ways of placing, RoundRobin/Walk and /Layout carry the lemmas of their loops.
-- * dadisi/DistRandSlice.cpp in RandSlice: RandSlice/Collect (`collect_free_space` and its
--   alternating variant), RandSlice/Reuse (`reuse_free_space` and its sorted variant),
--   RandSlice/Redistribute (`redistribute`, which runs one of each), RandSlice/Placement
--   (`hash` and `placeExtent`) and RandSlice/Partitions (the constructor, `setConfiguration`,
--   `setDisks`, `create_partitions` and `add_partitions`).
-- * dadisi/DistNearestNeighbour.cpp in NearestNeighbour: `set_disks`, `set_disks_multi`,
--   `place_extent` and `get_disks`; the keys of the disks are looked up in an ImprovedMap.
--   NearestNeighbour/Keys is about the table of keys, /Distinct and /Endless about placement.
-- * dadisi/RSCache.cpp in RsCache: `set_value`, `get_value`, `get_high_value` and `get_low_value`
--   of the cache of probabilities of redundant share, at any depth.
-- * dadisi/DistRUSHr.cpp and dadisi/DistRUSHr.h in Rushr: `set_disks` and `place_extent`;
--   Rushr/Random is the generator, Rushr/Draw the drawing of servers. Rushr/Clusters, /Fill,
--   /Groups, /Setup and /Parts are about the set-up, /Placement and /Extent about the copies.
-- * dadisi/DistRUSHt.cpp, dadisi/DistRUSHt.h and a search of dadisi/Prime.cpp in Rusht: `set_disks`
--   and `place_extent`. Rusht/Tree is about the tree of clusters, /Setup and /Coprime about the
--   primes, /Placement and /Extent about the copies. Its clusters are found by the functions of Rushr,
--   since the loops are the same.
-- * dadisi/DistRedundantShare.cpp and dadisi/RSDisk.h in Redundant: `set_disks`, `place_extent` and
--   `get_disks`. Redundant/Disks has the order of the disks and `align_disks`, Redundant/Correction the
--   probabilities from `p` to `c_star`. Redundant/Order, /Align, /Kept and /Caches follow the set-up,
--   /Placement and /Extent the copies; /Failing is about corrections that cannot end.
-- * dadisi/DistShare.cpp and dadisi/ShareDisk.h in Share: `set_disks`, `place_extent` and
--   `get_disks`. Share/Intervals has the intervals, the loops that lay them out and their tests,
--   Share/Cover says what they cover; Share/Setup, /Distributors and /Extent follow the set-up,
--   Share/Stretch the loop that stretches the intervals, Share/Placement the copies, Share/Threads the
--   threads that make the distributors, whose turns an interleaving lists.
-- * dadisi/Distributor.cpp in Hash: the hashes of texts; `hash_function_int64` chooses one.
--   Hash/Folding is about the message that is hashed, Hash/Digest about the reading of a digest.
-- * dadisi/helper.cpp in Helper: `read_int64`, `read_uint64` and `create_mpz`.
-- * Bitwise has laws of the operators on bits, Double the operations on double precision,
--   Rational those on the fractions of GMP. Word has the arithmetic of 64-bit patterns, Dictionary the
--   maps with number keys, Base what the files share, and Tests runs on concrete data.
--
-- Numbers are natural numbers below the width of their type; a sum or a difference that may leave
-- it is reduced by `% 2 ^ 64`, and a negative number is its bit pattern. A read that the language
-- leaves undefined (through `end()`, a null pointer, an index outside an array) and a division by
-- 0 are `none`; an `abort` or an `assert` that fails is an outcome of its own. Assertions are
-- taken to be compiled in.
--
-- Parameters stand for what is not modelled: the interval tree (its leaves, its search, and the
-- calls that write it), double precision, the fractions of GMP, its products with a number in double
-- precision and its decimal texts, SHA-1, `rand` and the digest of gcrypt, the C library's logarithms,
-- and the order in which an unordered map is visited. The classes of rings, Share, the redundant share
-- and RUSH_T take the hash of a text as a parameter too, and RUSH_T the table of primes.
--
-- Loops over a container are recursion on its list. The loop of `placeExtent` of the sliced space
-- runs on fuel `copies + offset + 2`: each round either places a copy or meets a selected partition,
-- which an assertion allows while the number of probes is at most `offset`. The loop of the
-- nearest neighbours has no such bound: its fuel is an argument. The power of the generator has one
-- more unit of fuel than its exponent, of which each round takes off half; the levels of the tree of
-- RUSH_T have one unit for each cluster, and each level has about half the nodes of the one below.
-- The search of the redundant share has one unit for each disk, and each round moves to the next.
-- For Share the fuel of the stretching loop is an argument, with one unit for each doubling of the
-- factor, and so is that of its `placeExtent`, with one for each round.
--
-- Not modelled: reading and writing XML and command lines (I/O), the vendored interval tree and
-- SHA-1, the table of primes, the drivers under perf_eval, the copy of the CRUSH library with
-- dadisi/DistCRUSH.cpp, and the strategies of dadisi/DistFastRedundantShare.cpp and
-- dadisi/DistRUSHp.cpp.
pub mod Base
pub mod Word
pub mod Bitwise
pub mod Double
pub mod Rational
pub mod Dictionary
pub mod Disk
pub mod ImprovedMap
pub mod RoundRobin
pub mod RandSlice
pub mod NearestNeighbour
pub mod Rushr
pub mod Rusht
pub mod Share
pub mod Redundant
pub mod RsCache
pub mod Hash
pub mod Helper
pub mod Tests
