-- ===== src/Lib.antt =====
-- A model of hayakv, a Redis-compatible server in Go: the data structures below its commands, the
-- encoding of its snapshots, and the routing table of its cluster, with proofs about them.
--
-- The program. A command reaches a database (internal/command), whose keys live in the dictionary of
-- internal/datastruct/dict and whose values are objects (internal/object) on the structures of
-- internal/datastruct. internal/persist writes the values to disk. In a cluster, a key is a slot, and
-- a slot is a node: internal/cluster/raft replicates that table, and internal/lib/consistenthash is a
-- ring that picks a node for a key. The parts call each other as functions and share no state but
-- what is named here.
--
-- Base holds what the parts share: tests on numbers, lists indexed by native numbers, byte strings,
-- orders as instances, signed numbers, and the two idioms of a sorted slice, which are the bisection
-- of `sort.Search` (a round per element is enough, since the interval shrinks) and the insertion or
-- cut at an index.
--
-- Dict is internal/datastruct/dict/redisdict.go: two hash tables, of which the second takes over
-- bucket by bucket. `get`, `put`, `put_if_absent`, `put_if_exists`, `remove` and `clear` are the
-- methods, `rehash_step` the step that they make; a Go panic is `none`. The loop past empty buckets
-- has fuel for every bucket of the table. The greatest length that Go's `make` takes is a parameter of
-- `make_redis`, and the table of a rehash is taken to fit into memory. Walks has the traversals and the scan with a cursor, Scans
-- and Cursors what they visit; the pattern compiler (internal/lib/wildcard) is a parameter.
--
-- QuickList is internal/datastruct/list/quicklist.go: a list of pages with an iterator that moves over
-- them, and Scans its loops. Pages, Reads, Writes, Moves and Cuts have the laws of the pages, of the reads,
-- the writes, the moves of an iterator and the removals under it; Loops, Sweeps and Backs those of the
-- loops forwards and backwards; Session all calls of the `List` interface. A loop that removes has fuel
-- for a round more than there are elements, `ForEach` for a round for each, and `Range` runs on the
-- number of elements that are asked for. The capacity that Go gives a slice is a parameter.
--
-- Intset is internal/object/intset.go: a sorted slice of int64 with a width; a nil pointer is `none`.
--
-- Stream is internal/datastruct/stream/stream.go: ascending entries, `add` and the assigned IDs in
-- Order, the ranges in Ranges, the loop that drops entries in Sift, deletion and trimming in Trims. A
-- uint64 is a number, and sums wrap at 2^64; the parser of decimal numbers is a parameter of `parse_id`.
-- Stream.Groups is group.go, the consumer groups. A `*PendingEntry`, which the group and a consumer
-- share, is an address in the group's `memory`; Tables has the agreement of the maps as functions, Laws
-- that of a group, Moves the acknowledgements, Claims the changes of owner, Deliveries the reads. The
-- clock is an argument and `sort.Slice` a parameter.
--
-- Border is internal/datastruct/sortedset/border.go and `hasInRange` of skiplist.go, for scores of a
-- totally ordered type. NaN, which has no order, is left out; the parser of floats is a parameter.
--
-- Rdb is internal/persist/rdb/primitives.go: `writeLen`, `writeString`, `readLen`, `readString` and
-- what they call, as functions into bytes and from the bytes that are left. Left out: the checksum,
-- the float scores, the errors of the writer below. The parser and the printer of integers are
-- parameters, of which nothing is assumed.
--
-- Raft is internal/cluster/raft/fsm.go and fsm_utils.go: `apply` is `FSM.Apply` on a decoded entry,
-- `restore` is `FSM.Restore` on a decoded snapshot. Go's slices are modelled down to their arrays
-- where `removeSlots` cuts the slice that it ranges over; its inner loop has fuel for the slice's
-- length, and each of its turns makes the slice shorter. The order of an iteration over a map is the
-- order of a list.
--
-- ConsistentHash is internal/lib/consistenthash/consistenthash.go; the hash function and the printer
-- of integers are parameters. Picks has the search on the ring, Partitions the part of a key in braces.
--
-- Slowlog is internal/command/slowlog.go, the ring buffer of slow commands; Laws has the places of its
-- entries, History what the operations do to the history, newest first. Bitmap is
-- internal/datastruct/bitmap/bitmap.go, `set_bit` and `get_bit` on a byte slice.
--
-- Acl is internal/acl/user.go: a user, `apply_rules` and the checks of its permissions. The hash of a
-- password, the match of a pattern (internal/lib/wildcard) and `strings.Map(unicode.ToLower, s)`, which
-- is `strings.ToLower` on a string that is not ASCII, are parameters.
--
-- TimeWheel is internal/lib/timewheel/timewheel.go, the wheel of delayed jobs: `start` is its loop on a
-- sequence of messages and ticks, `handle` one turn. Waits has when a task is due, Removals and Additions
-- the two messages, Events their sequences. A scan ends before the next message is handled; the
-- goroutines and the channels are left out, and the seconds of a duration are a parameter.
--
-- KeySlot is internal/rediscluster/crc16.go: the checksum, the hash tag and the slot of a key.
--
-- Not modelled: locks, goroutines, sockets and files; the commands, the append-only
-- file, the parsers of the protocol, the skiplist, the doubly linked list, the set,
-- the plain and the sharded dictionary, HyperLogLog, the bit-field command, and the
-- cluster's remote calls.
pub mod Acl
pub mod Base
pub mod Bitmap
pub mod Border
pub mod ConsistentHash
pub mod Dict
pub mod Intset
pub mod KeySlot
pub mod QuickList
pub mod Raft
pub mod Rdb
pub mod Slowlog
pub mod Stream
pub mod TimeWheel
