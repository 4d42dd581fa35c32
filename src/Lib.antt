-- ===== src/Lib.antt =====
-- ByoRedis, a Redis-like server in C++ with its client: the byte buffers and the
-- wire format of its connections, and the data structures that hold its keys, sorted sets and
-- timers.
--
-- The parts, their files here, and the code (paths from the repository's root):
-- - Buffer: include/byoredis/proto/buffer.hh and src/proto/buffer.cc, the growable byte buffer of a
--   connection with a stack of placeholders for lengths that are filled in later. Each operation
--   is a function of its name. Buffer/View says what a buffer means, Buffer/Moves is about the
--   operations that move the bytes, Buffer/Writes about the others.
-- - Tlv: include/byoredis/proto/tlv.hh and src/proto/tlv.cc, the readers and writers of words,
--   strings and replies, on top of Buffer. Tlv/Words, Tlv/Writers and Tlv/Arrays.
-- - Request: parse_req of src/server/conn.cc and send_req of src/client/api.cc, the two ends of a
--   request. Request/Parse and Request/Send.
-- - Response: response_begin, response_size, response_end, try_process_one_request and
--   do_request_and_make_response of src/server/conn.cc, the way of one request from the incoming
--   buffer to the response in the outgoing one, on top of Buffer, Tlv and Request.
--   Response/Oversize, Response/Framing and Response/Process.
-- - Heap: include/byoredis/ds/heap.hh and src/ds/heap.cc, the array heap of the timers, whose items
--   point back to the index that their owners keep. Heap/Order has the invariant; Heap/Up,
--   Heap/Down and Heap/Update the moves; Heap/Methods and Heap/Delete the operations.
-- - Avl: include/byoredis/ds/avl.hh and src/ds/avl.cc, the AVL tree with parent pointers under the
--   sorted sets. A pointer into a tree is a subtree with the path of its ancestors. Avl/Shape has
--   the invariant; Avl/Balance one round of avl_fix; Avl/Fix and Avl/Delete the whole operations;
--   Avl/Rank, Avl/Offset and Avl/Search the navigation by rank.
-- - Hashtable: include/byoredis/ds/hashtable.hh and src/ds/hashtable.cc, the map of two tables with
--   progressive rehashing, which indexes the keys and the sorted sets. Hashtable/Bag counts nodes,
--   Hashtable/Tables is about one table, Hashtable/Rehashing, Hashtable/Methods, Hashtable/Removal
--   and Hashtable/Visits about the map.
-- - Double: the comparisons of doubles that src/ds/zset.cc and src/server/commands.cc make, on the
--   bit patterns. Double/Laws.
-- - Zset: include/byoredis/ds/zset.hh and src/ds/zset.cc, the sorted set, on top of Avl and
--   Hashtable. Zset/Order is about the order of the pairs, Zset/Entries about a set as the list of
--   its pairs, Zset/Insertion and Zset/Removal about the tree, Zset/Nodes and Zset/Names about the
--   nodes and the table, Zset/Methods, Zset/Delete and Zset/Seek about the operations.
-- - Database: include/byoredis/server/db.hh and src/server/db.cc, the keys and what belongs to them, on
--   top of Hashtable, Heap and Zset. Database/Keys, Database/Addresses and
--   Database/Removal.
-- - Commands: src/server/commands.cc, the handlers of the commands, which Response chooses among, on
--   top of Database, Zset and Tlv. Commands/Values has the database as a map from keys to values,
--   Commands/Writes is about a write to it, Commands/Strings, Commands/Deletion, Commands/Sets,
--   Commands/Members and Commands/Ranges about the commands.
-- - Connection: handle_read and handle_write of src/server/conn.cc, on top of Response.
--   Connection/Writing.
-- - Timers: include/byoredis/server/time.hh and src/server/time.cc, on top of Database. Timers/Idle and
--   Timers/Timeout.
-- - ThreadPool: include/byoredis/server/thread_pool.hh and src/server/thread_pool.cc, a step relation.
--   ThreadPool/Accounting, ThreadPool/Waking and ThreadPool/Draining.
-- - Client: print_response, read_res, read_full and write_all of src/client/api.cc, the other end of
--   Tlv. Client/Printing.
-- - Dlist: include/byoredis/ds/list.hh, the intrusive circular list of the idle connections, on a
--   memory of links. Dlist/Ring.
-- Prelude has what the parts share: lists, slices of bytes, integers, and `Run`, the result of a
-- call: a value or a fault (a failed assert, an access out of bounds or through NULL, abort(), or
-- the end of the fuel of a loop). Tests runs the definitions and applies the theorems.
--
-- Bounds and fuel. Words of 32 and 64 bits wrap where the code computes with them: lengths and
-- heights modulo 2 ^ 32, sizes and masks of the tables modulo 2 ^ 64. Offsets into a buffer and
-- indices of the heap are natural numbers, since they are bounded by the length of a vector. The
-- memory of the machine is not bounded: an allocation succeeds. The loops of the heap run on the
-- index or the length plus one, and hm_help_rehashing on 129 plus the number of slots, since each
-- round moves a node or passes a slot; h_foreach runs on the number of slots plus one; the loop of avl_offset takes its fuel as an argument.
-- The theorems say that the calls that they are about return, so that the fuel is enough.
--
-- print_response runs on the length of the payload plus one, since an array takes bytes that its
-- elements do not have. do_zquery runs on the number of nodes plus one, handle_read on the number of
-- unread bytes plus one, and process_timers on the number of items of the heap plus one.
--
-- Not modelled: handle_accept and conn_destroy of src/server/conn.cc, the event loop of
-- src/server/main.cc, src/common, and of the client the splitting of command lines and the sockets, which
-- are system calls and their arguments. strtod(), strtoll(), read(), write(), the clock and the
-- addresses from new and malloc() are parameters or arguments, and so are the callbacks of the hash table.
pub mod Prelude
pub mod Buffer
pub mod Tlv
pub mod Request
pub mod Heap
pub mod Avl
pub mod Double
pub mod Hashtable
pub mod Zset
pub mod Database
pub mod Response
pub mod Commands
pub mod Connection
pub mod Timers
pub mod ThreadPool
pub mod Client
pub mod Dlist
pub mod Tests
