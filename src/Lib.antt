-- ===== src/Lib.antt =====
-- coredis is an asynchronous client of Redis in Python. This library models the parts that turn
-- commands into bytes, bytes into replies, and keys into cluster slots, that find the keys of a
-- command and the node of a slot, and the state that the library keeps: the requests of a connection,
-- the topology of a cluster, the connections of a pool, the cache of replies, the entries of a stream's
-- consumer, and the attempts of a call. A command is packed (Resp/Packer) and its reply parsed (Resp); its keys (KeySpec) hash to
-- slots (HashSlot), for which the node manager knows the nodes (NodeManager).
--
-- HashSlot: `crc16` and `hash_slot` of coredis/_utils.py, as the Python version computes them where
-- the C extension is absent. A key is a list of bytes; `none` is an IndexError.
-- HashSlot/Reference has the bitwise CRC-16/XMODEM, which the table is compared with.
--
-- Resp: the wire protocol. Resp/Parser is `Parser` of coredis/parser.py: its fields are a record,
-- the `BytesIO` is a list of bytes with a position (Resp/Buffer), the node stack is a list with its
-- top at the head (Resp/Nodes), and `parse` is a loop of passes, each of which reads a line and
-- settles what it stands for. Resp/Value has the Python values with the equality by which dicts
-- and sets compare their keys, Resp/Number has `int` and the printing of an int, and Resp/Errors
-- has `parse_error` with the constructors of coredis/exceptions.py that can fail.
-- Resp/Packer is `Packer` of coredis/_packer.py. Resp/Frame is the protocol's grammar, as far as the parser reads it: a
-- frame as a tree, its bytes and its value, written without the parser's stack. Its types are simple, bulk and verbatim
-- strings (of the format txt), the three nulls, numbers, big numbers, doubles, booleans, errors, arrays, push messages, sets
-- and maps; blob errors, attributes, streamed types and other verbatim formats have no frame.
--
-- Cache: `LRUCache` of coredis/cache.py over an `OrderedDict` (Dict) with the oldest entry at
-- the head; the keys are any type with decidable equality. Its byte limit is left out, since it
-- depends on the sizes that pympler measures. Cache/Tracking is `NodeTrackingCache` over three levels
-- of such caches, with its statistics (Cache/Stats), and without the confidence.
--
-- KeySpec: `KeySpec` of coredis/commands/_key_spec.py. The lambdas of its two tables are terms
-- (KeySpec/Spec, with what each computes), and the tables are lists of names with terms
-- (KeySpec/Readonly, KeySpec/All). An argument is one of those that the packer takes; the exceptions of the
-- lambdas are values.
--
-- NodeManager: `NodeManager` of coredis/pool/nodemanager.py. NodeManager/Discover has what a reply to
-- CLUSTER SLOTS does to the local variables of `initialize` (the record Progress), and
-- NodeManager/Initialize the loop over the startup nodes with the check of coverage. The servers are a
-- parameter with a state of its own. NodeManager/Keys has `keys_to_nodes_by_slot`. The number of slots is a
-- parameter; a dict is an association list (Dict). An exception's message is the data that it tells.
--
-- Cluster: `RedisCluster` of coredis/client/cluster.py. Cluster/Split is `_split_args_over_nodes`, of a
-- command and arguments that are bytes, with the keys that KeySpec finds and the nodes that NodeManager
-- has for their slots. Cluster/Redirect is `_execute_command_on_single_node`; the pool, the connections and
-- the initialization are a parameter World with a state of its own, and what a call takes and gives back is
-- a list of events. It makes at most `MAX_RETRIES` attempts, as the code does.
--
-- Pool: `ConnectionPool` of coredis/pool/basic.py. A connection is a number; the sockets, the process id
-- and the clock are a state of the parameter World. The list of available connections has its end at the head.
-- Pool/Steps has the uses of a pool as a step relation. Pool/Blocking is `BlockingConnectionPool`, whose
-- queue is a list with its end at the head and `none` for a place with no connection yet; Pool/Places has its
-- uses. A call that finds the queue empty waits too long.
--
-- Connection: the requests of `BaseConnection` of coredis/connection.py. A future is a number, and the
-- record Connection has what the futures that are done hold. Connection/Write makes requests, where the
-- writing need not wait or times out; `connect` is a parameter. Connection/Uses has the uses of a
-- connection as a step relation, with the callbacks that the event loop calls.
--
-- Streams: `Consumer` of coredis/stream.py. Streams/Get has its methods; the client is a parameter with
-- a state of its own, and streams are named by codes, as `EncodingInsensitiveDict` compares them
-- (Names).
--
-- Retry: `RetryPolicy.call_with_retries` of coredis/retry.py. The coroutines are functions on a state
-- of any type; what awaiting one gives is a value or an exception. Retry/Composite is that of
-- `CompositeRetryPolicy`; a loop of it has as much fuel as its policies have retries, and one more.
--
-- Python's `float`, `bytes.decode`, `str.encode` and `b"%.15g"` are parameters (the records Runtime
-- and Codec). A call of `parse` may make one pass more than the buffer has bytes, and a call of
-- `get_response` as many calls of `parse`; a pass that goes on has taken a line, so that is enough.
-- A bulk length below -2 makes the parser read all that its buffer holds and move `bytes_read` back, also behind 0: the
-- record Parser has the `bytes_read` of the code as `bytes_read - below_zero`. Then the position of the buffer is not
-- `bytes_read` any more (Resp/InStep), and how the bytes are cut into pieces matters: `no_length_below` of Resp/Lengths says
-- of a call that it reads no such length.
--
-- Not modelled: the sockets and the handshake of a connection, the queues of the cluster pool, the
-- merging of the replies of several nodes, the random choice of a node, the invalidation messages of the
-- caches, consumer groups, pipelines, the commands and the modules.
pub mod Cache
pub mod Cluster
pub mod Connection
pub mod Dict
pub mod HashSlot
pub mod KeySpec
pub mod Names
pub mod NodeManager
pub mod Pool
pub mod Prelude
pub mod Resp
pub mod Retry
pub mod Streams
