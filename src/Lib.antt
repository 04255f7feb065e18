-- ===== src/Lib.antt =====
-- MyDFS: a distributed file system of clients, chunk servers and one metadata server.
--
-- A client cuts a file into chunks, registers their metadata with the metadata server, and sends each
-- chunk to a chunk server. The metadata server keeps its map of files in memory, logs every change in a
-- write-ahead log of segment files, and takes snapshots after which old segments are removed. When it
-- starts again, it restores the snapshot and replays the log.
--
-- Common: shared names, tests on numbers, lists, results, and `Codec`, a serialisation of a library.
-- Binary: encoding/binary's big-endian integers and hash/crc32.
-- Protocol: internal/protocol/protocol.go. A connection is the list of bytes still to be read, a writer
--   accepts a number of bytes and then fails, and a decoded payload comes with its connection.
--   Messages has whole messages and their frames.
-- Wal: internal/wal. Entry has the records of a file (write.go, read.go, findLastRecord), Names the
--   names of segment files (utils.go), Buffer bufio.Writer, Disk the directory of segments, State the
--   WAL struct and methods that may fail, Segments flush, addNewLogFile and removeLogFile (manager.go),
--   Append appendEntry (write.go), Read ReadAllEntries and InitWAL, Snapshot takeSnapshot and its
--   cleanup (snapshot.go), Options WALConfig and the options (manager.go). Wal.Log relates a WAL to the list of entries that it holds: its older files
--   hold a first part, and its current file with the buffer the rest.
-- Files: internal/files. Dict is Go's map, Meta the records of metadata, Store the FileStore over a
--   journal, Replay the view of a client and the operations on it, Recovery the WAL's restore and
--   EnableSnapshots with a FileStore over a WAL.
-- Metaserver: internal/metaserver/handler.go, over any MetaStore.
-- Client: chunkFiles, sendChunk's message, buildFileMetadata and updateChunkInfo of internal/client.
--   Sending has sendChunk and the jobs of sendChunks, and the servers that read what was sent at some
--   later time, Config the options and NewClient.
--   Output is internal/adaptors over a file, Reading is read_file.go and what SendFile and ReadFile make
--   of the workers' results, Requests requestMetaServer and its callers. Whole has
--   SendFile and ReadFile from the request to the result. Jobs are run one after the other in any
--   order; writes of several adapters are also taken in any interleaving (Output.Interleaved).
-- Storage: internal/storage: DefaultPathTransform, and Write, Read and RenameFile on a list of files by
--   their paths (Tree).
-- Chunkserver: internal/chunkserver/handler.go over the storage; Serving has streams of requests.
-- Workers: internal/wokers/worker_pool.go. The retry loop is a function of the outcomes of its attempts;
--   Pool is the pool with the callers of Submit and Shutdown, its workers and scaleWorkers, as a step
--   relation in which every critical section and every channel operation is one step.
-- Transport: the connection pool of internal/transport/tcp_pool.go. Pool has its operations on numbered
--   connections, Pool.Accounts their interleavings, Pool.Opening NewTCPPool, Health the health check;
--   Listener is tcp_transport.go as a step relation.
-- Examples: concrete messages, logs, stores and files.
--
-- The mutex of the WAL and the lock of the store make each method one step; takeSnapshot, which gives
-- its mutex up, is split where other steps may come between. Calls of the operating system succeed, but
-- for opening a file that is not there or a new one under a name with a slash, writing to a closed
-- connection and writing a snapshot. A chunk server reads one connection to its end before the next. Loops
-- that read to the end of a stream run on fuel: each round takes four bytes of a file, or eight of a
-- connection, so one more than the length is enough; the descent over empty segments takes the
-- segment's number. Numbers of segments and entries wrap at 2^64, lengths in frames at 2^32.
--
-- Not modelled: timers, deadlines and the generated protobuf code. protobuf, gob and MD5 are parameters.
mod Common
pub mod Binary
pub mod Protocol
pub mod Wal
pub mod Files
pub mod Metaserver
pub mod Client
pub mod Storage
pub mod Chunkserver
pub mod Workers
pub mod Transport
pub mod Examples
