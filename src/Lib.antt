-- ===== src/Lib.antt =====
-- SafeFS is a stack of FUSE layers: each takes the table of callbacks of the layer below and gives
-- a table of its own to the layer above. At the bottom, multi_loopback.c keeps a file on several
-- devices; sfuse.c encrypts blocks; alignfuse.c cuts the kernel's requests into whole blocks, so
-- that the layers below need only know those.
--
-- Parts and files:
-- - Layers: the table of callbacks (`struct fuse_operations`) and the driver table of layers_def.h.
--   A layer is modelled as an action on a state that the layers below share (Prelude/Effect): a
--   result and the next state, or a fault, which is undefined behaviour of C such as an access
--   outside an array. An argument that C writes through is returned beside the result.
-- - BlockAlign: align/blockalign.c. Defs has its functions under their own names, with
--   `process_read_block`, `process_write_block` and the loop of `split_into_blocks` each in some
--   smaller functions. Contract is the interface to the layer below: one open file as a sequence
--   of bytes, of which only accesses to whole blocks, or to all that is left, are promised. The
--   functions that create, open and truncate are in Resize. The proofs go from the bytes of one
--   block (Edit, ReadBlock, WriteBlock) over the loop (Rounds) to the operations (Reads, Writes),
--   and from writing zeros (Grow) and cutting (Cuts) to Truncates. Errors is about failures below.
-- - Alignfuse: alignfuse.c and align/nopalign.c, in Defs. ByteFile is what the layer promises the
--   one above, Refine proves it over block_align, and Errors is about failures below.
-- - Sfuse: sfuse.c, with the codec as a table of functions, in Codec; crypto/nopcrypt.c and
--   crypto/nopcrypt_padded.c in Padded, crypto/openssl/symmetric.c in Openssl, and
--   crypto/det_symmetric.c and crypto/rand_symmetric.c in Symmetric. Refine and Resize are about
--   sfuse with a codec that copies, Sizes about the sizes of the padded codec, and Errors about a
--   copy out of bounds. Contract is what sfuse needs of the file below and of a codec, and Below
--   shows that a file of multi_loopback meets it. For the encrypting codecs, Layout and Prefixes are
--   about how encoded blocks follow each other in that file, Encrypted, EncryptedResize and
--   DecodedSize about sfuse with such a codec, Cbc, Det and Rand about the codecs, RandomString about
--   the initialisation vectors, and Stack about alignfuse over all that.
-- - MultiLoopback: multi_loopback.c. Posix is the system calls, Requests the `struct op_info`, the
--   body of a thread and the wait for the replies, State the handles of open files and how the
--   requests are made and run, Paths, Files and Directory the callbacks and their table, and Init
--   the set-up. Wait is about the replies, Interleave and Dispatch about threads in any order, Devices
--   and Contents about what the devices hold, Threads about one request. Contract has what is needed
--   of the kernel and of a driver, and what an open file is for the layer above; Spread, SpreadRead
--   and SpreadResize are about the operations, Xored and Splitters about the two drivers, Refine and
--   Mounted about all of it together, and Listing about reading a directory.
-- - Drivers: multi_loop_drivers/xor.c and multi_loop_drivers/rep.c.
-- - Erasure: map/map.c in Map, multi_loop_drivers/erasure.c in Defs. Keys is about the tables, Ids and
--   Steps about the identifiers of files under any sequence of calls, Sequence about a file written
--   in order, Code about the fragments, Rename about renaming.
-- - Utils: utils.c. Ancestors is about the directories that `mkdir_p` makes.
-- - Config: SFSConfig.c and SFSConfig.h. Listing is about files that list a configuration.
-- - EcLayer: ec_layer, a program of its own: ec_layer/erasure.c in Blocks, ec_layer/ec_layer.c in Defs.
--   Fragments and Kept are about a file between two calls, Contents and ReadWrite about writing and
--   reading.
-- - Compose: nopfuse.c in Nopfuse; `compose_layers` of SFSFuse.c in Defs, its `clean_layers` and the
--   part of its `main` that looks for a configuration in Main. A layer is set up with its real
--   initialiser, failures included. Stacked is about the encrypting stacks over multi_loopback in mode
--   REP, Passing about nopfuse above another layer.
-- - Tests: concrete runs.
--
-- Choices and bounds. Bytes and machine integers are natural numbers; conversions to `int` and the
-- unsigned 64-bit arithmetic of blockalign.c are written out with their wrap-around (Prelude/Int).
-- Uninitialised memory is a function parameter. The loop of `split_into_blocks` runs on fuel, one
-- more than the size of the request: every round but the last moves at least one byte. The loop of
-- `block_align_truncate` that writes zeros has as much. The theorems on reading, writing and
-- truncating prove that they end with a result. `errno` is a function of the state. The threads of
-- the pool run the requests in an order that is a parameter; each request is one step.
--
-- A short read of multi_loopback may overwrite the buffer behind the bytes that it returns, so no
-- theorem on sfuse relies on that part; sfuse reads into an array of its own, and copies what it got.
--
-- Parameters: the system calls, the hash tables of GLib, liberasurecode, the random generator of
-- OpenSSL, its EVP functions (with the lengths and the round trip of CBC with padding as
-- hypotheses), `time` and `rand`, the layer below block_align, and, until Init chooses it, the
-- driver of multi_loopback.
-- The sizes that a driver gets are taken as they are, for requests below 2 ^ 31 bytes.
--
-- A directory is read in at most a number of rounds that is a parameter; one more than the directory
-- has names is enough. FUSE, its filler and inih are parameters too, and `atoi` for the numbers that
-- are not negative and are an `int`: a negative number in a configuration is not modelled.
--
-- Not modelled: `ec_opendir` and `ec_releasedir` of ec_layer; what `main` does once it has composed
-- the layers (it passes its arguments to FUSE, then cleans up); logs; latencies.
pub mod Prelude
pub mod Layers
pub mod BlockAlign
pub mod Alignfuse
pub mod Sfuse
pub mod MultiLoopback
pub mod Drivers
pub mod Erasure
pub mod Compose
pub mod Tests
pub mod Config
pub mod EcLayer
pub mod Utils
