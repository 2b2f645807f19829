-- ===== src/Lib.antt =====
-- soulseek-rs-lib: a client library for the Soulseek network. This development models the parts that
-- decide what the client reads from strangers and whom it serves, and proves what they promise.
--
-- The parts, the files that model them, and how they interact:
--   Base, Bytes      what the parts share: lists and maps over native numbers, texts as UTF-8 bytes,
--                    outcomes that may panic, integers with their 32-bit wrap-around, little-endian
--                    words. They model no file of the repository.
--   Message          soulseek-rs-lib/src/message/mod.rs: the byte buffer with its cursor. A read is a
--                    function from a message to a panic or to a value and the message behind it;
--                    `read_string`, `read_int32`, `write_string` and so on carry the source's names.
--                    Every other part reads and writes through it.
--   Framing          soulseek-rs-lib/src/message/message_reader.rs and the read path of
--                    soulseek-rs-lib/src/actor/server_actor.rs: frames out of a byte stream
--                    (`extract_message`, `process_read`). It hands a `Message` per frame to its caller.
--   Listing          soulseek-rs-lib/src/message/peer/shared_file_list.rs: the directory listing that
--                    peers exchange (`write_directories`, `read_directories`).
--   Distributed      soulseek-rs-lib/src/message/distributed.rs: the frames of the search tree
--                    (`parse`, `build_search`, ...).
--   UploadQueue      soulseek-rs-lib/src/client/upload_queue.rs: who waits for an upload, in which
--                    order they are served (`Order`), and the operations on the slots (`enqueue_upload`,
--                    `pump_uploads`, `expire_stale_offers`, ...) over a record of the fields of
--                    `ClientContext` that they touch.
--   Downloads        soulseek-rs-lib/src/download_store.rs and the download types of
--                    soulseek-rs-lib/src/types.rs: the list of downloads and the statuses each goes
--                    through (`claim_for_peer`, `update_status`, `pause_by_file`, ...).
--   Children         soulseek-rs-lib/src/client/children.rs: the peers that we pass searches on to,
--                    with the frames of `Distributed` (`accept`, `broadcast`, ...).
--   Leaf             soulseek-rs-lib/src/client/distributed.rs: where we hang in the search tree, as a
--                    state machine over offers, branch facts, searches and closed links (`consider`,
--                    `branch_level`, `search_from`, `closed`, ...).
--   RateLimit        soulseek-rs-lib/src/utils/rate_limit.rs: the bucket that paces transfers (`take`
--                    is `take_at`, a round for each instant that is read).
--   Semaphore        soulseek-rs-lib/src/utils/semaphore.rs: the cap on threads.
--   Zlib             soulseek-rs-lib/src/utils/zlib.rs: inflating under a ceiling (`inflate_limited`), over a
--                    bit reader (`Reader`) and Huffman trees (`Huffman`), and deflating (`deflate`) over a
--                    bit writer (`Writer`). `Deflate.Codes` describes a block in between, as literals
--                    and pairs: the writer produces such codes, and the reader follows them.
--   Replies          soulseek-rs-lib/src/message/peer/shared_file_list.rs and folder_contents.rs beside it:
--                    the compressed replies around a listing, which put Message, Listing and Zlib
--                    together (`build_shared_file_list`, `parse_folder_contents`, ...).
--   Search           soulseek-rs-lib/src/message/peer/file_search_response.rs and `Search` of
--                    soulseek-rs-lib/src/types.rs: the reply to a search, and what a search keeps of the
--                    replies that arrive (`accept` is `accept_response`).
--   Peer             soulseek-rs-lib/src/dispatcher.rs, soulseek-rs-lib/src/message/handlers.rs, the
--                    handlers under soulseek-rs-lib/src/message/peer and the builders for peers of
--                    soulseek-rs-lib/src/message/server/message_factory.rs: a frame is dispatched by its
--                    code to a handler, whose result stands for what it sends on its channel.
--
-- Choices that hold throughout:
--   - Numbers are native; a cast to a narrower type is a remainder, and a word that is written keeps
--     its lowest bytes. Bytes of a buffer are numbers; where it matters, `IsByte` says they fit.
--   - An index out of range is `panic`, so that "does not panic" is something to prove.
--   - A `HashMap` is an association list with each key once; its order stands for the iteration order,
--     which the code leaves open.
--   - Instants are milliseconds; the clock, the sockets and the source of tokens are arguments.
--   - A loop that ends when its input does runs on fuel: the frame loop gets one more than the bytes in
--     the buffer, the pump the length of the queue. Each round takes a frame or a request away, and the
--     theorems on them state what comes out, so that the fuel is enough. The loops of inflating get
--     8 rounds for each byte of input and 8 more, and that of deflating a round for each byte: each
--     takes a bit or a byte at least.
--   - `read_up_to` recurses on the count that the peer announces.
--
-- Not modelled: sockets, threads and channels; the MD5 digest, which is another author's; the server's
-- messages; the shared files on disk; the terminal program and its daemon.
pub mod Base
pub mod Bytes
pub mod Message
pub mod Framing
pub mod Listing
pub mod Distributed
pub mod UploadQueue
pub mod Downloads
pub mod Children
pub mod Leaf
pub mod RateLimit
pub mod Semaphore
pub mod Zlib
pub mod Replies
pub mod Search
pub mod Peer
