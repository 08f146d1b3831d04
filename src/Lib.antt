-- ===== src/Lib.antt =====
-- The tracker of bt_server: who announces which torrent. The program keeps its torrents in 1024
-- buckets by the first bits of their hash. A bucket is a sorted vector of torrents, a torrent has a
-- list of peers with its counters, and a list is one sorted vector of peers or, once it is long, a
-- number of such vectors by a hash of the peer. A request arrives over HTTP or UDP, its arguments
-- are decoded, the bucket of its torrent is locked, the torrent's peers are aged, the peer is
-- entered or taken out, and the bucket is unlocked with the change of the number of torrents.
-- Requests that walk all torrents are put in a queue of tasks, from which other threads take them.
-- Beside the tracker runs a server for commands, which reads messages with a head of 24 bytes from
-- its connections and hands their text to the torrent client.
--
-- The files:
--
-- + Prelude.antt: names of the libraries and helpers on lists, tests, integers and bytes.
-- + Vector.antt: the sorted vectors of src/ot_vector.c and include/ot_vector.h. `binary_search`,
--   `vector_find_or_insert` as find_or_insert, `vector_remove_torrent` as remove_member,
--   `vector_fixup_peers` as fixup_peers. Vector.Sorted is the reference view, a sorted list as a
--   map from keys; Vector.Search, Vector.Insert and Vector.Shrink say what the operations do to it.
-- + Peers.antt: `ot_peer`, `ot_peerlist` of include/trackerlogic.h and the rest of src/ot_vector.c:
--   `vector_hash_peer` as hash_peer, `vector_find_or_insert_peer`, `vector_remove_peer`, and in
--   Peers.Redistribute `vector_redistribute_buckets`. Peers.Weight and Peers.Census count peers of
--   any kind.
-- + Clean.antt: src/ot_clean.c: `clean_single_bucket` and `clean_single_torrent`.
-- + Announce.antt: the part of src/trackerlogic.c that works on one list: the middle of
--   `add_peer_to_torrent_and_return_peers` as announce, and of `remove_peer_from_torrent` as
--   retract.
-- + Tracker.antt: all torrents of src/trackerlogic.c with `mutex_bucket_lock` and
--   `mutex_bucket_unlock` of src/ot_mutex.c around each request:
--   `add_peer_to_torrent_and_return_peers`, `remove_peer_from_torrent`,
--   `return_udp_scrape_for_torrent`, `add_torrent_from_saved_state`. Tracker.Bodies, Tracker.Add
--   and Tracker.Scrape are about one bucket, Tracker.Invariant and Tracker.Requests about all,
--   Tracker.History about sequences of requests.
-- + Mutex.antt: the locks of the buckets and the queue of tasks, `mutex_workqueue_*`, of
--   src/ot_mutex.c.
-- + Scan.antt: src/scan_urlencoded_query.c: `scan_urlencoded_query` and
--   `scan_urlencoded_skipvalue`, in Scan.Keywords `scan_find_keywords`, and in Scan.Number
--   `scan_fixed_int`. Scan.Terminators and Scan.Bounds are about reads inside the string,
--   Scan.Zeros about the origin of a decoded 0.
-- + Replies.antt: the reply to an announce, of src/trackerlogic.c: `return_peers_all`, in
--   Replies.Selection `return_peers_selection`, in Replies.Torrent `return_peers_for_torrent`.
--   Replies.Layout is about one run over peers, Replies.Whole about all buckets, Replies.Steps
--   about the fixed-point steps of a selection, Replies.Places about the peers it finds,
--   Replies.Wanted about both ways to write peers, Replies.Framed about the whole reply.
-- + Networks.antt: `address_in_net` of src/ot_accesslist.c, and in Networks.Blessings
--   `accesslist_blessip` and `accesslist_isblessed`. Networks.Prefix is about the byte that a
--   prefix ends in, Networks.Match about whole addresses.
-- + Rounds.antt: the walks over all torrents: `clean_worker` of src/ot_clean.c,
--   `iterate_all_torrents` of src/trackerlogic.c with `torrent_statter` of src/ot_stats.c.
--   Rounds.Cleaning is about one bucket, Rounds.Whole about a round, Rounds.Statistics about the
--   sums.
-- + Http.antt: src/ot_http.c. Http.Announce is the loop over the arguments of
--   `http_handle_announce`, Http.Handlers what it and `http_handle_scrape` do with the tracker,
--   Http.Stats `http_handle_stats`, Http.Request `http_handle_request` with the header of an
--   answer. Http.Queries says what holds of a position in a request and which fault has which
--   cause, Http.Ends and Http.Lookups how scanning may end, Http.Arguments and Http.Loop are about
--   announces, Http.Serving about the hashes of a scrape, Http.Composed about both with the
--   tracker, Http.Tables and Http.Delivery about requests for statistics.
-- + Udp.antt: `handle_udp6` and `udp_make_connectionid` of src/ot_udp.c. Udp.Serving is about every
--   packet with the tracker, Udp.ConnectionId about the ids.
-- + Network.antt: the tree of networks of src/ot_stats.c: `stat_increase_network_count` and
--   `stats_shift_down_network_count`. Network.Counts and Network.Shifting see it as a function from
--   networks to counts.
-- + Iovec.antt: src/ot_iovec.c. Iovec.Pages is about the memory that `iovec_fixlast` gives back.
-- + Server.antt: the command server, `tcp_loop` and `process_msg` of src/main.c with `send_packet`
--   of src/socket.c and the packets of include/packet.h. Server.Messages, Server.Framing and
--   Server.Stream are about the messages of a connection, Server.Commands is what is done with one,
--   where an item that cJSON finds is a string, has none, or is missing, Server.Answering which
--   messages are answered, Server.Answers the packets that are sent, Server.Table the table of
--   clients. cJSON and the torrent client are parameters.
-- + Fullscrape.antt: `fullscrape_make` and `fullscrape_increase` of src/ot_fullscrape.c.
--   Fullscrape.Entries is about the length of an entry, Fullscrape.Buckets about those of a bucket,
--   Fullscrape.Vectors about the vectors in the end, Fullscrape.Finishing about scrapes that come
--   to it.
-- + SavedState.antt: `load_state` of src/opentracker.c. SavedState.Lines and SavedState.Texts are
--   about the lines that a full scrape has written, SavedState.RoundTrip loads them again,
--   SavedState.Loading loads any file.
-- + Header.antt: `header_complete` of src/opentracker.c. Header.Skipping is about the bytes that it
--   does not test, Header.States about the state that it keeps.
-- + Examples.antt: the theorems at concrete inputs, and runs.
--
-- How the code is modelled. A pointer into an array is an index, and the array is the list of its
-- initialised members with its space; an access outside them is a failure (`none`, `fault`, `bad`)
-- that the theorems exclude. A hash or a peer is the number whose big-endian bytes are those that
-- `memcmp` compares. `size_t` wraps at 2 ^ 64 where the code counts, `uint8_t` ages and flags are
-- numbers below 256, `time_t` is an integer. Whether a request for memory succeeds is an argument,
-- a function of the size or of the place, and so is what uninitialised memory holds; a `realloc` to
-- a smaller size succeeds. The products of sizes with the size of a member are not bounded. The
-- peers of a reply are a row of cells that each hold one. An `mmap` that fails answers MAP_FAILED,
-- which is not NULL: the full scrape that goes on with it is an outcome of its own. `char` is
-- signed. A function that works under a mutex is one step, and a wait for a condition is the result
-- `none`.
--
-- The fuel: the loops over the parameters of a request have one step more than characters, since
-- every step passes one; cleaning a bucket has one step more than torrents, since every step
-- removes one or goes on to the next; a search has one step more than members, since every round
-- halves or ends the interval; shrinking a vector has as many as its space, which every round
-- divides; the loop over the torrents of a UDP scrape has 76, one more than its bound; choosing the
-- number of buckets has as many as the quotient it halves. Shifting the number of peers has 33, one
-- more than bits; finding the place of a peer has one step more than the offset, since every round
-- over the buckets takes one. The loop that adds a vector to a full scrape has fuel for its test
-- after one round, since a fresh vector has room; loading a state has one step more than
-- characters, since every line takes one. The search for the end of a header has one step more than
-- bytes. Everything else is recursion on lists.
--
-- Not modelled: the texts of the replies to a scrape and to a departure, the rest of the access
-- lists and lists of networks (the answer of `accesslist_hashisvalid` is an argument), the keys of
-- the cipher that src/ot_udp.c encrypts an address with, and the other statistics; full scrapes
-- built with WANT_COMPRESSION_GZIP; the variants built with WANT_SYNC, WANT_SYNC_LIVE or
-- WANT_SPOT_WOODPECKER; sockets, pipes, signals, threads and configuration, which are input and
-- output; the event loop of src/opentracker.c; the torrent client behind the commands; and cJSON,
-- libowfat and libtorrent, which are other projects.
pub mod Prelude
pub mod Vector
pub mod Peers
pub mod Clean
pub mod Announce
pub mod Tracker
pub mod Mutex
pub mod Scan
pub mod Replies
pub mod Networks
pub mod Rounds
pub mod Http
pub mod Udp
pub mod Network
pub mod Iovec
pub mod Server
pub mod Fullscrape
pub mod SavedState
pub mod Header
mod Examples
