-- ===== src/Lib.antt =====
-- A model of the core of samurai, a C++ library for networked programs, and proofs that it is correct.
--
-- Ten parts of the library are modelled. Programs read and write the FIFO buffer of bytes; the
-- digests cut their input into blocks, of which Tiger is the subclass; a socket that goes through a
-- proxy drives the SOCKS5 handshake, which asks the class of internet addresses whether the peer is a
-- literal and whether it is local. The handshake and the digests call nothing of the buffer. The
-- parser of HTTP responses takes its lines and its bodies from a buffer, and reads them with the text
-- utilities, which the handshake calls too. URLs are read with the
-- text utilities and make internet addresses of their hosts. The message handler, the timers and the
-- rate estimator stand alone.
--
--   Prelude.antt         the library names and helper lemmas that all parts share: tests, lists over
--                        the native numbers, bytes in memory, bits
--   Buffer.antt          src/io/buffer.cpp, include/samurai/io/buffer.h: construction, growth,
--                        append, pop, remove, compact, clear. Buffer/Search.antt has find and rfind in
--                        both of their bodies, Buffer/Binary.antt appendBinary and popBinary.
--                        Proofs: Room (invariant, growth), Fifo (append, remove), Reads (pop,
--                        copyRange, at), Refines (the queue), Search/Agree, Binary/Layout,
--                        Binary/RoundTrip
--   Digest/Hash.antt     src/crypto/digest/hash.cpp, include/samurai/crypto/digest/hash.h: update,
--                        finalize, finalize_count, set_finalized_value (`hash_last` is the end of finalize);
--                        the virtual function `hash`
--                        is an argument. Proofs: Stream (update, byte by byte), Padding, Finish,
--                        Reference
--   Digest/Tiger.antt    src/crypto/digest/tiger.cpp: round, pass, key_schedule, hash, reset, digest;
--                        the four tables of 256 words are Digest/Tiger/Sbox1.antt to Sbox4.antt.
--                        Proofs: Bounds (64 bits), Mixing (inverses), Digesting (digest)
--   Digest/Merkle.antt   src/crypto/digest/merkletree.cpp: the work stack, compaction, hash, finalize.
--                        The tree is the state of a Hash, and its `hash` the compression function.
--                        Proofs: Stack and Pairing (one operation of a stack), Levels and Heights,
--                        Growing (a stack without room), Compacting, Promoting and Streaming (the
--                        tree while it takes blocks), Root, Message and Digesting
--   InetAddress.antt     src/io/net/inetaddress.cpp: literals, ranges, setRawAddress. Proofs: Ranges
--   Socks5.antt          src/io/net/socks5.cpp, include/samurai/io/net/socks5.h: the members and what
--                        moves between them. Socks5/Request.antt is the constructor, Socks5/Reply.antt
--                        feed and consumeStep. Proofs: Invariant, Preserve and Construct (the invariant),
--                        Chunks (feed, byte by byte), Exchange (reachable states, refusals,
--                        replies), Targets
--
--   Text.antt            src/util/string.cpp and src/stdc.cpp: trim, split, split_once, xml_escape,
--                        the comparisons without regard to case; Text/Percent.antt the percent
--                        coding, Text/Utf8.antt append_utf8, Text/Numbers.antt the conversions to
--                        integers. Proofs: beside the definitions, and in Fields and Trim
--   Http.antt            src/io/net/http/response.cpp, include/samurai/io/net/http/response.h: the
--                        members of ResponseParser; Http/Headers.antt the header fields,
--                        Http/Numbers.antt parse_size and parse_chunk_size, Http/Line.antt takeLine,
--                        Http/Head.antt the status line and the fields, Http/Framing.antt
--                        chooseBodyFraming, Http/Parser.antt the body, parse and finish. Proofs:
--                        Consume (the input), Sound and its children (one round of parse in each
--                        state), Ending (all rounds), Reached (calls in any order), Calls
--   Messages.antt        src/messagehandler.cpp: posting, listeners and passes. Proofs: Pass
--   Url.antt             src/io/net/url.cpp, include/samurai/io/net/url.h: Url/Parse.antt has parse and
--                        the ports of the schemes, Url/Paths.antt remove_dot_segments and
--                        merge_paths, Url/Resolve.antt resolve. Proofs: Segments, Clean and Marks
--                        (the paths), Parts, Find, Stages and Printed (texts put together from parts),
--                        Ports, Target, Resolved and Hostless (resolve)
--   Timer.antt           src/timer.cpp, include/samurai/timer.h: timers in memory and their manager,
--                        whose type is `Manager`, add and schedule, remove, reset, the loop of process,
--                        timeToNext. Proofs: Count (heaps), Keep (the invariant), Process and Finish
--                        (process), Next, Endless (an interval of zero)
--   Rate.antt            src/util/bwestimation.cpp and src/io/net/bandwidth.cpp: RateEstimator, and the
--                        counters of BandwidthManager. Proofs: Steady
--
-- Each class is a record with the source's members, and each method a function of it that returns the
-- new record, with a Boolean where the method returns one. Names are the source's, in snake case:
-- `consume_outgoing` is consumeOutgoing, `is_link_local` isLinkLocal. A size_t and a uint64_t are
-- natural numbers with their wrap-around at 2^64 written out; a byte is a number below 256, and a string
-- or a vector is the list of its bytes.
--
-- Loops and fuel: the doubling loop of the buffer has 65 rounds, as many doublings as a size_t has bits and one more;
-- the portable search has one round more than there are bytes, `update` and `feed` one for each byte,
-- and each of their rounds takes at least one; the loop that pads a block has a round for each of its
-- bytes, enough for blocks of fewer than 2^32 bytes, for which alone the source's loop ends; the passes of Tiger from the fourth on are counted down.
-- The loops over header lines and trailers have one round more than there are bytes, since each round
-- takes a line; `parse` has two for each byte and two more, since a round takes a byte or goes from the
-- data of a chunk to its end. The tree compacts in half as many rounds as there are nodes, and
-- all the way in as many rounds as there are nodes. A pass over messages has a round for each, as none joins the queue in it.
-- A round over the segments of a path takes a slash, so that one round more than there are bytes is
-- enough; to_string has 20 rounds for the 20 digits of a 64-bit number. The rounds of TimerManager::process
-- are an argument, `fuel`: with intervals of zero no number is enough.
--
-- Arguments for what is not in the repository: `Allocator` for the allocator of std::vector,
-- `inet_pton` for the system's parser of literals, and the byte order of the host. `event_message` is
-- what the listeners of a program do with a message: any change of its state, and posts. `digest_of`
-- is the hasher of a tree, an object of any subclass of Hash: what it returns for some updates.
-- `push_heap` and `pop_heap` are the algorithms of the standard library, with the laws of `Heaps` in
-- Timer/Count.antt, and `event_timeout` is what a listener does when a timer fires. The clock's
-- readings are arguments: seconds of the rate estimator, nanoseconds of the timers, from the clock's
-- start; intervals are not negative, and serial numbers of timers do not wrap. `beyond` is what
-- stands in memory behind a block of fewer than 64 bytes, which Tiger reads. Where the source reads past
-- the end of the array of a tree, which it leaves undefined, the definition gives a null pointer.
--
-- Not modelled: the text of error messages, std::to_string in the buffer, the unchecked reads of the
-- buffer, printing and resolving of addresses, and the loop of socks5_pump around send and recv, whose
-- calls of the handshake are the steps of `Reaches` in Socks5/Exchange.antt. The rest of the library
-- (sockets and their monitors, TLS, name resolution, the HTTP client, UPnP, XML, time stamps, files) is not
-- modelled either: most of it is glue around the operating system.
pub mod Prelude
pub mod Buffer
pub mod Digest
pub mod InetAddress
pub mod Socks5
pub mod Text
pub mod Url
pub mod Http
pub mod Messages
pub mod Timer
pub mod Rate
