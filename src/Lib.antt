-- ===== src/Lib.antt =====
-- A verification library for RecurseX, a recursive DNS resolver in Rust: the parts of it that read,
-- write and compare the data of the DNS protocol.
--
-- A name (src/name.rs) is a byte string in wire form. The parser of a message reads names through
-- the bounds-checked reads of src/wire.rs, with the errors of src/error.rs, and writes them through
-- a compressor, which keeps a table of the suffixes already written. Records (src/rdata.rs) hold names
-- and the data of their type; a message (src/message.rs) is a header, whose flags carry codes of
-- src/qtype.rs, questions, three sections of records, and the EDNS pseudo-record (src/edns.rs) among
-- the last of them. All of it is written behind one compressor, with lengths and counts patched in
-- afterwards. The cache keeps records in sets (src/rrset.rs) under keys (src/cache/mod.rs) that a
-- query (src/query.rs) is turned into, and a graph (src/alias.rs) of which answers keep which others
-- servable. The policy layer matches addresses against blocks (src/cidr.rs) and names against
-- patterns (src/pattern.rs), and hands out synthetic addresses (src/fakeip.rs) from such blocks to
-- the names that no pattern of its filter matches, with the evictions of src/bounded.rs.
--
-- The files and the code:
--   Prelude           the names that the library's modules share, Boolean tests, lists over the native
--                     numbers and the arithmetic of bit operations
--   Error             src/error.rs: ErrorKind, Error and the result type, with its bind
--   Wire              src/wire.rs: the reads of WireBytes on a byte slice; Wire/Reads relates them
--   Name              src/name.rs: Name and its label operations
--   Name/Labels       the chain of labels that a wire form stands for, the reference view
--   Name/FromWire     Name::from_wire: one `round` for each turn of the loop, `scan_loop` the loop
--   Name/Compress     NameCompressor::write and record
--   Name/Hierarchy    parents, apex and domain membership on chains; Name/Suffix: common_suffix
--   Name/Case         Name::randomized_case, over any RandomSource
--   Name/Text         Name::from_ascii, one `turn` for each turn of its loop, and Name::to_ascii
--   Qtype             src/qtype.rs: RrType with its constants, predicates and display; Qtype/Codes the
--                     classes, opcodes, response codes and DNSSEC numbers
--   Edns              src/edns.rs: EdnsOption, Edns and the list of options; Edns/Opt the option codes;
--                     Edns/Subnet the client subnet, Ecs
--   Rdata             src/rdata.rs: RData and Record; Rdata/Fields the closures of RData::parse,
--                     Rdata/Parse its arms, Rdata/Bitmap the type bitmaps, Rdata/ToWire the writer,
--                     Rdata/Records Record::parse and Record::to_wire
--   Rdata/Sinks       names in a message that is still written; Rdata/Twins: what is written depends
--                     on the bytes in front only by their number; the proofs by type are in
--                     Rdata/Trips, Rdata/NameTrips and Rdata/RoundTrip
--   Message           src/message.rs: HeaderFlags; Message/Sections the message and its builders,
--                     Message/Parse, Message/ToBytes and Message/Truncate the operations on it
--   Message/WireTrip  the round trip of messages, over Message/Chains, ReadBack and OptTrip
--   Rrset             src/rrset.rs: RrSet, over the FNV-1a hash of src/prng.rs; Rrset/Built the sets
--                     that from_records builds, Rrset/Order the comparison of data
--   Partition         src/cache/mod.rs: EcsKey, CacheKey and answer_partition
--   Query             src/query.rs: QueryKey and response_matches_query
--   Partition/Equal   the derived equality and order of these keys
--   Cache             src/cache/mod.rs: Cache/Tier a tier, TierMap; Cache/Ranks its rank index, Cache/Keeps
--                     and Inserts what the operations keep
--   Bounded           src/bounded.rs: evict_for_capacity; Bounded/Evicts what its passes leave, Bounded/Oldest
--                     the last resort, Bounded/Counts the number of entries that go, Bounded/Frees which
--   Pattern           src/pattern.rs: DomainPattern after parsing; Pattern/Matches what a wildcard matches
--   Hosts             src/hosts.rs: HostsTable behind the parsed patterns; Hosts/Specific its lookup
--   FakeIp            src/fakeip.rs: FakeIp/Space the allocation space of a family, FakeIp/Pool the pool;
--                     FakeIp/Agrees and Rebuild the agreement of its two indexes, FakeIp/Keeps that the
--                     operations keep it, FakeIp/Cursor and Allocates that an allocation finds a key,
--                     FakeIp/Runs, Serves, Reached, Hands and Served any calls on a space and on a pool
--   Alias             src/alias.rs: AliasGraph; Alias/Mirror, Pruned and Runs its two directions,
--                     Alias/Closure the closure of a key against reachability
--   Maps, Sets        ordered maps and sets as lists, with the laws that these parts share
--   Cidr              src/cidr.rs: the two block types, IpCidr and the masks
--
-- Numbers are natural numbers; where the code's type is narrower, the reduction modulo its size is
-- written out. A byte string is a list of numbers, and the theorems that need them to be bytes or
-- the message to be shorter than the address space say so. BTreeMap is a list of pairs without
-- double keys; the code's lookups and insertions on it do not depend on its order.
--
-- The loop of from_wire runs on the fuel `scan_fuel`, which is enough since every turn but the last
-- either adds a label, of which there are at most 127, or follows one of at most 128 pointers.
--
-- The loop of from_ascii runs on one unit of fuel more than the text has bytes; a turn takes a byte at
-- least.
--
-- The loops over EDNS options, TXT strings, SVCB parameters and bitmap windows run on one unit of fuel
-- more than the end of the data; a turn takes a byte at least. The loops over the sections of a message
-- run as often as the header's counts say.
--
-- The cursor of a space of synthetic addresses tries one key more than there are entries, as the code
-- does; these keys differ while there are fewer entries than keys, so that one of them is free. The loop
-- of AliasGraph::closure runs on one unit of fuel more than its bound on keys: every turn but the last
-- takes a key from the queue, and stops where as many keys were seen as the bound says.
--
-- A BTreeMap or BTreeSet on which the code relies for order is a list of entries or elements in order.
-- Time stamps are not negative, so that a saturating difference stops at 0.
--
-- An address in a record is given by its octets. The errors `no_fuel` are not errors of the code.
--
-- Not modelled: sockets, TLS, QUIC and the other I/O, the lookups of the cache, the resolver,
-- cryptography, floating-point scores (the entries of a tier have any ranks), and the parsers of
-- addresses, patterns and settings from text.
pub mod Alias
pub mod Bounded
pub mod Cache
pub mod Cidr
pub mod Edns
pub mod Error
pub mod FakeIp
pub mod Hosts
pub mod Maps
pub mod Message
pub mod Name
pub mod Partition
pub mod Pattern
pub mod Prelude
pub mod Qtype
pub mod Query
pub mod Rdata
pub mod Rrset
pub mod Sets
pub mod Wire
