-- ===== src/Lib.antt =====
-- libmaycloud: a C++ library of an event loop on epoll and of the parts around it.
--
-- Parts, and the files that model them:
--   src/headers/maycloud/queue.h (Queue): Queue.antt and Queue/
--   src/headers/maycloud/stack.h (Stack): Stack.antt and Stack/
--   src/blockpool.cpp (BlockPool, bpInitPool, bpPool): Blocks.antt and Blocks/
--   src/netdaemon.cpp, the file buffers (put, push, cleanup): NetDaemon/Buffer.antt and NetDaemon/Buffer/
--   src/netdaemon.cpp, the table of objects (addObject, enableObject, disableObject, modifyObject,
--     removeObject, resetObject), with setDaemon of src/asyncobject.cpp and lock and release of
--     src/object.cpp: NetDaemon/Objects.antt and NetDaemon/Objects/
--   src/asn1reader.cpp (ASN1Reader): Asn1.antt and Asn1/
--   src/snmpbuilder.cpp (SNMPBuilder): Snmp.antt and Snmp/
--   src/snmpparser.cpp (SNMPParser): SnmpParser.antt and SnmpParser/
--   src/headers/maycloud/safemap.h (SafeMap): SafeMap.antt and SafeMap/
--   src/iputils.cpp, src/ipv4.cpp and src/macaddress.cpp (addresses): Address.antt and Address/
--   src/configurer.cpp (Configurer): Configurer.antt and Configurer/
--   src/easylib.cpp (explode, implode, strReplace, base64_decode, urldecode, parseCmdString, trim): Easylib.antt
--     and Easylib/
--   src/oid.cpp and src/headers/maycloud/oid.h (OID): Oid.antt and Oid/
--   src/xmlwriter.cpp (XMLWriter): XmlWriter.antt and XmlWriter/
--   src/headers/maycloud/heavyhash.h (HeavyHash) and src/hasher.cpp (Hasher): HeavyHash.antt and HeavyHash/
--   src/httprequest.cpp (HttpRequest), src/httpresponse.cpp (HttpResponse) and src/httpmessage.cpp
--     (HttpMessage): Http.antt and Http/
--   src/xml_tag.cpp and src/xml_types.cpp (XmlTag), src/tagbuilder.cpp (TagBuilder) and src/attagparser.cpp
--     (ATTagParser): Xml.antt and Xml/
--   src/controlstream.cpp (ControlStream): ControlStream.antt and ControlStream/
--   the functions of src/netdaemon.cpp on descriptors, and those of src/asyncobject.cpp that go to the
--     daemon of an object: NetDaemon/Descriptors.antt
--   src/asyncstream.cpp (AsyncStream): NetDaemon/Stream.antt and NetDaemon/Stream/
-- Pool.antt holds the heaps of items and the chains in them that the first four and HeavyHash share;
-- StringMap.antt the std::map with strings as keys that HTTP and XML use; Common.antt the tests, the numbers
-- and the lemmas on lists.
--
-- How the parts interact: the buffer of a descriptor is a chain of blocks of the block pool, which put
-- takes from the pool and push and cleanup give back; disableObject empties the buffer of the
-- descriptor that it gives up. A stream puts into the buffer of its descriptor and pushes it when the socket
-- is ready; its virtual handlers are a parameter and may change the daemon. What SNMPBuilder writes,
-- ASN1Reader reads, and SNMPParser composes its readers: SnmpParser/EndToEnd.antt builds a GET request and
-- parses it. A request of HTTP takes its header lines and its query apart with explode, trim and urldecode, and
-- the credentials of a login with base64_decode. The parser of a control stream hands the events of expat to the
-- tag builder, whose finished trees are the stanzas of the stream.
--
-- State: an object is a record of its fields. A heap is a function from addresses to what stands there;
-- the address 0 is NULL, and `none` as the result of an operation is a read or write through NULL or
-- through memory that is not there. A size_t wraps at 2 ^ 64, and a subtraction that the code guards is
-- the one of the natural numbers.
--
-- Fuel: the walks over a chain take fuel that bounds its length, and the theorems that an operation
-- succeeds ask for as much fuel as the chain is long. The loop that copies data into blocks has one
-- more than the bytes, the loop that writes one more than the size of the buffer: each round uses up at
-- least a byte. A loop that reads an OID has one more than its bytes, for the same reason, and
-- output one more than the bytes of its data. The loops over the bindings of a packet have one more than
-- the bytes that they may read, explode one more than the characters of its string, and strReplace one
-- more than those of its subject.
--
-- Bounds: explode and base64_decode keep lengths in an int, which is negative from 2 ^ 31 on, and so do the models; the
-- theorems that rest on them ask for shorter strings. The buffer of SNMPBuilder has `capacity` bytes, and a write
-- behind it is a fault. A line of a configuration file of 1024 characters or more ends the loop over it, as getline's
-- limit does. The loop over bindings gives `stopped`, a parameter, without fuel.
--
-- Not under this repository, and parameters: malloc (`reserve`), write (`push_fd`), fcntl and epoll_ctl
-- (NetDaemon/Objects/System.antt), and what read and getsockopt return (`on_event`).
--
-- Also parameters: expat, whose events are the input of the parsers of XML (a start tag, text, an end tag), and
-- put of a control stream. What openStream, closeStream and flush of a control stream write goes through XMLWriter.antt.
--
-- Not modelled: the timers and the epoll_wait loop, the servers, agents and connecting, sendFile and the waits
-- of HttpResponse, HttpConnection and the web server (files, std::regex and templates), the wrapper of expat,
-- databases, IPv6 addresses, logging and processes, Map (an inline wrapper of std::map), and the copies of json and
-- inja; of easylib.cpp what asks the system (files, environment, time) and regexEscape.
pub mod Common
pub mod Pool
pub mod Queue
pub mod Stack
pub mod Blocks
pub mod NetDaemon
pub mod Asn1
pub mod Snmp
pub mod SnmpParser
pub mod Configurer
pub mod Address
pub mod SafeMap
pub mod Easylib
pub mod Oid
pub mod XmlWriter
pub mod StringMap
pub mod Http
pub mod Xml
pub mod ControlStream
pub mod HeavyHash
