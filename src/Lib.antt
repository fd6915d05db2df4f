-- ===== src/Lib.antt =====
-- CoreNetworkTrafficGenerator drives a 5G core with emulated UEs and a gNB. A UE simulator process
-- (src/UESim.py) runs each UE's procedures; a gNB process (src/NGAPSim.py) speaks NGAP to the AMF
-- over SCTP; between them a link carries frames (src/ranlink.py), over a socket pair or over shared
-- memory (src/shmlink.py). On the hot path the NGAP and NAS messages are written and read without
-- pycrate (src/ngapfast.py, src/nasfast.py), which stays in use for what those do not take.
-- src/pacing.py says when a UE starts and how many are in their procedures at once.
--
-- What is modelled, by file
--   Common         the names that the modules share: lists measured by native numbers, Python's
--                  slices, octets of integers, association lists, results.
--   RanLink        src/ranlink.py. RanLink/Event has the kinds, the event and the FrameErrors,
--                  RanLink/Frame has encode and decode, RanLink/Payload the payloads with a
--                  structure.
--   Shm            src/shmlink.py, one direction of a link. Shm/Memory and Shm/Read have the copies
--                  into and out of the ring, Shm/Ring has the words that the two ends share and
--                  keep, send_frame, _wait_room, recv, _take, _advance, _collect and a turn of
--                  _recv_wait. Shm/Wake has the flags by which the two ends wake each other, one
--                  access to a shared word at a time, for one sender at a time, as the lock of
--                  UESim around its sends makes it, and Shm/Stream _send_streamed with the
--                  consumer's turns.
--   Ngap           src/ngapfast.py. Ngap/Aper has the encodings (wrap, _uint, _length, _id,
--                  _octets), Ngap/Pdu has _ie and _message, Ngap/Uplink the templates,
--                  Ngap/Downlink the parser: Values the single IEs, Layout the tables, Container
--                  _container, Walk _sessions, _walk, downlink and learn.
--   Nas            src/nasfast.py. Nas/Layout has Layout.walk, Nas/Protect has protect,
--                  Nas/Downlink the choice of what is parsed and the parsers, Nas/Identity _suci,
--                  _snssai and _dnn, Nas/Uplink the builders of the plain messages.
--   Pacing         src/pacing.py. Pacing/InFlight has the places of a closed loop and the
--                  condition's count, Pacing/InFlight/Waiting the threads that sleep on it,
--                  Pacing/Offsets the schedule.
--   Gnb            src/NGAPSim.py. Gnb/State has what the class GNB keeps with _claim, _link_of,
--                  _to_ue and the stamps, Gnb/Handlers _handle_uplink and _up_control, Gnb/Downlink
--                  _downlink, _downlink_fast and the body of the downlink loop; Gnb/Links,
--                  Gnb/Stamps and Gnb/Flow have their theorems.
--   UserPlane      src/userplane/service.py. UserPlane/Service has the loop of _run over the
--                  operations of its queue, UserPlane/Release what a release leaves and what the
--                  providers then hold.
--   Ue             src/UE.py, src/UEMessages.py and src/UEUtils.py. Ue/NextAction has next_action,
--                  Ue/State what a UE keeps and the parameters, Ue/Handlers the functions that
--                  answer a message or start a procedure; Ue/Order, Ue/Keeps and Ue/Secured have
--                  their theorems. Ue/Compliance has validator and next_compliance_test,
--                  Ue/Compliance/Same and Ends their theorems.
--   UeSim          src/UESim.py. UeSim/State has what a simulator keeps and its counts,
--                  UeSim/Dispatch has dispatcher, UeSim/Events the reader, _handle_downlink, the
--                  start of a UE and the expiry. UeSim/Run has the runs and their counts (with
--                  UeSim/Counts and UeSim/Keeps), UeSim/Places (with UeSim/Calls) the closed loop
--                  in a run, UeSim/Held who gets a place and who gives it back.
--   Placement      run.py and src/affinity.py. Placement/Ues has create_ues and split_ues,
--                  Placement/Share share, Placement/Cpus process_cpus, Placement/Places the start
--                  times that main gives the simulators; Placement/Deal, Split, Create, Places,
--                  Imsi and OwnCpu have the theorems.
--   The gNB calls RanLink's payloads and Ngap's parser and templates; the simulator calls Nas's
--   parser and builders, Pacing's places and RanLink's payloads; the other components do not share
--   state: a frame's octets go from RanLink to the ring, whose recv decodes them, and the NAS
--   parser takes the spans that its layout's walk gives.
--
-- How values are modelled
--   Octets are natural numbers, and bytes are lists of them; a list of them is read as bytes where
--   a theorem says so (IsByte). An integer is a natural number; a field of n octets is refused from
--   256 ^ n on, as struct does. A double is the number of its 64 bits, so that a frame's times are
--   compared by their octets; a clock of src/pacing.py is a number of ticks, and the schedule's
--   times are of any type with an addition. A str is its UTF-8 octets. A None, and an exception
--   that leaves a function, is none; a FrameError keeps which one it is. The struct formats with
--   '=' are little-endian, as on x86-64, the only machine that src/shmlink.py takes. The ring's
--   positions are numbers without an upper bound: a 64-bit word holds 2 ^ 64 octets sent.
--
-- Fuel
--   The digits of an index run on the index, of which each turn takes a tenth. int.bit_length runs
--   on the value itself, which is never below its bits. Layout.walk's loop runs on the message's
--   length: each turn takes an octet. The independent reader of fragments runs on the length of
--   what it reads. learn's and _container's loops are over lists and counts. The two ends of a
--   streamed record take as many turns as the record has octets, and one more.
--
-- Parameters
--   pycrate's tables (Tables, Layout, Pycrate), its check of a learnt IE, its decoding of a PDU
--   address, its BCD encoding of digits, its building and handling of whole messages (the Settings
--   of Gnb and Ue), inet_ntoa, the UE's constructor in create_ues, and CryptoMobile's algorithms
--   (Algorithms), of which a theorem assumes only that a cipher is symmetric, as the 5G-EA stream
--   ciphers are. int() and sorted() in Placement are defined for what a SUPI and a set of CPUs can
--   be.
--
-- What is not modelled
--   Sockets, poll, epoll, eventfds, threads' locks and the mapping itself; the end of a link while
--   its ends wait or stream, and a send of the gNB to a link that has ended; NG Setup, the threads
--   and the association of src/NGAPSim.py; the results and thread set-up of src/UESim.py; the
--   command line, statistics and tracers of run.py; the user plane's providers and process; what
--   works on pycrate's objects only (src/nascache.py, src/ComplianceTestUEMessages.py); the kernel
--   programs and their loaders (src/bpf, src/SCTP.py, src/GTPU.py).
pub mod Common
pub mod RanLink
pub mod Shm
pub mod Ngap
pub mod Nas
pub mod Gnb
pub mod UserPlane
pub mod Ue
pub mod UeSim
pub mod Pacing
pub mod Placement
