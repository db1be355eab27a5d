-- ===== src/Lib.antt =====
-- Skan: a network scanner. A scan submits work items, one per probe, to a scan group; an adaptive
-- scheduler keeps as many probes in flight as a congestion controller allows, hands them to a
-- transport, and takes back completions and timeouts, from which it estimates the round trip time
-- and the timeout of the next probes. The packet layer builds and reads the headers that the
-- probes carry, and the port scan turns the answers into the state of a port and its reason.
--
-- Paths are from the root of the repository.
--   Base                  numbers, words, integers, lists and association lists that all parts use
--   Core                  include/core/status.hpp, src/core/status.cpp
--   Floats                the floating point operations, as a parameter
--   ScanEngine/Congestion src/scanengine/congestion.cpp: `CongestionController`
--   ScanEngine/Rtt        src/scanengine/rtt_estimator.cpp: `RttEstimator`
--   ScanEngine/Timing     src/scanengine/timing_profile.cpp: `TimingProfile`
--   ScanEngine/Metrics    src/scanengine/scan_metrics.cpp: `ScanMetrics`
--   ScanEngine/Group      src/scanengine/scan_group.cpp: `ScanGroup`
--   ScanEngine/Scheduler  src/scanengine/adaptive_scheduler.cpp: `AdaptiveScheduler`
--   ScanEngine/Controller src/scanengine/scan_engine.cpp: `TimingController`, `ScanEngine`
--   Packet/Wire           include/packet/packet_element.hpp: big-endian reads and writes
--   Packet/Checksum       src/packet/checksum.cpp
--   Packet/Udp            src/packet/udp.cpp: `UDP`
--   Packet/Tcp            src/packet/tcp.cpp: `TCP`
--   Packet/Ethernet       src/packet/ethernet.cpp: `Ethernet`
--   Packet/Icmp           src/packet/icmp.cpp: `ICMP`
--   Packet/Ipv6           src/packet/ipv6.cpp: `IPv6`
--   Packet/Ipv4           src/packet/ipv4.cpp: `IPv4`
--   Packet/Extensions     src/packet/ipv6_extensions.cpp: `parse_ipv6_extensions`
--   PortScan/Types        include/portscan/port_types.hpp, src/portscan/port_types.cpp
--   PortScan/Ports        src/portscan/port_types.cpp: `parse_ports`
--   PortScan/Probes       include/portscan/port_probe.hpp and the `assess` methods of
--                         src/portscan/tcp_connect.cpp, tcp_syn.cpp and tcp_ack.cpp
--   PortScan/Scheduler    src/portscan/port_scheduler.cpp: `PortScanScheduler`; State has its data,
--                         Submit, Pump, Attempt and Handlers its methods
-- A child module of one of these holds lemmas and theorems about it, and a module Tests concrete
-- inputs.
--
-- A class is a record of its fields and a method a function from the record to the record and the
-- result. A method that C++ gives the same name as another keeps it, in its own module; the
-- constructor is `create`, `valid` is `is_valid`, `complete` is `is_complete`, `timeout` of the
-- estimator is `timeout_ms`, `state` of the group is `state_of`, and the two overloads of
-- `enqueue` are `enqueue` and `enqueue_item`. A map is an association list whose keys `emplace`
-- keeps apart, a set a list without repetitions and a deque a list. Machine words are natural
-- numbers with the wrap-around or the saturation of the source written out; times are integers in
-- the unit of the clock.
--
-- What the modelled files only call is a parameter: the floating point operations (`Floats`,
-- `Precision`), the clock (an argument `now`), the allocator (a Boolean argument for each
-- allocation that the source catches, true where it succeeds), and the answers of the io engine
-- and the transport (`Answer`, one value for each round of the loop in `pump`, and in the port
-- scan `Surroundings`, one value for each call from outside). `PortScanScheduler` works with
-- every record `PortProbe`, whose fields are the virtual functions that it calls, with the
-- configuration that `build` reads already applied; what `parse_ip_address` accepts is a
-- parameter of it. Cancellations and the stop that the scheduler asks of the two are recorded in
-- order, as effects. A theorem that needs a law of the floating point operations states it as a
-- hypothesis on integers of 64 bits, which the arithmetic `ranged` of Floats/Sample satisfies.
--
-- Loops. The `pump` of the adaptive scheduler runs on fuel, the length of the queue: a round
-- takes at least one identifier off the queue. `parse_ipv6_extensions` runs on one more than the
-- allowed number of headers, of which each round uses one. The loop over the options of a TCP
-- header runs on fuel, the header's size, of which each round goes past a byte at least. The
-- `pump` of the port scan takes an item off the queue in each round and is recursion on the
-- queue. The loop that folds a carry runs three rounds, which fold every 32-bit sum. All other
-- loops are structural recursion. Reads outside a buffer return `none`.
--
-- Not modelled: the methods `run` and `run_once` of the two schedulers, which hand the thread to
-- the io engine, the recording transports of the tests, a transport that calls back from within
-- `submit`, ICMPv6 and quoted packets, the UDP scan, the schedulers of the discovery and of the
-- detection, and all input and output.
pub mod Base
pub mod Core
pub mod Floats
pub mod ScanEngine
pub mod Packet
pub mod PortScan
