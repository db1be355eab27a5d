-- ===== src/Packet.antt =====
-- src/packet: the wire formats. A span of bytes is a list of numbers; that each is below 256 is a
-- hypothesis where it matters.
pub mod Wire
pub mod Checksum
pub mod Udp
pub mod Ethernet
pub mod Icmp
pub mod Ipv4
pub mod Ipv6
pub mod Extensions
pub mod Tcp
