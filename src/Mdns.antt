-- ===== src/Mdns.antt =====
-- source/core/mdns.c, the layer of the wire format: Writer builds packets, Query reads them, Record is
-- the service's description. A packet is the list of its bytes.
pub mod Writer
pub mod Record
pub mod Query
pub mod Response
