-- ===== src/Crc.antt =====
-- The cyclic redundancy checks: gfsk_ax25/fcs.py, gfsk_ax25/crc.py and native_framing/crc.py.
pub mod Fcs
pub mod Ccitt
pub mod Catalog
pub mod Register
