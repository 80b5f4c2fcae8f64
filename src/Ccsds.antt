-- ===== src/Ccsds.antt =====
-- The CCSDS parts: the randomizer and the sync marker of fec.py, and the headers of
-- gfsk_ax25/ccsds.py.
pub mod Randomizer
pub mod Marker
pub mod Header
