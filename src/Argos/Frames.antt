-- ===== src/Argos/Frames.antt =====
-- A frame in a stream of bits is found by argos.py, in spite of two errors in its code.
