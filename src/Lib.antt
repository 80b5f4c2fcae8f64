-- ===== src/Lib.antt =====
-- The protocol code of gs-flowgraphs, a ground station's modems and framings: what goes from a
-- payload to a stream of hard bits and back, the codes that correct those bits, the queues in
-- between, and the contract by which the apps are started, commanded and stopped. The signal
-- processing that carries the bits (gfsk.py, modem.py, the GNU Radio graphs) works on floating-point
-- samples and is not modelled, nor are the radio drivers, files and sockets.
--
-- The parts, from the payload down to the bits:
--   Link        apps/_uplink_frame.py, `build_uplink_frame`: payload to bits, by framing
--   Ax25        apps/gfsk_ax25/ax25.py: addresses and UI frames
--   Framing     apps/gfsk_ax25/framing.py: HDLC, then NRZI, then the scrambler, and back
--   Hdlc        apps/gfsk_ax25/hdlc.py: flags, bit stuffing, the scan for frames
--   G3ruh       apps/gfsk_ax25/g3ruh.py: NRZI and the self-synchronising scrambler
--   EnduroSat   apps/gfsk_ax25/endurosat_link.py: the chip packets and their sync
--   Kiss        apps/gfsk_ax25/kiss.py: KISS and SLIP streams
--   Crc         Crc.Fcs is apps/gfsk_ax25/fcs.py, Crc.Ccitt apps/gfsk_ax25/crc.py, and
--               Crc.Catalog apps/native_framing/crc.py
--   Octets      `np.unpackbits` and `np.packbits` as those files call them
--   RuntimeQueue  apps/native_framing/runtime_queue.py: bounded queues with accounts
--   LineCode    apps/native_framing/linecode.py: reflection, randomizers, differential coding, and
--               the streaming self-synchronising descrambler
--   Sync        apps/native_framing/sync.py for hard bits: the sync word in a stream of chunks
--   Fixed       apps/native_framing/fixed.py, `FixedSyncFrameDecoder`, over Sync: the frames of a
--               fixed size after a sync word; the decoder of their octets is a parameter
--   Profiles    such decoders: geoscan.py, ao40.py, cc11xx.py, grizu.py and sanosat.py of
--               apps/native_framing/profiles
--   Lora        apps/native_lora/framing.py: the configuration, deinterleaving, the Hamming decoder, the
--               headers, whitening, the payload check and the decoder of a whole frame
--   Ccsds       apps/fec.py, the randomizer and the sync marker, and the headers of
--               apps/gfsk_ax25/ccsds.py
--   Crop        apps/native_framing/crop.py: lengths and cropping
--   Spawn       apps/_spawn_contract.py: the commands of an app and how its loop ends, the queue of
--               its data socket, and the wait for the first samples
--   Stubs       apps/stub_tx.py: the stub transmitter as a state machine
--   ReedSolomon apps/gfsk_ax25/reedsolomon.py: the codec over the field with 256 elements
--   DualBasis   apps/native_framing/rs.py: the codec of CCSDS on ReedSolomon, with interleaved paths
--   Snet        apps/native_framing/codes/snet.py: the BCH(15,k,d) code and the checks of S-NET
--   Golay       apps/native_framing/codes/golay24.py: the (24,12) code
--   Argos       apps/gfsk_ax25/argos.py: the BCH(31,21) code and its frames
--   Shadow      apps/native_framing/shadow_runtime.py: the frames of two engines, paired
--   Mobitex     apps/native_framing/codes/mobitex.py: the (12,8) code
--   Policies    apps/native_framing/policies.py: plausible callsigns
--   RatePlan    apps/_rateplan.py: the rates of the FM receiver
--   Base        shared names, lists, words of bits and exclusive or
--   Tests       concrete inputs
--
-- How code is rendered. An octet or a character is a native number, a hard bit a `Bool`, a byte
-- string or an array a `List`. A function that raises `ValueError` returns a `Result`, one that
-- returns `None` an `Option`; keyword arguments stand in the order of their declaration, a method
-- takes its object first and returns the new one. A loop over a sequence is a function by
-- structural recursion on the list with the loop's variables as arguments, named after the
-- function with `_loop`; where a loop's index jumps ahead, a counter says how many positions are
-- left to pass over. Fuel bounds the wait of Spawn/Watch, one poll for each tick of the timeout and
-- one more, and the division of Argos/Division, 31 steps for a word of 31 bits; theorems say that it
-- is enough. The queue of Spawn/Pump has the attempts that the source counts, and what other threads
-- do between them is a list of steps. Shifts and masks are those of native numbers, with
-- the masks of the source written out.
mod Base
pub mod Octets
pub mod Crc
pub mod Hdlc
pub mod G3ruh
pub mod Framing
pub mod Ax25
pub mod Link
pub mod Kiss
pub mod DualBasis
pub mod EnduroSat
pub mod LineCode
pub mod Sync
pub mod Fixed
pub mod Crop
pub mod Profiles
pub mod RatePlan
pub mod Policies
pub mod Golay
pub mod Argos
pub mod Mobitex
pub mod Ccsds
pub mod Lora
pub mod Shadow
pub mod ReedSolomon
pub mod Snet
pub mod Spawn
pub mod Stubs
pub mod RuntimeQueue
pub mod Tests
