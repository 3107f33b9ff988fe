-- ===== src/Lib.antt =====
-- OpenDAB, a receiver for digital audio broadcasting (ETSI EN 300 401) with the WaveFinder.
--
-- The receiver sets the device up, reads packets from it and keeps it in step with the transmitter. The
-- symbols 2 to 4 of a frame are the Fast Information Channel: they are decoded (src/wfic) to blocks,
-- whose groups (src/wffigproc.c) build up a description of the ensemble (src/wfficproc.c). The user
-- chooses a service; its sub-channel gives the symbols to ask for (src/wfsymsel.c). Those are
-- deinterleaved in frequency, gathered in a circular buffer, deinterleaved in time (src/wfmsc.c),
-- depunctured (src/wfmdepunc.c, src/wftables.c), decoded, unscrambled and put out as MPEG layer II
-- (src/wfmp2.c) or DAB+ (src/wfdabplus.c).
--
-- Files, and the code that they are about:
--   Crc           src/wfcrc.c and src/wffirecrc.c: crccheck, crc16check, firecrccheck and the tables.
--   Wfic          src/wfic/scrambler.c, interleaver.c, puncture.c (Puncture) and the conversions of
--                 src/wfic/wfic.c (Order); in Wfic/Decode fic_decode and its check crc16, with the
--                 routine viterbi of src/wfic/viterbi.c.
--   Figs          the structures and constants of src/figs.h.
--   Prot          src/prot.h and src/wftables.c.
--   Depuncture    src/wfmdepunc.c.
--   Bytes         src/wfbyteops.c.
--   Ensemble      the state of src/wfficproc.c, its list of services and array of sub-channels, with
--                 ficinit, add_service, add_subchannel, labelled, disp_ensemble and
--                 user_select_service under their names.
--   Fig           src/wffigproc.c and the loops of process_fic over blocks and groups.
--   Process       process_fic of src/wfficproc.c, from the symbols on.
--   Symsel        src/wfsymsel.c.
--   Msc           src/wfmsc.c: wcbuf in its steps begun, advanced and inserted, reset_cbuf, and
--                 time_disinterleave; freq_deinterleave and msc_assemble in Msc/Receive, where a call
--                 of msc_decode is the flag buffer_full; msc_decode in Msc/Decode.
--   Audio         src/wfmp2.c (Mp2) and src/wfdabplus.c (Adts, Superframe).
--   Assembly      fic_assemble of src/wfficproc.c; a call of process_fic is the flag it returns.
--   Sync          prs_assemble of src/wfsync.c, where a call of wf_sync is the flag it returns; wf_sync
--                 from its measurement on (Lock, Send), src/wfref.c (Reference), src/wfravg.c
--                 (Average) and src/wfafc.c (Afc).
--   Device        src/wfusb.c, src/wfleds.c, src/wftiming.c, src/wftune.c (Tuning) and src/wfinit.c
--                 (Boot, Init): what is sent to the device.
--   Driver        driver/wavefinder.c: the buffer between the transfers and the reader, and in
--                 Driver/Session the life of an open device with what it allocates.
--   Receiver      the loop of src/wf.c over the packets, which calls all of these.
--   Extract       src/wfx.c: the audio of a service out of a file of packets.
--   Prsgen        src/prsgen.c: the phases of the phase reference symbol.
--   Base          what they share: lists, memory behind pointers, counted loops, bits, integers.
-- The modules Examples hold runs on concrete values.
--
-- Memory behind a pointer is a function of the offset; what a function writes through a pointer, or
-- to a static variable, is in its result. A list of services stands for the linked list, and a pointer
-- to a sub-channel is its index in the array. Machine arithmetic is written out (% 2 ^ w) where it can
-- wrap. The loops over a group run on fuel, one round for each byte of the group, and the walk over a
-- block on 30 rounds, one for each byte; running out is an outcome of its own, and reading the table
-- of profiles behind its end is another. The loop of wf_boot_dsps runs on 270 rounds, of which 269 are
-- needed. The loop over the units of a DAB+ superframe has no result where the code would leave its
-- memory.
--
-- The Viterbi decoder k_viterbi of src/wfic/viterbi.c, which is a copy of another project's code, and
-- the Reed-Solomon decoder of libfec are parameters. The statements that depend on them say what they
-- have to give back; the concrete ones of the runs show that they can. What wf_sync finds of a phase
-- reference symbol, and the divider that wf_tune computes from the frequency, are floating-point
-- values, and are given.
--
-- Doubles are a type with operations, Sync/Doubles, where the code around them is modelled.
--
-- Not modelled: the transforms and searches of the synchronisation, in floating point, the command line
-- and the signals of the main programs, of the kernel driver the probing, ioctl, locks and waiting, log
-- files and what is printed but for the list of services, the size of what is allocated in the programs,
-- and a failing malloc there.
pub mod Base
pub mod Crc
pub mod Wfic
pub mod Figs
pub mod Prot
pub mod Depuncture
pub mod Bytes
pub mod Ensemble
pub mod Fig
pub mod Symsel
pub mod Msc
pub mod Assembly
pub mod Audio
pub mod Device
pub mod Driver
pub mod Extract
pub mod Process
pub mod Prsgen
pub mod Receiver
pub mod Sync
