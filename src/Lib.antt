-- ===== src/Lib.antt =====
-- AirUSB hub: a USB device plugged into one machine is used from another over one TCP connection.
--
-- The exporter has the device, the importer uses it. Both speak AirUSB/1: records of a 32-byte
-- header and a body, cut into segments, scheduled by priority. The exporter decides who may pair
-- and who holds the device, keeps the credit that a peer may use and the table of the requests
-- that are outstanding. This library models the decisions; sockets, ciphers, USB stacks and user
-- interfaces are outside it.
--
-- Which file models what (paths from the repository's root):
--   Core/Status, Core/Usb   airusb/core/Status.h and UsbTypes.h: the values every layer shares.
--   Core/Clock              airusb/core/Clock.h: deadlines. The reading of the clock is an argument.
--   Core/Credit             airusb/core/CreditController: `acquire`, `release`, `record_overrun` and
--                           the rest on a record of its fields, u32 arithmetic written out.
--   Core/Manifest           airusb/core/DeviceManifest: the descriptors, the walk over a blob with
--                           the callback as a function on a state, the accessors, `findEndpoint` and
--                           `endpointsFor`; in Validation `validate`, its message as a value.
--   Core/Ep0                airusb/core/Ep0Arbiter: `decide` and `commitVerb`. The scratch byte
--                           behind an answer of one byte is the answer itself.
--   Core/Requests           airusb/core/RequestTable: `add`, `take`, the four sweeps, and the ids to
--                           emit. The hash map is a list of its entries; `take_request` is `take`.
--   Protocol/Codec          airusb/protocol/Codec and Wire.h: little-endian loads and stores, the
--                           header, the fixed bodies, the preamble, TLV runs. A pointer into a
--                           buffer is an offset into a list of bytes; an output parameter with a
--                           Boolean result is an `Option`.
--   Protocol/Segmentation   airusb/protocol/Segmentation: `planSegments` and `emitTransfer`, with the
--                           sender as a function on the caller's state.
--   Protocol/Reassembly     the `Reassembler` of the same file: `accept` and the other calls.
--   Protocol/Validate       airusb/protocol/Validate: the rules, and the three entry points; in
--                           Utf8 `isValidUtf8`.
--   Protocol/Manifests      airusb/protocol/ManifestCodec: the wire form of the manifest, the hash
--                           as a parameter; `Encode` is `encodeManifest`, `Decode` is `decodeManifest`.
--   Protocol/Messages       airusb/protocol/Messages: the bodies of the control plane, their encoders
--                           and decoders; Listing is about the device list, Fixed about the rest.
--   Transport/Scheduler     airusb/transport/FrameScheduler: `enqueue`, `dequeue`, `dropChannel`.
--   Transport/Records       airusb/transport/RecordLayer: `sendRecord`, `flush`, `receiveRecord`. The
--                           cipher is a parameter, and what the byte stream answers to each call is
--                           an argument.
--   Session/Lease           airusb/session/LeaseAuthority: who holds the device. The random bytes of
--                           a token are an argument of the call that mints it.
--   Session/Exporter        airusb/session/ExporterSession, all but `begin`. The record layer (`Link`),
--                           the asynchronous port (`Ports`) and the device source (`Source`) are
--                           records of operations that the session takes as parameters. Sending is
--                           what it sends, Queue the queues and `admit`, Outcomes `collect`, Endings
--                           `sweepDeadlines` and `failAllTransfers`, Handlers the handlers of the
--                           messages, Attach that of ATTACH, Pump `handle` and `pump`.
--   Session/Exporter/Kept   the frame of the proofs about it: an invariant that the steps on the
--                           transfers keep is kept by every handler and by `pump`. Frames says what
--                           sending leaves alone; Serial, Measure and History are the invariants, in
--                           History Strangers what an unpaired peer can do and Losses how the
--                           transport is lost.
--   Session/Pairing         airusb/session/PairingGate: how often a stranger may guess.
--   Crypto                  airusb/crypto/Primitives: `constantTimeEquals` alone.
--   Base                    Boolean tests, lists, maps, bits and integers that the parts share.
--
-- How the parts interact: the segments of Segmentation are records whose headers Codec encodes,
-- and Protocol/Reassembly/Wire feeds what was sent to the receiving side through the decoder, so
-- that the round trip covers the bytes. Validate reads the bodies that Codec decodes. The lease
-- authority compares keys and tokens with Crypto's comparison. The record layer asks rule 1 of
-- Validate before it waits for a record; the endpoint-0 arbiter answers from the manifest, and what
-- it answers rests on the validation of the manifest. The exporter's session puts them together: it
-- decodes with Codec and Messages, judges with Validate, joins segments with the reassembler, cuts
-- with Segmentation, describes the device with Manifests, and asks the lease authority who may hold
-- it. Its maps are lists of entries in the order of their keys. The lists `accepted` and `answered`
-- are no state of the program: they note each request the session took in and each COMPLETE it
-- built, and no decision reads them.
--
-- Fuel: `planSegments` runs on the transfer's size, since each round advances by a byte at least;
-- the TLV walk on the buffer's length, since each round passes four bytes; the descriptor walk on
-- the blob's length, since each passes two; the walk over a text on its length; the messages of a
-- record on the record's length, since each takes 32 bytes. That these are enough is part of what is
-- shown of them, for the messages in Session/Exporter/Pump/Fuel. All other loops are recursion on a list or a count.
--
-- Integers: fields have the ranges of their C++ types as hypotheses where a store would cut them;
-- 32-bit and 64-bit sums and products that could pass their width are reduced at it. A scheduler's
-- deficit, 64-bit in the source, has no bound here. Sizes that the source computes as `size_t` from
-- buffers in memory are not reduced, but for the scheduler's total. The exporter's tokens wrap at
-- 2^64. The clock is read once for each round of its event loop.
--
-- Not modelled: the ciphers and the handshake, sockets, the exporter's `begin`, the importer's side
-- of a session, the USB/IP bridge, the broker and the agent processes, drivers, storage on disk, the
-- web interface and every diagnostic text.
pub mod Base
pub mod Core
pub mod Protocol
pub mod Crypto
pub mod Session
pub mod Transport
