-- ===== src/Lib.antt =====
-- Verification of libfido2, the C library under src/ of this repository, which talks to FIDO
-- authenticators over USB and NFC.
--
-- The parts and how they interact. An application makes a device (dev.c), opens it, and calls an
-- operation such as an assertion (assert.c). An operation sends a command by fido_tx and awaits
-- the answer by fido_rx (io.c). A device that speaks U2F gets the commands of u2f.c instead.
-- largeblob.c reads and stores the array of encrypted blobs that a device holds, with cbor.c for
-- the messages and compress.c for the texts. Where a command needs the user's PIN or the device's
-- verification, pin.c obtains a token for it over a secret that ecdh.c shares with the device;
-- credman.c lists and changes the credentials that a device stores. Over USB fido_tx and fido_rx cut a message into HID reports; over
-- NFC the functions of nfc.c cut it into APDUs, which iso7816.c builds and buf.c reads. Every
-- exchange is charged to a budget of milliseconds (time.c). Before a device is opened its HID
-- report descriptor is parsed (hid.c). The platform's drivers do the input and output.
--
-- The files.
--   Prelude: tests, lists, integers, bytes and bits over the native numbers.
--   Platform: what the library calls and does not implement, as one state, `World`: the packets that
--     were written and whether they are accepted, the outcomes of the reads to come, the clock, and
--     the caller's budget `*ms`. `M` is a function on that state with a result: ok, the C value -1
--     (fail), or out of fuel (hang). What was done before a failure stays done.
--   Err and Try: the codes of fido/err.h, and calls that give a value or a code.
--   Ends: calls that end in every world, with what is known of their values.
--   Device: the device handle and the function pointers that it holds (fido/types.h).
--   Time: time.c and two macros of openbsd-compat/time.h. Time.Budget and Time.Steady: its laws.
--   Io: io.c. Io.Frame, Io.Receive and Io.Message: frames and their reception. Io.Send: what is
--     sent. Io.RoundTrip: both ends. Io.Bounds and Io.Total: any world.
--   HidReport: the descriptor parser of hid.c. HidReport.Items: descriptors as lists of items.
--     HidReport.Last: the last item of a kind. HidReport.Exact: the parser against them.
--   Buf, Apdu, Nfc: buf.c, iso7816.c and nfc.c. Apdu.Layout: the bytes of an APDU. Nfc.Chain:
--     sending. Nfc.Answer: receiving.
--   Flags, Session: dev.c, with closing, cancelling and the making of a device in Session.Close.
--     Flags.Meaning: the flags against the device's answer. Session.Transmit and
--     Session.Open: the life cycle of a handle.
--   Blob: blob.c. Assert: the verification of assertions in assert.c, with fido_check_rp_id of
--     cred.c. Assert.Setup: the setters of assert.c. Assert.Digest and Assert.Exact: verification
--     against a description. Assert.Stmts: the functions that set a statement, and the decoding of
--     authenticator data in cbor.c. Assert.Names: what these leave alone.
--   Cred: the verification of credentials in cred.c. Cred.Checks: its steps. Cred.Exact and
--     Cred.Own: with a certificate and without, against a description.
--   Tpm: tpm.c. Tpm.Sound: what an accepted attestation says.
--   U2f: u2f.c. U2f.Authenticate: an assertion. U2f.Delay and U2f.Wait: the pauses and the loops that
--     wait for the user. U2f.Known, U2f.Single and U2f.Allowed: which credentials the device knows
--     and the statements name. U2f.Reply
--     and U2f.Verified: from the bytes of a reply to a verified assertion. U2f.Touch: polling
--     for a touch.
--   Cbor and Compress: cbor.c and compress.c, over the items of libcbor and the functions of zlib.
--     Cbor.Encode, Cbor.Auth, Cbor.Decode and Cbor.Keys: the parts of requests and replies, with the
--     COSE keys of es256.c, es384.c, rs256.c and eddsa.c. Cbor.Canonical and Cbor.Distinct: the order of keys.
--     Cbor.RoundTrip and Cbor.Invariant: what is decoded.
--   Ctap: the shape of a command of CTAP2; authkey.c, ecdh.c and the CBC half of aes256.c. Ctap.Total:
--     its calls end. Ctap.Samples: a device for the tests.
--   Pin: pin.c, tokens. Pin.Change: setting the PIN and counting what is left. Pin.Secret: the cipher.
--     Pin.Total and Pin.Changed: any world.
--   Listing: a list that a device gives one entry at a time, in credman.c and assert.c.
--     Listing.Meaning: what a list is to hold. Listing.Partial and Listing.Whole: any world, for a kind
--     of list with the laws of the record `IsKind`.
--   Credman: credman.c, requests. Credman.Rk and Credman.Rp: credentials and relying parties, two
--     kinds of list. Credman.Total and Credman.Fetched: any world.
--   GetAssert: fido_dev_get_assert of assert.c, whose statements are a third kind of list.
--     GetAssert.Request and GetAssert.Reply: what is sent and what is parsed. GetAssert.Total,
--     GetAssert.Secrets and GetAssert.Answered: any world. GetAssert.OverU2f: a device without FIDO2.
--   Largeblob: largeblob.c, reading. Largeblob.Store and Largeblob.Blobs: storing, and the blobs in
--     the array. Largeblob.Fetch and Largeblob.Whole: the array that is read. Largeblob.Written: what
--     is sent. Largeblob.Sealed, Largeblob.Placed and Largeblob.RoundTrip: one blob.
--   Tests, in several folders: runs at concrete inputs.
-- A definition has the name of the function that it models, at times without its prefix (time_now
-- for fido_time_now, set_flags for fido_dev_set_flags), and its guards stand in the order of the
-- source. The helpers beside it are the branches of that function.
--
-- Fuel. The loop of tx runs 129 rounds at most, since the sequence number grows by one from 0 and
-- the loop gives up at 128. The loop of rx stores a byte at least in each round, so the length of
-- the payload and one more are enough. The loops that skip foreign frames and that ask a card for
-- more data read once in each round, and a read fails when the world has no outcome left, so the
-- number of outcomes and one more are enough. A chain of APDUs and the walk over a descriptor
-- consume a byte in each round. The loops of u2f.c that wait for the user and the loop that reads
-- the array of large blobs read once in each round too, and so do not outlast the outcomes of the
-- reads. A world holds finitely many of these: that such a loop ends here is a bound on the fuel,
-- and says nothing of a C program whose budget is unlimited (-1) and whose device goes on to answer
-- without end. The loop that stores the array sends a byte at least in each round.
-- The loops of credman.c and of fido_dev_get_assert take an entry in each round, so the number of
-- entries and one more are enough.
--
-- Conventions. Memory allocation succeeds, also of no bytes. The host is little-endian with a
-- 64-bit size_t, and a frame is the list of its bytes in memory. Clearing and freeing memory and
-- logging have no effect that the model keeps. A pointer that may be NULL is an option. Builds
-- with NFC, PC/SC or Windows Hello prepare the device in fido_dev_open before what is modelled,
-- and that is left out.
--
-- Not modelled. Items of CBOR, cryptography and compression are made by libcbor, OpenSSL and zlib;
-- what they give is an argument (`Crypto` of Assert, `Decoder` of Assert.Stmts, `Libcbor`, `Zlib`,
-- `Host` of Session, `Attester` of Cred, and the three records `Calls`). The platform's drivers and
-- random.c are system calls. Of u2f.c the registration with its certificates is not modelled, of
-- cbor.c not attestation objects and the extensions of a credential, and of cred.c only the
-- verification. The other operations (bio.c, config.c, info.c, reset.c, touch.c) are not modelled.
-- The tools, the front ends and the tests are not modelled.
pub mod Prelude
pub mod Platform
pub mod Time
pub mod Ends
pub mod Err
pub mod Try
pub mod Device
pub mod Io
pub mod HidReport
pub mod Buf
pub mod Apdu
pub mod Nfc
pub mod Flags
pub mod Session
pub mod Blob
pub mod Assert
pub mod Tpm
pub mod Cred
pub mod Ctap
pub mod Pin
pub mod Listing
pub mod Credman
pub mod GetAssert
pub mod U2f
pub mod Cbor
pub mod Compress
pub mod Largeblob
