-- ===== src/Protocols/EdlPacket.antt =====
-- oresat_c3/protocols/edl_packet.py: packing and unpacking of EDL packets. The USLP frames and the
-- CFDP PDUs are those of the spacepackets package, and the CRC and the HMAC are Python's; they are
-- parameters. A sequence number is not negative.

pub mod Authentic
pub mod RoundTrip
pub mod Plain
mod Tests
use oresat_c3_software.Prelude.{
  ℕ, ◌+◌, ◌-◌, ◌*◌, ◌/◌, ◌%◌, ◌^◌, List, [], ◌∷◌, ◌++◌, Bool, true, false, not, ◌&&◌, Option, none,
  some, if◌then◌else◌, ltb, ◌==◌, length, but_last, last, two_bytes, four_bytes, from_bytes,
  eq_bytes, Result, ok, err,
}
use oresat_c3_software.Protocols.EdlCommand.{
  EdlError, Payload, pack_request, pack_response, unpack_request, unpack_response,
}

-- `SourceOrDestField`
pub data SrcDest : Type 0 where
  source dest : SrcDest

abbrev pub src_dest_oresat : SrcDest
src_dest_oresat = dest

abbrev pub src_dest_unic_logs : SrcDest
src_dest_unic_logs = source

pub data EdlVcid : Type 0 where
  c3_command file_transfer : EdlVcid

abbrev pub vcid_value : EdlVcid → ℕ
vcid_value c3_command = 0
vcid_value file_transfer = 1

abbrev pub spacecraft_id : ℕ
spacecraft_id = 0x4F53

abbrev pub hmac_len : ℕ
hmac_len = 32

abbrev pub fecf_len : ℕ
fecf_len = 2

abbrev pub seq_num_len : ℕ
seq_num_len = 4

-- 7 bytes of header, the sequence number, 1 byte of data field header, the HMAC and the FECF
abbrev pub tc_min_len : ℕ
tc_min_len = 7 + seq_num_len + 1 + hmac_len + fecf_len

-- What the class sets of a transfer frame; all else is the same in every frame.
pub record TransferFrame : Type 0 where
  pub scid : ℕ
  pub vcid : ℕ
  pub src_dest : SrcDest
  pub frame_len : ℕ
  pub insert_zone : List ℕ
  pub tfdz : List ℕ

-- An exception of a function that reads bytes: the one that `unpack` catches, which is
-- `UslpInvalidRawPacketOrFrameLen` for a frame and `ValueError` for a PDU, or any other.
pub data Raised : Type 0 where
  expected other : Raised

-- The functions of other packages: `binascii.crc_hqx(data, 0)`, `hmac.digest` with SHA3-256,
-- `TransferFrame.pack` and `.unpack`, and `pack` and `PduFactory.from_raw` of PDUs. `none` is an
-- exception of theirs.
pub record Packages (Pdu : Type 0) : Type 0 where
  pub crc_hqx : List ℕ → ℕ
  pub digest : List ℕ → List ℕ → List ℕ
  pub frame_pack : TransferFrame → Option (List ℕ)
  pub frame_unpack : List ℕ → Result Raised TransferFrame
  pub pdu_pack : Pdu → Option (List ℕ)
  pub pdu_from_raw : List ℕ → Result Raised Pdu

-- The class of a payload object.
pub data EdlPayload (Pdu : Type 0) : Type 0 where
  request response : Payload → EdlPayload Pdu
  pdu : Pdu → EdlPayload Pdu

-- `EdlPacketError`, by what raises it, and the exceptions that are not turned into one: those of
-- the unpacking of a command, of `to_bytes`, of the frame and of a PDU.
pub data PacketError : Type 0 where
  too_short invalid_fecf invalid_frame invalid_hmac bad_pdu unknown_vcid pack_failed : PacketError
  uncaught : EdlError → PacketError
  overflow_error frame_error pdu_error : PacketError

-- `EdlPacket`; `vcid` is what `__init__` makes of the class of the payload.
pub record EdlPacket (Pdu : Type 0) : Type 0 where
  pub payload : EdlPayload Pdu
  pub seq_num : ℕ
  pub src_dest : SrcDest

abbrev pub vcid : {Pdu : Type 0} → EdlPayload Pdu → EdlVcid
vcid (pdu p) = file_transfer
vcid _ = c3_command

abbrev pub as_request :
    {Pdu : Type 0} → Result EdlError Payload → Result PacketError (EdlPayload Pdu)
as_request (ok p) = ok (request p)
as_request (err e) = err (uncaught e)

abbrev pub as_response :
    {Pdu : Type 0} → Result EdlError Payload → Result PacketError (EdlPayload Pdu)
as_response (ok p) = ok (response p)
as_response (err e) = err (uncaught e)

abbrev pub as_pdu : {Pdu : Type 0} → Result Raised Pdu → Result PacketError (EdlPayload Pdu)
as_pdu (ok p) = ok (pdu p)
as_pdu (err expected) = err bad_pdu
as_pdu (err other) = err pdu_error

abbrev pub packed_or_failed : Result EdlError (List ℕ) → Result PacketError (List ℕ)
packed_or_failed (ok raw) = ok raw
packed_or_failed (err e) = err pack_failed

abbrev pub pdu_or_failed : Option (List ℕ) → Result PacketError (List ℕ)
pdu_or_failed (some raw) = ok raw
pdu_or_failed none = err pack_failed

abbrev pub packet_of :
    {Pdu : Type 0}
    → TransferFrame
    → Result PacketError (EdlPayload Pdu)
    → Result PacketError (EdlPacket Pdu)
packet_of frame (err e) = err e
packet_of frame (ok payload) = ok (record {
  payload = payload;
  seq_num = from_bytes frame.insert_zone;
  src_dest = frame.src_dest;
})

module _ {Pdu : Type 0} (pkg : Packages Pdu) where
  -- `crc16_bytes`
  abbrev pub crc16_bytes : List ℕ → List ℕ
  crc16_bytes raw = two_bytes (pkg.crc_hqx raw)

  -- `gen_hmac`
  abbrev pub gen_hmac : List ℕ → List ℕ → List ℕ
  gen_hmac key message = pkg.digest key message

  -- `self.payload.pack()`
  abbrev pub pack_payload : EdlPayload Pdu → Result PacketError (List ℕ)
  pack_payload (request p) = packed_or_failed (pack_request p)
  pack_payload (response p) = packed_or_failed (pack_response p)
  pack_payload (pdu p) = pdu_or_failed (pkg.pdu_pack p)

  -- The frame that `pack` makes of a packet and of its payload's bytes.
  abbrev pub frame_of : List ℕ → EdlPacket Pdu → List ℕ → TransferFrame
  frame_of key p raw = record {
    scid = spacecraft_id;
    vcid = vcid_value (vcid p.payload);
    src_dest = p.src_dest;
    frame_len = length raw + tc_min_len - 1;
    insert_zone = four_bytes p.seq_num;
    tfdz = raw ++ gen_hmac key raw;
  }

  abbrev pub with_fecf : Option (List ℕ) → Result PacketError (List ℕ)
  with_fecf none = err frame_error
  with_fecf (some packet) = ok (packet ++ crc16_bytes packet)

  -- `pack`
  unfoldable pub pack : List ℕ → EdlPacket Pdu → Result PacketError (List ℕ)
  pack key p = elim (pack_payload p.payload) [
    | err e ↦ err e
    | ok raw ↦
        if ltb p.seq_num (256 ^ seq_num_len)
        then with_fecf (pkg.frame_pack (frame_of key p raw))
        else err overflow_error
  ]

  -- The payload, by the header of the frame.
  unfoldable pub unpack_payload : TransferFrame → List ℕ → Result PacketError (EdlPayload Pdu)
  unpack_payload frame raw =
      if frame.vcid == vcid_value c3_command
      then elim frame.src_dest [
        | dest ↦ as_request (unpack_request raw)
        | source ↦ as_response (unpack_response raw)
      ]
      else if frame.vcid == vcid_value file_transfer
      then as_pdu (pkg.pdu_from_raw raw)
      else err unknown_vcid

  -- `hmac_bytes == hmac_bytes_calc`
  unfoldable pub hmac_ok : List ℕ → List ℕ → Bool
  hmac_ok key tfdz = eq_bytes (last hmac_len tfdz) (gen_hmac key (but_last hmac_len tfdz))

  -- `unpack`, from the frame on.
  unfoldable pub unpack_frame :
      List ℕ → Bool → Result Raised TransferFrame → Result PacketError (EdlPacket Pdu)
  unpack_frame key ignore_hmac (err expected) = err invalid_frame
  unpack_frame key ignore_hmac (err other) = err frame_error
  unpack_frame key ignore_hmac (ok frame) =
      if not ignore_hmac && not (hmac_ok key frame.tfdz)
      then err invalid_hmac
      else packet_of frame (unpack_payload frame (but_last hmac_len frame.tfdz))

  -- `crc16_raw_calc == crc16_raw`
  unfoldable pub fecf_ok : List ℕ → Bool
  fecf_ok raw = eq_bytes (crc16_bytes (but_last fecf_len raw)) (last fecf_len raw)

  -- `unpack`
  unfoldable pub unpack : List ℕ → List ℕ → Bool → Result PacketError (EdlPacket Pdu)
  unpack raw key ignore_hmac =
      if ltb (length raw) tc_min_len
      then err too_short
      else if not (fecf_ok raw)
      then err invalid_fecf
      else unpack_frame key ignore_hmac (pkg.frame_unpack raw)
