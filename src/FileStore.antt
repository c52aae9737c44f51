-- ===== src/FileStore.antt =====
-- rust/crates/forthdb-world/src/file_store.rs: the log file of commit frames. The file is its
-- bytes.
pub mod Store
pub mod Payload
pub mod Recovery
pub mod Written
pub mod Append
pub mod Sound
mod Tests
use mathlib.Core.Option
use Prim.Native.Nat.{bit_xor}
use forthdb.Prelude.{
  ℕ, zero, suc, ◌+◌, ◌-◌, ◌*◌, ◌%◌, ◌^◌, Bool, true, false, not, Option, none, some, List, [], ◌∷◌,
  ◌++◌, foldl, length, take, drop, ltb, ◌==◌, if◌then◌else◌, u64_max,
}
use forthdb.SemanticIsa.Cursor.{Bytes, DecodeError, Result, ok, err, to_le_bytes, from_le_bytes}
use forthdb.SemanticIsa.Stream.{bytes_eq}
use forthdb.World.Commit.{WorldId, genesis_id, CommitFrame}
use forthdb.FileStore.Payload.{encode_payload, decode_payload}

-- b"FTHDB001"
abbrev pub file_magic : Bytes
file_magic = b'F' ∷ b'T' ∷ b'H' ∷ b'D' ∷ b'B' ∷ b'0' ∷ b'0' ∷ b'1' ∷ []

abbrev pub file_version : ℕ
file_version = 1

abbrev pub file_flags : ℕ
file_flags = 0

abbrev pub frame_magic : Bytes
frame_magic = b'F' ∷ b'R' ∷ b'M' ∷ b'1' ∷ []

abbrev pub frame_trailer : Bytes
frame_trailer = b'E' ∷ b'N' ∷ b'D' ∷ b'1' ∷ []

abbrev pub max_frame_bytes : ℕ
max_frame_bytes = 64 * 1024 * 1024

-- Why a record, or the place of a frame, is refused.
pub data Reason : Type 0 where
  bad_frame_magic bad_trailer checksum_mismatch world_version_overflow : Reason
  length_exceeds_limit : ℕ → Reason
  invalid_payload : DecodeError → Reason
  -- expected and found
  unexpected_parent unexpected_parent_version unexpected_resulting_version : ℕ → ℕ → Reason

-- `History` is an error of `World::reconstruct`, which follows these functions.
pub data FileCommitStoreError : Type 0 where
  io incomplete_header bad_file_magic payload_too_long : FileCommitStoreError
  unsupported_format unsupported_flags : ℕ → FileCommitStoreError
  corrupt_frame : ℕ → Reason → FileCommitStoreError
  non_linear_append : Reason → FileCommitStoreError

unfoldable pub checksum : Bytes → ℕ
checksum = foldl (λ value byte. bit_xor value byte * 0x100_0000_01b3 % 2 ^ 64) 0xcbf2_9ce4_8422_2325

unfoldable pub file_header : Bytes
file_header = file_magic ++ (to_le_bytes 4 file_version ++ to_le_bytes 4 file_flags)

abbrev pub record_bytes : Bytes → Bytes
record_bytes payload =
    frame_magic
    ++ (to_le_bytes 8 (length payload)
        ++ (to_le_bytes 8 (checksum payload) ++ (payload ++ frame_trailer)))

pub data Encoded : Type 0 where
  encoded : Bytes → Encoded
  refused : FileCommitStoreError → Encoded

unfoldable pub encode_record : CommitFrame → Encoded
encode_record frame =
    let payload = encode_payload frame in
    if ltb max_frame_bytes (length payload)
    then Encoded.refused payload_too_long
    else encoded (record_bytes payload)

-- The world and the version that the next frame starts from.
unfoldable pub expected_parent : List CommitFrame → WorldId × ℕ
expected_parent [] = (genesis_id, 0)
expected_parent (f ∷ []) = (f.resulting_world, f.resulting_version)
expected_parent (f ∷ g ∷ fs) = expected_parent (g ∷ fs)

abbrev pub position_from : WorldId × ℕ → CommitFrame → Option Reason
position_from (parent, version) f =
    if not (f.parent_world == parent)
    then some (unexpected_parent parent f.parent_world)
    else if not (f.parent_version == version)
    then some (unexpected_parent_version version f.parent_version)
    else if version == u64_max
    then some world_version_overflow
    else if not (f.resulting_version == version + 1)
    then some (unexpected_resulting_version (version + 1) f.resulting_version)
    else none

-- The checks that `validate_append` and `validate_decoded_position` share.
unfoldable pub position_fault : List CommitFrame → CommitFrame → Option Reason
unfolding expected_parent
position_fault frames f = position_from (expected_parent frames) f

-- What one round of `decode_file` finds at an offset; `read` has the length of the record.
pub data Reading : Type 0 where
  torn : Reading
  refused : FileCommitStoreError → Reading
  read : CommitFrame → ℕ → Reading

abbrev pub placed : ℕ → Option Reason → CommitFrame → ℕ → Reading
placed offset none f total = read f total
placed offset (some reason) f total = Reading.refused (corrupt_frame offset reason)

abbrev pub decoded_at : ℕ → List CommitFrame → ℕ → Result CommitFrame → Reading
decoded_at offset frames total (ok f) = placed offset (position_fault frames f) f total
decoded_at offset frames total (err e) = Reading.refused (corrupt_frame offset (invalid_payload e))

unfoldable pub read_body : ℕ → List CommitFrame → ℕ → Bytes → Reading
read_body offset frames payload_len rest =
    let payload = take payload_len (drop 20 rest) in
    if not (bytes_eq (take 4 (drop (20 + payload_len) rest)) frame_trailer)
    then Reading.refused (corrupt_frame offset bad_trailer)
    else if not (checksum payload == from_le_bytes (take 8 (drop 12 rest)))
    then Reading.refused (corrupt_frame offset checksum_mismatch)
    else decoded_at offset frames (20 + payload_len + 4) (decode_payload payload)

-- `rest` is `bytes[offset..]`. The lengths are below 2^64 and no sum overflows.
unfoldable pub read_record : ℕ → List CommitFrame → Bytes → Reading
read_record offset frames rest =
    let payload_len = from_le_bytes (take 8 (drop 4 rest)) in
    if ltb (length rest) 20
    then torn
    else if not (bytes_eq (take 4 rest) frame_magic)
    then Reading.refused (corrupt_frame offset bad_frame_magic)
    else if ltb max_frame_bytes payload_len
    then Reading.refused (corrupt_frame offset (length_exceeds_limit payload_len))
    else if ltb (length rest) (20 + payload_len + 4)
    then torn
    else read_body offset frames payload_len rest

-- The frames, and the offset behind the last of them.
pub data Decoded : Type 0 where
  decoded : List CommitFrame → ℕ → Decoded
  refused : FileCommitStoreError → Decoded
  out_of_fuel : Decoded

abbrev pub advance : List CommitFrame → ℕ → (CommitFrame → ℕ → Decoded) → Reading → Decoded
advance frames offset next torn = decoded frames offset
advance frames offset next (Reading.refused e) = Decoded.refused e
advance frames offset next (read f total) = next f total

-- The loop; `last_good_offset` is the offset at the start of each round.
unfoldable pub decode_records : ℕ → Bytes → ℕ → List CommitFrame → Decoded
decode_records zero bytes offset frames = out_of_fuel
decode_records (suc fuel) bytes offset frames =
    let next =
      advance frames offset
        (λ f total. decode_records fuel bytes (offset + total) (frames ++ f ∷ []))
        (read_record offset frames (drop offset bytes)) in
    if ltb offset (length bytes) then next else decoded frames offset

unfoldable pub decode_file : Bytes → Decoded
decode_file bytes =
    let version = from_le_bytes (take 4 (drop 8 bytes)) in
    let flags = from_le_bytes (take 4 (drop 12 bytes)) in
    let rest = decode_records (suc (length bytes)) bytes 16 [] in
    if ltb (length bytes) 16
    then Decoded.refused incomplete_header
    else if not (bytes_eq (take 8 bytes) file_magic)
    then Decoded.refused bad_file_magic
    else if not (version == file_version)
    then Decoded.refused (unsupported_format version)
    else if not (flags == file_flags)
    then Decoded.refused (unsupported_flags flags)
    else rest
