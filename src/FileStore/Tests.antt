-- ===== src/FileStore/Tests.antt =====
-- file_store.rs: runs of the decoder, and each theorem at a log.
use forthdb.Prelude.{◌≡◌, refl, arith, [], ◌∷◌, false}
use forthdb.Kernel.Value.{Atom}
use forthdb.SemanticIsa.Utf8.{valid_utf8}
use forthdb.SemanticIsa.Cursor.{ok, to_le_bytes, put_u64}
use forthdb.World.Commit.{genesis_id, allocate_entity, define, forget, CommitFrame}
use forthdb.FileStore.Payload.{put_string, put_atom, put_operation, encode_payload, decode_payload}
use forthdb.FileStore.Payload.RoundTrip.{IsFrame, decode_payload-encode_payload}
use forthdb.FileStore.{position_fault, Decoded, incomplete_header, decode_file}
use forthdb.FileStore.Store.{write_failed, FileCommitStore, append, open_file}
use forthdb.FileStore.Written.{IsStorable}
use forthdb.FileStore.Recovery.{log_of}
use forthdb.FileStore.Append.{IsLog, frames_of, Survives, append-Survives}
use forthdb.FileStore.Sound.{Extends, decode_file-Extends}

abbrev first : CommitFrame
first = record {
  parent_world = genesis_id;
  resulting_world = 5;
  parent_version = 0;
  resulting_version = 1;
  resulting_allocator = 2;
  operations =
      allocate_entity 1
      ∷ define (b's' ∷ []) (record {
        subject = Atom.entity 1;
        predicate = b'p' ∷ [];
        object = Atom.literal (b'x' ∷ []);
      })
      ∷ [];
}

abbrev second : CommitFrame
second = record {
  parent_world = 5;
  resulting_world = 6;
  parent_version = 1;
  resulting_version = 2;
  resulting_allocator = 2;
  operations = forget (b's' ∷ []) ∷ [];
}

first-IsFrame : IsFrame first
unfolding valid_utf8
first-IsFrame = record {
  parent_world = omega arith;
  resulting_world = omega arith;
  parent_version = omega arith;
  resulting_version = omega arith;
  resulting_allocator = omega arith;
  operations = (
    omega arith,
    (((refl, omega arith), omega arith, (refl, omega arith), (refl, omega arith)), tt),
  );
}

first-IsStorable : IsStorable first
unfolding encode_payload put_operation put_atom put_string put_u64 to_le_bytes
first-IsStorable = record { fields = first-IsFrame; few = omega arith; short = omega arith }

second-IsStorable : IsStorable second
unfolding encode_payload put_operation put_string put_u64 to_le_bytes valid_utf8
second-IsStorable = record {
  fields = record {
    parent_world = omega arith;
    resulting_world = omega arith;
    parent_version = omega arith;
    resulting_version = omega arith;
    resulting_allocator = omega arith;
    operations = ((refl, omega arith), tt);
  };
  few = omega arith;
  short = omega arith;
}

abbrev store : FileCommitStore
store = record { file = log_of (first ∷ []); frames = first ∷ []; recovered_tail_bytes = 0 }

store-IsLog : IsLog store
unfolding position_fault
store-IsLog = record { linear = (first-IsStorable, refl, tt); logged = refl }

decode_payload-encode_payload_example : decode_payload (encode_payload first) ≡ ok first
unfolding encode_payload put_operation put_atom put_string put_u64 to_le_bytes
decode_payload-encode_payload_example =
    decode_payload-encode_payload first first-IsFrame (omega arith) (omega arith)

-- A write that stops after 30 bytes, and a rollback that fails.
append-Survives_example :
    Survives store.frames second
      (append (write_failed 30) false second store).0
      (frames_of (open_file (append (write_failed 30) false second store).1.file))
append-Survives_example =
    append-Survives (write_failed 30) false second store store-IsLog second-IsStorable

decode_file-Extends_example : Extends [] (log_of (first ∷ [])) (decode_file (log_of (first ∷ [])))
decode_file-Extends_example = decode_file-Extends (log_of (first ∷ []))

decode_short : decode_file (b'F' ∷ b'T' ∷ []) ≡ Decoded.refused incomplete_header
unfolding decode_file
decode_short = refl
