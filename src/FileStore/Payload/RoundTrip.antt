-- ===== src/FileStore/Payload/RoundTrip.antt =====
-- file_store.rs: `decode_payload` reads back what `encode_payload` wrote.
use mathlib.Core.List.{append_assoc, append-nil}
use forthdb.Prelude.{
  ℕ, ◌+◌, ◌^◌, ◌≤◌, ◌<◌, ◌≡◌, refl, sym, ap, ◌∙◌, subst, true, [], ◌∷◌, ◌++◌, arith, length,
  length-append, length-drop, take-append_left, take-length, drop-length-append, ltb-false, leb,
  leb-true, ◌==◌, ==_refl, u64_max,
}
use forthdb.Kernel.Value.{Atom}
use forthdb.SemanticIsa.Utf8.{Text, valid_utf8}
use forthdb.SemanticIsa.Cursor.{
  Bytes, ok, Cursor, ◌>>=◌, pure, require, to_le_bytes, from_le_bytes, put_u64, invalid_utf8,
}
use forthdb.SemanticIsa.Cursor.Parses.{
  Parses, Parses-pure, Parses-bind, Parses-map, Parses-require, remaining, drop-drop,
  length-to_le_bytes, from_le_bytes-to_le_bytes,
}
use forthdb.SemanticIsa.Stream.RoundTrip.{foldl-flat}
use forthdb.SemanticIsa.Stream.Decodes.{flat, Each, repeat-Parses}
use forthdb.World.Commit.{Operation, allocate_entity, define, forget, CommitFrame}
use forthdb.FileStore.Payload.{
  max_operations_per_frame, put_string, put_atom, put_operation, encode_payload, take, byte, u64,
  string, atom, definition, operation, finish, frame, decode_payload,
}

-- The bytes of the parts.
abbrev pub number_bytes : ℕ → Bytes
number_bytes = to_le_bytes 8

abbrev string_bytes : Text → Bytes
string_bytes text = number_bytes (length text) ++ text

abbrev atom_bytes : Atom → Bytes
atom_bytes (Atom.entity e) = (0 ∷ []) ++ number_bytes e
atom_bytes (Atom.literal l) = (1 ∷ []) ++ string_bytes l

abbrev operation_bytes : Operation → Bytes
operation_bytes (allocate_entity e) = (0 ∷ []) ++ number_bytes e
operation_bytes (define slot fact) =
    (1 ∷ [])
    ++ (string_bytes slot
        ++ (atom_bytes fact.subject ++ (string_bytes fact.predicate ++ atom_bytes fact.object)))
operation_bytes (forget slot) = (2 ∷ []) ++ string_bytes slot

abbrev payload_bytes : CommitFrame → Bytes
payload_bytes f =
    number_bytes f.parent_world
    ++ (number_bytes f.resulting_world
        ++ (number_bytes f.parent_version
            ++ (number_bytes f.resulting_version
                ++ (number_bytes f.resulting_allocator
                    ++ (number_bytes (length f.operations) ++ flat operation_bytes f.operations)))))

-- What the source's types say: a `u64`, and a `String`.
abbrev IsText : Text → Type 0
IsText text = (valid_utf8 text ≡ true) × (length text < 2 ^ 64)

abbrev IsAtom : Atom → Type 0
IsAtom (Atom.entity e) = e < 2 ^ 64
IsAtom (Atom.literal l) = IsText l

abbrev IsOperation : Operation → Type 0
IsOperation (allocate_entity e) = e < 2 ^ 64
IsOperation (define slot fact) =
    IsText slot × IsAtom fact.subject × IsText fact.predicate × IsAtom fact.object
IsOperation (forget slot) = IsText slot

pub record IsFrame (f : CommitFrame) : Type 0 where
  pub parent_world : f.parent_world < 2 ^ 64
  pub resulting_world : f.resulting_world < 2 ^ 64
  pub parent_version : f.parent_version < 2 ^ 64
  pub resulting_version : f.resulting_version < 2 ^ 64
  pub resulting_allocator : f.resulting_allocator < 2 ^ 64
  pub operations : Each IsOperation f.operations

take-Parses : (bytes : Bytes) → Parses (take (length bytes)) bytes bytes
unfolding take
take-Parses bytes = record {
  at = λ c rest i e.
      let fits : length bytes ≤ length (remaining c) =
        rw e (omega (arith, length-append bytes rest)) in
      let size = length-drop c.position c.buffer in
      let small = i.small in
      let within = i.within in
      (
        record c { position = c.position + length bytes },
        rw (
          ltb-false u64_max (c.position + length bytes) (omega arith),
          ltb-false (length c.buffer) (c.position + length bytes) (omega arith),
          e,
          take-append_left (length bytes) bytes rest (omega arith),
          take-length bytes,
        ),
        record {
          left =
              sym (drop-drop c.position (length bytes) c.buffer)
              ∙ rw e (drop-length-append bytes rest);
          buffer = refl;
          position = refl;
          inside = record { small = i.small; within = omega arith };
        },
      );
}

taken-Parses : (count : ℕ) (bytes : Bytes) → length bytes ≡ count → Parses (take count) bytes bytes
taken-Parses count bytes e = subst (λ n. Parses (take n) bytes bytes) e (take-Parses bytes)

u64-Parses : (value : ℕ) → value < 2 ^ 64 → Parses u64 (number_bytes value) value
unfolding u64
u64-Parses value h =
    subst (Parses u64 (number_bytes value)) (from_le_bytes-to_le_bytes 8 value (omega arith))
      (Parses-map from_le_bytes (taken-Parses 8 (number_bytes value) (length-to_le_bytes 8 value)))

byte-Parses : (value : ℕ) → Parses byte (value ∷ []) value
unfolding byte from_le_bytes
byte-Parses value =
    subst (Parses byte (value ∷ [])) (omega arith)
      (Parses-map from_le_bytes (taken-Parses 1 (value ∷ []) refl))

string-Parses : (text : Text) → IsText text → Parses string (string_bytes text) text
unfolding string
string-Parses text (valid, short) = Parses-bind _ (u64-Parses (length text) short) (
    subst
      (λ bytes.
        Parses
          (take (length text) >>= λ value.
            require (valid_utf8 value) invalid_utf8 >>= λ _. pure value)
          bytes text)
      (append-nil text)
      (Parses-bind _ (take-Parses text)
        (Parses-require (valid_utf8 text) _ (λ _. pure text) valid (Parses-pure text))))

atom-Parses : (a : Atom) → IsAtom a → Parses atom (atom_bytes a) a
unfolding atom
atom-Parses (Atom.entity e) h =
    Parses-bind _ (byte-Parses 0) (Parses-map (λ e. Atom.entity e) (u64-Parses e h))
atom-Parses (Atom.literal l) h =
    Parses-bind _ (byte-Parses 1) (Parses-map (λ l. Atom.literal l) (string-Parses l h))

operation-Parses : (o : Operation) → IsOperation o → Parses operation (operation_bytes o) o
unfolding operation definition
operation-Parses (allocate_entity e) h =
    Parses-bind _ (byte-Parses 0) (Parses-map (λ e. allocate_entity e) (u64-Parses e h))
operation-Parses (define slot fact) (s, a, p, b) = Parses-bind _ (byte-Parses 1) (
    Parses-bind _ (string-Parses slot s) (
      Parses-bind _ (atom-Parses fact.subject a) (
        Parses-bind _ (string-Parses fact.predicate p) (
          Parses-map
            (λ object.
              define slot
                (record { subject = fact.subject; predicate = fact.predicate; object = object }))
            (atom-Parses fact.object b)))))
operation-Parses (forget slot) h =
    Parses-bind _ (byte-Parses 2) (Parses-map (λ slot. forget slot) (string-Parses slot h))

frame-Parses :
    (f : CommitFrame)
    → IsFrame f
    → length f.operations ≤ max_operations_per_frame
    → Parses frame (payload_bytes f) f
unfolding frame
frame-Parses f h few = Parses-bind _ (u64-Parses f.parent_world h.parent_world) (
    Parses-bind _ (u64-Parses f.resulting_world h.resulting_world) (
      Parses-bind _ (u64-Parses f.parent_version h.parent_version) (
        Parses-bind _ (u64-Parses f.resulting_version h.resulting_version) (
          Parses-bind _ (u64-Parses f.resulting_allocator h.resulting_allocator) (
            Parses-bind _ (u64-Parses (length f.operations) (omega arith)) (
              Parses-require (leb (length f.operations) max_operations_per_frame) _ _
                (leb-true (length f.operations) max_operations_per_frame few)
                (Parses-map (λ operations. record f { operations = operations })
                  (repeat-Parses operation-Parses f.operations h.operations))))))))

-- The encoder writes these bytes.
put_atom_lem : (output : Bytes) (a : Atom) → put_atom output a ≡ output ++ atom_bytes a
unfolding put_atom put_string put_u64
put_atom_lem output (Atom.entity e) = simp append_assoc
put_atom_lem output (Atom.literal l) = simp append_assoc

put_operation_lem :
    (output : Bytes) (o : Operation)
    → IsOperation o
    → put_operation output o ≡ output ++ operation_bytes o
unfolding put_operation put_string put_u64
put_operation_lem output (allocate_entity e) h = simp append_assoc
put_operation_lem output (define slot fact) h =
    rw (put_atom_lem _ fact.subject, put_atom_lem _ fact.object) (simp append_assoc)
put_operation_lem output (forget slot) h = simp append_assoc

pub encode_payload_lem : (f : CommitFrame) → IsFrame f → encode_payload f ≡ payload_bytes f
unfolding encode_payload put_u64
encode_payload_lem f h =
    foldl-flat put_operation_lem _ f.operations h.operations ∙ simp append_assoc

-- A parse of a whole payload.
decode_payload-whole :
    (payload : Bytes) (f : CommitFrame)
    → length payload ≤ u64_max
    → Parses frame payload f
    → decode_payload payload ≡ ok f
unfolding decode_payload finish pure ◌>>=◌
decode_payload-whole payload f small p =
    let start : Cursor = record { buffer = payload; position = 0 } in
    let (c, decoded, moved) =
      p.at start [] (record { small = small; within = omega arith }) (sym (append-nil payload)) in
    let end : (c.position == length c.buffer) ≡ true =
      let e : c.position ≡ length c.buffer =
        moved.position ∙ omega arith ∙ sym (ap length moved.buffer) in
      rw e (==_refl (length c.buffer)) in
    rw (decoded, end) refl

-- A frame whose fields fit their types, with at most 1,000,000 operations, is decoded from its
-- payload, if the payload is no longer than `usize::MAX`.
pub decode_payload-encode_payload :
    (f : CommitFrame)
    → IsFrame f
    → length f.operations ≤ max_operations_per_frame
    → length (encode_payload f) ≤ u64_max
    → decode_payload (encode_payload f) ≡ ok f
decode_payload-encode_payload f h few small =
    decode_payload-whole (encode_payload f) f small
      (subst (λ bytes. Parses frame bytes f) (sym (encode_payload_lem f h)) (frame-Parses f h few))
