-- ===== src/FileFrames/Roundtrip.antt =====
-- Both ends read what either wrote, and they take the same frames for chunks.
use mathlib.Core.List.{append_assoc}
use operation_monitoring.Base.{
  ℕ, ◌+◌, ◌-◌, ◌≡◌, ◌≤◌, ◌<◌, refl, ap, sym, ◌∙◌, false, Option, none, some, List, ◌++◌, arith,
  length, length-append, ltb, take, drop, if◌then◌else◌,
}
use operation_monitoring.FileFrames.{
  Uuids, IsBytes, chunk_size, frame_header_bytes, to_be_bytes, from_be_bytes, FrameResult, ok, err,
  other_kind, request_part, sequence_part, data_part, frame_of, encode_as, agent_encode_chunk_frame,
  decode_agent, agent_decode_chunk_frame, backend_encode_chunk_frame, decode_backend,
  backend_decode_chunk_frame,
}
use operation_monitoring.FileFrames.Bytes.{
  byte_bound, from_be_bytes-to_be_bytes, length-to_be_bytes, take-append, drop-append, length-drop,
}

-- `Result::ok`.
abbrev pub value {ℓ} : {A : Type ℓ} → FrameResult A → Option A
value (ok a) = some a
value (err e) = none

module _ (u : Uuids) (id : List ℕ) (sequence : ℕ) (bytes : List ℕ) (sixteen : length id ≡ 16) where
  id_length : length (id ++ to_be_bytes 8 sequence) ≡ 24
  id_length =
      length-append id (to_be_bytes 8 sequence)
      ∙ omega (arith, sixteen, length-to_be_bytes 8 sequence)

  length-frame_of : length (frame_of u id sequence bytes) ≡ 25 + length bytes
  unfolding frame_of
  length-frame_of = omega (arith, length-append (id ++ to_be_bytes 8 sequence) bytes, id_length)

  request_part-frame_of : request_part (frame_of u id sequence bytes) ≡ id
  unfolding frame_of
  request_part-frame_of =
      ap (take 16) (append_assoc id (to_be_bytes 8 sequence) bytes)
      ∙ take-append 16 id (to_be_bytes 8 sequence ++ bytes) sixteen

  sequence_part-frame_of : sequence_part (frame_of u id sequence bytes) ≡ to_be_bytes 8 sequence
  unfolding frame_of
  sequence_part-frame_of =
      ap (λ r. take 8 (drop 16 r)) (append_assoc id (to_be_bytes 8 sequence) bytes)
      ∙ ap (take 8) (drop-append 16 id (to_be_bytes 8 sequence ++ bytes) sixteen)
      ∙ take-append 8 (to_be_bytes 8 sequence) bytes (length-to_be_bytes 8 sequence)

  data_part-frame_of : data_part (frame_of u id sequence bytes) ≡ bytes
  unfolding frame_of
  data_part-frame_of = drop-append 24 (id ++ to_be_bytes 8 sequence) bytes id_length

  other_kind-frame_of : other_kind (frame_of u id sequence bytes) ≡ false
  unfolding frame_of
  other_kind-frame_of = refl

module _ (u : Uuids) where
  -- A frame whose parts are known.
  both_read :
      (frame id : List ℕ) (sequence : ℕ) (bytes : List ℕ)
      → length frame ≡ 25 + length bytes
      → length bytes ≤ chunk_size
      → other_kind frame ≡ false
      → u.from_slice (request_part frame) ≡ some id
      → from_be_bytes 0 (sequence_part frame) ≡ sequence
      → data_part frame ≡ bytes
      → (agent_decode_chunk_frame u frame ≡ ok (u.to_string id, sequence, bytes))
        × (backend_decode_chunk_frame u frame ≡ ok (u.to_string id, sequence, bytes))
  unfolding agent_decode_chunk_frame backend_decode_chunk_frame decode_agent decode_backend
  both_read frame id sequence bytes long short kind request number rest =
      let fits : ltb chunk_size (length bytes) ≡ false = ground (arith, short) in
      let header : ltb (length frame) frame_header_bytes ≡ false = ground (arith, long) in
      let fitting : ltb chunk_size (length frame - frame_header_bytes) ≡ false =
        ground (arith, long, short) in
      (
        rw (header, kind, request, rest, number, fits) refl,
        rw (header, kind, fitting, request, rest, number) refl,
      )

  -- A chunk of at most 256 KiB with a 64-bit sequence number, for a request that is named by a
  -- UUID of 16 bytes: both ends write it as the same frame, and both read the request, the number and the data
  -- back from it.
  pub chunk_frames_round_trip :
      (id : List ℕ) (sequence : ℕ) (bytes : List ℕ)
      → length id ≡ 16
      → IsBytes id
      → sequence < byte_bound 8
      → length bytes ≤ chunk_size
      → (frame : List ℕ) × (agent_encode_chunk_frame u (u.to_string id) sequence bytes ≡ ok frame)
        × (backend_encode_chunk_frame u (u.to_string id) sequence bytes ≡ ok frame)
        × (agent_decode_chunk_frame u frame ≡ ok (u.to_string id, sequence, bytes))
        × (backend_decode_chunk_frame u frame ≡ ok (u.to_string id, sequence, bytes))
  unfolding agent_encode_chunk_frame backend_encode_chunk_frame encode_as
  chunk_frames_round_trip id sequence bytes sixteen id_bytes small short =
      let fits : ltb chunk_size (length bytes) ≡ false = ground (arith, short) in
      let (agent, backend) =
        both_read (frame_of u id sequence bytes) id sequence bytes
          (length-frame_of u id sequence bytes sixteen) short
          (other_kind-frame_of u id sequence bytes sixteen)
          (ap u.from_slice (request_part-frame_of u id sequence bytes sixteen)
            ∙ u.from_slice_16 id sixteen id_bytes)
          (ap (from_be_bytes 0) (sequence_part-frame_of u id sequence bytes sixteen)
            ∙ from_be_bytes-to_be_bytes 8 sequence small)
          (data_part-frame_of u id sequence bytes sixteen) in
      (
        frame_of u id sequence bytes,
        rw (fits, u.parse-to_string id sixteen id_bytes) refl,
        rw (fits, u.parse-to_string id sixteen id_bytes) refl,
        agent,
        backend,
      )

  decoded_alike :
      (o : Option (List ℕ)) (frame : List ℕ)
      → ltb chunk_size (length frame - frame_header_bytes)
        ≡ ltb chunk_size (length (data_part frame))
      → value (decode_agent u o frame) ≡ (
          if ltb chunk_size (length frame - frame_header_bytes)
          then none
          else value (decode_backend u o frame))
  unfolding decode_agent decode_backend
  decoded_alike none frame h = ground arith
  decoded_alike (some id) frame h = ground (arith, h)

  -- The two ends take the same frames for chunks, and read the same from them.
  pub decoders_agree :
      (frame : List ℕ)
      → value (agent_decode_chunk_frame u frame) ≡ value (backend_decode_chunk_frame u frame)
  unfolding agent_decode_chunk_frame backend_decode_chunk_frame
  decoders_agree frame = ground (
    arith,
    decoded_alike (u.from_slice (request_part frame)) frame
        (ap (ltb chunk_size) (sym (length-drop frame_header_bytes frame))),
  )
