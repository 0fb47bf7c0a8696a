-- ===== src/FileFrames/Tests.antt =====
-- A chunk frame on its way, with identifiers written in unary.
use Prim.Native.Char.{code}
use Prim.Native.String.{String}
use operation_monitoring.Base.{
  ℕ, zero, suc, ◌+◌, ◌≡◌, refl, ap, ◌∙◌, Option, some, none, List, [], ◌∷◌, arith, length,
  replicate, if◌then◌else◌, ◌==◌,
}
use operation_monitoring.FileFrames.{
  Uuids, ok, agent_encode_chunk_frame, backend_encode_chunk_frame, agent_decode_chunk_frame,
  backend_decode_chunk_frame,
}
use operation_monitoring.FileFrames.Roundtrip.{chunk_frames_round_trip, decoders_agree, value}

abbrev unary : ℕ → String → String
unary zero s = String.◌∷◌ "." s
unary (suc n) s = String.◌∷◌ "1" (unary n s)

abbrev print : List ℕ → String
print [] = ""
print (b ∷ rest) = unary b (print rest)

abbrev parse : ℕ → String → List ℕ
parse acc String.[] = []
parse acc (String.◌∷◌ c s) = if code c == 49 then parse (suc acc) s else acc ∷ parse 0 s

parse-unary : (n acc : ℕ) (s : String) → parse acc (unary n s) ≡ (acc + n) ∷ parse 0 s
parse-unary zero acc s = ground arith
parse-unary (suc n) acc s = ground (arith, parse-unary n (suc acc) s)

parse-print : (b : List ℕ) → parse 0 (print b) ≡ b
parse-print [] = refl
parse-print (x ∷ b) = parse-unary x 0 (print b) ∙ ground (arith, parse-print b)

abbrev sixteen_bytes : List ℕ → Option (List ℕ)
sixteen_bytes b = if length b == 16 then some b else none

abbrev unary_uuids : Uuids
unary_uuids = record {
  parse_str = λ s. some (parse 0 s);
  from_slice = sixteen_bytes;
  to_string = print;
  parse-to_string = λ b h _. ap some (parse-print b);
  from_slice_16 = λ b h _. rw h refl;
}

abbrev request : List ℕ
request = replicate 16 3

chunk_frames_round_trip_example :
    (frame : List ℕ) × (agent_encode_chunk_frame unary_uuids (print request) 9 (7 ∷ 8 ∷ [])
      ≡ ok frame)
    × (backend_encode_chunk_frame unary_uuids (print request) 9 (7 ∷ 8 ∷ []) ≡ ok frame)
    × (agent_decode_chunk_frame unary_uuids frame ≡ ok (print request, 9, 7 ∷ 8 ∷ []))
    × (backend_decode_chunk_frame unary_uuids frame ≡ ok (print request, 9, 7 ∷ 8 ∷ []))
chunk_frames_round_trip_example =
    chunk_frames_round_trip unary_uuids request 9 (7 ∷ 8 ∷ []) refl (ground arith) (omega arith)
      (omega arith)

-- A frame that is too short.
decoders_agree_example :
    value (agent_decode_chunk_frame unary_uuids (1 ∷ 2 ∷ []))
    ≡ value (backend_decode_chunk_frame unary_uuids (1 ∷ 2 ∷ []))
decoders_agree_example = decoders_agree unary_uuids (1 ∷ 2 ∷ [])
