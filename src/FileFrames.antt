-- ===== src/FileFrames.antt =====
-- The binary frames that carry file chunks between the agent and the backend: `encode_chunk_frame`
-- and `decode_chunk_frame` of instanceEnd/src/file_manager.rs and of backend/src/files.rs.
-- A byte is a number, and a frame a list of them. The `uuid` crate is not part of the repository:
-- `Uuids` is what the code uses of it.
pub mod Bytes
pub mod Roundtrip
pub mod Tests
use Prim.Native.String.{String}
use operation_monitoring.Base.{
  ℕ, zero, suc, ◌+◌, ◌*◌, ◌/◌, ◌%◌, ◌≡◌, ◌≤◌, ◌<◌, Bool, true, false, ◌||◌, not, Option, none, some,
  List, [], ◌∷◌, ◌++◌, if◌then◌else◌, ◌==◌, ltb, length, take, drop, ◌-◌, All,
}

-- The entries of a list that stands for bytes.
abbrev pub IsBytes : List ℕ → Type 0
IsBytes b = All (λ n. n < 256) b

-- `Uuid::parse_str`, `Uuid::from_slice` and `to_string`, on the 16 bytes of a `Uuid`, as documented.
pub record Uuids : Type 0 where
  pub parse_str : String → Option (List ℕ)
  pub from_slice : List ℕ → Option (List ℕ)
  pub to_string : List ℕ → String
  pub parse-to_string : (b : List ℕ) → length b ≡ 16 → IsBytes b → parse_str (to_string b) ≡ some b
  pub from_slice_16 : (b : List ℕ) → length b ≡ 16 → IsBytes b → from_slice b ≡ some b

abbrev pub chunk_size : ℕ
chunk_size = 262144

abbrev pub frame_kind_file_chunk_v1 : ℕ
frame_kind_file_chunk_v1 = 1

abbrev pub frame_header_bytes : ℕ
frame_header_bytes = 25

-- `u64::to_be_bytes`, for any number of bytes, and `u64::from_be_bytes`.
unfoldable pub to_be_bytes : ℕ → ℕ → List ℕ
to_be_bytes zero n = []
to_be_bytes (suc k) n = to_be_bytes k (n / 256) ++ n % 256 ∷ []

unfoldable pub from_be_bytes : ℕ → List ℕ → ℕ
from_be_bytes acc [] = acc
from_be_bytes acc (b ∷ rest) = from_be_bytes (acc * 256 + b) rest

-- The codes of the agent's file operations.
pub data FileErrorCode : Type 0 where
  invalid_path not_found permission_denied already_exists not_directory : FileErrorCode
  is_directory busy too_large unsupported io : FileErrorCode

-- What fails: the agent's code, the two answers of the backend to what it writes, and its `Err(())`
-- for what it reads.
pub data FrameError : Type 0 where
  file_failure : FileErrorCode → FrameError
  chunk_too_large unexpected_response not_a_chunk : FrameError

pub data FrameResult {ℓ} (A : Type ℓ) : Type ℓ where
  ok : A → FrameResult A
  err : FrameError → FrameResult A

-- `frame[0]` differs from the kind; only read where the frame has a header.
abbrev pub other_kind : List ℕ → Bool
other_kind [] = true
other_kind (b ∷ rest) = not (b == frame_kind_file_chunk_v1)

abbrev pub request_part : List ℕ → List ℕ
request_part frame = take 16 (drop 1 frame)

abbrev pub sequence_part : List ℕ → List ℕ
sequence_part frame = take 8 (drop 17 frame)

abbrev pub data_part : List ℕ → List ℕ
data_part frame = drop frame_header_bytes frame

module _ (u : Uuids) where
  frame_of : List ℕ → ℕ → List ℕ → List ℕ
  frame_of id sequence bytes = frame_kind_file_chunk_v1 ∷ id ++ to_be_bytes 8 sequence ++ bytes

  encode_as : FrameError → Option (List ℕ) → ℕ → List ℕ → FrameResult (List ℕ)
  unfolding frame_of
  encode_as e none sequence bytes = err e
  encode_as e (some id) sequence bytes = ok (frame_of id sequence bytes)

  -- The agent's.
  pub agent_encode_chunk_frame : String → ℕ → List ℕ → FrameResult (List ℕ)
  unfolding encode_as
  agent_encode_chunk_frame request_id sequence bytes =
      if ltb chunk_size (length bytes)
      then err (file_failure too_large)
      else encode_as (file_failure invalid_path) (u.parse_str request_id) sequence bytes

  decode_agent : Option (List ℕ) → List ℕ → FrameResult (String × ℕ × List ℕ)
  decode_agent none frame = err (file_failure io)
  decode_agent (some id) frame =
      if ltb chunk_size (length (data_part frame))
      then err (file_failure too_large)
      else ok (u.to_string id, from_be_bytes 0 (sequence_part frame), data_part frame)

  pub agent_decode_chunk_frame : List ℕ → FrameResult (String × ℕ × List ℕ)
  unfolding decode_agent
  agent_decode_chunk_frame frame =
      if ltb (length frame) frame_header_bytes || other_kind frame
      then err (file_failure io)
      else decode_agent (u.from_slice (request_part frame)) frame

  -- The backend's.
  pub backend_encode_chunk_frame : String → ℕ → List ℕ → FrameResult (List ℕ)
  unfolding encode_as
  backend_encode_chunk_frame request_id sequence bytes =
      if ltb chunk_size (length bytes)
      then err chunk_too_large
      else encode_as unexpected_response (u.parse_str request_id) sequence bytes

  decode_backend : Option (List ℕ) → List ℕ → FrameResult (String × ℕ × List ℕ)
  decode_backend none frame = err not_a_chunk
  decode_backend (some id) frame =
      ok (u.to_string id, from_be_bytes 0 (sequence_part frame), data_part frame)

  pub backend_decode_chunk_frame : List ℕ → FrameResult (String × ℕ × List ℕ)
  unfolding decode_backend
  backend_decode_chunk_frame frame =
      if ltb (length frame) frame_header_bytes
        || (other_kind frame || ltb chunk_size (length frame - frame_header_bytes))
      then err not_a_chunk
      else decode_backend (u.from_slice (request_part frame)) frame
