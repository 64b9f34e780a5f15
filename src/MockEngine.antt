-- ===== src/MockEngine.antt =====
-- scripts/mock_go_engine.js: one connection of the stand-in for the Go engine. protobufjs is the
-- parameter `Codec`: `decode` gives the token of a request, `encode` the bytes of a response. Bytes
-- are numbers.
pub mod Bytes
pub mod Frames
pub mod Tests
use hackathon.Common.{
  ℕ, ◌+◌, ◌*◌, ◌/◌, ◌%◌, Option, none, some, List, [], ◌∷◌, ◌++◌, Str, codes, or_else, leb, length,
  take, drop, join, if◌then◌else◌,
}
use hackathon.Common.Double.{to_double}

pub record MockLog : Type 0 where
  pub id : Str
  pub timestamp_ns : ℕ
  pub level : Str
  pub message : Str

-- `responsePayload`
pub record Payload : Type 0 where
  pub logs : List MockLog
  pub execution_time_ns : ℕ
  pub error_message : Str

pub record Codec : Type 0 where
  pub decode : List ℕ → Str
  pub encode : Payload → List ℕ

-- The variables of a connection, and the frames that it has written.
pub record Connection : Type 0 where
  pub chunks : List (List ℕ)
  pub expected_len : Option ℕ
  pub written : List (List ℕ)

abbrev pub created : Connection
created = record { chunks = []; expected_len = none; written = [] }

-- `buf.readUInt32BE(0)`, of a buffer of four bytes or more.
unfoldable pub read_uint32_be : List ℕ → ℕ
read_uint32_be (a ∷ b ∷ c ∷ d ∷ buf) = a * 16777216 + (b * 65536 + (c * 256 + d))
read_uint32_be _ = 0

-- `frame.writeUInt32BE(n, 0)` of the first four bytes.
unfoldable pub write_uint32_be : ℕ → List ℕ
write_uint32_be n = n / 16777216 % 256 ∷ n / 65536 % 256 ∷ n / 256 % 256 ∷ n % 256 ∷ []

unfoldable pub frame : List ℕ → List ℕ
unfolding write_uint32_be
frame bytes = write_uint32_be (length bytes) ++ bytes

-- `expectedLen` once the buffer is long enough.
unfoldable pub expected : Option ℕ → List ℕ → Option ℕ
unfolding read_uint32_be
expected (some n) buf = some n
expected none buf = if leb 4 (length buf) then some (read_uint32_be buf) else none

-- Nanoseconds are doubles, `Date.now() * 1e6` and that with 500000 more.
unfoldable pub response_payload : Str → ℕ → Payload
response_payload token now = record {
  logs =
      record {
        id = codes "log-101";
        timestamp_ns = to_double (now * 1000000);
        level = codes "ERROR";
        message = codes "Sample timeout error matching token: " ++ or_else token (codes "ALL");
      }
      ∷ record {
        id = codes "log-102";
        timestamp_ns = to_double (to_double (now * 1000000) + 500000);
        level = codes "INFO";
        message = codes "Database connection recovered.";
      }
      ∷ [];
  execution_time_ns = 85000;
  error_message = [];
}

module _ (codec : Codec) where
  open codec use {decode, encode}

  -- The frame that is written for the bytes of a request.
  abbrev pub reply : List ℕ → ℕ → List ℕ
  reply msg_bytes now = frame (encode (response_payload (decode msg_bytes) now))

  -- The reply, once the length is known and there are so many bytes.
  unfoldable pub answer : Option ℕ → List ℕ → ℕ → List (List ℕ)
  answer none buf now = []
  answer (some n) buf now =
      if leb (4 + n) (length buf) then reply (take n (drop 4 buf)) now ∷ [] else []

  -- `socket.on('data', …)`
  unfoldable pub on_data : List ℕ → ℕ → Connection → Connection
  unfolding expected answer
  on_data chunk now c =
      let chunks = c.chunks ++ chunk ∷ [] in
      let buf = join chunks in
      let len = expected c.expected_len buf in
      record { chunks = chunks; expected_len = len; written = c.written ++ answer len buf now }

  -- The chunks of a connection, each at a time of its own.
  unfoldable pub receive_all : List (List ℕ × ℕ) → Connection → Connection
  unfolding on_data
  receive_all [] c = c
  receive_all ((chunk, now) ∷ more) c = receive_all more (on_data chunk now c)
