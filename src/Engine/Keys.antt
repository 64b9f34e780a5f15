-- ===== src/Engine/Keys.antt =====
-- The keys of engine/internal/storage/schema.go. Bytes are numbers, and a `uint64` or an `int64` is
-- its 64-bit word: `uint64(timestampNano)` keeps it.
pub mod Order
pub mod RoundTrip
use mathlib.Core.Option
use hackathon.Common.{
  ℕ, zero, suc, ◌+◌, ◌*◌, ◌/◌, ◌%◌, ◌^◌, Bool, true, false, ◌||◌, not, Option, none, some, List, [],
  ◌∷◌, ◌++◌, ltb, leb, ◌==◌, length, take, drop, if◌then◌else◌,
}

abbrev pub Bytes : Type 0
Bytes = List ℕ

-- `PrefixLogRecord`, `PrefixIndexTerm`
abbrev pub prefix_log_record : ℕ
prefix_log_record = 1

abbrev pub prefix_index_term : ℕ
prefix_index_term = 2

-- `binary.BigEndian.PutUint32`, `PutUint64` and their readers.
unfoldable pub put_uint32 : ℕ → Bytes
put_uint32 n = n / 2 ^ 24 % 256 ∷ n / 2 ^ 16 % 256 ∷ n / 2 ^ 8 % 256 ∷ n % 256 ∷ []

unfoldable pub put_uint64 : ℕ → Bytes
unfolding put_uint32
put_uint64 n = put_uint32 (n / 2 ^ 32) ++ put_uint32 (n % 2 ^ 32)

unfoldable pub get_uint64 : Bytes → ℕ
get_uint64 (a ∷ b ∷ c ∷ d ∷ e ∷ f ∷ g ∷ h ∷ _) =
    (a * 2 ^ 24 + b * 2 ^ 16 + c * 2 ^ 8 + d) * 2 ^ 32 + (e * 2 ^ 24 + f * 2 ^ 16 + g * 2 ^ 8 + h)
get_uint64 _ = 0

-- Two `int64` are compared by their words with the sign turned.
abbrev pub flip : ℕ → ℕ
flip n = (n + 2 ^ 63) % 2 ^ 64

abbrev pub less64 : ℕ → ℕ → Bool
less64 a b = ltb (flip a) (flip b)

-- `EncodeLogKey`, `EncodeLogKeyToBuf`
unfoldable pub encode_log_key : ℕ → ℕ → Bytes
encode_log_key stream_id timestamp_nano =
    prefix_log_record ∷ (put_uint64 stream_id ++ put_uint64 timestamp_nano)

-- `EncodeIndexKey`
unfoldable pub encode_index_key : Bytes → ℕ → ℕ → Bytes
encode_index_key term timestamp_nano stream_id =
    prefix_index_term ∷ (term ++ 0 ∷ (put_uint64 timestamp_nano ++ put_uint64 stream_id))

pub record LogId : Type 0 where
  pub stream_id : ℕ
  pub ts : ℕ

pub record IndexKey : Type 0 where
  pub term : Bytes
  pub ts : ℕ
  pub stream_id : ℕ

-- `DecodeLogKey`, with `none` for a key that is not ok.
unfoldable pub decode_log_key : Bytes → Option LogId
decode_log_key [] = none
decode_log_key (p ∷ rest) =
    if not (length rest == 16) || not (p == prefix_log_record)
    then none
    else some (record { stream_id = get_uint64 rest; ts = get_uint64 (drop 8 rest) })

-- `bytes.IndexByte`, with `none` for -1.
unfoldable pub index_byte : ℕ → Bytes → Option ℕ
index_byte b [] = none
index_byte b (c ∷ s) = if c == b then some 0 else Option.map suc (index_byte b s)

-- `DecodeIndexKey` behind the prefix, of which the delimiter stands at `delim`.
unfoldable pub decode_at : Option ℕ → Bytes → Option IndexKey
decode_at none rest = none
decode_at (some delim) rest =
    let numbers = drop (suc delim) rest in
    if not (length numbers == 16)
    then none
    else some (record {
      term = take delim rest;
      ts = get_uint64 numbers;
      stream_id = get_uint64 (drop 8 numbers);
    })

-- `DecodeIndexKey`
unfoldable pub decode_index_key : Bytes → Option IndexKey
unfolding decode_at
decode_index_key [] = none
decode_index_key (p ∷ rest) =
    if ltb (length rest) 17 || not (p == prefix_index_term)
    then none
    else decode_at (index_byte 0 rest) rest
