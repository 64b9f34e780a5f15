-- ===== src/Engine/Keys/RoundTrip.antt =====
-- The keys of engine/internal/storage/schema.go read back.
use hackathon.Common.{
  ℕ, suc, ◌^◌, ◌<◌, ◌≢◌, some, [], ◌∷◌, ◌++◌, ◌≡◌, refl, sym, append-nil, ap, ◌∙◌, arith, length,
  length-append, take, drop, All,
}
use hackathon.Engine.Keys.{
  Bytes, put_uint64, put_uint32, get_uint64, encode_log_key, encode_index_key, decode_log_key,
  decode_index_key, index_byte,
}

pub get_uint64-put : (n : ℕ) (s : Bytes) → n < 2 ^ 64 → get_uint64 (put_uint64 n ++ s) ≡ n
unfolding get_uint64 put_uint64 put_uint32
get_uint64-put n s h = omega arith

pub drop-put : (n : ℕ) (s : Bytes) → drop 8 (put_uint64 n ++ s) ≡ s
unfolding put_uint64 put_uint32
drop-put n s = refl

pub length-put : (n : ℕ) → length (put_uint64 n) ≡ 8
unfolding put_uint64 put_uint32
length-put n = refl

abbrev pub IsNonzero : ℕ → Type 0
IsNonzero b = b ≢ 0

pub index_byte-delimiter :
    (term s : Bytes) → All IsNonzero term → index_byte 0 (term ++ 0 ∷ s) ≡ some (length term)
unfolding index_byte
index_byte-delimiter [] s h = refl
index_byte-delimiter (c ∷ term) s h = ground (arith, index_byte-delimiter term s h.1)

pub take-front : (xs ys : Bytes) → take (length xs) (xs ++ ys) ≡ xs
take-front [] ys = refl
take-front (x ∷ xs) ys = ap (◌∷◌ x) (take-front xs ys)

pub drop-behind : (xs : Bytes) (y : ℕ) (ys : Bytes) → drop (suc (length xs)) (xs ++ y ∷ ys) ≡ ys
drop-behind [] y ys = refl
drop-behind (x ∷ xs) y ys = drop-behind xs y ys

get_uint64-put_last : (n : ℕ) → n < 2 ^ 64 → get_uint64 (put_uint64 n) ≡ n
get_uint64-put_last n h = ap get_uint64 (sym (append-nil (put_uint64 n))) ∙ get_uint64-put n [] h

module _ (term : Bytes) (ts stream_id : ℕ) (time : ts < 2 ^ 64) (stream : stream_id < 2 ^ 64) where
  pub decode_log_key-encode :
      decode_log_key (encode_log_key stream_id ts)
      ≡ some (record { stream_id = stream_id; ts = ts })
  unfolding decode_log_key encode_log_key
  decode_log_key-encode =
      let numbers = put_uint64 stream_id ++ put_uint64 ts in
      ground (
        arith,
        length-append (put_uint64 stream_id) (put_uint64 ts),
        length-put ts,
        length-put stream_id,
        get_uint64-put stream_id (put_uint64 ts) stream,
        drop-put stream_id (put_uint64 ts),
        get_uint64-put_last ts time,
      )

  pub decode_index_key-encode :
      All IsNonzero term
      → decode_index_key (encode_index_key term ts stream_id)
        ≡ some (record { term = term; ts = ts; stream_id = stream_id })
  unfolding decode_index_key encode_index_key
  decode_index_key-encode plain =
      let numbers = put_uint64 ts ++ put_uint64 stream_id in
      ground (
        arith,
        length-append term (0 ∷ numbers),
        length-append (put_uint64 ts) (put_uint64 stream_id),
        length-put ts,
        length-put stream_id,
        index_byte-delimiter term numbers plain,
        take-front term (0 ∷ numbers),
        drop-behind term 0 numbers,
        get_uint64-put ts (put_uint64 stream_id) time,
        drop-put ts (put_uint64 stream_id),
        get_uint64-put_last stream_id stream,
      )
