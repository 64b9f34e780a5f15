-- ===== src/Engine/Keys/Order.antt =====
-- The order of LevelDB's comparer on the keys of engine/internal/storage/schema.go.
use hackathon.Common.{
  ℕ, ◌+◌, ◌*◌, ◌/◌, ◌%◌, ◌^◌, ◌<◌, Bool, true, false, [], ◌∷◌, ◌++◌, ◌≡◌, refl, append_assoc,
  append-nil, arith, ltb, ◌==◌, if◌then◌else◌,
}
use hackathon.Engine.Keys.{Bytes, put_uint64, put_uint32, encode_index_key}

-- `bytes.Compare(s, t) < 0`
unfoldable pub bytes_less : Bytes → Bytes → Bool
bytes_less s [] = false
bytes_less [] (y ∷ t) = true
bytes_less (x ∷ s) (y ∷ t) = if ltb x y then true else if ltb y x then false else bytes_less s t

-- The digits below compare as `r` does where they are equal.
digit_less : (b x n y m : ℕ) → n < b → x < y → x * b + n < y * b + m
digit_less b x n y m h lt = grind arith

module _ (r : Bool) where
  abbrev OrdersAs : ℕ → ℕ → Bytes → Bytes → Type 0
  OrdersAs n m s t = bytes_less s t ≡ (if n == m then r else ltb n m)

  -- `n` and `m` have the digits `x` and `y` to the base `b`, above `n'` and `m'`.
  digit-order :
      (b x n' y m' n m : ℕ) (s t : Bytes)
      → n ≡ x * b + n'
      → m ≡ y * b + m'
      → n' < b
      → m' < b
      → OrdersAs n' m' s t
      → OrdersAs n m (x ∷ s) (y ∷ t)
  unfolding bytes_less
  digit-order b x n' y m' n m s t en em hn hm below =
      ground (arith, digit_less b x n' y m' hn, digit_less b y m' x n' hm, below)

put_uint32-order :
    (n m : ℕ) (s t : Bytes)
    → n < 2 ^ 32
    → m < 2 ^ 32
    → OrdersAs (bytes_less s t) n m (put_uint32 n ++ s) (put_uint32 m ++ t)
unfolding put_uint32
put_uint32-order n m s t hn hm =
    let r = bytes_less s t in
    let p0 =
      digit-order r 1 (n % 256) 0 (m % 256) 0 (n % 256) (m % 256) s t (omega arith) (omega arith)
        (omega arith) (omega arith) refl in
    let p1 =
      digit-order r 256 (n / 256 % 256) (n % 256) (m / 256 % 256) (m % 256) (n % 65536) (m % 65536)
        (n % 256 ∷ s) (m % 256 ∷ t) (omega arith) (omega arith) (omega arith) (omega arith) p0 in
    let p2 =
      digit-order r 65536 (n / 65536 % 256) (n % 65536) (m / 65536 % 256) (m % 65536) (n % 16777216)
        (m % 16777216) (n / 256 % 256 ∷ n % 256 ∷ s) (m / 256 % 256 ∷ m % 256 ∷ t) (omega arith)
        (omega arith) (omega arith) (omega arith) p1 in
    digit-order r 16777216 (n / 16777216 % 256) (n % 16777216) (m / 16777216 % 256) (m % 16777216) n
      m _ _ (omega arith) (omega arith) (omega arith) (omega arith) p2

pub put_uint64-order :
    (n m : ℕ) (s t : Bytes)
    → n < 2 ^ 64
    → m < 2 ^ 64
    → bytes_less (put_uint64 n ++ s) (put_uint64 m ++ t)
      ≡ (if n == m then bytes_less s t else ltb n m)
unfolding put_uint64
put_uint64-order n m s t hn hm =
    let low = put_uint32-order (n % 2 ^ 32) (m % 2 ^ 32) s t (omega arith) (omega arith) in
    let high =
      put_uint32-order (n / 2 ^ 32) (m / 2 ^ 32) (put_uint32 (n % 2 ^ 32) ++ s)
        (put_uint32 (m % 2 ^ 32) ++ t) (omega arith) (omega arith) in
    ground (
      arith,
      low,
      high,
      append_assoc (put_uint32 (n / 2 ^ 32)) (put_uint32 (n % 2 ^ 32)) s,
      append_assoc (put_uint32 (m / 2 ^ 32)) (put_uint32 (m % 2 ^ 32)) t,
    )

bytes_less-front : (p s t : Bytes) → bytes_less (p ++ s) (p ++ t) ≡ bytes_less s t
unfolding bytes_less
bytes_less-front [] s t = refl
bytes_less-front (x ∷ p) s t = ground (arith, bytes_less-front p s t)

-- Index keys of one term come in the order of their times and, at one time, of their streams, as
-- unsigned numbers.
pub encode_index_key-order :
    (term : Bytes) (ts stream_id ts' stream_id' : ℕ)
    → ts < 2 ^ 64
    → stream_id < 2 ^ 64
    → ts' < 2 ^ 64
    → stream_id' < 2 ^ 64
    → bytes_less (encode_index_key term ts stream_id) (encode_index_key term ts' stream_id')
      ≡ (if ts == ts' then ltb stream_id stream_id' else ltb ts ts')
unfolding encode_index_key bytes_less
encode_index_key-order term ts stream_id ts' stream_id' h1 h2 h3 h4 =
    let streams = put_uint64-order stream_id stream_id' [] [] h2 h4 in
    ground (
      arith,
      bytes_less-front term (0 ∷ (put_uint64 ts ++ put_uint64 stream_id))
          (0 ∷ (put_uint64 ts' ++ put_uint64 stream_id')),
      put_uint64-order ts ts' (put_uint64 stream_id) (put_uint64 stream_id') h1 h3,
      append-nil (put_uint64 stream_id),
      append-nil (put_uint64 stream_id'),
      streams,
    )
