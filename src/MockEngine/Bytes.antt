-- ===== src/MockEngine/Bytes.antt =====
-- The length in front of a message of scripts/mock_go_engine.js, and the chunks of a buffer.
use hackathon.Common.{
  ℕ, ◌+◌, ◌≤◌, ◌<◌, List, [], ◌∷◌, ◌++◌, ◌≡◌, refl, ap, arith, length, take, drop,
}
use hackathon.MockEngine.{read_uint32_be, write_uint32_be, frame}

pub read_uint32_be-write :
    (n : ℕ) (s : List ℕ) → n < 4294967296 → read_uint32_be (write_uint32_be n ++ s) ≡ n
unfolding read_uint32_be write_uint32_be
read_uint32_be-write n s h = omega arith

pub read_uint32_be-append :
    (xs ys : List ℕ) → 4 ≤ length xs → read_uint32_be (xs ++ ys) ≡ read_uint32_be xs
unfolding read_uint32_be
read_uint32_be-append (a ∷ b ∷ c ∷ d ∷ xs) ys h = refl
read_uint32_be-append [] ys h = ground arith
read_uint32_be-append (a ∷ []) ys h = ground arith
read_uint32_be-append (a ∷ b ∷ []) ys h = ground arith
read_uint32_be-append (a ∷ b ∷ c ∷ []) ys h = ground arith

pub length-frame : (bytes : List ℕ) → length (frame bytes) ≡ 4 + length bytes
unfolding frame write_uint32_be
length-frame bytes = omega arith

pub take-length {ℓ} : {A : Type ℓ} (xs : List A) → take (length xs) xs ≡ xs
take-length [] = refl
take-length (x ∷ xs) = ap (◌∷◌ x) (take-length xs)

pub frame-body : (bytes : List ℕ) → take (length bytes) (drop 4 (frame bytes)) ≡ bytes
unfolding frame write_uint32_be
frame-body bytes = take-length bytes
