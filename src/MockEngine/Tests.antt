-- ===== src/MockEngine/Tests.antt =====
-- A connection of scripts/mock_go_engine.js at concrete bytes.
use hackathon.Common.{ℕ, List, [], ◌∷◌, ◌≡◌, refl, arith, codes}
use hackathon.MockEngine.{
  Codec, created, reply, receive_all, on_data, answer, expected, read_uint32_be, frame,
  write_uint32_be,
}
use hackathon.MockEngine.Frames.{request_answered_once}

abbrev echo : Codec
echo = record { decode = λ bytes. bytes; encode = λ p. codes "ok" }

abbrev chunks : List (List ℕ × ℕ)
chunks = (0 ∷ 0 ∷ [], 1) ∷ (0 ∷ 3 ∷ 7 ∷ [], 2) ∷ (8 ∷ 9 ∷ [], 5) ∷ []

answered : (receive_all echo chunks created).written ≡ (0 ∷ 0 ∷ 0 ∷ 2 ∷ b'o' ∷ b'k' ∷ []) ∷ []
unfolding receive_all on_data answer expected read_uint32_be frame write_uint32_be
answered = refl

request_answered_once_example :
    (now : ℕ) × ((receive_all echo chunks created).written ≡ reply echo (7 ∷ 8 ∷ 9 ∷ []) now ∷ [])
unfolding frame write_uint32_be
request_answered_once_example =
    request_answered_once echo (7 ∷ 8 ∷ 9 ∷ []) chunks (omega arith)
      ((λ e. cc), ((λ e. cc), ((λ e. cc), tt))) refl
