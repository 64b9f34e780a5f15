-- ===== src/MockEngine/Frames.antt =====
-- A request of scripts/mock_go_engine.js that comes in chunks.
use hackathon.Common.{
  join-single, take_front, drop_front, length-drop, append-nil, ℕ, ◌+◌, ◌≤◌, ◌<◌, Option, none,
  some, List, [], ◌∷◌, ◌++◌, ◌≡◌, ◌≢◌, refl, sym, ap, ◌∙◌, arith, ◌⊎◌, inl, inr, ltb, Bool-cases,
  length, take, drop, join, length-append, append_assoc, All,
}
use hackathon.MockEngine.{
  Codec, Connection, created, read_uint32_be, frame, expected, answer, reply, on_data, receive_all,
}
use hackathon.MockEngine.Bytes.{
  read_uint32_be-write, read_uint32_be-append, length-frame, frame-body,
}

abbrev pub bytes_of : List (List ℕ × ℕ) → List ℕ
bytes_of [] = []
bytes_of ((c, now) ∷ more) = c ++ bytes_of more

-- No length was read, or that of the request.
abbrev IsKnown : Option ℕ → ℕ → Type 0
IsKnown none n = Unit
IsKnown (some m) n = m ≡ n

read_prefix :
    (buf rest bytes : List ℕ)
    → length bytes < 4294967296
    → buf ++ rest ≡ frame bytes
    → 4 ≤ length buf
    → read_uint32_be buf ≡ length bytes
unfolding frame
read_prefix buf rest bytes small whole long =
    sym (read_uint32_be-append buf rest long)
    ∙ ap read_uint32_be whole
    ∙ read_uint32_be-write (length bytes) bytes small

expected-IsKnown :
    (o : Option ℕ) (buf rest bytes : List ℕ)
    → length bytes < 4294967296
    → buf ++ rest ≡ frame bytes
    → IsKnown o (length bytes)
    → IsKnown (expected o buf) (length bytes)
unfolding expected
expected-IsKnown (some m) buf rest bytes small whole h = h
expected-IsKnown none buf rest bytes small whole h =
    let read = read_prefix buf rest bytes small whole in ground arith

expected-long :
    (o : Option ℕ) (buf rest bytes : List ℕ)
    → length bytes < 4294967296
    → buf ++ rest ≡ frame bytes
    → IsKnown o (length bytes)
    → 4 ≤ length buf
    → expected o buf ≡ some (length bytes)
unfolding expected
expected-long (some m) buf rest bytes small whole h long = ap some h
expected-long none buf rest bytes small whole h long =
    let read = read_prefix buf rest bytes small whole long in ground arith

short_not_long : (m n : ℕ) → m ≡ n → m < n → ⊥
short_not_long m n e h = omega arith

short-or-long : (m n : ℕ) → (m < n) ⊎ (n ≤ m)
short-or-long m n = elim (Bool-cases (ltb m n)) [
  | inl h ↦ inl (ground arith)
  | inr h ↦ inr (ground arith)
]

module _ (codec : Codec) where
  answer-early :
      (o : Option ℕ) (n now : ℕ) (buf : List ℕ)
      → IsKnown o n
      → length buf < 4 + n
      → answer codec o buf now ≡ []
  unfolding answer
  answer-early none n now buf known early = refl
  answer-early (some m) n now buf known early = ground arith

  answer-full :
      (n now : ℕ) (buf : List ℕ)
      → 4 + n ≤ length buf
      → answer codec (some n) buf now ≡ reply codec (take n (drop 4 buf)) now ∷ []
  unfolding answer
  answer-full n now buf full = ground arith

  answer-whole :
      (now : ℕ) (bytes : List ℕ)
      → answer codec (some (length bytes)) (frame bytes) now ≡ reply codec bytes now ∷ []
  answer-whole now bytes =
      answer-full (length bytes) now (frame bytes) (omega (arith, length-frame bytes))
      ∙ ap (λ b. reply codec b now ∷ []) (frame-body bytes)

  -- The state of a connection that has not answered the request yet.
  record IsWaiting (bytes : List ℕ) (c : Connection) : Type 0 where
    known : IsKnown c.expected_len (length bytes)
    silent : c.written ≡ []

  module _ (bytes : List ℕ) (small : length bytes < 4294967296) where
    on_data-early :
        (chunk rest : List ℕ) (now : ℕ) (c : Connection)
        → join (c.chunks ++ chunk ∷ []) ++ rest ≡ frame bytes
        → length (join (c.chunks ++ chunk ∷ [])) < 4 + length bytes
        → IsWaiting bytes c
        → IsWaiting bytes (on_data codec chunk now c)
    unfolding on_data
    on_data-early chunk rest now c whole early w =
        let buf = join (c.chunks ++ chunk ∷ []) in
        let known = expected-IsKnown c.expected_len buf rest bytes small whole w.known in
        record {
          known = known;
          silent =
              ap (λ x. c.written ++ x)
                (answer-early (expected c.expected_len buf) (length bytes) now buf known early)
              ∙ ap (λ x. x ++ []) w.silent;
        }

    on_data-last :
        (chunk : List ℕ) (now : ℕ) (c : Connection)
        → join (c.chunks ++ chunk ∷ []) ≡ frame bytes
        → IsWaiting bytes c
        → (on_data codec chunk now c).written ≡ reply codec bytes now ∷ []
    unfolding on_data
    on_data-last chunk now c whole w =
        let buf = join (c.chunks ++ chunk ∷ []) in
        let long : 4 ≤ length buf = omega (arith, ap length whole, length-frame bytes) in
        let len =
          expected-long c.expected_len buf [] bytes small (append-nil buf ∙ whole) w.known long in
        ap (λ o. c.written ++ answer codec o buf now) len
        ∙ ap (λ b. c.written ++ answer codec (some (length bytes)) b now) whole
        ∙ ap (λ x. c.written ++ x) (answer-whole now bytes)
        ∙ ap (λ x. x ++ reply codec bytes now ∷ []) w.silent

    no_more :
        (more : List (List ℕ × ℕ))
        → All (λ d. d.0 ≢ []) more
        → length (bytes_of more) ≡ 0
        → more ≡ []
    no_more [] filled h = refl
    no_more (([], now) ∷ more) (filled, rest) h = absurd (filled refl)
    no_more (((x ∷ d), now) ∷ more) (filled, rest) h = cc

    answered_last :
        (chunk : List ℕ) (more : List (List ℕ × ℕ)) (now : ℕ) (c : Connection)
        → All (λ d. d.0 ≢ []) more
        → join (c.chunks ++ chunk ∷ []) ++ bytes_of more ≡ frame bytes
        → 4 + length bytes ≤ length (join (c.chunks ++ chunk ∷ []))
        → IsWaiting bytes c
        → (receive_all codec more (on_data codec chunk now c)).written ≡ reply codec bytes now ∷ []
    unfolding receive_all
    answered_last chunk more now c filled whole long w =
        let buf = join (c.chunks ++ chunk ∷ []) in
        let nothing : length (bytes_of more) ≡ 0 =
          omega (arith, length-append buf (bytes_of more), ap length whole, length-frame bytes) in
        let none_left = no_more more filled nothing in
        let complete : buf ≡ frame bytes =
          sym (append-nil buf) ∙ ap (λ m. buf ++ bytes_of m) (sym none_left) ∙ whole in
        ap (λ m. (receive_all codec m (on_data codec chunk now c)).written) none_left
        ∙ on_data-last chunk now c complete w

    receive_all-waiting :
        (chunks : List (List ℕ × ℕ)) (c : Connection)
        → All (λ d. d.0 ≢ []) chunks
        → join c.chunks ++ bytes_of chunks ≡ frame bytes
        → length (join c.chunks) < 4 + length bytes
        → IsWaiting bytes c
        → (now : ℕ) × ((receive_all codec chunks c).written ≡ reply codec bytes now ∷ [])
    unfolding receive_all
    receive_all-waiting [] c filled whole early w =
        let short : length (join c.chunks) ≡ 4 + length bytes =
          ap length (sym (append-nil (join c.chunks)) ∙ whole) ∙ length-frame bytes in
        absurd (short_not_long _ _ short early)
    receive_all-waiting ((chunk, now) ∷ more) c (f, filled) whole early w =
        let whole' : join (c.chunks ++ chunk ∷ []) ++ bytes_of more ≡ frame bytes =
          ap (λ b. b ++ bytes_of more) (join-single c.chunks chunk)
          ∙ append_assoc (join c.chunks) chunk (bytes_of more)
          ∙ whole in
        elim (short-or-long (length (join (c.chunks ++ chunk ∷ []))) (4 + length bytes)) [
          | inl early' ↦
              receive_all-waiting more (on_data codec chunk now c) filled (unfold on_data in whole')
                (unfold on_data in early')
                (on_data-early chunk (bytes_of more) now c whole' early' w)
          | inr long ↦ (now, answered_last chunk more now c filled whole' long w)
        ]

  -- A request that comes in chunks, none of them empty, in any division, is answered once, with the
  -- reply to its bytes, when it is complete; it has less than 2 ^ 32 bytes.
  pub request_answered_once :
      (bytes : List ℕ) (chunks : List (List ℕ × ℕ))
      → length bytes < 4294967296
      → All (λ d. d.0 ≢ []) chunks
      → bytes_of chunks ≡ frame bytes
      → (now : ℕ) × ((receive_all codec chunks created).written ≡ reply codec bytes now ∷ [])
  request_answered_once bytes chunks small filled whole =
      receive_all-waiting bytes small chunks created filled whole (omega arith)
        (record { known = tt; silent = refl })

  body_stays :
      (n : ℕ) (buf chunk : List ℕ)
      → 4 + n ≤ length buf
      → take n (drop 4 (buf ++ chunk)) ≡ take n (drop 4 buf)
  body_stays n buf chunk full =
      ap (take n) (drop_front 4 buf chunk (omega arith))
      ∙ take_front n (drop 4 buf) chunk (omega (arith, length-drop 4 buf (omega arith)))

  on_data-known :
      (chunk : List ℕ) (now n : ℕ) (c : Connection)
      → c.expected_len ≡ some n
      → (on_data codec chunk now c).written
        ≡ c.written ++ answer codec (some n) (join (c.chunks ++ chunk ∷ [])) now
  unfolding on_data expected
  on_data-known chunk now n c known =
      ap
        (λ o.
          let buf = join (c.chunks ++ chunk ∷ []) in
          c.written ++ answer codec (expected o buf) buf now)
        known

  -- A chunk that comes behind a complete request has the same request answered again.
  pub answered_again :
      (chunk : List ℕ) (now n : ℕ) (c : Connection)
      → c.expected_len ≡ some n
      → 4 + n ≤ length (join c.chunks)
      → (on_data codec chunk now c).written
        ≡ c.written ++ reply codec (take n (drop 4 (join c.chunks))) now ∷ []
  answered_again chunk now n c known full =
      let buf = join c.chunks in
      let longer : 4 + n ≤ length (buf ++ chunk) = omega (arith, length-append buf chunk) in
      on_data-known chunk now n c known
      ∙ ap (λ b. c.written ++ answer codec (some n) b now) (join-single c.chunks chunk)
      ∙ ap (λ x. c.written ++ x) (answer-full n now (buf ++ chunk) longer)
      ∙ ap (λ b. c.written ++ reply codec b now ∷ []) (body_stays n buf chunk full)
