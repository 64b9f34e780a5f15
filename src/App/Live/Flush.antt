-- ===== src/App/Live/Flush.antt =====
-- The flush of the live tail's buffer in web/src/App.jsx.
use hackathon.Common.{
  take_front, ℕ, zero, suc, ◌+◌, ◌≤◌, List, [], ◌∷◌, ◌++◌, ◌≡◌, ◌≢◌, refl, sym, ap, ◌∙◌, ◌⊎◌, inl,
  inr, arith, length, take, length-append,
}
use hackathon.App.{App}
use hackathon.App.Live.{flush, live_max_lines, slice_lines}
use hackathon.Query.Normalize.{DisplayLog}

take_all {ℓ} : {A : Type ℓ} (n : ℕ) (xs : List A) → length xs ≤ n → take n xs ≡ xs
take_all zero [] h = refl
take_all zero (x ∷ xs) h = elim h [ ]
take_all (suc n) [] h = refl
take_all (suc n) (x ∷ xs) h = ap (◌∷◌ x) (take_all n xs (omega arith))

slice_lines_room : (xs : List DisplayLog) → length xs ≤ live_max_lines → slice_lines xs ≡ xs
unfolding slice_lines
slice_lines_room xs h = take_all live_max_lines xs h

slice_lines_front :
    (xs ys : List DisplayLog)
    → live_max_lines ≤ length xs
    → slice_lines (xs ++ ys) ≡ take live_max_lines xs
unfolding slice_lines
slice_lines_front xs ys h = take_front live_max_lines xs ys h

flush_logs : (a : App) → a.buffer_ref ≢ [] → (flush a).logs ≡ slice_lines (a.buffer_ref ++ a.logs)
unfolding flush
flush_logs a filled = ground arith

flush_empty : (a : App) → a.buffer_ref ≡ [] → (flush a).logs ≡ a.logs
unfolding flush
flush_empty a empty = ground arith

flush_buffer : (a : App) → (flush a).buffer_ref ≡ []
unfolding flush
flush_buffer a = ground arith

flush_count : (a : App) → (flush a).new_count_ref ≡ a.new_count_ref + length a.buffer_ref
unfolding flush
flush_count a = ground arith

nil-or-filled {ℓ} : {A : Type ℓ} (xs : List A) → (xs ≡ []) ⊎ (xs ≢ [])
nil-or-filled [] = inl refl
nil-or-filled (x ∷ xs) = inr (λ e. cc)

flush_all :
    (a : App)
    → length a.buffer_ref + length a.logs ≤ live_max_lines
    → (flush a).logs ≡ a.buffer_ref ++ a.logs
flush_all a room = elim (nil-or-filled a.buffer_ref) [
  | inl empty ↦ flush_empty a empty ∙ ap (λ b. b ++ a.logs) (sym empty)
  | inr filled ↦
      let fits : length (a.buffer_ref ++ a.logs) ≤ live_max_lines =
        omega (arith, length-append a.buffer_ref a.logs) in
      flush_logs a filled ∙ slice_lines_room (a.buffer_ref ++ a.logs) fits
]

-- While there is room, a flush puts the lines of the buffer in front of the others and loses none,
-- empties the buffer, and adds its length to the count of new lines.
pub flush_room :
    (a : App)
    → length a.buffer_ref + length a.logs ≤ live_max_lines
    → ((flush a).logs ≡ a.buffer_ref ++ a.logs)
      × ((flush a).buffer_ref ≡ [])
      × ((flush a).new_count_ref ≡ a.new_count_ref + length a.buffer_ref)
flush_room a room = (flush_all a room, flush_buffer a, flush_count a)

length-ne-nil : (xs : List DisplayLog) → xs ≡ [] → live_max_lines ≤ length xs → ⊥
length-ne-nil xs empty full = let none_there : length xs ≡ 0 = ap length empty in omega arith

-- Where the buffer holds 5000 lines or more, a flush keeps the first 5000 that came, and drops the
-- lines that came last along with all that were shown.
pub flush_overflow :
    (a : App)
    → live_max_lines ≤ length a.buffer_ref
    → (flush a).logs ≡ take live_max_lines a.buffer_ref
flush_overflow a full =
    flush_logs a (λ empty. length-ne-nil a.buffer_ref empty full)
    ∙ slice_lines_front a.buffer_ref a.logs full
