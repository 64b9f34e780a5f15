-- ===== src/Query/Loops.antt =====
-- The loops over `re.exec` in `parseQuery` of web/src/lib/queryParser.js.
use hackathon.Common.{ℕ, ◌<◌, some, ◌≡◌, Str, length, is_word}
use hackathon.Regex.{unit, star, group, plus, exec_all, is_unit}
use hackathon.Regex.Loop.{exec_loop, exec_loop-ends}
use hackathon.Regex.Moves.{Moves, unit-Moves, seq-Moves, group-Moves}
use hackathon.Query.{label_pair, quoted}

label_pair-Moves : Moves label_pair
label_pair-Moves =
    seq-Moves (group 1 (plus is_word)) _
      (group-Moves 1 (plus is_word) (seq-Moves (unit is_word) (star is_word) (unit-Moves is_word)))

quoted-Moves : Moves quoted
quoted-Moves = seq-Moves (unit (is_unit b'"')) _ (unit-Moves (is_unit b'"'))

-- The two loops over `re.exec`, which go on where the last match ended, end: on any text, one round
-- for each unit and one more are enough, and they have then found what `exec_all` finds.
pub loops_end :
    (fuel : ℕ) (s : Str)
    → length s < fuel
    → (exec_loop fuel label_pair 0 s ≡ some (exec_all label_pair s))
      × (exec_loop fuel quoted 0 s ≡ some (exec_all quoted s))
unfolding exec_all
loops_end fuel s enough = (
  exec_loop-ends label_pair label_pair-Moves fuel 0 s enough,
  exec_loop-ends quoted quoted-Moves fuel 0 s enough,
)
