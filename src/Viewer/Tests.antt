-- ===== src/Viewer/Tests.antt =====
-- The table of web/src/components/LogViewer.jsx at concrete inputs.
use hackathon.Common.{
  true, false, some, none, Option, [], ◌∷◌, ◌≡◌, refl, codes, Str, List, join, str_eq, is_space,
  inr,
}
use hackathon.Query.Tests.{plain_times, raw_entry, shown}
use hackathon.Query.{parse_query, labels_in}
use hackathon.Regex.{exec, exec_all, split, replace_all, is_dot}
use hackathon.Search.{Answer, found}
use hackathon.Search.Client.{Body, no_body, http_of, search_logs}
use hackathon.Common.Double.{to_double, ulp}
use hackathon.Common.Double.Quotient.{double_quotient, fixed_digits}
use hackathon.App.Answers.{here, next}
use hackathon.App.Url.{mount}
use hackathon.Viewer.Footer.{Footer, footer, execution_text, to_fixed, execution_time_hidden}
use hackathon.Query.Filters.{apply_label_filters}
use hackathon.Query.Normalize.{DisplayLog, normalize_log_entry}
use hackathon.App.{App, normalize_all, finish_query}
use hackathon.App.Live.{settled}
use hackathon.App.Tests.{page, search, opening}
use hackathon.Viewer.{Viewer}
use hackathon.Common.Number.{decimal}
use hackathon.Viewer.Stamp.{UtcDate, stamp, pad_start}
use hackathon.Viewer.Highlight.{
  Piece, highlight_terms, highlight_text, mark_parts, test, any_word, word, term_unit,
}
use hackathon.Viewer.Pieces.{join-highlight_text, texts_of}

abbrev piece : List Str → List Piece
piece [] = []
piece (t ∷ []) = record { marked = false; text = t } ∷ []
piece (t ∷ u ∷ ts) =
    record { marked = false; text = t } ∷ record { marked = true; text = u } ∷ piece ts

highlighted :
    highlight_text (codes "Disk error: DISK full") (codes "{} | \"disk\" or x")
    ≡ piece (codes "" ∷ codes "Disk" ∷ codes " error: " ∷ codes "DISK" ∷ codes " full" ∷ [])
unfolding highlight_text highlight_terms mark_parts test split replace_all is_space any_word word
    term_unit is_dot
highlighted = refl

-- A full stop of a term stands for any unit.
full_stop :
    highlight_text (codes "port 8x80") (codes "8.80")
    ≡ piece (codes "port " ∷ codes "8x80" ∷ codes "" ∷ [])
unfolding highlight_text highlight_terms mark_parts test split replace_all is_space any_word word
    term_unit is_dot
full_stop = refl

join-highlight_text_example :
    join (texts_of (highlight_text (codes "Disk error") (codes "error"))) ≡ codes "Disk error"
join-highlight_text_example = join-highlight_text (codes "Disk error") (codes "error")

abbrev viewer : Viewer
viewer = record { expanded_ids = codes "a" ∷ []; auto_scroll = true; scrolled_to = [] }

abbrev body : Body
body = record no_body { logs = raw_entry "found" ∷ [] }

abbrev no_date : Str → Option UtcDate
no_date s = none

abbrev new_year : UtcDate
new_year = record { month = 0; day = 1; hours = 9; minutes = 30; seconds = 5; milliseconds = 42 }

stamped : stamp new_year ≡ codes "01-01 09:30:05.042Z"
unfolding stamp decimal
stamped = refl

abbrev found_line : DisplayLog
found_line = normalize_log_entry plain_times (raw_entry "found") 0 7

abbrev live_page : App
live_page = record (page [] (shown "b" ∷ []) (search ∷ [])) { new_count_ref = 0; new_log_count = 0 }

short_times :
    (execution_text 0 ≡ none)
    × (execution_text 50 ≡ some (codes "0.1 µs query"))
    × (execution_text 1450 ≡ some (codes "1.4 µs query"))
    × (execution_text 85000 ≡ some (codes "85.0 µs query"))
    × (execution_text 2345678 ≡ some (codes "2.35 ms query"))
unfolding execution_text to_fixed fixed_digits double_quotient to_double ulp pad_start decimal
short_times = (refl, refl, refl, refl, refl)

abbrev found_one : Answer
found_one =
    found 1 (codes "1") (record { timestamp_nano = codes "7"; message = codes "timeout" } ∷ [])

abbrev answered_page : App
answered_page = finish_query plain_times 0 6 (search_logs (http_of found_one)) (mount opening 5)

abbrev one_line : Footer
one_line = record { lines = codes "1 lines"; engine = true; execution = none; live = true }

execution_time_hidden_example : one_line.execution ≡ none
unfolding footer finish_query search_logs mount apply_label_filters decimal str_eq normalize_all
    execution_text parse_query labels_in exec exec_all
execution_time_hidden_example =
    execution_time_hidden plain_times decimal (codes "engine") opening 5 {a = answered_page}
      {f = one_line}
      (next here (settled 0 6 (search_logs (http_of found_one)) refl) (inr (found_one, refl))) refl
