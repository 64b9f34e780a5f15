-- ===== src/Viewer.antt =====
-- web/src/components/LogViewer.jsx: the state of the table of lines, its handlers, and what is
-- shown of it. The library that draws the rows in sight only is told of by the scrolls that it is
-- asked for; it draws a row for each index that it chooses. Styles are left out but for the class
-- names and colours that depend on the line.
pub mod Footer
pub mod Highlight
pub mod Pieces
pub mod Rows
pub mod Stamp
pub mod Tests
use hackathon.Common.{
  ℕ, Bool, true, false, not, ◌&&◌, Option, none, some, List, [], ◌∷◌, ◌++◌, Str, codes, ltb, ◌==◌,
  length, get_elem?, if◌then◌else◌, str_eq, filter,
}
use hackathon.Common.Number.{decimal}
use hackathon.Query.Normalize.{
  Level, critical, error, warn, info, debug, trace, DisplayLog, MetaValue, text, number,
}
use hackathon.App.{App}
use hackathon.Viewer.Stamp.{UtcDate, format_timestamp}
use hackathon.Viewer.Highlight.{Piece, highlight_text}

-- `LEVEL_BADGE`
unfoldable pub level_badge : Level → Str
level_badge critical = codes "badge-critical"
level_badge error = codes "badge-error"
level_badge warn = codes "badge-warn"
level_badge info = codes "badge-info"
level_badge debug = codes "badge-debug"
level_badge trace = codes "badge-trace"

-- `ROW_BORDER`
unfoldable pub row_border : Level → Str
row_border critical = codes "log-row-critical"
row_border error = codes "log-row-error"
row_border warn = codes "log-row-warn"
row_border info = codes "log-row-info"
row_border debug = codes "log-row-debug"
row_border trace = codes "log-row-trace"

-- `LEVEL_BG`
unfoldable pub level_bg : Level → Str
level_bg critical = codes "rgba(239,68,68,0.06)"
level_bg error = codes "rgba(239,68,68,0.04)"
level_bg warn = codes "rgba(245,158,11,0.04)"
level_bg info = codes "transparent"
level_bg debug = codes "transparent"
level_bg trace = codes "transparent"

-- The hooks of `LogViewer`. `scrolled_to` are the indices that the virtualizer was asked for.
pub record Viewer : Type 0 where
  pub expanded_ids : List Str
  pub auto_scroll : Bool
  pub scrolled_to : List ℕ

abbrev pub has : Str → List Str → Bool
has id [] = false
has id (x ∷ xs) = if str_eq x id then true else has id xs

unfoldable pub toggle_expand : Str → Viewer → Viewer
toggle_expand id v = record v {
  expanded_ids =
      if has id v.expanded_ids
      then filter (λ x. not (str_eq x id)) v.expanded_ids
      else v.expanded_ids ++ id ∷ [];
}

unfoldable pub handle_scroll : ℕ → Viewer → Viewer
handle_scroll scroll_top v = record v { auto_scroll = not (ltb 80 scroll_top) }

-- The effect after a render in which the number of lines, the live tail or the flag has changed.
unfoldable pub auto_scroll_effect : App → Viewer → Viewer
auto_scroll_effect a v =
    if a.is_live && v.auto_scroll && ltb 0 (length a.logs)
    then record v { scrolled_to = v.scrolled_to ++ 0 ∷ [] }
    else v

-- A click on the bar that tells of new lines.
unfoldable pub show_new : Viewer → Viewer
show_new v = record v { scrolled_to = v.scrolled_to ++ 0 ∷ []; auto_scroll = true }

unfoldable pub estimate_size : Viewer → List DisplayLog → ℕ → ℕ
estimate_size v logs i = elim (get_elem? logs i) [
  | none ↦ 27
  | some l ↦ if has l.id v.expanded_ids then 130 else 27
]

-- A row: `LogRow` with its props. The panel is there while the row is expanded.
pub record Row : Type 0 where
  pub border : Str
  pub background : Str
  pub timestamp : Str
  pub badge : Str
  pub host : Str
  pub message : List Piece
  pub app : Str
  pub panel : Option (List (Str × Str))

-- `Object.entries(meta)` with `String(v)`.
unfoldable pub meta_panel : List (Str × MetaValue) → List (Str × Str)
meta_panel [] = []
meta_panel ((k, text s) ∷ m) = (k, s) ∷ meta_panel m
meta_panel ((k, number n) ∷ m) = (k, decimal n) ∷ meta_panel m

module _ (date_of : Str → Option UtcDate) where
  unfoldable pub log_row : DisplayLog → Bool → Str → Bool → Row
  unfolding row_border level_bg level_badge meta_panel highlight_text format_timestamp
  log_row log is_expanded query is_new = record {
    border = row_border log.level;
    background =
        if is_expanded
        then codes "#131d2e"
        else if is_new
        then codes "rgba(6,182,212,0.05)"
        else level_bg log.level;
    timestamp = format_timestamp date_of log.timestamp;
    badge = codes "badge " ++ level_badge log.level;
    host = log.host;
    message = highlight_text log.message query;
    app = log.app;
    panel = if is_expanded then some (meta_panel log.meta) else none;
  }

  -- The row at an index that the virtualizer draws, with the id that is its key.
  unfoldable pub row_at : App → Viewer → ℕ → Option (Str × Row)
  unfolding log_row
  row_at a v i = elim (get_elem? a.logs i) [
    | none ↦ none
    | some log ↦
        some (log.id, log_row log (has log.id v.expanded_ids) a.query (ltb i a.new_log_count))
  ]

-- What stands under the table's header.
pub data Content : Type 0 where
  skeleton : Content
  no_logs : Content
  table : (new_bar : Option Str) → (lines : ℕ) → Content

-- The text of the bar for new lines.
abbrev pub new_text : ℕ → Str
new_text n =
    decimal n
    ++ (codes " new log"
        ++ ((if n == 1 then [] else codes "s") ++ codes " — click to scroll to top"))

unfoldable pub content : App → Viewer → Content
content a v =
    if a.is_loading
    then skeleton
    else if length a.logs == 0
    then no_logs
    else table
        (if a.is_live && not v.auto_scroll && ltb 0 a.new_log_count
          then some (new_text a.new_log_count)
          else none)
        (length a.logs)
