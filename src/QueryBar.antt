-- ===== src/QueryBar.antt =====
-- web/src/components/QueryBar.jsx with the handlers that web/src/App.jsx gives it, and TIME_RANGES
-- of web/src/lib/mockData.js. A page is the application, the bar's own state and the element that
-- has the focus. The document's key handlers of the bar and of the application see every key.
pub mod View
pub mod Shown
pub mod Ranges
pub mod Keys
pub mod Tests
use hackathon.Common.{
  ℕ, Bool, true, false, not, ◌||◌, ◌&&◌, Option, none, some, List, [], ◌∷◌, Str, codes, ◌==◌,
  str_eq, if◌then◌else◌,
}
use hackathon.App.{App, run_query}
use hackathon.App.Live.{on_time_range_change, on_live_toggle, on_query_change, on_key}

pub record TimeRange : Type 0 where
  pub label : Str
  pub minutes : ℕ

-- `TIME_RANGES`
abbrev pub time_ranges : List TimeRange
time_ranges =
    record { label = codes "Last 5m"; minutes = 5 }
    ∷ record { label = codes "Last 15m"; minutes = 15 }
    ∷ record { label = codes "Last 1h"; minutes = 60 }
    ∷ record { label = codes "Last 6h"; minutes = 360 }
    ∷ record { label = codes "Last 24h"; minutes = 1440 }
    ∷ []

-- The element with the focus: the query's input, one of the two others, or another one by its tag.
pub data Focus : Type 0 where
  query_input : Focus
  custom_input : Focus
  element : (tag : Str) → Focus

abbrev pub tag_of : Focus → Str
tag_of query_input = codes "INPUT"
tag_of custom_input = codes "INPUT"
tag_of (element tag) = tag

pub record Page : Type 0 where
  pub app : App
  pub show_time_menu : Bool
  pub custom_from : Str
  pub custom_to : Str
  pub focus : Focus

abbrev pub find_range : ℕ → List TimeRange → TimeRange → TimeRange
find_range m [] d = d
find_range m (r ∷ rs) d = if r.minutes == m then r else find_range m rs d

-- `selectedRange`
unfoldable pub selected_range : ℕ → TimeRange
selected_range time_range =
    find_range time_range time_ranges (record { label = codes "Last 15m"; minutes = 15 })

abbrev pub is_query_input : Focus → Bool
is_query_input query_input = true
is_query_input custom_input = false
is_query_input (element tag) = false

-- The effect's handler for a `key`. `blur` leaves the focus to the body, if the input has it.
unfoldable pub handler : Str → Page → Page
handler key p =
    if str_eq key (codes "/") && not (is_query_input p.focus)
    then record p { focus = query_input }
    else if str_eq key (codes "Escape")
    then record p {
      show_time_menu = false;
      focus = if is_query_input p.focus then element (codes "BODY") else p.focus;
    }
    else p

-- A key that is pressed: the bar's handler, whose effect runs first, then the application's, which
-- looks at the focus after it, with the key's `code`.
unfoldable pub press : Str → Str → Page → Page
unfolding handler on_key
press key code p = let q = handler key p in record q { app = on_key (tag_of q.focus) code q.app }

-- The handlers of the query's input: `onChange` and `onKeyDown`.
unfoldable pub type_query : Str → Page → Page
type_query value p = record p { app = on_query_change value p.app; focus = query_input }

unfoldable pub press_in_input : Str → ℕ → Page → Page
unfolding run_query
press_in_input key now p =
    if str_eq key (codes "Enter") then record p { app = run_query none none now p.app } else p

-- A click on the button, which is disabled while a search is loading.
unfoldable pub click_run : ℕ → Page → Page
unfolding run_query
click_run now p = if p.app.is_loading then p else record p { app = run_query none none now p.app }

-- Whether the button shows `Running…`.
abbrev pub shows_running : Page → Bool
shows_running p = p.app.is_loading

unfoldable pub click_time : Page → Page
click_time p = record p { show_time_menu = not p.show_time_menu }

-- A click on a range of the menu, which is there while it is open.
unfoldable pub choose_range : TimeRange → ℕ → Page → Page
unfolding on_time_range_change
choose_range r now p =
    if p.show_time_menu
    then record p { app = on_time_range_change r.minutes now p.app; show_time_menu = false }
    else p

unfoldable pub type_from : Str → Page → Page
type_from value p = record p { custom_from = value; focus = custom_input }

unfoldable pub type_to : Str → Page → Page
type_to value p = record p { custom_to = value; focus = custom_input }

-- `Apply Custom Range`
unfoldable pub apply_custom : Page → Page
apply_custom p = record p { show_time_menu = false }

-- The live tail's box with the label in it, and the slider and the checkbox in the label.
pub data LiveElement : Type 0 where
  box label slider checkbox : LiveElement

-- An `onClick`, and whether it stops the event.
pub record Handler : Type 0 where
  pub does : App → App
  pub stops : Bool

abbrev pub box_handler : ℕ → Handler
box_handler now = record { does = on_live_toggle now; stops = false }

-- `e => e.stopPropagation()`
abbrev pub checkbox_handler : Handler
checkbox_handler = record { does = λ a. a; stops = true }

-- The `onClick` of each element from the target of a click outwards, up to the box.
abbrev pub path_of : ℕ → LiveElement → List (Option Handler)
path_of now box = some (box_handler now) ∷ []
path_of now label = none ∷ some (box_handler now) ∷ []
path_of now slider = none ∷ none ∷ some (box_handler now) ∷ []
path_of now checkbox = some checkbox_handler ∷ none ∷ some (box_handler now) ∷ []

-- A click bubbles until a handler stops it.
unfoldable pub bubble : List (Option Handler) → App → App
bubble [] a = a
bubble (none ∷ path) a = bubble path a
bubble (some h ∷ path) a = if h.stops then h.does a else bubble path (h.does a)

-- A click on the checkbox, by the user or by its label: the `onClick`s, and `onChange`.
unfoldable pub click_checkbox : ℕ → App → App
unfolding bubble on_live_toggle
click_checkbox now a = on_live_toggle now (bubble (path_of now checkbox) a)

-- A click on one of the elements. What is in the label has the label click the checkbox when its own
-- click has bubbled, whether or not a handler stopped it.
unfoldable pub click_on : ℕ → LiveElement → Page → Page
unfolding bubble click_checkbox
click_on now box p = record p { app = bubble (path_of now box) p.app }
click_on now label p = record p { app = click_checkbox now (bubble (path_of now label) p.app) }
click_on now slider p = record p { app = click_checkbox now (bubble (path_of now slider) p.app) }
click_on now checkbox p = record p { app = click_checkbox now p.app }
