-- ===== src/QueryBar/Ranges.antt =====
-- The time menu and the live tail's slider of web/src/components/QueryBar.jsx.
use hackathon.Common.{
  ℕ, Bool, true, false, not, some, List, [], ◌∷◌, ◌++◌, ◌≡◌, refl, ap, ◌∙◌, zero, suc, get_elem?,
  arith, Str, All, append_assoc, if◌then◌else◌,
}
use hackathon.Query.{parse_query}
use hackathon.Search.Client.{search_params}
use hackathon.App.{App, Search, run_query}
use hackathon.App.Live.{on_live_toggle, on_time_range_change}
use hackathon.QueryBar.{
  Page, TimeRange, time_ranges, selected_range, choose_range, LiveElement, box, label, slider,
  checkbox, click_on, click_checkbox, bubble,
}

-- What `runQuery` sends for a query and a number of minutes.
abbrev pub sent : Str → ℕ → ℕ → Search
sent query minutes now = record {
  request = search_params (parse_query query).primary_term minutes now 500;
  labels = (parse_query query).labels;
}

choose_range-page :
    (r : TimeRange) (now : ℕ) (p : Page)
    → p.show_time_menu ≡ true
    → ((choose_range r now p).app.time_range ≡ r.minutes)
      × ((choose_range r now p).show_time_menu ≡ false)
      × ((choose_range r now p).app.searches
          ≡ p.app.searches ++ sent p.app.query r.minutes now ∷ [])
unfolding choose_range on_time_range_change run_query
choose_range-page r now p open_ = ground arith

selected_range-own : All (λ r. selected_range r.minutes ≡ r) time_ranges
unfolding selected_range
selected_range-own = (refl, (refl, (refl, (refl, (refl, tt)))))

pub All-get_elem? {ℓ κ} :
    {A : Type ℓ} (P : A → Type κ) (xs : List A) (i : ℕ) {x : A}
    → All P xs
    → get_elem? xs i ≡ some x
    → P x
All-get_elem? P [] i h e = cc
All-get_elem? P (y ∷ xs) zero (p, h) e = ground arith
All-get_elem? P (y ∷ xs) (suc i) (p, h) e = All-get_elem? P xs i h e

-- A range that is chosen in the open menu is the one that the bar then shows as selected; the menu
-- is closed, and a search of that many minutes up to now is sent for the query.
pub chosen_range_selected :
    (i now : ℕ) (p : Page) {r : TimeRange}
    → p.show_time_menu ≡ true
    → get_elem? time_ranges i ≡ some r
    → (selected_range (choose_range r now p).app.time_range ≡ r)
      × ((choose_range r now p).show_time_menu ≡ false)
      × ((choose_range r now p).app.searches
          ≡ p.app.searches ++ sent p.app.query r.minutes now ∷ [])
chosen_range_selected i now p {r} open_ there =
    let (range, closed, asked) = choose_range-page r now p open_ in
    let own =
      All-get_elem? (λ x. selected_range x.minutes ≡ x) time_ranges i selected_range-own there in
    (ap selected_range range ∙ own, closed, asked)

on_live_toggle-fields :
    (now : ℕ) (a : App)
    → ((on_live_toggle now a).is_live ≡ not a.is_live)
      × ((on_live_toggle now a).searches ≡ a.searches ++ sent a.query a.time_range now ∷ [])
      × ((on_live_toggle now a).query ≡ a.query)
      × ((on_live_toggle now a).time_range ≡ a.time_range)
unfolding on_live_toggle
on_live_toggle-fields now a = ground arith

-- The elements whose click the label passes on to the checkbox.
abbrev pub is_passed_on : LiveElement → Bool
is_passed_on box = false
is_passed_on label = true
is_passed_on slider = true
is_passed_on checkbox = false

not-not : (b : Bool) → not (not b) ≡ b
not-not true = refl
not-not false = refl

toggled_twice :
    (now : ℕ) (a : App)
    → ((on_live_toggle now (on_live_toggle now a)).is_live ≡ a.is_live)
      × ((on_live_toggle now (on_live_toggle now a)).searches
          ≡ a.searches ++ (sent a.query a.time_range now ∷ sent a.query a.time_range now ∷ []))
toggled_twice now a =
    let b = on_live_toggle now a in
    let (live, asked, query, range) = on_live_toggle-fields now a in
    let (live', asked', query', range') = on_live_toggle-fields now b in
    (
      live' ∙ ap not live ∙ not-not a.is_live,
      asked'
          ∙ ap (λ ss. ss ++ sent b.query b.time_range now ∷ []) asked
          ∙ append_assoc a.searches _ _
          ∙ ap (λ s. a.searches ++ (sent a.query a.time_range now ∷ s ∷ []))
              (ap (λ q. sent q b.time_range now) query ∙ ap (λ m. sent a.query m now) range),
    )

-- A click on the live tail's box, or on its checkbox itself, turns the live tail on or off and sends
-- one search; a click on the label or its slider leaves the live tail as it was and sends the search
-- twice.
pub live_clicks :
    (now : ℕ) (target : LiveElement) (p : Page)
    → ((click_on now target p).app.is_live
        ≡ (if is_passed_on target then p.app.is_live else not p.app.is_live))
      × ((click_on now target p).app.searches
          ≡ p.app.searches
            ++ sent p.app.query p.app.time_range now
              ∷ (if is_passed_on target then sent p.app.query p.app.time_range now ∷ [] else []))
unfolding click_on click_checkbox bubble
live_clicks now box p = let (live, asked, _, _) = on_live_toggle-fields now p.app in (live, asked)
live_clicks now label p = toggled_twice now p.app
live_clicks now slider p = toggled_twice now p.app
live_clicks now checkbox p =
    let (live, asked, _, _) = on_live_toggle-fields now p.app in (live, asked)
