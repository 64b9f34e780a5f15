-- ===== src/QueryBar/Shown.antt =====
-- What the bar of web/src/components/QueryBar.jsx shows when a range has been chosen.
use hackathon.Common.{
  ℕ, true, none, some, List, [], ◌∷◌, ◌++◌, map, filter, ◌≡◌, refl, ap, ◌∙◌, arith, Str, codes, All,
  get_elem?, str_eq,
}
use hackathon.App.Live.{on_time_range_change}
use hackathon.App.{run_query}
use hackathon.QueryBar.{Page, TimeRange, time_ranges, selected_range, choose_range, click_time}
use hackathon.QueryBar.Ranges.{sent, All-get_elem?, chosen_range_selected}
use hackathon.QueryBar.View.{MenuItem, menu_item, Menu, menu, query_bar}

-- The labels of the ranges that stand out.
abbrev pub marked_labels : List MenuItem → List Str
marked_labels items = map (λ i. i.label) (filter (λ i. str_eq i.colour (codes "#06b6d4")) items)

abbrev pub items_for : ℕ → List MenuItem
items_for minutes = map (menu_item minutes) time_ranges

marked_own : All (λ r. marked_labels (items_for r.minutes) ≡ r.label ∷ []) time_ranges
unfolding str_eq
marked_own = (refl, (refl, (refl, (refl, (refl, tt)))))

choose_range-bar :
    (r : TimeRange) (now : ℕ) (p : Page)
    → p.show_time_menu ≡ true
    → let q = choose_range r now p in
      ((query_bar q).menu ≡ none)
      × ((query_bar q).run_text ≡ codes "Running…")
      × ((query_bar q).run_disabled ≡ true)
      × ((query_bar q).query ≡ p.app.query)
unfolding query_bar choose_range on_time_range_change run_query menu
choose_range-bar r now p open_ = ground arith

reopened :
    (r : TimeRange) (now : ℕ) (p : Page)
    → p.show_time_menu ≡ true
    → menu (click_time (choose_range r now p))
      ≡ some (record { items = items_for r.minutes; from = p.custom_from; to = p.custom_to })
unfolding menu click_time choose_range on_time_range_change run_query
reopened r now p open_ = ground arith

range_text-selected :
    (p : Page) → (query_bar p).range_text ≡ (selected_range p.app.time_range).label
unfolding query_bar
range_text-selected p = refl

-- A range that is chosen in the open menu: a search of that many minutes up to now is sent for the
-- query, the menu is closed, the button for it has the range's label, and the button for running is
-- off and says so; and in the menu, opened again with its two texts, this range and no other stands
-- out.
pub chosen_range_shown :
    (i now : ℕ) (p : Page) {r : TimeRange}
    → p.show_time_menu ≡ true
    → get_elem? time_ranges i ≡ some r
    → let q = choose_range r now p in
      (m : Menu) × (q.app.searches ≡ p.app.searches ++ sent p.app.query r.minutes now ∷ [])
      × ((query_bar q).range_text ≡ r.label)
      × ((query_bar q).menu ≡ none)
      × ((query_bar q).run_text ≡ codes "Running…")
      × ((query_bar q).run_disabled ≡ true)
      × ((query_bar q).query ≡ p.app.query)
      × (menu (click_time q) ≡ some m)
      × (marked_labels m.items ≡ r.label ∷ [])
      × (m.from ≡ p.custom_from)
      × (m.to ≡ p.custom_to)
chosen_range_shown i now p {r} open_ there =
    let (selected, _, asked) = chosen_range_selected i now p open_ there in
    let (closed, running, disabled, query) = choose_range-bar r now p open_ in
    let own =
      All-get_elem? (λ x. marked_labels (items_for x.minutes) ≡ x.label ∷ []) time_ranges i
        marked_own there in
    (
      record { items = items_for r.minutes; from = p.custom_from; to = p.custom_to },
      asked,
      range_text-selected (choose_range r now p) ∙ ap (λ x. x.label) selected,
      closed,
      running,
      disabled,
      query,
      reopened r now p open_,
      own,
      refl,
      refl,
    )
