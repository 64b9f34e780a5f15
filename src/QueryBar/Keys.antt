-- ===== src/QueryBar/Keys.antt =====
-- The keys of web/src/components/QueryBar.jsx and web/src/App.jsx together.
use hackathon.Common.{ℕ, true, false, [], ◌∷◌, ◌++◌, ◌≡◌, refl, ap, ◌∙◌, arith, codes, str_eq}
use hackathon.App.{run_query}
use hackathon.App.Live.{toggle_live, on_key}
use hackathon.QueryBar.{Page, query_input, element, handler, press, press_in_input, click_run}
use hackathon.QueryBar.Ranges.{sent}

abbrev slash : Page → Page
slash p = press (codes "/") (codes "Slash") p

abbrev escape : Page → Page
escape p = press (codes "Escape") (codes "Escape") p

abbrev space : Page → Page
space p = press (codes " ") (codes "Space") p

slash-page : (p : Page) → ((slash p).app ≡ p.app) × ((slash p).focus ≡ query_input)
unfolding press handler on_key str_eq
slash-page p = ground arith

space_in_input : (p : Page) → p.focus ≡ query_input → (space p).app ≡ p.app
unfolding press handler on_key str_eq
space_in_input p h = ground arith

escape-page :
    (p : Page)
    → p.focus ≡ query_input
    → ((escape p).app ≡ p.app)
      × ((escape p).focus ≡ element (codes "BODY"))
      × ((escape p).show_time_menu ≡ false)
unfolding press handler on_key str_eq
escape-page p h = ground arith

space_outside :
    (p : Page)
    → p.focus ≡ element (codes "BODY")
    → ((space p).app ≡ toggle_live p.app) × ((space p).show_time_menu ≡ p.show_time_menu)
unfolding press handler on_key str_eq
space_outside p h = ground arith

-- Behind a /, Space is text in the query's input and leaves the application as it is. Behind an
-- Escape after that, which also closes the time menu, Space turns the live tail on or off.
pub space_behind_slash :
    (p : Page)
    → ((space (slash p)).app ≡ p.app)
      × ((space (escape (slash p))).app ≡ toggle_live p.app)
      × ((space (escape (slash p))).show_time_menu ≡ false)
space_behind_slash p =
    let (app, focused) = slash-page p in
    let (app', focused', closed) = escape-page (slash p) focused in
    let (live, closed') = space_outside (escape (slash p)) focused' in
    (space_in_input (slash p) focused ∙ app, live ∙ ap toggle_live (app' ∙ app), closed' ∙ closed)

-- While a search is loading, a click on the button does nothing, but Enter in the query's input
-- sends another search, beside those that wait.
pub enter_while_loading :
    (now : ℕ) (p : Page)
    → p.app.is_loading ≡ true
    → (click_run now p ≡ p)
      × ((press_in_input (codes "Enter") now p).app.searches
          ≡ p.app.searches ++ sent p.app.query p.app.time_range now ∷ [])
unfolding click_run press_in_input run_query str_eq
enter_while_loading now p loading = (ground arith, refl)
