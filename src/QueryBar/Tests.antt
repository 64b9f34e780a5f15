-- ===== src/QueryBar/Tests.antt =====
-- The bar of web/src/components/QueryBar.jsx at concrete inputs.
use hackathon.Common.{true, [], ◌∷◌, ◌++◌, ◌≡◌, codes}
use hackathon.App.Tests.{waiting}
use hackathon.QueryBar.{Page, TimeRange, element, slider, click_on}
use hackathon.QueryBar.Ranges.{sent, live_clicks}

abbrev open_page : Page
open_page = record {
  app = waiting;
  show_time_menu = true;
  custom_from = [];
  custom_to = [];
  focus = element (codes "BODY");
}

abbrev last_hour : TimeRange
last_hour = record { label = codes "Last 1h"; minutes = 60 }

live_clicks_example :
    ((click_on 9 slider open_page).app.is_live ≡ true)
    × ((click_on 9 slider open_page).app.searches
        ≡ waiting.searches ++ (sent (codes "timeout") 15 9 ∷ sent (codes "timeout") 15 9 ∷ []))
live_clicks_example = live_clicks 9 slider open_page
