-- ===== src/QueryBar/View.antt =====
-- What web/src/components/QueryBar.jsx shows of a page: texts, and the colours that depend on the
-- page. The texts that are always there are left out.
use hackathon.Common.{ℕ, Bool, Option, none, some, List, map, Str, codes, ◌==◌, if◌then◌else◌}
use hackathon.QueryBar.{Page, TimeRange, time_ranges, selected_range}

-- A range of the menu.
pub record MenuItem : Type 0 where
  pub label : Str
  pub background : Str
  pub colour : Str

abbrev pub menu_item : ℕ → TimeRange → MenuItem
menu_item time_range r = record {
  label = r.label;
  background = if time_range == r.minutes then codes "rgba(6,182,212,0.1)" else codes "none";
  colour = if time_range == r.minutes then codes "#06b6d4" else codes "#94a3b8";
}

pub record Menu : Type 0 where
  pub items : List MenuItem
  pub from : Str
  pub to : Str

-- `showTimeMenu && …`
unfoldable pub menu : Page → Option Menu
menu p =
    if p.show_time_menu
    then some (record {
      items = map (menu_item p.app.time_range) time_ranges;
      from = p.custom_from;
      to = p.custom_to;
    })
    else none

-- The box of the live tail.
pub record LiveBox : Type 0 where
  pub background : Str
  pub border : Str
  pub pulses : Bool
  pub colour : Str
  pub checked : Bool

unfoldable pub live_box : Page → LiveBox
live_box p =
    let live = p.app.is_live in
    record {
      background = if live then codes "rgba(6,182,212,0.08)" else codes "#1a2235";
      border = if live then codes "1px solid rgba(6,182,212,0.35)" else codes "1px solid #27364b";
      pulses = live;
      colour = if live then codes "#06b6d4" else codes "#6b7280";
      checked = live;
    }

pub record Bar : Type 0 where
  pub query : Str
  pub run_text : Str
  pub run_disabled : Bool
  pub range_text : Str
  pub menu : Option Menu
  pub live : LiveBox

unfoldable pub query_bar : Page → Bar
unfolding selected_range menu live_box
query_bar p = record {
  query = p.app.query;
  run_text = if p.app.is_loading then codes "Running…" else codes "RUN QUERY";
  run_disabled = p.app.is_loading;
  range_text = (selected_range p.app.time_range).label;
  menu = menu p;
  live = live_box p;
}
