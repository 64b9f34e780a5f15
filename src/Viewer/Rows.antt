-- ===== src/Viewer/Rows.antt =====
-- Rows of web/src/components/LogViewer.jsx: which are expanded, and which are drawn as new.
use hackathon.Common.{
  ℕ, ◌<◌, Bool, true, false, not, Option, some, List, [], ◌∷◌, ◌++◌, ◌≡◌, ◌≢◌, refl, sym, ap, ◌∙◌,
  arith, Str, str_eq, str_eq_iff, filter, length, get_elem?, str_eq_refl, subst, if◌then◌else◌, ltb,
}
use hackathon.Query.Normalize.{Times, DisplayLog}
use hackathon.Search.Client.{Body, resolved}
use hackathon.App.{App, Search, get_search, finish_query, shown_lines}
use hackathon.App.Live.{flush}
use hackathon.Viewer.Stamp.{UtcDate}
use hackathon.Viewer.{Viewer, has, toggle_expand, row_at, log_row}

has-append : (x : Str) (xs ys : List Str) → has x (xs ++ ys) ≡ (if has x xs then true else has x ys)
has-append x [] ys = refl
has-append x (y ∷ xs) ys = let rest = has-append x xs ys in ground arith

has-filter :
    (x : Str) (p : Str → Bool) (xs : List Str)
    → ((y : Str) → str_eq y x ≡ true → p y ≡ p x)
    → has x (filter p xs) ≡ (if p x then has x xs else false)
has-filter x p [] h = ground arith
has-filter x p (y ∷ xs) h = let rest = has-filter x p xs h in let same = h y in ground arith

same_text : (x y id : Str) → str_eq x id ≡ true → str_eq y x ≡ str_eq y id
same_text x y id e = ap (str_eq y) ((str_eq_iff x id).0 e)

str_eq_sym : (x y : Str) → str_eq x y ≡ str_eq y x
str_eq_sym x y = let f = str_eq_iff x y in let g = str_eq_iff y x in ground arith

has_same : (x id : Str) (xs : List Str) → str_eq x id ≡ true → has x xs ≡ has id xs
has_same x id xs e = ap (λ y. has y xs) ((str_eq_iff x id).0 e)

has-single : (x id : Str) → has x (id ∷ []) ≡ str_eq x id
has-single x id = let s = str_eq_sym x id in ground arith

kept_alike : (x id y : Str) → str_eq y x ≡ true → not (str_eq y id) ≡ not (str_eq x id)
kept_alike x id y e = ap (λ z. not (str_eq z id)) ((str_eq_iff y x).0 e)

toggle_expand-has :
    (id x : Str) (v : Viewer)
    → has x (toggle_expand id v).expanded_ids
      ≡ (if str_eq x id then not (has id v.expanded_ids) else has x v.expanded_ids)
unfolding toggle_expand
toggle_expand-has id x v =
    let kept = has-filter x (λ y. not (str_eq y id)) v.expanded_ids (kept_alike x id) in
    let added = has-append x v.expanded_ids (id ∷ []) in
    let one = has-single x id in let same = has_same x id v.expanded_ids in ground arith

-- A click on a row expands or folds the rows of its id and no others, and a second click undoes the
-- first.
pub toggle_expand_rows :
    (id x : Str) (v : Viewer)
    → (has x (toggle_expand id v).expanded_ids
        ≡ (if str_eq x id then not (has id v.expanded_ids) else has x v.expanded_ids))
      × (has x (toggle_expand id (toggle_expand id v)).expanded_ids ≡ has x v.expanded_ids)
toggle_expand_rows id x v =
    let once = toggle_expand-has id x v in
    let own = toggle_expand-has id id v in
    let twice = toggle_expand-has id x (toggle_expand id v) in
    let same = has_same x id v.expanded_ids in let itself = str_eq_refl id in (once, ground arith)

module _ (times : Times) (date_of : Str → Option UtcDate) where
  counted_result :
      (i now : ℕ) (a : App) {s : Search} (b : Body)
      → a.new_count_ref ≡ 0
      → a.buffer_ref ≢ []
      → get_search i a.searches ≡ some s
      → let c = finish_query times i now (resolved b) (flush a) in
        (c.logs ≡ shown_lines times s b now) × (c.new_log_count ≡ length a.buffer_ref)
  unfolding finish_query flush
  counted_result i now a b fresh filled waits = ground arith

  row_at-new :
      (a : App) (v : Viewer) (j : ℕ) {l : DisplayLog}
      → get_elem? a.logs j ≡ some l
      → j < a.new_log_count
      → row_at date_of a v j ≡ some (l.id, log_row date_of l (has l.id v.expanded_ids) a.query true)
  unfolding row_at
  row_at-new a v j {l} there new =
      let below : ltb j a.new_log_count ≡ true = ground arith in rw (there, below, row_at) refl

  -- When the live tail's buffer is flushed between the start of a search and its result, the first
  -- lines of the result are drawn as new, as many as were flushed, and the flushed lines are gone.
  pub search_marked_new :
      (i now j : ℕ) (a : App) (v : Viewer) {s : Search} (b : Body) {l : DisplayLog}
      → a.new_count_ref ≡ 0
      → get_search i a.searches ≡ some s
      → j < length a.buffer_ref
      → get_elem? (shown_lines times s b now) j ≡ some l
      → let c = finish_query times i now (resolved b) (flush a) in
        (c.logs ≡ shown_lines times s b now)
        × (row_at date_of c v j
            ≡ some (l.id, log_row date_of l (has l.id v.expanded_ids) c.query true))
  search_marked_new i now j a v {s} b {l} fresh waits below there =
      let c = finish_query times i now (resolved b) (flush a) in
      let filled : a.buffer_ref ≢ [] = λ e. omega (arith, ap length e) in
      let (lines, count) = counted_result i now a b fresh filled waits in
      (
        lines,
        row_at-new c v j (ap (λ ls. get_elem? ls j) lines ∙ there)
            (subst (λ n. j < n) (sym count) below),
      )
