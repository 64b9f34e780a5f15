-- ===== src/Query/Filters.antt =====
-- `applyLabelFilters` of web/src/lib/queryParser.js.
use hackathon.Common.{
  Str, codes, str_eq, if◌then◌else◌, Bool, true, ◌&&◌, List, [], ◌∷◌, ◌++◌, ◌≡◌, refl, sym, ap, ◌∙◌,
  arith, all, filter,
}
use hackathon.Query.{Label}
use hackathon.Query.Normalize.{DisplayLog, Meta, MetaValue, text, number}
use hackathon.Common.Number.{decimal}

abbrev pub meta_text : MetaValue → Str
meta_text (text s) = s
meta_text (number n) = decimal n

-- `String(log.meta?.[key] ?? '')`; properties that every object inherits are left out.
unfoldable pub lookup_meta : Meta → Str → Str
lookup_meta [] k = []
lookup_meta ((j, v) ∷ m) k = if str_eq j k then meta_text v else lookup_meta m k

unfoldable pub has_label : DisplayLog → Label → Bool
has_label log l =
    if str_eq l.key (codes "host")
    then str_eq log.host l.value
    else if str_eq l.key (codes "app")
    then str_eq log.app l.value
    else if str_eq l.key (codes "env")
    then str_eq log.env l.value
    else str_eq (lookup_meta log.meta l.key) l.value

unfoldable pub apply_label_filters : List DisplayLog → List Label → List DisplayLog
apply_label_filters logs [] = logs
apply_label_filters logs (l ∷ ls) = filter (λ log. all (has_label log) (l ∷ ls)) logs

abbrev fits : List Label → DisplayLog → Bool
fits ls log = all (has_label log) ls

filter-true :
    (p : DisplayLog → Bool) (logs : List DisplayLog)
    → ((x : DisplayLog) → p x ≡ true)
    → filter p logs ≡ logs
filter-true p [] h = refl
filter-true p (x ∷ logs) h = rw (h x, filter-true p logs h)

-- Without the shortcut for no labels.
pub filters_plain :
    (logs : List DisplayLog) (ls : List Label) → apply_label_filters logs ls ≡ filter (fits ls) logs
unfolding apply_label_filters
filters_plain logs [] = sym (filter-true (fits []) logs (λ x. refl))
filters_plain logs (l ∷ ls) = refl

fits-append : (ls ms : List Label) (x : DisplayLog) → fits (ls ++ ms) x ≡ (fits ls x && fits ms x)
fits-append [] ms x = refl
fits-append (l ∷ ls) ms x = ground (arith, fits-append ls ms x)

filter-append_fits :
    (ls ms : List Label) (logs : List DisplayLog)
    → filter (fits (ls ++ ms)) logs ≡ filter (fits ms) (filter (fits ls) logs)
filter-append_fits ls ms [] = refl
filter-append_fits ls ms (x ∷ logs) =
    ground (arith, fits-append ls ms x, filter-append_fits ls ms logs)

-- Filtering by two lists of labels is filtering by the one and then by the other.
pub apply_label_filters-append :
    (logs : List DisplayLog) (ls ms : List Label)
    → apply_label_filters logs (ls ++ ms) ≡ apply_label_filters (apply_label_filters logs ls) ms
apply_label_filters-append logs ls ms =
    filters_plain logs (ls ++ ms)
    ∙ filter-append_fits ls ms logs
    ∙ sym (filters_plain (filter (fits ls) logs) ms)
    ∙ ap (λ kept. apply_label_filters kept ms) (sym (filters_plain logs ls))
