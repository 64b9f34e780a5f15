-- ===== src/App/Status.antt =====
-- The row of status texts of web/src/App.jsx: the state of the live tail, and what was understood of
-- the query.
use hackathon.Common.{
  Bool, Option, none, some, List, [], ◌∷◌, ◌++◌, ◌≡◌, refl, ap, ◌∙◌, Str, codes, if◌then◌else◌,
  str_eq, All, append_assoc,
}
use hackathon.Query.{Label, ParsedQuery, parse_query}
use hackathon.Query.Labels.{IsLabel, write_labels}
use hackathon.Query.Terms.{IsTerm}
use hackathon.Query.RoundTrip.{write_query, parse_query-write_query}
use hackathon.App.{App, SocketState, off, connecting, connected, failed, told}

abbrev pub state_text : SocketState → Str
state_text off = codes "off"
state_text connecting = codes "connecting"
state_text connected = codes "connected"
state_text failed = codes "error"
state_text (told s) = s

-- What the row of status texts shows of a live page: the text, and whether it is green.
unfoldable pub live_status : App → Option (Str × Bool)
unfolding str_eq
live_status a =
    let state = state_text a.socket_state in
    if a.is_live then some (codes "Live tail " ++ state, str_eq state (codes "connected")) else none

abbrev label_text : Label → Str
label_text l = l.key ++ (codes "=\"" ++ (l.value ++ codes "\""))

abbrev pub labels_text : List Label → Str
labels_text [] = []
labels_text (l ∷ []) = label_text l
labels_text (l ∷ m ∷ ls) = label_text l ++ (codes ", " ++ labels_text (m ∷ ls))

-- The breakdown of the query: its primary term in quotes, and its labels, if it has any.
abbrev pub breakdown_of : ParsedQuery → Option (Str × Option Str)
breakdown_of p = elim p.primary_term [
  | [] ↦ none
  | c ∷ s ↦ some (
    b'"' ∷ c ∷ (s ++ codes "\""),
    elim p.labels [ [] ↦ none | l ∷ ls ↦ some (labels_text (l ∷ ls)) ],
  )
]

unfoldable pub breakdown : Str → Option (Str × Option Str)
breakdown query = breakdown_of (parse_query query)

labels_text-write : (l : Label) (ls : List Label) → labels_text (l ∷ ls) ≡ write_labels (l ∷ ls)
labels_text-write l [] = refl
labels_text-write l (m ∷ ls) =
    ap (λ x. label_text l ++ (codes ", " ++ x)) (labels_text-write m ls)
    ∙ append_assoc l.key (b'=' ∷ b'"' ∷ (l.value ++ codes "\"")) _
    ∙ ap (λ x. l.key ++ (b'=' ∷ b'"' ∷ x)) (append_assoc l.value (codes "\"") _)

-- Of a query that is written as `{key="value", …} | "term" OR …` the row shows the first term in
-- quotes and the labels as they stand between the braces.
pub breakdown-write_query :
    (l : Label) (ls : List Label) (t : Str) (us : List Str)
    → All IsLabel (l ∷ ls)
    → IsTerm t
    → All IsTerm us
    → breakdown (write_query (l ∷ ls) t us)
      ≡ some (b'"' ∷ (t ++ codes "\""), some (write_labels (l ∷ ls)))
unfolding breakdown
breakdown-write_query l ls [] us h k m = absurd (k.0 refl)
breakdown-write_query l ls (c ∷ t) us h k m =
    ap breakdown_of (parse_query-write_query (l ∷ ls) (c ∷ t) us h k m)
    ∙ ap (λ x. some (b'"' ∷ c ∷ (t ++ codes "\""), some x)) (labels_text-write l ls)
