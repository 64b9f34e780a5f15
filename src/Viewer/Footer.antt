-- ===== src/Viewer/Footer.antt =====
-- The footer of web/src/components/LogViewer.jsx.
-- `toLocaleString` is the parameter `locale`.
use hackathon.Common.Double.Quotient.{double_quotient, fixed_digits}
use hackathon.App.Answers.{Answered, execution_time_zero}
use hackathon.App.Url.{UrlState, mount}
use hackathon.Query.Normalize.{Times}
use hackathon.Common.{
  ℕ, suc, ◌-◌, ◌^◌, Bool, ◌||◌, arith, Option, none, some, ◌∷◌, ◌++◌, Str, codes, ltb, ◌==◌, length,
  ◌≡◌, take, drop, if◌then◌else◌, str_eq,
}
use hackathon.Common.Number.{decimal}
use hackathon.App.{App}
use hackathon.Viewer.Stamp.{pad_start}

-- `toFixed(places)` of a quotient.
unfoldable pub to_fixed : ℕ → ℕ → Str
unfolding fixed_digits pad_start
to_fixed places x =
    let digits = pad_start (suc places) (decimal (fixed_digits (10 ^ places) x)) in
    let whole = length digits - places in take whole digits ++ (b'.' ∷ drop whole digits)

-- The text of the execution time, where there is one.
unfoldable pub execution_text : ℕ → Option Str
unfolding to_fixed double_quotient
execution_text ns =
    if ns == 0
    then none
    else if ltb ns 1000000
    then some (to_fixed 1 (double_quotient ns 1000) ++ codes " µs query")
    else some (to_fixed 2 (double_quotient ns 1000000) ++ codes " ms query")

pub record Footer : Type 0 where
  pub lines : Str
  pub engine : Bool  -- `● engine`
  pub execution : Option Str
  pub live : Bool  -- `Live tail active`

-- The footer, which stands under the lines only.
unfoldable pub footer : (ℕ → Str) → Str → App → Option Footer
unfolding execution_text str_eq
footer locale data_source a =
    if a.is_loading || length a.logs == 0
    then none
    else some (record {
      lines = locale (length a.logs) ++ codes " lines";
      engine = str_eq data_source (codes "engine");
      execution = execution_text a.execution_time_ns;
      live = a.is_live;
    })

-- While the answers to the page's searches come from the endpoint or do not come, whatever else
-- happens, no footer shows an execution time: the endpoint sends none.
pub execution_time_hidden :
    (times : Times) (locale : ℕ → Str) (data_source : Str) (u : UrlState) (now : ℕ) {a : App}
    {f : Footer}
    → Answered times (mount u now) a
    → footer locale data_source a ≡ some f
    → f.execution ≡ none
unfolding footer
execution_time_hidden times locale data_source u now {a} {f} r shown =
    let zero = execution_time_zero times u now r in ground arith
