-- ===== src/Address.antt =====
-- Addresses: `URLSearchParams`, `URL` and `Number` as web/src/App.jsx, web/src/lib/api.js and
-- server/src/server.js use them. They are parameters, with what the code relies on as their laws.
use hackathon.Common.{
  ℕ, ◌^◌, ◌≤◌, ◌<◌, arith, refl, ap, ◌∙◌, leb, ◌&&◌, map, Bool, true, false, ◌||◌, List, [], ◌∷◌,
  ◌++◌, ◌≡◌, Str, codes, str_eq, is_word, ◌==◌, if◌then◌else◌, All,
}
use hackathon.Common.Number.{decimal}

-- The surrogates, which are a scalar value only in pairs of a high and a low one.
abbrev pub is_high : ℕ → Bool
is_high c = leb 55296 c && leb c 56319

abbrev pub is_low : ℕ → Bool
is_low c = leb 56320 c && leb c 57343

-- A unit that has no partner.
abbrev pub scalar : ℕ → ℕ
scalar c = if is_high c || is_low c then 65533 else c

-- The conversion to a USVString: U+FFFD in place of each surrogate that has no partner.
unfoldable pub usv : Str → Str
usv [] = []
usv (c ∷ []) = scalar c ∷ []
usv (c ∷ d ∷ s) = elim (is_high c && is_low d) [
  | true ↦ c ∷ d ∷ usv s
  | false ↦ scalar c ∷ usv (d ∷ s)
]

pub usv-plain : (s : Str) → All (λ c. c < 55296) s → usv s ≡ s
unfolding usv
usv-plain [] h = refl
usv-plain (c ∷ []) h = ground (arith, h.0)
usv-plain (c ∷ d ∷ s) h =
    let low : (is_high c && is_low d) ≡ false = ground (arith, h.0) in
    let same : scalar c ≡ c = ground (arith, h.0) in
    rw (low, usv) (ap (λ x. x ∷ usv (d ∷ s)) same ∙ ap (◌∷◌ c) (usv-plain (d ∷ s) h.1))

abbrev pub usv_params : List (Str × Str) → List (Str × Str)
usv_params ps = map (λ p. (usv p.0, usv p.1)) ps

-- Parameters written to a query string are read back as USVStrings, and a whole number that a double
-- holds is read from its text.
pub record Params : Type 0 where
  pub to_string : List (Str × Str) → Str
  pub parse : Str → List (Str × Str)
  pub number : Str → ℕ
  pub parse-to_string : (ps : List (Str × Str)) → parse (to_string ps) ≡ usv_params ps
  pub number-decimal : (n : ℕ) → n ≤ 2 ^ 53 → number (decimal n) ≡ n

-- `p.get(key) || ''`
abbrev pub get_param : Str → List (Str × Str) → Str
get_param k [] = []
get_param k ((j, v) ∷ ps) = if str_eq j k then v else get_param k ps

-- The units of a host with its port, and of the paths in the source.
abbrev pub is_host : ℕ → Bool
is_host c = is_word c || c == b'-' || c == b'.' || c == b':' || c == b'[' || c == b']'

abbrev pub is_path : ℕ → Bool
is_path c = is_word c || c == b'/'

abbrev pub AreUnits : (ℕ → Bool) → Str → Type 0
AreUnits p = All (λ c. p c ≡ true)

abbrev pub socket_scheme : Bool → Str
socket_scheme true = codes "wss:"
socket_scheme false = codes "ws:"

-- `target` is what a browser asks the host of a socket's URL for; `pathname` and `search`, without
-- its `?`, are the parts of such a target as `new URL(target, base)` has them.
pub record Urls (params : Params) : Type 0 where
  pub target : Str → Str
  pub pathname : Str → Str
  pub search : Str → Str
  pub target-url :
      (secure : Bool) (host path : Str) (ps : List (Str × Str))
      → AreUnits is_host host
      → AreUnits is_path path
      → target (
          socket_scheme secure
          ++ (codes "//" ++ (host ++ (b'/' ∷ (path ++ (b'?' ∷ params.to_string ps))))))
        ≡ b'/' ∷ (path ++ (b'?' ∷ params.to_string ps))
  pub pathname-target :
      (path : Str) (ps : List (Str × Str))
      → AreUnits is_path path
      → pathname (path ++ (b'?' ∷ params.to_string ps)) ≡ path
  pub search-target :
      (path : Str) (ps : List (Str × Str))
      → AreUnits is_path path
      → search (path ++ (b'?' ∷ params.to_string ps)) ≡ params.to_string ps
