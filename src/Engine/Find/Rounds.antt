-- ===== src/Engine/Find/Rounds.antt =====
-- The two loops of `SearchTerm` of engine/internal/search/query.go as one loop over ids.
use hackathon.Common.{
  ℕ, suc, zero, ◌+◌, ◌-◌, ◌≤◌, ◌<◌, Bool, true, ◌&&◌, List, [], ◌∷◌, ◌++◌, append_assoc, append-nil,
  ◌≡◌, refl, sym, ap, subst, ◌∙◌, arith, ◌⊎◌, inl, inr, length, length-append, take, map, leb,
  Bool-cases, Option-cases,
}
use hackathon.Engine.Keys.{Bytes, LogId, less64, decode_index_key}
use hackathon.Engine.Db.{LevelDb}
use hackathon.Engine.Index.{Posting}
use hackathon.Engine.Find.{
  Found, Loop, finished, goes_on, has_id, posting_id, message_at, fetch_log, stop_at, hot_tier,
  visit, scan_index,
}
use hackathon.Engine.Find.Listed.{fresh, scanned, stored, IsCut}

Loop-cases : (l : Loop) → ((f : Found) × (l ≡ finished f)) ⊎ ((f : Found) × (l ≡ goes_on f))
Loop-cases (finished f) = inl (f, refl)
Loop-cases (goes_on f) = inr (f, refl)

abbrev pub found_of : Loop → Found
found_of (finished f) = f
found_of (goes_on f) = f

module _ (level_db : LevelDb) where
  open level_db use {Db, get, keys, iter_error}

  -- Both loops are one over ids.
  pub over : Db → ℕ → List LogId → Found → Loop
  over d limit [] f = goes_on f
  over d limit (i ∷ ids) f = elim (stop_at level_db limit (fetch_log level_db d i f)) [
    | finished f' ↦ finished f'
    | goes_on f' ↦ over d limit ids f'
  ]

  abbrev pub behind : Db → ℕ → List LogId → Loop → Found
  behind d limit js (finished f) = f
  behind d limit js (goes_on f) = found_of (over d limit js f)

  pub hot_tier-over :
      (d : Db) (limit : ℕ) (ms : List Posting) (f : Found)
      → hot_tier level_db d limit ms f ≡ over d limit (map posting_id ms) f
  unfolding hot_tier over
  hot_tier-over d limit [] f = refl
  hot_tier-over d limit (m ∷ ms) f =
      elim (stop_at level_db limit (fetch_log level_db d (posting_id m) f))
        as (λ l.
          (elim l [ finished f' ↦ finished f' | goes_on f' ↦ hot_tier level_db d limit ms f' ])
          ≡ (elim l [
            | finished f' ↦ finished f'
            | goes_on f' ↦ over d limit (map posting_id ms) f'
          ])) [ finished f' ↦ refl | goes_on f' ↦ hot_tier-over d limit ms f' ]

  scan_step :
      (d : Db) (start_nano end_nano limit : ℕ) (rest : List Bytes) (l : Loop)
      → ((f : Found)
          → found_of (scan_index level_db d start_nano end_nano limit rest f)
            ≡ found_of (over d limit (scanned start_nano end_nano rest) f))
      → ◌≡◌ {A = Found}
          (found_of (elim l [
            | finished f ↦ finished f
            | goes_on f ↦ scan_index level_db d start_nano end_nano limit rest f
          ]))
          (found_of (elim l [
            | finished f ↦ finished f
            | goes_on f ↦ over d limit (scanned start_nano end_nano rest) f
          ]))
  scan_step d start_nano end_nano limit rest (finished f) next = refl
  scan_step d start_nano end_nano limit rest (goes_on f) next = next f

  pub scan_index-over :
      (d : Db) (start_nano end_nano limit : ℕ) (ks : List Bytes) (f : Found)
      → found_of (scan_index level_db d start_nano end_nano limit ks f)
        ≡ found_of (over d limit (scanned start_nano end_nano ks) f)
  unfolding scan_index over scanned visit
  scan_index-over d start_nano end_nano limit [] f = refl
  scan_index-over d start_nano end_nano limit (key ∷ rest) f =
      elim (Option-cases (decode_index_key key)) [
        | inl bad ↦
            rw (bad, scan_index, scanned) (scan_index-over d start_nano end_nano limit rest f)
        | inr (k, ok) ↦
            rw (ok, scan_index, scanned)
              (elim (Bool-cases (less64 k.ts start_nano)) [
                | inl before ↦ rw before (scan_index-over d start_nano end_nano limit rest f)
                | inr from ↦ rw from (elim (Bool-cases (less64 end_nano k.ts)) [
                  | inl behind ↦ rw behind refl
                  | inr within ↦ rw within (
                      scan_step d start_nano end_nano limit rest
                        (stop_at level_db limit
                          (fetch_log level_db d (record { stream_id = k.stream_id; ts = k.ts }) f))
                        (scan_index-over d start_nano end_nano limit rest))
                ])
              ])
      ]

  over-append_step :
      (d : Db) (limit : ℕ) (is js : List LogId) (l : Loop)
      → ((f : Found) → found_of (over d limit (is ++ js) f) ≡ behind d limit js (over d limit is f))
      → found_of (elim l [ finished f ↦ finished f | goes_on f ↦ over d limit (is ++ js) f ])
        ≡ behind d limit js (elim l [ finished f ↦ finished f | goes_on f ↦ over d limit is f ])
  over-append_step d limit is js (finished f) next = refl
  over-append_step d limit is js (goes_on f) next = next f

  pub over-append :
      (d : Db) (limit : ℕ) (is js : List LogId) (f : Found)
      → found_of (over d limit (is ++ js) f) ≡ behind d limit js (over d limit is f)
  unfolding over
  over-append d limit [] js f = refl
  over-append d limit (i ∷ is) js f =
      over-append_step d limit is js (stop_at level_db limit (fetch_log level_db d i f))
        (over-append d limit is js)

  take-nil : (n : ℕ) → take {A = Bytes} n [] ≡ []
  take-nil zero = refl
  take-nil (suc n) = refl

  -- A message is fetched while there is room for it.
  over_step :
      (d : Db) (limit : ℕ) (ids : List LogId) (log_data : Bytes) (results : List Bytes)
      (seen : List LogId)
      → length results < limit
      → let f : Found = record { results = results ++ log_data ∷ []; seen = seen } in
        (length f.results < limit
          → (found_of (over d limit ids f)).results
            ≡ f.results ++ take (limit - length f.results) (stored level_db d (fresh seen ids)))
        → (found_of (elim (stop_at level_db limit (f, true)) [
          | finished f' ↦ finished f'
          | goes_on f' ↦ over d limit ids f'
        ])).results
          ≡ results ++ take (limit - length results) (log_data ∷ stored level_db d (fresh seen ids))
  unfolding stop_at
  over_step d limit ids log_data results seen room next =
      let n = length results in
      let longer : length (results ++ log_data ∷ []) ≡ n + 1 =
        length-append results (log_data ∷ []) in
      elim (Bool-cases (leb limit (length (results ++ log_data ∷ [])))) [
        | inl full ↦
            let one : limit - n ≡ suc zero = ground (arith, longer) in rw full (rw one refl)
        | inr room' ↦
            let more : limit - n ≡ suc (limit - length (results ++ log_data ∷ [])) =
              ground (arith, longer) in
            rw room' (next (ground arith) ∙ append_assoc results (log_data ∷ []) _ ∙ rw more refl)
      ]

  pub over_lem :
      (d : Db) (limit : ℕ) (ids : List LogId) (f : Found)
      → length f.results < limit
      → (found_of (over d limit ids f)).results
        ≡ f.results ++ take (limit - length f.results) (stored level_db d (fresh f.seen ids))
  unfolding over fetch_log stop_at stored fresh
  over_lem d limit [] f room =
      sym (append-nil f.results)
      ∙ ap (λ xs. f.results ++ xs) (sym (take-nil (limit - length f.results)))
  over_lem d limit (i ∷ ids) f room = elim (Bool-cases (has_id i f.seen)) [
    | inl old ↦ rw (old, over, fetch_log, stop_at, fresh, stored) (over_lem d limit ids f room)
    | inr new ↦
        rw (new, over, fetch_log, fresh, stored)
          (elim (Option-cases (message_at level_db d i)) [
            | inl absent ↦ rw absent (over_lem d limit ids (record f { seen = i ∷ f.seen }) room)
            | inr (log_data, there) ↦ rw there (
                over_step d limit ids log_data f.results (i ∷ f.seen) room (
                  over_lem d limit ids
                    (record { results = f.results ++ log_data ∷ []; seen = i ∷ f.seen })))
          ])
  ]

  over_full_step :
      (d : Db) (limit : ℕ) (ids : List LogId) (r : Found × Bool) (f' : Found)
      → ((g : Found) → over d limit ids g ≡ finished f' → limit ≤ length f'.results)
      → ◌≡◌ {A = Loop}
          (elim (stop_at level_db limit r) [
            | finished g ↦ finished g
            | goes_on g ↦ over d limit ids g
          ])
          (finished f')
      → limit ≤ length f'.results
  unfolding stop_at
  over_full_step d limit ids (g, fetched) f' next e = ground (arith, next g)

  pub over_full :
      (d : Db) (limit : ℕ) (ids : List LogId) (f f' : Found)
      → over d limit ids f ≡ finished f'
      → limit ≤ length f'.results
  unfolding over stop_at
  over_full d limit [] f f' e = cc
  over_full d limit (i ∷ ids) f f' e =
      over_full_step d limit ids (fetch_log level_db d i f) f' (λ g. over_full d limit ids g f') e

  scan_cut_step :
      (d : Db) (start_nano end_nano limit : ℕ) (rest : List Bytes) (C : Type 0) (r : Found × Bool)
      (f' : Found)
      → ((g : Found)
          → scan_index level_db d start_nano end_nano limit rest g ≡ finished f'
          → (limit ≤ length f'.results) ⊎ C)
      → ◌≡◌ {A = Loop}
          (elim (stop_at level_db limit r) [
            | finished g ↦ finished g
            | goes_on g ↦ scan_index level_db d start_nano end_nano limit rest g
          ])
          (finished f')
      → (limit ≤ length f'.results) ⊎ C
  unfolding stop_at
  scan_cut_step d start_nano end_nano limit rest C (g, fetched) f' next =
      elim (Bool-cases (fetched && leb limit (length g.results))) [
        | inl full ↦ rw full (λ e.
            let same : g ≡ f' = cc in
            inl (subst (λ h. limit ≤ length h.results) same (ground arith)))
        | inr room ↦ rw room (next g)
      ]

  IsCut-behind :
      (start_nano end_nano : ℕ) (key : Bytes) (rest : List Bytes) {P : Type 0}
      → P ⊎ IsCut start_nano end_nano rest
      → P ⊎ IsCut start_nano end_nano (key ∷ rest)
  IsCut-behind start_nano end_nano key rest (inl p) = inl p
  IsCut-behind start_nano end_nano key rest (inr (j, m, k, ok, from, late)) =
      inr (j, inr m, k, ok, from, late)

  -- The scan is broken off at the limit or at a key behind the window.
  pub scan-IsCut :
      (d : Db) (start_nano end_nano limit : ℕ) (ks : List Bytes) (f f' : Found)
      → scan_index level_db d start_nano end_nano limit ks f ≡ finished f'
      → (limit ≤ length f'.results) ⊎ IsCut start_nano end_nano ks
  unfolding scan_index visit
  scan-IsCut d start_nano end_nano limit [] f f' = λ e. cc
  scan-IsCut d start_nano end_nano limit (key ∷ rest) f f' =
      let next = λ (g : Found).
        λ (e : scan_index level_db d start_nano end_nano limit rest g ≡ finished f').
          IsCut-behind start_nano end_nano key rest
            (scan-IsCut d start_nano end_nano limit rest g f' e) in
      elim (Option-cases (decode_index_key key)) [
        | inl bad ↦ rw (bad, scan_index) (next f)
        | inr (k, ok) ↦
            rw (ok, scan_index)
              (elim (Bool-cases (less64 k.ts start_nano)) [
                | inl before ↦ rw before (next f)
                | inr from ↦ rw from (elim (Bool-cases (less64 end_nano k.ts)) [
                  | inl late ↦ rw late (λ e. inr (key, inl refl, k, ok, from, late))
                  | inr within ↦ rw within (
                      scan_cut_step d start_nano end_nano limit rest
                        (IsCut start_nano end_nano (key ∷ rest))
                        (fetch_log level_db d (record { stream_id = k.stream_id; ts = k.ts }) f) f'
                        next)
                ])
              ])
      ]
