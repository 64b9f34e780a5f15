-- ===== src/Engine/Pipeline/Closing.antt =====
-- What becomes of `Close` of engine/internal/pipeline/worker_pool.go when the loop of
-- engine/cmd/server/main.go has returned.
use hackathon.Common.{
  ℕ, zero, suc, ◌+◌, ◌*◌, ◌<◌, ◌≤◌, ◌↔◌, ◌⊎◌, inl, inr, Bool, true, false, List, [], ◌∷◌, ◌≡◌, refl,
  ap, arith, length, length-append,
}
use hackathon.Engine.Db.{LevelDb}
use hackathon.Engine.Tokens.{Runes}
use hackathon.Engine.Loop.{Engine}
use hackathon.Engine.Pipeline.{
  Pipeline, Phase, serving, returned, closing, ended, crashed, works, new_pipeline, Step, parses,
  sends, closes, finishes, ends, Steps, here, next,
}
use hackathon.Engine.Pipeline.Staff.{
  is_serving, pending, IsStaffed, Step-IsStaffed, start-IsStaffed, Steps-IsStaffed, Steps-kept,
}

-- Whether `main` has returned from its loop and is not yet behind `Close`.
abbrev pub is_shutting : Phase → Bool
is_shutting serving = false
is_shutting returned = true
is_shutting closing = true
is_shutting ended = false
is_shutting crashed = false

shutting-cases : (p : Phase) → is_shutting p ≡ true → (p ≡ returned) ⊎ (p ≡ closing)
shutting-cases returned h = inl refl
shutting-cases closing h = inr refl
shutting-cases serving h = cc
shutting-cases ended h = cc
shutting-cases crashed h = cc

shutting_behind : (p : Phase) → is_shutting p ≡ true → is_serving p ≡ false
shutting_behind p h = ground (arith, shutting-cases p h)

List-cases : {A : Type 0} (xs : List A) → (xs ≡ []) ⊎ ((x : A) × (rest : List A) × (xs ≡ x ∷ rest))
List-cases [] = inl refl
List-cases (x ∷ xs) = inr (x, xs, refl)

zero-cases : (n : ℕ) → (n ≡ 0) ⊎ ((m : ℕ) × (n ≡ suc m))
zero-cases zero = inl refl
zero-cases (suc n) = inr (n, refl)

module _ (level_db : LevelDb) (runes : Runes) (queue_size workers : ℕ) where
  open level_db use {Db}

  abbrev Step' : Pipeline Db → Pipeline Db → Type 0
  Step' s t = Step level_db runes queue_size s t

  ended_pending :
      (s : Pipeline Db)
      → IsStaffed queue_size workers s
      → 0 < workers
      → s.phase ≡ ended
      → pending s ≤ queue_size
  ended_pending s k some_workers e =
      let (nobody, nothing) = k.over e in
      elim k.done [
        | inl unfinished ↦
            absurd (omega (arith, k.staff, nobody, ap length nothing, unfinished, some_workers))
        | inr (empty, _) ↦ omega (arith, k.room, ap length nothing, ap length empty)
      ]

  Steps-after :
      {s t u : Pipeline Db}
      → Step' s t
      → Steps level_db runes queue_size t u
      → Steps level_db runes queue_size s u
  Steps-after step here = next here step
  Steps-after step (next more last) = next (Steps-after step more) last

  -- What the workers still have to do.
  abbrev work : Pipeline Db → ℕ
  work s = 3 * length s.raw_queue + 2 * length s.holding + s.idle

  abbrev pub CanEnd : Pipeline Db → Type 0
  CanEnd s = (t : Pipeline Db) × (Steps level_db runes queue_size s t) × (t.phase ≡ ended)

  CanEnd-before : {s t : Pipeline Db} → Step' s t → CanEnd t → CanEnd s
  CanEnd-before step (u, more, e) = (u, Steps-after step more, e)

  drain :
      (n : ℕ) (s : Pipeline Db)
      → IsStaffed queue_size workers s
      → 0 < workers
      → s.phase ≡ closing
      → pending s ≤ queue_size
      → work s < n
      → CanEnd s
  drain zero s k some_workers shut fits enough = absurd (omega (arith, enough))
  drain (suc n) s k some_workers shut fits enough =
      let go = λ (t : Pipeline Db) (step : Step' s t).
        drain n t (Step-IsStaffed level_db runes queue_size workers step k) some_workers in
      let working : works s.phase ≡ true = ap works shut in
      elim (List-cases s.holding) [
        | inr (j, js, held) ↦
            let step = sends [] j js working held (omega (arith, fits, ap length held)) in
            CanEnd-before step (
              go _ step shut
                (omega (arith, fits, ap length held, length-append s.out_queue (j ∷ [])))
                (omega (arith, enough, ap length held)))
        | inl free ↦ elim (List-cases s.raw_queue) [
          | inr (pkt, rest, first) ↦ elim (zero-cases s.idle) [
            | inl nobody ↦ absurd (elim k.done [
              | inl unfinished ↦
                  omega (arith, k.staff, nobody, ap length free, unfinished, some_workers)
              | inr (empty, _) ↦ omega (arith, ap length first, ap length empty)
            ])
            | inr (i, waits) ↦
                let step = parses 0 pkt rest i working (omega arith) first waits in
                CanEnd-before step (
                  go _ step shut (omega (arith, fits, ap length first, ap length free))
                    (omega (arith, enough, ap length first, waits)))
          ]
          | inl empty ↦ elim (zero-cases s.idle) [
            | inl nobody ↦ (_, next here (ends shut nobody free), refl)
            | inr (i, waits) ↦
                let step = finishes i shut empty waits in
                CanEnd-before step (go _ step shut fits (omega (arith, enough, waits)))
          ]
        ]
      ]

  -- When `main` has returned from its loop, `Close` can come to its end exactly where the packets and
  -- items that are pending have room in the channel of the items, which nobody empties any more.
  pub close-ends :
      {e0 : Engine Db} {s : Pipeline Db}
      → Steps level_db runes queue_size (new_pipeline workers e0) s
      → 0 < workers
      → is_shutting s.phase ≡ true
      → CanEnd s ↔ (pending s ≤ queue_size)
  close-ends {e0} {s} steps some_workers shutting = (
    (λ (t, more, e).
        let (behind, taken, same, less) =
          Steps-kept level_db runes queue_size workers more (shutting_behind s.phase shutting) in
        let few =
          ended_pending t
            (Steps-IsStaffed level_db runes queue_size workers more (
              Steps-IsStaffed level_db runes queue_size workers steps
                (start-IsStaffed level_db runes queue_size workers e0)))
            some_workers e in
        omega (arith, less, few)),
    (λ fits.
        let k =
          Steps-IsStaffed level_db runes queue_size workers steps
            (start-IsStaffed level_db runes queue_size workers e0) in
        elim (shutting-cases s.phase shutting) [
          | inl back ↦ CanEnd-before (closes back) (
              drain (suc (work s)) _
                (Step-IsStaffed level_db runes queue_size workers (closes back) k) some_workers refl
                fits (omega arith))
          | inr shut ↦ drain (suc (work s)) s k some_workers shut fits (omega arith)
        ]),
  )
