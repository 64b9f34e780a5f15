-- ===== src/Engine/Pipeline/Tests.antt =====
-- The goroutines of engine/internal/pipeline/worker_pool.go at small inputs.
use hackathon.Common.{◌≤◌, ◌↔◌, true, refl, [], arith, codes}
use hackathon.Engine.Keys.{Bytes}
use hackathon.Engine.Db.Memory.{memory_db}
use hackathon.Engine.Tests.{ascii}
use hackathon.Engine.Loop.{started, flush}
use hackathon.Engine.Loop.History.{no_history, created}
use hackathon.Engine.Pipeline.{
  Pipeline, Job, returned, new_pipeline, submit, take_packet, send_item, receive_item, submits,
  parses, sends, receives, signals, Steps, here, next,
}
use hackathon.Engine.Pipeline.Conserved.{IsConserved, HasTaken, pipeline_conserves}
use hackathon.Engine.Pipeline.Closing.{CanEnd, close-ends}
use hackathon.Engine.Pipeline.Staff.{pending}

abbrev line : Bytes
line = codes "<134>host disk full"

abbrev job : Job
job = record { packet = line; now = 77 }

-- One worker, and a packet whose item has been sent.
abbrev fresh : Pipeline memory_db.Db
fresh = new_pipeline 1 (started memory_db memory_db.empty)

abbrev sent : Pipeline memory_db.Db
sent = send_item [] job [] (take_packet 77 line [] 0 (submit line fresh))

to_sent : Steps memory_db ascii 1 fresh sent
to_sent =
    next
      (next (next here (submits line refl (omega arith)))
        (parses 77 line [] 0 refl (omega arith) refl refl))
      (sends [] job [] refl refl (omega arith))

abbrev received : Pipeline memory_db.Db
received = receive_item memory_db ascii true job [] sent

pipeline_conserves_example : IsConserved received × HasTaken memory_db ascii 1 no_history received
pipeline_conserves_example =
    pipeline_conserves memory_db ascii 1 created 1 (next to_sent (receives true job [] refl refl))

-- The channel of the items is full, the worker holds one more, and the loop has returned.
abbrev stuck : Pipeline memory_db.Db
stuck = record (take_packet 77 line [] 0 (submit line sent)) { phase = returned }

to_stuck : Steps memory_db ascii 1 fresh stuck
unfolding flush
to_stuck =
    next
      (next (next to_sent (submits line refl (omega arith)))
        (parses 77 line [] 0 refl (omega arith) refl refl))
      (signals true refl)

close-ends_example : CanEnd memory_db ascii 1 1 stuck ↔ (pending stuck ≤ 1)
close-ends_example = close-ends memory_db ascii 1 1 to_stuck (omega arith) refl
