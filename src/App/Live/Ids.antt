-- ===== src/App/Live/Ids.antt =====
-- The ids of lines that come by the live tail of web/src/App.jsx.
use hackathon.Common.{
  ℕ, ◌*◌, codes, or_else, some, [], ◌∷◌, ◌++◌, ◌≡◌, sym, ap, ◌∙◌, arith, Str, append_assoc,
}
use hackathon.Common.Double.{to_double}
use hackathon.Common.Number.{decimal}
use hackathon.Query.Normalize.{
  RawEntry, DisplayLog, Times, from_message, from_5424, from_3164, from_plain, normalize_log_entry,
  id_of, nano_text,
}
use hackathon.App.{App}
use hackathon.App.Live.{log, on_message, live_line}

from_message-id : (id timestamp : Str) (e : RawEntry) → (from_message id timestamp e).id ≡ id
unfolding from_message from_5424 from_3164 from_plain
from_message-id id timestamp e = ground arith

module _ (times : Times) where
  normalize_log_entry-id :
      (e : RawEntry) (index now : ℕ)
      → (normalize_log_entry times e index now).id ≡ id_of times e index now
  unfolding normalize_log_entry
  normalize_log_entry-id e index now = from_message-id _ _ e

  id_of_nano :
      (e : RawEntry) (nano : Str) (index now : ℕ)
      → e.id ≡ []
      → id_of times (record e { timestamp_nano = nano }) index now
        ≡ codes "grpc-" ++ (nano_text times nano now ++ (b'-' ∷ decimal index))
  unfolding id_of
  id_of_nano e nano index now h = rw h

  live_line-id :
      (e e' : RawEntry) (now : ℕ)
      → e.id ≡ []
      → e'.id ≡ []
      → e.timestamp_nano ≡ e'.timestamp_nano
      → (live_line times e now).id ≡ (live_line times e' now).id
  live_line-id e e' now h h' same =
      let nano = λ (x : RawEntry). or_else x.timestamp_nano (decimal (to_double (now * 1000000))) in
      normalize_log_entry-id (record e { timestamp_nano = nano e }) now now
      ∙ id_of_nano e (nano e) now now h
      ∙ ap
          (λ t.
            let n = or_else t (decimal (to_double (now * 1000000))) in
            codes "grpc-" ++ (nano_text times n now ++ (b'-' ∷ decimal now)))
          same
      ∙ sym (id_of_nano e' (nano e') now now h')
      ∙ sym (normalize_log_entry-id (record e' { timestamp_nano = nano e' }) now now)

  received_line :
      (e : RawEntry) (now : ℕ) (a : App) (t : Str)
      → a.socket_ref ≡ some t
      → ((on_message times (log e) now a).buffer_ref ≡ a.buffer_ref ++ live_line times e now ∷ [])
        × ((on_message times (log e) now a).socket_ref ≡ some t)
  unfolding on_message
  received_line e now a t open_ = (ground arith, ground arith)

  -- Two records that the live tail receives within one millisecond, with the same engine time and
  -- no id of their own, become two lines with one id, whatever their texts are.
  pub live_ids_collide :
      (e e' : RawEntry) (now : ℕ) (a : App) {t : Str}
      → a.socket_ref ≡ some t
      → e.id ≡ []
      → e'.id ≡ []
      → e.timestamp_nano ≡ e'.timestamp_nano
      → (x : DisplayLog) × (y : DisplayLog) × ((on_message times
            (log e')
            now
            (on_message times (log e) now a)).buffer_ref
          ≡ a.buffer_ref ++ (x ∷ y ∷ []))
        × (x.id ≡ y.id)
  live_ids_collide e e' now a {t} open_ h h' same =
      let (first_kept, still) = received_line e now a t open_ in
      let (second_kept, _) = received_line e' now (on_message times (log e) now a) t still in
      (
        live_line times e now,
        live_line times e' now,
        second_kept
            ∙ ap (λ b. b ++ live_line times e' now ∷ []) first_kept
            ∙ append_assoc a.buffer_ref (live_line times e now ∷ []) (live_line times e' now ∷ []),
        live_line-id e e' now h h' same,
      )
