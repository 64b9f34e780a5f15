-- ===== src/App/Live/Kept.antt =====
-- The lines of the live tail of web/src/App.jsx, from the bridge of
-- server/src/services/liveTail.js to the page.
use hackathon.Common.{
  ℕ, ◌+◌, ◌≤◌, ◌⊎◌, inl, inr, true, false, Bool-cases, some, List, [], ◌∷◌, ◌++◌, ◌≡◌, refl, sym,
  ap, ◌∙◌, arith, Str, length, length-append, append_assoc, append-nil, map, reverse, reverse-cons,
  join, join-single,
}
use hackathon.LiveTail as LiveTail
use hackathon.LiveTail.{Frame, Tail, create_live_tail}
use hackathon.LiveTail.Lifecycle as Lifecycle
use hackathon.LiveTail.Lifecycle.{Step-is_open}
use hackathon.Query.Normalize.{DisplayLog, Times}
use hackathon.App.{App}
use hackathon.App.Live.{on_message, flush, live_max_lines}
use hackathon.App.Live.Flush.{flush_room}
use hackathon.App.Live.Wire.{packet_of}
use hackathon.App.Live.Chain.{
  Chain, Step, bridged, delivered, flushed, Reach, here, next, opened_chain, carried, line_of,
  lines_received,
}

lines_received-last :
    (times : Times) (fs : List (Frame × ℕ)) (f : Frame) (now : ℕ)
    → lines_received times (fs ++ (f, now) ∷ []) ≡ lines_received times fs ++ line_of times f now
lines_received-last times [] f now = append-nil (line_of times f now)
lines_received-last times ((g, then_) ∷ fs) f now =
    ap (λ x. line_of times g then_ ++ x) (lines_received-last times fs f now)
    ∙ sym (append_assoc (line_of times g then_) (lines_received times fs) (line_of times f now))

on_message-line :
    (times : Times) (f : Frame) (now : ℕ) (a : App) (term : Str)
    → a.socket_ref ≡ some term
    → let b = on_message times (packet_of f) now a in
      (b.buffer_ref ≡ a.buffer_ref ++ line_of times f now)
      × (b.logs ≡ a.logs)
      × (b.socket_ref ≡ some term)
unfolding on_message
on_message-line times LiveTail.connecting now a term open_ =
    let same = append-nil a.buffer_ref in ground (arith, same)
on_message-line times LiveTail.connected now a term open_ =
    let same = append-nil a.buffer_ref in ground (arith, same)
on_message-line times (LiveTail.log e received_at) now a term open_ = ground arith
on_message-line times (LiveTail.error m) now a term open_ =
    let same = append-nil a.buffer_ref in ground (arith, same)

flush-fields : (a : App) → ((flush a).buffer_ref ≡ []) × ((flush a).socket_ref ≡ a.socket_ref)
unfolding flush
flush-fields a = ground arith

-- Whether the lines received and those of the page before have had room on it.
abbrev pub HasRoom : Times → App → Chain → Type 0
HasRoom times a s = length (lines_received times s.received) + length a.logs ≤ live_max_lines

record IsChained (times : Times) (a : App) (term : Str) (s : Chain) : Type 0 where
  dropped : List Frame
  in_order : s.tail.sent ≡ (map (λ d. d.0) s.received ++ s.wire) ++ dropped
  drops : (s.tail.is_open ≡ false) ⊎ (dropped ≡ [])
  open_ : s.app.socket_ref ≡ some term
  batches : List (List DisplayLog)
  taken : join (reverse batches) ++ s.app.buffer_ref ≡ lines_received times s.received
  shown :
      HasRoom times a s
      → (s.app.logs ≡ join batches ++ a.logs)
        × (length s.app.logs + length s.app.buffer_ref
            ≡ length (lines_received times s.received) + length a.logs)

map-last :
    (fs : List (Frame × ℕ)) (f : Frame) (now : ℕ)
    → map (λ d. d.0) (fs ++ (f, now) ∷ []) ≡ map (λ d. d.0) fs ++ f ∷ []
map-last [] f now = refl
map-last (g ∷ fs) f now = ap (◌∷◌ g.0) (map-last fs f now)

module _ (times : Times) (digest : Str → Str) (a : App) (term : Str) where
  delivered-IsChained :
      (f : Frame) (fs : List Frame) (now : ℕ) (s : Chain)
      → s.wire ≡ f ∷ fs
      → IsChained times a term s
      → IsChained times a term (record s {
        wire = fs;
        received = s.received ++ (f, now) ∷ [];
        app = on_message times (packet_of f) now s.app;
      })
  delivered-IsChained f fs now s e i =
      let (buffer, logs, kept) = on_message-line times f now s.app term i.open_ in
      let last = lines_received-last times s.received f now in
      let longer = length-append (lines_received times s.received) (line_of times f now) in
      let grown = length-append s.app.buffer_ref (line_of times f now) in
      record {
        dropped = i.dropped;
        in_order =
            i.in_order
            ∙ ap (λ x. x ++ i.dropped)
                (ap (λ w. map (λ d. d.0) s.received ++ w) e
                  ∙ sym (append_assoc (map (λ d. d.0) s.received) (f ∷ []) fs)
                  ∙ ap (λ x. x ++ fs) (sym (map-last s.received f now)));
        drops = i.drops;
        open_ = kept;
        batches = i.batches;
        taken =
            ap (λ b. join (reverse i.batches) ++ b) buffer
            ∙ sym (append_assoc (join (reverse i.batches)) s.app.buffer_ref (line_of times f now))
            ∙ ap (λ x. x ++ line_of times f now) i.taken
            ∙ sym last;
        shown = λ room.
            let (same, count) = i.shown (omega (arith, room, ap length last, longer)) in
            (
              logs ∙ same,
              omega (arith, ap length logs, ap length buffer, ap length last, longer, grown, count),
            );
      }

  flushed-IsChained :
      (s : Chain)
      → IsChained times a term s
      → IsChained times a term (record s { app = flush s.app })
  flushed-IsChained s i =
      let (emptied, kept) = flush-fields s.app in
      record {
        dropped = i.dropped;
        in_order = i.in_order;
        drops = i.drops;
        open_ = kept ∙ i.open_;
        batches = s.app.buffer_ref ∷ i.batches;
        taken =
            ap (λ b. join (reverse (s.app.buffer_ref ∷ i.batches)) ++ b) emptied
            ∙ append-nil (join (reverse (s.app.buffer_ref ∷ i.batches)))
            ∙ ap join (reverse-cons s.app.buffer_ref i.batches)
            ∙ join-single (reverse i.batches) s.app.buffer_ref
            ∙ i.taken;
        shown = λ room.
            let (same, count) = i.shown room in
            let flushed_logs = (flush_room s.app (omega (arith, room, count))).0 in
            (
              flushed_logs
                  ∙ ap (λ x. s.app.buffer_ref ++ x) same
                  ∙ sym (append_assoc s.app.buffer_ref (join i.batches) a.logs),
              omega (
                arith,
                ap length flushed_logs,
                ap length emptied,
                length-append s.app.buffer_ref s.app.logs,
                count,
              ),
            );
      }

  bridged_frames :
      (t : Tail) (fresh : List Frame) (s : Chain)
      → Lifecycle.Step digest s.tail t
      → t.sent ≡ s.tail.sent ++ fresh
      → IsChained times a term s
      → (dropped : List Frame) × (t.sent
          ≡ (map (λ d. d.0) s.received ++ (s.wire ++ carried s.tail.is_open fresh)) ++ dropped)
        × ((t.is_open ≡ false) ⊎ (dropped ≡ []))
  bridged_frames t fresh s st sent i =
      let came = map (λ d. d.0) s.received in
      let before = sent ∙ ap (λ x. x ++ fresh) i.in_order in
      elim (Bool-cases s.tail.is_open) [
        | inl open_ ↦
            let none_dropped : i.dropped ≡ [] = ground (arith, i.drops) in
            (
              [],
              rw open_ (
                  before
                  ∙ ap (λ d. ((came ++ s.wire) ++ d) ++ fresh) none_dropped
                  ∙ ap (λ x. x ++ fresh) (append-nil (came ++ s.wire))
                  ∙ append_assoc came s.wire fresh
                  ∙ sym (append-nil (came ++ (s.wire ++ fresh)))),
              inr refl,
            )
        | inr shut ↦ (
          i.dropped ++ fresh,
          rw shut (
              before
              ∙ append_assoc (came ++ s.wire) i.dropped fresh
              ∙ ap (λ w. (came ++ w) ++ (i.dropped ++ fresh)) (sym (append-nil s.wire))),
          inl (Step-is_open digest st shut),
        )
      ]

  Step-IsChained :
      {s u : Chain} → Step times digest s u → IsChained times a term s → IsChained times a term u
  Step-IsChained {s} (bridged t fresh st sent e) i =
      let (dropped, in_order, drops) = bridged_frames t fresh s st sent i in
      rw e (record {
        dropped = dropped;
        in_order = in_order;
        drops = drops;
        open_ = i.open_;
        batches = i.batches;
        taken = i.taken;
        shown = i.shown;
      })
  Step-IsChained {s} (delivered f fs now w e) i = rw e (delivered-IsChained f fs now s w i)
  Step-IsChained {s} (flushed e) i = rw e (flushed-IsChained s i)

  Reach-IsChained :
      {s u : Chain} → Reach times digest s u → IsChained times a term s → IsChained times a term u
  Reach-IsChained here i = i
  Reach-IsChained (next r st) i = Step-IsChained st (Reach-IsChained r i)

  opened-IsChained :
      (t : Tail)
      → a.socket_ref ≡ some term
      → a.buffer_ref ≡ []
      → IsChained times a term (opened_chain t a)
  opened-IsChained t open_ empty = record {
    dropped = [];
    in_order = sym (append-nil t.sent);
    drops = inr refl;
    open_ = open_;
    batches = [];
    taken = empty;
    shown = λ room. (refl, omega (arith, ap length empty));
  }

  -- From the opening of a page's socket on, whatever the bridge does, whenever its frames arrive and
  -- whenever the page flushes, where nothing else happens to the page: the frames that the bridge
  -- passed to its socket are those that arrived, those on their way and those dropped, in order,
  -- and none is dropped while the bridge's socket is open; and while the lines that arrived have
  -- room on the page, they are, in order, those of the flushed batches and of the buffer, and the
  -- page shows the batches, the latest first, in front of its earlier lines. No line that arrived
  -- is lost and none comes twice.
  pub live_lines_kept :
      (start poll_ms : ℕ) {s : Chain}
      → a.socket_ref ≡ some term
      → a.buffer_ref ≡ []
      → Reach times digest (opened_chain (create_live_tail start true term poll_ms) a) s
      → HasRoom times a s
      → (batches : List (List DisplayLog)) × (dropped : List Frame) × (s.tail.sent
          ≡ (map (λ d. d.0) s.received ++ s.wire) ++ dropped)
        × ((s.tail.is_open ≡ false) ⊎ (dropped ≡ []))
        × (lines_received times s.received ≡ join (reverse batches) ++ s.app.buffer_ref)
        × (s.app.logs ≡ join batches ++ a.logs)
  live_lines_kept start poll_ms open_ empty r room =
      let i =
        Reach-IsChained r
          (opened-IsChained (create_live_tail start true term poll_ms) open_ empty) in
      (i.batches, i.dropped, i.in_order, i.drops, sym i.taken, (i.shown room).0)
