-- ===== src/App/Shown.antt =====
-- A search of web/src/App.jsx all the way to the Go engine and back, for a log that the engine has
-- written.
pub mod Tests
use hackathon.Common.{
  ℕ, suc, ◌-◌, ◌*◌, ◌<◌, ◌≤◌, true, Option, Option-cases, Str, ◌≢◌, some, none, List, [], ◌∷◌, ◌++◌,
  ◌≡◌, refl, sym, ap, subst, ◌∙◌, map, all, length, All, In, inl, inr, In-map, In-filter,
  All-lookup, arith,
}
use hackathon.Engine.{LogEntry, QueryRequest, QueryResponse, answered}
use hackathon.Common.Number.{decimal}
use hackathon.Engine.Keys.{Bytes}
use hackathon.Engine.Keys.RoundTrip.{IsNonzero}
use hackathon.Engine.Db.{LevelDb, IsLawful}
use hackathon.Engine.Find.{index_prefix, limit_or, search_term}
use hackathon.Engine.Find.Reference.{search_term-fine}
use hackathon.Engine.Tokens.{Runes, IsUnicode}
use hackathon.Engine.Items.{Log, id_of}
use hackathon.Engine.Loop.{Engine}
use hackathon.Engine.Loop.History.{History, Reach}
use hackathon.Engine.Loop.Fetched.{IsAnswer}
use hackathon.Engine.Loop.Answers.{DistinctIds, search_sound, search_complete}
use hackathon.Engine.Service.{Wire, entry_of, raw_logs_of, query_rpc, entries_of, reply_of}
use hackathon.Query.Normalize.{RawEntry, DisplayLog, Times, normalize_log_entry}
use hackathon.Query.{parse_query}
use hackathon.Query.Filters.{has_label}
use hackathon.Search.Client.{raw_of}
use hackathon.Search.{Numbers, handle_search, asks}
use hackathon.App.{App, Search, run_query, finish_query, normalize_all}
use hackathon.App.Searches.{told_of}
use hackathon.App.Window.{Whole, max_exact}
use hackathon.App.Round.{run_query_shown}

module _ (numbers : Numbers) where
  -- What the endpoint asks the engine for.
  abbrev pub request_of : App → ℕ → QueryRequest numbers.Num
  request_of a now = record {
    term = (parse_query a.query).primary_term;
    start_time_nano = numbers.nano (numbers.of_ms (now - a.time_range * 60000));
    end_time_nano = numbers.nano (numbers.of_ms now);
    limit = 500;
  }

-- A log that a search for what is asked is to find.
module _ (runes : Runes) {Time : Type 0} (wire : Wire Time) where
  abbrev pub IsAsked : History → QueryRequest Time → Log → Type 0
  IsAsked h req l =
      IsAnswer runes h (wire.bytes_of req.term) (wire.word_of req.start_time_nano)
        (wire.word_of req.end_time_nano) l

In-normalize_all :
    (times : Times) (e : RawEntry) (es : List RawEntry) (index now : ℕ)
    → In e es
    → (i : ℕ) × In (normalize_log_entry times e i now) (normalize_all times es index now)
unfolding normalize_all
In-normalize_all times e [] index now m = elim m [ ]
In-normalize_all times e (x ∷ es) index now (inl same) =
    (index, inl (ap (λ y. normalize_log_entry times y index now) same))
In-normalize_all times e (x ∷ es) index now (inr m) =
    let (i, there) = In-normalize_all times e es (suc index) now m in (i, inr there)

module _ (level_db : LevelDb) (lawful : IsLawful level_db) (runes : Runes)
    (unicode : IsUnicode runes) (numbers : Numbers) (wire : Wire numbers.Num) where
  open level_db use {Db, iter_error}

  -- A message that protobuf can send.
  abbrev pub HasText : Bytes → Type 0
  HasText raw = wire.text_of raw ≢ none

  entries_of-In :
      (raws : List Bytes)
      → All HasText raws
      → (entries : List LogEntry) × (entries_of wire raws ≡ some entries)
        × ((raw : Bytes) (text : Str)
            → In raw raws
            → wire.text_of raw ≡ some text
            → In (entry_of text) entries)
  unfolding entries_of
  entries_of-In [] h = ([], refl, λ raw text m told. elim m [ ])
  entries_of-In (x ∷ raws) (has_text, h) =
      let (entries, sent, others) = entries_of-In raws h in
      elim (Option-cases (wire.text_of x)) [
        | inl refused ↦ absurd (has_text refused)
        | inr (message, is_text) ↦ (
          entry_of message ∷ entries,
          ground arith,
          λ raw text m told. elim m [
            | inl same ↦ inl (cc (same, told, is_text))
            | inr there ↦ inr (others raw text there told)
          ],
        )
      ]

  reply_of-In :
      (found : List Bytes × Option Str) (raw : Bytes) (text : Str)
      → found.1 ≡ none
      → All HasText found.0
      → In raw found.0
      → wire.text_of raw ≡ some text
      → (r : QueryResponse) × (reply_of wire found ≡ answered r)
        × (r.error ≡ [])
        × In (entry_of text) r.logs
  unfolding reply_of
  reply_of-In (raws, some err) raw text no_error h m told = absurd (cc no_error)
  reply_of-In (raws, none) raw text no_error h m told =
      let (entries, sent, held) = entries_of-In raws h in
      (
        record { logs = entries; total_found = decimal (length raws); error = [] },
        rw (sent, reply_of) refl,
        refl,
        held raw text m told,
      )

  found-HasText :
      (h : History) (term : Bytes) (start_nano end_nano : ℕ) (found : List Log)
      → All (λ (l : Log). HasText l.message) h.written
      → All (IsAnswer runes h term start_nano end_nano) found
      → All HasText (map (λ (l : Log). l.message) found)
  found-HasText h term start_nano end_nano [] texts answers = tt
  found-HasText h term start_nano end_nano (l ∷ found) texts (answer, answers) = (
    All-lookup (λ (l : Log). HasText l.message) l h.written texts answer.0,
    found-HasText h term start_nano end_nano found texts answers,
  )

  module _ {h : History} {e : Engine Db} (r : Reach level_db runes h e)
      (distinct : DistinctIds (map id_of h.taken)) where
    query_rpc-written :
        (req : QueryRequest numbers.Num)
        → All IsNonzero (wire.bytes_of req.term)
        → iter_error e.db (index_prefix (wire.bytes_of req.term)) ≡ none
        → All (λ (l : Log). HasText l.message) h.written
        → length (raw_logs_of wire level_db e req).0 < limit_or req.limit
        → (l : Log) (text : Str) → IsAsked runes wire h req l
        → wire.text_of l.message ≡ some text
        → (response : QueryResponse) × (query_rpc wire level_db e req ≡ answered response)
          × (response.error ≡ [])
          × In (entry_of text) response.logs
    unfolding query_rpc
    query_rpc-written req plain fine texts room l text is_asked told =
        let term = wire.bytes_of req.term in
        let start_nano = wire.word_of req.start_time_nano in
        let end_nano = wire.word_of req.end_time_nano in
        let no_error =
          search_term-fine level_db e.db e.mem_index term start_nano end_nano req.limit fine in
        let (found, messages, answers, once, few) =
          search_sound level_db lawful runes unicode r distinct term plain start_nano end_nano
            req.limit in
        reply_of-In (raw_logs_of wire level_db e req) l.message text no_error
          (subst (All HasText) (sym messages)
            (found-HasText h term start_nano end_nano found texts answers))
          (search_complete level_db lawful runes unicode r distinct term plain start_nano end_nano
            req.limit l is_asked room no_error)
          told

    module _ (whole : Whole numbers) (times : Times) where
      -- A search from the query bar and back, in any state that the engine can come to: every log
      -- that was written, has the primary term of the query as a token and lies in the minutes
      -- before is on the page, as its message is normalised, where the engine finds fewer than 500
      -- records and the log fits all labels of the query. Every message that was written is UTF-8,
      -- since protobuf refuses an answer with another one; the term has no zero byte, the
      -- iteration over the index does not fail, no two logs that were taken have the same stream
      -- and time, the window does not begin before 1970, and the run is no later than 2 ^ 53 ms
      -- after.
      pub written_shown :
          (a : App) (now now' later : ℕ)
          → a.time_range * 60000 ≤ now
          → now ≤ max_exact
          → let req = request_of numbers a now in
            let b = run_query none none now a in
            let line = λ (text : Str).
              λ (i : ℕ). normalize_log_entry times (raw_of (entry_of text)) i later in
            All IsNonzero (wire.bytes_of req.term)
            → iter_error e.db (index_prefix (wire.bytes_of req.term)) ≡ none
            → All (λ (l : Log). HasText l.message) h.written
            → length (raw_logs_of wire level_db e req).0 < 500
            → (l : Log) (text : Str) → IsAsked runes wire h req l
            → wire.text_of l.message ≡ some text
            → ((i : ℕ) → all (has_label (line text i)) (parse_query a.query).labels ≡ true)
            → (s : Search) × (b.searches ≡ a.searches ++ s ∷ [])
              × (handle_search numbers s.request now' ≡ asks req)
              × (i : ℕ) × In
                  (line text i)
                  (finish_query times
                    (length a.searches)
                    later
                    (told_of (query_rpc wire level_db e req))
                    b).logs
      written_shown a now now' later past exact plain fine texts room l text is_asked is_text fits =
          let req = request_of numbers a now in
          let (response, replied, no_error, told) =
            query_rpc-written req plain fine texts room l text is_asked is_text in
          let shown =
            run_query_shown numbers whole times a now now' later response past exact no_error in
          let raw = raw_of (entry_of text) in
          let (i, there) =
            In-normalize_all times raw (map raw_of response.logs) 0 later
              (In-map raw_of (entry_of text) response.logs told) in
          (
            shown.0,
            shown.1,
            shown.2,
            i,
            rw replied (
                subst (In (normalize_log_entry times raw i later)) (sym shown.3) (
                  In-filter (λ log. all (has_label log) (parse_query a.query).labels)
                    (normalize_log_entry times raw i later)
                    (normalize_all times (map raw_of response.logs) 0 later) there (fits i))),
          )
