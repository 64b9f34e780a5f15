-- ===== src/Engine/Loop/Consistent.antt =====
-- The loop of engine/cmd/server/main.go keeps the database, the batch and the index consistent.
use hackathon.Common.{
  Bool, true, false, List, [], ◌∷◌, ◌++◌, append_assoc, ◌≡◌, refl, sym, ap, ◌∙◌, none, map, map-map,
  map-append, join, join-single, filter, length, length-append, All, All-map, All-append, In,
  In-append_left, In-append_right, inl, inr, arith, Bool-cases, ◌==◌,
}
use hackathon.Engine.Keys.{Bytes, encode_log_key, encode_index_key}
use hackathon.Engine.Keys.RoundTrip.{IsNonzero}
use hackathon.Engine.Db.{LevelDb, IsLawful, Put, get_after}
use hackathon.Engine.Db.Batches.{get_after-append}
use hackathon.Engine.Index.{postings}
use hackathon.Engine.Tokens.{Runes, IsUnicode, IsToken, tokenize, tokenize-IsToken}
use hackathon.Engine.Tokens.Distinct.{tokenize-Distinct, IsNonzero-of_token}
use hackathon.Engine.Items.{Log, item_of}
use hackathon.Engine.Loop.{Engine, take_item, flush, put}
use hackathon.Engine.Loop.History.{
  History, IsLog, take_log, Reach, created, restarted, takes, flushes, flush_fails, puts, puts_of,
  has_token, posting_of, IsConsistent,
}
use hackathon.Engine.Loop.Register.{
  put_key, register-batch, register-counted, register-db, one, register-postings,
}

join-append : {A : Type 0} (xs ys : List (List A)) → join (xs ++ ys) ≡ join xs ++ join ys
join-append [] ys = refl
join-append (x ∷ xs) ys =
    ap (λ l. x ++ l) (join-append xs ys) ∙ sym (append_assoc x (join xs) (join ys))

no_puts : (ps : List Put) → length ps ≡ 0 → ps ≡ []
no_puts [] h = refl
no_puts (p ∷ ps) h = absurd (omega arith)

-- Consistency is kept by each thing that the engine does.
module _ (level_db : LevelDb) (lawful : IsLawful level_db) (runes : Runes)
    (unicode : IsUnicode runes) where
  open level_db use {Db, get, write}

  tokens-IsNonzero : (ts : List Bytes) → All IsToken ts → All (All IsNonzero) ts
  tokens-IsNonzero ts h =
      All-map (All IsNonzero) (λ t is_token. IsNonzero-of_token t is_token.bytes) ts h

  puts_of-append :
      (xs ys : List Log) → puts_of runes (xs ++ ys) ≡ puts_of runes xs ++ puts_of runes ys
  puts_of-append xs ys =
      ap join (map-append (puts runes) xs ys)
      ∙ join-append (map (puts runes) xs) (map (puts runes) ys)

  abbrev put_log : Log → Engine Db → Engine Db
  put_log l e = put level_db (record { key = encode_log_key l.stream_id l.ts; value = l.message }) e

  abbrev term_keys_of : Log → List Bytes
  term_keys_of l = map (λ term. encode_index_key term l.ts l.stream_id) (tokenize runes l.message)

  take_item-batch :
      (l : Log) (e : Engine Db)
      → (take_item level_db (item_of runes l) e).batch ≡ e.batch ++ puts runes l
  unfolding take_item item_of put
  take_item-batch l e =
      let log_put : List Put =
        record { key = encode_log_key l.stream_id l.ts; value = l.message } ∷ [] in
      register-batch level_db (term_keys_of l) (put_log l e)
      ∙ append_assoc e.batch log_put (map (put_key level_db) (term_keys_of l))
      ∙ ap (λ ps. e.batch ++ (log_put ++ ps))
          (map-map (put_key level_db) (λ term. encode_index_key term l.ts l.stream_id)
            (tokenize runes l.message))

  take_item-counted :
      (l : Log) (e : Engine Db)
      → e.batch_size ≡ length e.batch
      → (take_item level_db (item_of runes l) e).batch_size
        ≡ length (take_item level_db (item_of runes l) e).batch
  unfolding take_item item_of put
  take_item-counted l e h = register-counted level_db (term_keys_of l) (put_log l e) (
      omega (
        arith,
        length-append {0} e.batch
            (record { key = encode_log_key l.stream_id l.ts; value = l.message } ∷ []),
      ))

  take_item-db : (l : Log) (e : Engine Db) → (take_item level_db (item_of runes l) e).db ≡ e.db
  unfolding take_item item_of put
  take_item-db l e = register-db level_db (term_keys_of l) (put_log l e)

  hot-append :
      (l : Log) (term : Bytes) (hot : List Log)
      → map posting_of (filter (has_token runes term) hot)
          ++ one l.ts l.stream_id (has_token runes term l)
        ≡ map posting_of (filter (has_token runes term) (hot ++ l ∷ []))
  hot-append l term [] = ground arith
  hot-append l term (l' ∷ hot) = ground (arith, hot-append l term hot)

  take_item-postings :
      (l : Log) (e : Engine Db) (term : Bytes) (hot : List Log)
      → IsLog l
      → postings term e.mem_index ≡ map posting_of (filter (has_token runes term) hot)
      → postings term (take_item level_db (item_of runes l) e).mem_index
        ≡ map posting_of (filter (has_token runes term) (hot ++ l ∷ []))
  unfolding take_item item_of put
  take_item-postings l e term hot log indexed =
      let is_token =
        tokens-IsNonzero (tokenize runes l.message) (tokenize-IsToken runes unicode l.message) in
      register-postings l.ts l.stream_id level_db (omega (arith, log.time)) log.stream term
        (tokenize runes l.message) _ is_token (tokenize-Distinct runes l.message)
      ∙ ap (λ ps. ps ++ one l.ts l.stream_id (has_token runes term l)) indexed
      ∙ hot-append l term hot

  module _ (e : Engine Db) (counted : e.batch_size ≡ length e.batch) where
    nothing_batched : e.batch_size ≡ 0 → e.batch ≡ []
    nothing_batched h = no_puts e.batch (omega (arith, counted))

    flush-batch : (b : Bool) → (flush level_db b e).batch ≡ []
    unfolding flush
    flush-batch b = ground (arith, nothing_batched)

    flush-counted : (b : Bool) → (flush level_db b e).batch_size ≡ 0
    unfolding flush
    flush-counted b = ground arith

    flush-mem_index : (b : Bool) → (flush level_db b e).mem_index ≡ e.mem_index
    unfolding flush
    flush-mem_index b = ground arith

    flush-get : (k : Bytes) → get (flush level_db true e).db k ≡ get_after e.batch k (get e.db k)
    unfolding flush get_after
    flush-get k = elim (Bool-cases (e.batch_size == 0)) [
      | inl none_there ↦
          rw none_there
            (ap (λ b. get_after b k (get e.db k)) (sym (nothing_batched (ground arith))))
      | inr some_there ↦ rw some_there (lawful.get-write e.db e.batch k)
    ]

    flush-dropped : (flush level_db false e).db ≡ e.db
    unfolding flush
    flush-dropped = ground arith

  flush-IsConsistent :
      (h : History) (e : Engine Db)
      → IsConsistent level_db runes h e
      → IsConsistent level_db runes
          (record h { written = h.written ++ h.pending; pending = [] })
          (flush level_db true e)
  flush-IsConsistent h e c = record {
    stored = λ k.
        flush-get e c.counted k
        ∙ ap (λ b. get_after b k (get e.db k)) c.batched
        ∙ ap (get_after (puts_of runes h.pending) k) (c.stored k)
        ∙ sym (get_after-append (puts_of runes h.written) (puts_of runes h.pending) k none)
        ∙ ap (λ ps. get_after ps k none) (sym (puts_of-append h.written h.pending));
    batched = flush-batch e c.counted true;
    counted = flush-counted e c.counted true ∙ sym (ap length (flush-batch e c.counted true));
    indexed = λ term. ap (postings term) (flush-mem_index e c.counted true) ∙ c.indexed term;
    hot_taken = c.hot_taken;
    written_taken =
        All-append (λ l. In l h.taken) h.written h.pending c.written_taken c.pending_taken;
    pending_taken = tt;
    logs = c.logs;
  }

  drop-IsConsistent :
      (h : History) (e : Engine Db)
      → IsConsistent level_db runes h e
      → IsConsistent level_db runes (record h { pending = [] }) (flush level_db false e)
  drop-IsConsistent h e c = record {
    stored = λ k. ap (λ d. get d k) (flush-dropped e c.counted) ∙ c.stored k;
    batched = flush-batch e c.counted false;
    counted = flush-counted e c.counted false ∙ sym (ap length (flush-batch e c.counted false));
    indexed = λ term. ap (postings term) (flush-mem_index e c.counted false) ∙ c.indexed term;
    hot_taken = c.hot_taken;
    written_taken = c.written_taken;
    pending_taken = tt;
    logs = c.logs;
  }

  puts_of-last :
      (ls : List Log) (l : Log) → puts_of runes (ls ++ l ∷ []) ≡ puts_of runes ls ++ puts runes l
  puts_of-last ls l =
      ap join (map-append (puts runes) ls (l ∷ []))
      ∙ join-single (map (puts runes) ls) (puts runes l)

  take_item-IsConsistent :
      (h : History) (e : Engine Db) (l : Log)
      → IsLog l
      → IsConsistent level_db runes h e
      → IsConsistent level_db runes (take_log l h) (take_item level_db (item_of runes l) e)
  take_item-IsConsistent h e l log c =
      let more = λ (ls : List Log) (in_taken : All (λ l'. In l' h.taken) ls).
        All-map (λ l'. In l' (h.taken ++ l ∷ [])) (λ l' m. In-append_left l' h.taken (l ∷ []) m) ls
          in_taken in
      let last : In l (h.taken ++ l ∷ []) = In-append_right l h.taken (l ∷ []) (inl refl) in
      record {
        stored = λ k. ap (λ d. get d k) (take_item-db l e) ∙ c.stored k;
        batched =
            take_item-batch l e
            ∙ ap (λ b. b ++ puts runes l) c.batched
            ∙ sym (puts_of-last h.pending l);
        counted = take_item-counted l e c.counted;
        indexed = λ term. take_item-postings l e term h.hot log (c.indexed term);
        hot_taken =
            All-append (λ l'. In l' (h.taken ++ l ∷ [])) h.hot (l ∷ []) (more h.hot c.hot_taken)
              (last, tt);
        written_taken = more h.written c.written_taken;
        pending_taken =
            All-append (λ l'. In l' (h.taken ++ l ∷ [])) h.pending (l ∷ [])
              (more h.pending c.pending_taken) (last, tt);
        logs = All-append IsLog h.taken (l ∷ []) c.logs (log, tt);
      }

  -- In any state that the engine can come to, the database holds the logs that were written, the
  -- batch those that are pending, and the index, at each term, those taken since the last start
  -- that have the term, in the order in which they came.
  pub Reach-IsConsistent :
      {h : History} {e : Engine Db} → Reach level_db runes h e → IsConsistent level_db runes h e
  unfolding get_after postings
  Reach-IsConsistent created = record {
    stored = lawful.get-empty;
    batched = refl;
    counted = refl;
    indexed = λ term. refl;
    hot_taken = tt;
    written_taken = tt;
    pending_taken = tt;
    logs = tt;
  }
  Reach-IsConsistent (restarted r) =
      let c = Reach-IsConsistent r in
      record {
        stored = c.stored;
        batched = refl;
        counted = refl;
        indexed = λ term. refl;
        hot_taken = tt;
        written_taken = c.written_taken;
        pending_taken = tt;
        logs = c.logs;
      }
  Reach-IsConsistent (takes {h} {e} r l log) =
      take_item-IsConsistent h e l log (Reach-IsConsistent r)
  Reach-IsConsistent (flushes {h} {e} r) = flush-IsConsistent h e (Reach-IsConsistent r)
  Reach-IsConsistent (flush_fails {h} {e} r) = drop-IsConsistent h e (Reach-IsConsistent r)
