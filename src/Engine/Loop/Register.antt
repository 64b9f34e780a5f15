-- ===== src/Engine/Loop/Register.antt =====
-- The loop over `item.TermKeys` of engine/cmd/server/main.go.
use hackathon.Common.{
  ℕ, suc, ◌<◌, ◌^◌, Bool, false, List, [], ◌∷◌, ◌++◌, append-nil, append_assoc, ◌≡◌, refl, sym, ap,
  ◌∙◌, map, length, length-append, All, inl, inr, arith, str_eq, str_eq_iff, if◌then◌else◌,
  Bool-cases,
}
use hackathon.Engine.Keys.{Bytes, encode_index_key}
use hackathon.Engine.Keys.RoundTrip.{IsNonzero, decode_index_key-encode}
use hackathon.Engine.Db.{LevelDb, Put}
use hackathon.Engine.Index.{Posting, Terms, postings, add, postings-add}
use hackathon.Engine.Tokens.{contains}
use hackathon.Engine.Tokens.Distinct.{Distinct}
use hackathon.Engine.Loop.{Engine, register, put, add_key}

module _ (level_db : LevelDb) where
  open level_db use {Db}

  abbrev pub put_key : Bytes → Put
  put_key k = record { key = k; value = [] }

  pub register-batch :
      (ks : List Bytes) (e : Engine Db) → (register level_db ks e).batch ≡ e.batch ++ map put_key ks
  unfolding register put
  register-batch [] e = sym (append-nil e.batch)
  register-batch (k ∷ ks) e =
      register-batch ks _ ∙ append_assoc e.batch (put_key k ∷ []) (map put_key ks)

  pub register-counted :
      (ks : List Bytes) (e : Engine Db)
      → e.batch_size ≡ length e.batch
      → (register level_db ks e).batch_size ≡ length (register level_db ks e).batch
  unfolding register put
  register-counted [] e h = h
  register-counted (k ∷ ks) e h =
      register-counted ks _ (omega (arith, length-append {0} e.batch (put_key k ∷ [])))

  pub register-db : (ks : List Bytes) (e : Engine Db) → (register level_db ks e).db ≡ e.db
  unfolding register put
  register-db [] e = refl
  register-db (k ∷ ks) e = register-db ks _

module _ (ts stream_id : ℕ) where
  abbrev pub one : Bool → List Posting
  one b = if b then record { timestamp_nano = ts; stream_id = stream_id } ∷ [] else []

  postings-token :
      (term t : Bytes) (tokens : List Bytes) (terms : Terms)
      → contains t tokens ≡ false
      → postings term (add t (record { timestamp_nano = ts; stream_id = stream_id }) terms)
          ++ one (contains term tokens)
        ≡ postings term terms ++ one (contains term (t ∷ tokens))
  unfolding contains
  postings-token term t tokens terms new = elim (Bool-cases (str_eq t term)) [
    | inl same ↦
        let e : t ≡ term = (str_eq_iff t term).0 same in
        ground (
          arith,
          postings-add term t (record { timestamp_nano = ts; stream_id = stream_id }) terms,
          same,
          str_eq_iff term t,
          ap (λ u. contains u tokens) (sym e) ∙ new,
          append-nil
              (postings term terms ++ record { timestamp_nano = ts; stream_id = stream_id } ∷ []),
        )
    | inr other ↦ ground (
      arith,
      postings-add term t (record { timestamp_nano = ts; stream_id = stream_id }) terms,
      other,
      str_eq_iff term t,
      str_eq_iff t term,
    )
  ]

  abbrev pub keys_of : List Bytes → List Bytes
  keys_of tokens = map (λ term. encode_index_key term ts stream_id) tokens

  module _ (level_db : LevelDb) (time : ts < 2 ^ 64) (stream : stream_id < 2 ^ 64) where
    open level_db use {Db}

    pub register-postings :
        (term : Bytes) (tokens : List Bytes) (e : Engine Db)
        → All (All IsNonzero) tokens
        → Distinct tokens
        → postings term (register level_db (keys_of tokens) e).mem_index
          ≡ postings term e.mem_index ++ one (contains term tokens)
    unfolding register put contains add_key
    register-postings term [] e h d = sym (append-nil _)
    register-postings term (t ∷ tokens) e h d =
        ap
          (λ k.
            postings term
              (register level_db (keys_of tokens) (record e {
                mem_index = add_key k e.mem_index;
                batch = e.batch ++ put_key level_db (encode_index_key t ts stream_id) ∷ [];
                batch_size = suc e.batch_size;
              })).mem_index)
          (decode_index_key-encode t ts stream_id time stream h.0)
        ∙ register-postings term tokens _ h.1 d.1
        ∙ postings-token term t tokens e.mem_index d.0
