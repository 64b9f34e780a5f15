-- ===== src/Engine/Ingest.antt =====
-- engine/internal/ingestion/http.go: `handleIngest`, with `bufio.Scanner` over the lines of a body.
-- A body that cannot be read to its end is `is_read` false behind the bytes that came.
use hackathon.Common.{
  ℕ, ◌<◌, ◌≢◌, Bool, true, false, not, ◌&&◌, List, [], ◌∷◌, ◌++◌, append-nil, append_assoc, ◌≡◌,
  refl, sym, ap, ◌∙◌, length, take, map, All, ltb, ◌==◌, arith, if◌then◌else◌,
}
use hackathon.Engine.Keys.{Bytes}

-- `bufio.MaxScanTokenSize`
abbrev max_token_size : ℕ
max_token_size = 65536

-- What the scanner gives: its lines, and whether it ended without an error.
pub record Scanned : Type 0 where
  pub lines : List Bytes
  pub is_whole : Bool

-- `dropCR` of `bufio.ScanLines`.
unfoldable pub drop_cr : Bytes → Bytes
drop_cr [] = []
drop_cr (c ∷ []) = if c == 13 then [] else c ∷ []
drop_cr (c ∷ d ∷ s) = c ∷ drop_cr (d ∷ s)

-- A line in front of those behind it. The scanner stops at one that does not fit its buffer.
unfoldable pub scanned_line : Bytes → Scanned → Scanned
unfolding drop_cr
scanned_line line rest =
    if ltb (length line) max_token_size
    then record rest { lines = drop_cr line ∷ rest.lines }
    else record { lines = []; is_whole = false }

-- The lines of a text, within a line. A text does not end with an empty line.
unfoldable pub scan_from : Bytes → Bytes → Scanned
unfolding scanned_line
scan_from [] [] = record { lines = []; is_whole = true }
scan_from (c ∷ line) [] = scanned_line (c ∷ line) (record { lines = []; is_whole = true })
scan_from line (b ∷ s) = elim (b == 10) [
  | true ↦ scanned_line line (scan_from [] s)
  | false ↦ scan_from (line ++ b ∷ []) s
]

pub data Status : Type 0 where
  method_not_allowed : Status
  bad_request : Status
  accepted : Status

pub record Ingested : Type 0 where
  pub status : Status
  pub packets : List Bytes

-- `copy` into a buffer of 2048 bytes.
abbrev pub packet_of : Bytes → Bytes
packet_of line = take 2048 line

-- The loop over the lines.
unfoldable pub packets_of : List Bytes → List Bytes
packets_of [] = []
packets_of ([] ∷ lines) = packets_of lines
packets_of ((c ∷ line) ∷ lines) = packet_of (c ∷ line) ∷ packets_of lines

-- `handleIngest`
unfoldable pub handle_ingest : Bool → Bool → Bytes → Ingested
unfolding scan_from packets_of
handle_ingest is_post is_read body =
    if not is_post
    then record { status = method_not_allowed; packets = [] }
    else (let scanned = scan_from [] body in
        record {
          status = if scanned.is_whole && is_read then accepted else bad_request;
          packets = packets_of scanned.lines;
        })

-- A line of a body: some bytes with no end of line, which fit the scanner's buffer.
pub record IsLine (line : Bytes) : Type 0 where
  pub some_bytes : line ≢ []
  pub no_end : All (λ b. b ≢ 10) line
  pub no_cr : drop_cr line ≡ line
  pub fits : length line < max_token_size

-- Each line with an end of line behind it.
abbrev pub body_of : List Bytes → Bytes
body_of [] = []
body_of (line ∷ lines) = line ++ 10 ∷ body_of lines

scan_from-step :
    (front : Bytes) (b : ℕ) (s : Bytes)
    → (b == 10) ≡ false
    → scan_from front (b ∷ s) ≡ scan_from (front ++ b ∷ []) s
unfolding scan_from
scan_from-step [] b s other = rw (other, scan_from) refl
scan_from-step (c ∷ front) b s other = rw (other, scan_from) refl

scan_from-line :
    (front line s : Bytes)
    → All (λ b. b ≢ 10) line
    → scan_from front (line ++ 10 ∷ s) ≡ scanned_line (front ++ line) (scan_from [] s)
unfolding scan_from
scan_from-line [] [] s h = refl
scan_from-line (c ∷ front) [] s h =
    ap (λ l. scanned_line l (scan_from [] s)) (sym (append-nil (c ∷ front)))
scan_from-line front (b ∷ line) s h =
    let other : (b == 10) ≡ false = ground (arith, h.0) in
    scan_from-step front b (line ++ 10 ∷ s) other
    ∙ scan_from-line (front ++ b ∷ []) line s h.1
    ∙ ap (λ l. scanned_line l (scan_from [] s)) (append_assoc front (b ∷ []) line)

scanned_line-fits :
    (line : Bytes) (rest : Scanned)
    → drop_cr line ≡ line
    → length line < max_token_size
    → scanned_line line rest ≡ record rest { lines = line ∷ rest.lines }
unfolding scanned_line
scanned_line-fits line rest no_cr fits =
    let small : ltb (length line) max_token_size ≡ true = ground arith in
    rw small (ap (λ l. record rest { lines = l ∷ rest.lines }) no_cr)

scan-lines :
    (lines : List Bytes)
    → All IsLine lines
    → scan_from [] (body_of lines) ≡ record { lines = lines; is_whole = true }
unfolding scan_from scanned_line
scan-lines [] h = refl
scan-lines (line ∷ lines) h =
    let whole : Scanned = record { lines = lines; is_whole = true } in
    scan_from-line [] line (body_of lines) h.0.no_end
    ∙ ap (scanned_line line) (scan-lines lines h.1)
    ∙ scanned_line-fits line whole h.0.no_cr h.0.fits

packets_of-lines : (lines : List Bytes) → All IsLine lines → packets_of lines ≡ map packet_of lines
unfolding packets_of
packets_of-lines [] h = refl
packets_of-lines ([] ∷ lines) h = absurd (h.0.some_bytes refl)
packets_of-lines ((c ∷ line) ∷ lines) h =
    ap (◌∷◌ (packet_of (c ∷ line))) (packets_of-lines lines h.1)

-- A POST of lines, each with an end of line behind it and with less than 65536 bytes, is accepted,
-- and each line becomes a packet, in their order, cut behind 2048 bytes.
pub handle_ingest-lines :
    (lines : List Bytes)
    → All IsLine lines
    → handle_ingest true true (body_of lines)
      ≡ record { status = accepted; packets = map packet_of lines }
unfolding handle_ingest
handle_ingest-lines lines h =
    ap
      (λ scanned. record {
        status = if scanned.is_whole && true then accepted else bad_request;
        packets = packets_of scanned.lines;
      })
      (scan-lines lines h)
    ∙ ap (λ ps. record { status = accepted; packets = ps }) (packets_of-lines lines h)
