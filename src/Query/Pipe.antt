-- ===== src/Query/Pipe.antt =====
-- Queries without a pipe: `parseQuery` of web/src/lib/queryParser.js finds no term in them.
use hackathon.Common.{[], ◌≡◌, Str, ap, is_space}
use hackathon.Regex.Fails.{Lacks, exec-Lacks}
use hackathon.Regex.{is_unit, star, group, end, plus, is_dot, ◌▹◌}
use hackathon.Query.{query_terms, parse_query, primary}

query_terms-Lacks : (query : Str) → Lacks (is_unit b'|') query → query_terms query ≡ []
unfolding query_terms
query_terms-Lacks query h =
    let e = exec-Lacks (is_unit b'|') (star is_space ▹ group 1 (plus is_dot) ▹ end) query h in
    rw (e, query_terms)

-- A query with no `|` in it has no search term, however it reads, and the primary term is empty.
pub parse_query_no_pipe :
    (query : Str)
    → Lacks (is_unit b'|') query
    → ((parse_query query).terms ≡ []) × ((parse_query query).primary_term ≡ [])
unfolding parse_query
parse_query_no_pipe query h = (query_terms-Lacks query h, ap primary (query_terms-Lacks query h))
