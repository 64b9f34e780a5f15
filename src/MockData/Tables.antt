-- ===== src/MockData/Tables.antt =====
-- The tables of web/src/lib/mockData.js.
use hackathon.Common.{ℕ, Bool, true, false, List, [], ◌∷◌, Str, codes}

abbrev pub hosts : List Str
hosts =
    codes "web-01"
    ∷ codes "web-02"
    ∷ codes "api-01"
    ∷ codes "api-02"
    ∷ codes "db-01"
    ∷ codes "worker-01"
    ∷ codes "gateway"
    ∷ []

abbrev pub apps : List Str
apps =
    codes "nginx"
    ∷ codes "api-service"
    ∷ codes "auth-service"
    ∷ codes "db-proxy"
    ∷ codes "queue-worker"
    ∷ codes "metrics-agent"
    ∷ []

abbrev pub envs : List Str
envs = codes "prod" ∷ codes "staging" ∷ codes "dev" ∷ []

-- The names of LEVELS, which are the keys of MESSAGES.
pub data MockLevel : Type 0 where
  critical error warn info debug : MockLevel

abbrev pub levels : List MockLevel
levels = critical ∷ error ∷ warn ∷ info ∷ debug ∷ []

-- 0.02, 0.08, 0.10, 0.65 and 0.15 as doubles, in units of 2 ^ -58.
abbrev pub level_weights : List ℕ
level_weights =
    5764607523034235 ∷ 23058430092136940 ∷ 28823037615171176 ∷ 187349744498612640
    ∷ 43234556422756760 ∷ []

-- `MESSAGES[level]`
unfoldable pub messages : MockLevel → List Str
messages critical =
    codes "[nginx] 503 Service Unavailable - upstream connection refused on /api/v1/checkout"
    ∷ codes "[kernel] Out of memory: Kill process 1042 (node) score 982 or sacrifice child"
    ∷ codes "[db-proxy] FATAL: max_connections exceeded – rejecting new client connections"
    ∷ codes
        "[auth-service] CRITICAL: JWT secret mismatch – potential token forgery attempt detected"
    ∷ []
messages error =
    codes "[nginx] 500 Internal Server Error in /api/v1/checkout"
    ∷ codes
        "[api-service] Unhandled exception in OrderController: TypeError: Cannot read property \"id\" of undefined"
    ∷ codes "[db-proxy] Connection pool exhausted after 30s timeout – query dropped"
    ∷ codes "[queue-worker] Failed to process job #9821: Redis NOAUTH Authentication required"
    ∷ codes "[auth-service] Invalid or expired token from 192.168.20.155"
    ∷ []
messages warn =
    codes "[nginx] 429 Too Many Requests – rate limit triggered for IP 10.0.4.22"
    ∷ codes "[api-service] Response time exceeded SLA threshold: 2847ms (SLA: 500ms)"
    ∷ codes "[db-proxy] Slow query detected: SELECT * FROM orders took 1204ms"
    ∷ codes "[queue-worker] Retry attempt 3/5 for job #9820 after backoff"
    ∷ codes "[metrics-agent] Memory usage at 87% – consider scaling"
    ∷ []
messages info =
    codes "[nginx] 200 GET /api/v1/products?limit=20 – 192.168.20.153 483ms"
    ∷ codes "[api-service] User session created: uid=usr_a8f2bc, tenant=acme-corp"
    ∷ codes "[auth-service] Successful login for admin@acme.corp from 10.0.1.5"
    ∷ codes "[queue-worker] Job #9823 completed successfully in 142ms"
    ∷ codes "[db-proxy] Connection pool: 45/100 active connections"
    ∷ codes "[nginx] 201 POST /api/v1/orders – order_id=ord_0ef9a2 created"
    ∷ codes "[metrics-agent] Metrics flushed: 1240 samples in 50ms"
    ∷ []
messages debug =
    codes "[nginx] Cache HIT for /static/assets/main.js (TTL: 3600s remaining)"
    ∷ codes "[api-service] Redis cache miss for key: user:session:usr_a8f2bc – fetching from DB"
    ∷ codes "[db-proxy] Query plan: INDEX SCAN on orders(created_at) – est. 142 rows"
    ∷ codes "[queue-worker] Polling queue: depth=3, idle workers=8"
    ∷ codes "[auth-service] Token validation: alg=RS256, exp=valid, iss=logshift-auth"
    ∷ []

pub record Facet : Type 0 where
  pub label : Str
  pub key : Str
  pub value : Str
  pub count : ℕ
  pub active : Bool

-- `STREAM_FACETS`
abbrev pub stream_facets : List Facet
stream_facets =
    record {
      label = codes "app=\"nginx\"";
      key = codes "app";
      value = codes "nginx";
      count = 439;
      active = true;
    }
    ∷ record {
      label = codes "app=\"api-service\"";
      key = codes "app";
      value = codes "api-service";
      count = 284;
      active = false;
    }
    ∷ record {
      label = codes "env=\"prod\"";
      key = codes "env";
      value = codes "prod";
      count = 312;
      active = true;
    }
    ∷ record {
      label = codes "env=\"staging\"";
      key = codes "env";
      value = codes "staging";
      count = 89;
      active = false;
    }
    ∷ record {
      label = codes "host=\"web-01\"";
      key = codes "host";
      value = codes "web-01";
      count = 179;
      active = true;
    }
    ∷ record {
      label = codes "host=\"web-02\"";
      key = codes "host";
      value = codes "web-02";
      count = 134;
      active = false;
    }
    ∷ record {
      label = codes "host=\"api-01\"";
      key = codes "host";
      value = codes "api-01";
      count = 98;
      active = false;
    }
    ∷ record {
      label = codes "host=\"db-01\"";
      key = codes "host";
      value = codes "db-01";
      count = 47;
      active = false;
    }
    ∷ []
