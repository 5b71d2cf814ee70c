-- ===== src/Server/Http/Reply.antt =====
-- The answers of `handle_http_request` in tunnel-server, and their counters.
use openspoke.Common.Channel.{Channel}
use openspoke.Common.{ℕ, some, ◌≡◌, true, false, [], ◌∷◌, ◌++◌, ok, err, ◌+◌, if◌then◌else◌}
use openspoke.Common.Eq.{list_eq, nat_eq}
use openspoke.Common.Dict.{contains, insert}
use openspoke.Common.Int.{pos}
use openspoke.Common.Text.{Text, codes, as_bytes}
use openspoke.Wire.{Bytes, HttpRequest, HttpResponse, ServerKind}
use openspoke.Server.Config.{ServerConfig}
use openspoke.Server.Metrics.{count}
use openspoke.Server.Session.{Conn}
use openspoke.Server.Http.{HttpClient, Upstream, response_headers, build_request}

-- The four ways in which a request ends, each with its label.
pub data Outcome (client : HttpClient) (cfg : ServerConfig) (id : Text) (req : HttpRequest)
    (label : Text) (r : HttpResponse) : Type 0 where
  refused :
      contains req.path cfg.allowed_paths ≡ false
      → label ≡ codes "rejected_path"
      → r ≡ record {
        status = pos 403;
        headers = [];
        body = as_bytes (codes "path not allowed: " ++ req.path);
        error = codes "rejected_path";
      }
      → Outcome client cfg id req label r
  unreachable :
      (e : Text)
      → contains req.path cfg.allowed_paths ≡ true
      → client.execute (build_request client cfg id req) ≡ err e
      → label ≡ codes "upstream_err"
      → r
        ≡ record { status = pos 0; headers = []; body = []; error = codes "upstream error: " ++ e }
      → Outcome client cfg id req label r
  cut_short :
      (up : Upstream) (e : Text)
      → contains req.path cfg.allowed_paths ≡ true
      → client.execute (build_request client cfg id req) ≡ ok up
      → up.body ≡ err e
      → label ≡ codes "upstream_err"
      → r ≡ record {
        status = pos 0;
        headers = [];
        body = [];
        error = codes "upstream body error: " ++ e;
      }
      → Outcome client cfg id req label r
  passed :
      (up : Upstream) (body : Bytes)
      → contains req.path cfg.allowed_paths ≡ true
      → client.execute (build_request client cfg id req) ≡ ok up
      → up.body ≡ ok body
      → label ≡ codes "ok"
      → r ≡ record {
        status = pos up.status;
        headers = response_headers up.headers [];
        body = body;
        error = [];
      }
      → Outcome client cfg id req label r

-- One answer: the frame that is added where the channel is open, and the counter that is raised.
pub record IsAnswered (client : HttpClient) (cfg : ServerConfig) (sid : ℕ) (req : HttpRequest)
    (c c' : Conn) : Type 0 where
  pub label : Text
  pub response : HttpResponse
  pub outcome : Outcome client cfg c.session.spoke_id req label response
  pub sent : c'.session.server_tx.sent ≡ (
      if c.session.server_tx.is_open
      then c.session.server_tx.sent
        ++ record { stream_id = sid; kind = some (ServerKind.http_response response) } ∷ []
      else c.session.server_tx.sent)
  pub streams : c'.session.streams ≡ c.session.streams
  pub counted :
      let labels = c.session.spoke_id ∷ label ∷ [] in
      c'.metrics ≡ record c.metrics {
        http_requests =
            insert labels (count labels c.metrics.http_requests + 1) c.metrics.http_requests;
      }
