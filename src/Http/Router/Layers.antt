-- ===== src/Http/Router/Layers.antt =====
-- A handler that answers with 401 still does so behind each layer of internal/http/middleware.go.
use webhook_telegram_proxy.Prelude.{ℕ, true, false, some, Text, codes, ◌≡◌, refl, String}
use webhook_telegram_proxy.Config.{Config, basic_auth_enabled}
use webhook_telegram_proxy.Runtime.{Env, World}
use webhook_telegram_proxy.Http.{
  String, Request, Writer, returned, Reply, Handler, set_header, write_public_error,
}
use webhook_telegram_proxy.Http.Writing.{
  IsUnwritten, status_sent, write_public_error-status, set_header-IsUnwritten,
}
use webhook_telegram_proxy.Http.Guards.{Site, credentials_match, authorize_webhook}
use webhook_telegram_proxy.Http.Handlers.{webhook_receiver}
use webhook_telegram_proxy.Http.Middleware.{
  wrap_writer, recover_middleware, request_id_middleware, log_middleware,
  security_headers_middleware, basic_auth_middleware, with_route, challenge,
}
use webhook_telegram_proxy.Http.Router.{Parts, mux, router}

-- Answered with 401, while the table and what was sent stay as they are.
pub record Denied (reply : Reply) (world : World) : Type 0 where
  pub returns : reply.ending ≡ returned
  pub unauthorized : status_sent reply.writer ≡ some 401
  pub same_table : reply.world.table ≡ world.table
  pub same_sent : reply.world.sent ≡ world.sent

abbrev pub Denies : Handler → Request → Type 0
Denies next r = (w : Writer) (world : World) → IsUnwritten w → Denied (next r w world) world

wrap_writer-IsUnwritten : (w : Writer) → IsUnwritten w → IsUnwritten (wrap_writer w)
wrap_writer-IsUnwritten w fresh = record {
  no_recorded = (refl, fresh.no_recorded);
  no_head = fresh.no_head;
}

log-Denies : (next : Handler) (r : Request) → Denies next r → Denies (log_middleware next) r
unfolding log_middleware
log-Denies next r d w world fresh =
    let inner = d (wrap_writer w) world (wrap_writer-IsUnwritten w fresh) in
    record {
      returns = inner.returns;
      unauthorized = inner.unauthorized;
      same_table = inner.same_table;
      same_sent = inner.same_sent;
    }

pub with_route-Denies :
    (route : String) (next : Handler) (r : Request)
    → Denies next r
    → Denies (with_route route next) r
unfolding with_route
with_route-Denies route next r d w world fresh =
    let inner = d (wrap_writer w) world (wrap_writer-IsUnwritten w fresh) in
    rw (inner.returns) (record {
      returns = refl;
      unauthorized = inner.unauthorized;
      same_table = inner.same_table;
      same_sent = inner.same_sent;
    })

recover-Denies : (next : Handler) (r : Request) → Denies next r → Denies (recover_middleware next) r
unfolding recover_middleware
recover-Denies next r d w world fresh =
    let inner = d (wrap_writer w) world (wrap_writer-IsUnwritten w fresh) in
    rw (inner.returns) (record {
      returns = refl;
      unauthorized = inner.unauthorized;
      same_table = inner.same_table;
      same_sent = inner.same_sent;
    })

security-Denies :
    (next : Handler) (r : Request) → Denies next r → Denies (security_headers_middleware next) r
unfolding security_headers_middleware
security-Denies next r d w world fresh =
    let h : (n v : Text) (w : Writer) → IsUnwritten w → IsUnwritten (set_header n v w) =
      set_header-IsUnwritten in
    d _ world (h _ _ _ (h _ _ _ (h _ _ _ (h _ _ _ (h _ _ _ (h _ _ w fresh))))))

request_id-Denies :
    (site : Site) (next : Handler) (r : Request)
    → ((id : Text) → Denies next (record r { request_id = id }))
    → Denies (request_id_middleware site next) r
unfolding request_id_middleware
request_id-Denies site next r d w world fresh =
    let inner = d _ _ _ (set_header-IsUnwritten _ _ w fresh) in
    record {
      returns = inner.returns;
      unauthorized = inner.unauthorized;
      same_table = inner.same_table;
      same_sent = inner.same_sent;
    }

error-Denies :
    (r : Request) (message : Text) (w : Writer) (world world' : World)
    → IsUnwritten w
    → world'.table ≡ world.table
    → world'.sent ≡ world.sent
    → Denied
        (record { ending = returned; writer = write_public_error r 401 message w; world = world' })
        world
error-Denies r message w world world' fresh same_table same_sent = record {
  returns = refl;
  unauthorized = write_public_error-status r 401 message w fresh;
  same_table = same_table;
  same_sent = same_sent;
}

pub basic_auth-Denies :
    (site : Site) (quote : Text → Text) (cfg : Config) (next : Handler) (r : Request)
    → basic_auth_enabled cfg ≡ true
    → credentials_match site cfg r.basic_auth ≡ false
    → Denies (basic_auth_middleware site quote cfg next) r
unfolding basic_auth_middleware
basic_auth-Denies site quote cfg next r enabled wrong w world fresh =
    rw (enabled, wrong)
      (error-Denies r _ _ world world
        (set_header-IsUnwritten (codes "WWW-Authenticate") (challenge quote cfg) w fresh) refl refl)

pub webhook-Denies :
    (env : Env) (site : Site) (calls : ℕ) (r : Request)
    → authorize_webhook site env.cfg r ≡ false
    → Denies (webhook_receiver env site calls) r
unfolding webhook_receiver
webhook-Denies env site calls r wrong w world fresh =
    rw wrong (error-Denies r _ w world _ fresh refl refl)

-- the layers around the mux
pub router-Denies :
    (env : Env) (parts : Parts) (calls : ℕ) (r : Request)
    → ((id : Text) → Denies (mux env parts calls) (record r { request_id = id }))
    → Denies (router env parts calls) r
unfolding router
router-Denies env parts calls r d = recover-Denies _ r (
    request_id-Denies parts.site _ r
      (λ id. log-Denies _ _ (security-Denies (mux env parts calls) _ (d id))))
