-- ===== src/Http/Middleware/Recovery.antt =====
-- A panic of any handler is answered.
use webhook_telegram_proxy.Prelude.{false, some, List, [], ◌∷◌, codes, ◌≡◌, refl, All}
use webhook_telegram_proxy.Runtime.{World}
use webhook_telegram_proxy.Http.{Request, Recorder, Writer, returned, panicked, Reply, Handler}
use webhook_telegram_proxy.Http.Writing.{IsUnwritten, status_sent, write_public_error-status}
use webhook_telegram_proxy.Http.Middleware.{
  own_recorder, wrap_writer, recovered, recover_middleware,
}

own_recorder-unwritten :
    (rs : List Recorder)
    → All (λ (r : Recorder). r.wrote_header ≡ false) rs
    → (own_recorder rs).wrote_header ≡ false
own_recorder-unwritten [] h = refl
own_recorder-unwritten (r ∷ rs) (fresh, h) = fresh

recovered-status :
    (r : Request) (reply : Reply)
    → reply.ending ≡ panicked
    → IsUnwritten reply.writer
    → status_sent (recovered r reply reply.ending).writer ≡ some 500
recovered-status r reply h fresh =
    rw (h, own_recorder-unwritten reply.writer.recorders fresh.no_recorded)
      (write_public_error-status r 500 (codes "internal server error") reply.writer fresh)

-- A handler that panics before it has written a status is answered with 500 behind the recovering
-- middleware, which itself returns.
pub recover_middleware_lem :
    (next : Handler) (r : Request) (w : Writer) (world : World)
    → (next r (wrap_writer w) world).ending ≡ panicked
    → IsUnwritten (next r (wrap_writer w) world).writer
    → ((recover_middleware next r w world).ending ≡ returned)
      × (status_sent (recover_middleware next r w world).writer ≡ some 500)
unfolding recover_middleware
recover_middleware_lem next r w world h fresh =
    let reply = next r (wrap_writer w) world in (rw h refl, recovered-status r reply h fresh)
