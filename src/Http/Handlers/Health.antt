-- ===== src/Http/Handlers/Health.antt =====
-- When the health check succeeds.
use mathlib.Core.Option.{some-injective}
use webhook_telegram_proxy.Prelude.{
  ℕ, ◌≤◌, Option, some, ◌≡◌, refl, sym, ◌∙◌, ◌↔◌, arith, ltb, Bool-cases, inl, inr, if◌then◌else◌,
}
use webhook_telegram_proxy.Errors.{Result, ok, err}
use webhook_telegram_proxy.Runtime.{Env, World}
use webhook_telegram_proxy.Store.Methods.{size_bytes}
use webhook_telegram_proxy.Http.{Request, Writer}
use webhook_telegram_proxy.Http.Writing.{IsUnwritten, status_sent, write_json-status}
use webhook_telegram_proxy.Http.Handlers.{unhealthy, healthy, sized, pinged, ping, health}

abbrev pub HasRoom : Env → Result ℕ × World → Type 0
HasRoom env (ok size, world) = size ≤ env.cfg.store_max_size_bytes
HasRoom env (err e, world) = ⊥

abbrev pub AnswersWithRoom : Env → Result (Unit {0}) × World → Type 0
AnswersWithRoom env (ok done, world) = HasRoom env (size_bytes env world)
AnswersWithRoom env (err e, world) = ⊥

-- The store answers the ping, and then its files are no larger than the largest size.
unfoldable pub IsHealthy : Env → World → Type 0
IsHealthy env world = AnswersWithRoom env (ping env world)

apart : ◌≡◌ {A = Option ℕ} (some 200) (some 503) → ⊥
apart h = omega (arith, some-injective 200 503 h)

module _ (env : Env) (w : Writer) (fresh : IsUnwritten w) where
  unhealthy-status : status_sent (unhealthy env w) ≡ some 503
  unhealthy-status = write_json-status 503 _ w fresh

  healthy-status :
      (size : ℕ)
      → (status_sent (healthy env size w) ≡ some 200) ↔ (size ≤ env.cfg.store_max_size_bytes)
  healthy-status size =
      let status =
        write_json-status (if ltb env.cfg.store_max_size_bytes size then 503 else 200) _ w fresh in
      elim (Bool-cases (ltb env.cfg.store_max_size_bytes size)) [
        | inl full ↦ (
          λ ok_status. absurd (let code = rw full at (sym ok_status ∙ status) in apart code),
          λ fits. ground arith,
        )
        | inr fits ↦ (λ ok_status. ground arith, λ le. status ∙ rw fits refl)
      ]

  sized-status :
      (p : Result ℕ × World) → (status_sent (sized env w p).writer ≡ some 200) ↔ HasRoom env p
  sized-status (ok size, world) = healthy-status size
  sized-status (err e, world) =
      (λ ok_status. absurd (apart (sym ok_status ∙ unhealthy-status)), λ none. elim none [ ])

  pinged-status :
      (p : Result (Unit {0}) × World)
      → (status_sent (pinged env w p).writer ≡ some 200) ↔ AnswersWithRoom env p
  pinged-status (ok done, world) = sized-status (size_bytes env world)
  pinged-status (err e, world) =
      (λ ok_status. absurd (apart (sym ok_status ∙ unhealthy-status)), λ none. elim none [ ])

-- Where no status was written before, the health check answers with 200 exactly when the store answers
-- the ping and its files are then no larger than the largest size.
pub health_lem :
    (env : Env) (r : Request) (w : Writer) (world : World)
    → IsUnwritten w
    → (status_sent (health env r w world).writer ≡ some 200) ↔ IsHealthy env world
unfolding health IsHealthy
health_lem env r w world fresh = pinged-status env w fresh (ping env world)
