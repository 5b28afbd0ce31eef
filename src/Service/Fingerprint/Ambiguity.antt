-- ===== src/Service/Fingerprint/Ambiguity.antt =====
-- The separators of the canonical string are not escaped, so it does not tell all payloads apart.
use webhook_telegram_proxy.Prelude.{◌∙◌, ◌++◌, Text, codes, ◌≡◌, ap, sym, append_assoc}
use webhook_telegram_proxy.Models.{WebhookPayload}
use webhook_telegram_proxy.Runtime.{Env}
use webhook_telegram_proxy.Service.Fingerprint.{canonical_string, compute_fingerprint}

move_bar :
    (r m s rest : Text)
    → (r ++ (codes "|" ++ m)) ++ (codes "|" ++ (s ++ rest))
      ≡ r ++ (codes "|" ++ ((m ++ (codes "|" ++ s)) ++ rest))
move_bar r m s rest =
    append_assoc r (codes "|" ++ m) (codes "|" ++ (s ++ rest))
    ∙ ap (λ l. r ++ (codes "|" ++ l)) (sym (append_assoc m (codes "|" ++ s) rest))

-- A bar moves from the receiver into the status: a payload whose receiver ends in a bar and a text has
-- the fingerprint of the payload in which that bar and text stand at the status instead.
pub compute_fingerprint-bar :
    (env : Env) (p : WebhookPayload) (receiver moved status : Text)
    → compute_fingerprint env
        (record p { receiver = receiver ++ (codes "|" ++ moved); status = status })
      ≡ compute_fingerprint env
          (record p { receiver = receiver; status = moved ++ (codes "|" ++ status) })
unfolding compute_fingerprint canonical_string
compute_fingerprint-bar env p receiver moved status =
    ap env.sha256_hex (move_bar receiver moved status _)
