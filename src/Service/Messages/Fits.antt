-- ===== src/Service/Messages/Fits.antt =====
-- No message that `buildMessages` returns is too long for Telegram, whichever source it is made from.
use webhook_telegram_proxy.Prelude.{
  [], ◌∷◌, ◌∷◌, ℕ, List, Text, codes, text_eq, All, ◌≡◌, inl, inr, sym, subst, Option, some, none,
  Bool-cases,
}
use webhook_telegram_proxy.Errors.{Result, ok, err}
use webhook_telegram_proxy.Models.{WebhookPayload}
use webhook_telegram_proxy.Template.Build.{build_data}
use webhook_telegram_proxy.Template.{MessageData, max_telegram_message_chars}
use webhook_telegram_proxy.Runtime.{Env}
use webhook_telegram_proxy.Service.Splitting.Parts.{IsGoodPart}
use webhook_telegram_proxy.Service.Splitting.Passthrough.{
  IsPassthrough, of_message, of_title, of_neither, build_passthrough_messages_lem,
}
use webhook_telegram_proxy.Service.Messages.{build_messages, with_renderer}
use webhook_telegram_proxy.Service.Messages.Built.{Fits, render_messages_lem, rendered-Fits}

good-Fits : (l : List Text) → All (IsGoodPart max_telegram_message_chars) l → All Fits l
good-Fits [] h = tt
good-Fits (m ∷ l) (h, hs) = (h.fits, good-Fits l hs)

-- what an answer's messages are, if it has any
abbrev OkFits : Result (List Text) → Type 0
OkFits (ok messages) = All Fits messages
OkFits (err e) = Unit

passthrough_fits : (p : WebhookPayload) (r : Result (List Text)) → IsPassthrough p r → OkFits r
passthrough_fits p (ok l) (of_message m a good) = good-Fits l good.good
passthrough_fits p (ok l) (of_title m a b good) = good-Fits l good.good
passthrough_fits p (err e) (of_neither a b) = tt

module _ (env : Env) (call : ℕ) (payload : WebhookPayload) where
  renderer-Fits :
      (renderer : Option (ℕ → MessageData → Result Text)) (messages : List Text)
      → with_renderer env call payload renderer ≡ ok messages
      → All Fits messages
  renderer-Fits none messages h = cc
  renderer-Fits (some execute) messages h =
      elim (render_messages_lem execute (build_data (env.display call) payload) messages h) [
        | inl whole ↦ subst (All Fits) (sym whole.alone) (whole.fits, tt)
        | inr split ↦
            rendered-Fits execute (build_data (env.display call) payload) _ _ 1 split.chunks
              messages split.rendered
      ]

  -- Each message that `build_messages` returns has at most 4096 characters, whether it is passed on or
  -- rendered.
  pub build_messages-Fits :
      (messages : List Text) → build_messages env call payload ≡ ok messages → All Fits messages
  unfolding build_messages
  build_messages-Fits messages h =
      elim (Bool-cases (text_eq (env.cfg).alert_message_source (codes "alertmanager"))) [
        | inl same ↦
            subst OkFits (rw same at h)
              (passthrough_fits payload _ (build_passthrough_messages_lem payload))
        | inr other ↦ renderer-Fits (env.renderer call) messages (rw other at h)
      ]
