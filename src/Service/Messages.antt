-- ===== src/Service/Messages.antt =====
-- `buildMessages` of internal/service/delivery_service.go: one message when the whole batch fits, or
-- the alerts packed greedily into several.
pub mod Packing
pub mod Built
pub mod Fits
use webhook_telegram_proxy.Prelude.{
  ℕ, zero, suc, ◌+◌, ◌-◌, Bool, true, false, not, ◌&&◌, Option, none, some, List, [], ◌∷◌, ◌++◌,
  map, Text, codes, decimal, text_eq, ltb, leb, length, if◌then◌else◌,
}
use webhook_telegram_proxy.Errors.{Result, ok, err, plain, and_then, wrapped}
use webhook_telegram_proxy.Models.{WebhookPayload}
use webhook_telegram_proxy.Template.Build.{build_data}
use webhook_telegram_proxy.Template.{
  AlertData, MessageData, clone_with_alerts, max_telegram_message_chars,
}
use webhook_telegram_proxy.Service.Splitting.{build_passthrough_messages}
use webhook_telegram_proxy.Prelude.{trim_space}
use webhook_telegram_proxy.Runtime.{Env}

pub record SizedAlert : Type 0 where
  pub alert : AlertData
  pub size : ℕ

abbrev pub part_count_reserve : ℕ
part_count_reserve = 16

abbrev pub is_nil : List AlertData → Bool
is_nil [] = true
is_nil (a ∷ l) = false

-- The loop "greedy pack into chunks", at `current` and its size.
unfoldable pub pack_chunks : ℕ → List AlertData → ℕ → List SizedAlert → List (List AlertData)
pack_chunks budget current current_size [] = if is_nil current then [] else current ∷ []
pack_chunks budget current current_size (entry ∷ rest) =
    let full = not (is_nil current) && ltb budget (current_size + entry.size) in
    let kept = if full then [] else current in
    let kept_size = if full then 0 else current_size in
    let more = pack_chunks budget (kept ++ (entry.alert ∷ [])) (kept_size + entry.size) rest in
    if full then current ∷ more else more

-- `Render`, at the number of the call; its metric is left out
unfoldable pub render : (ℕ → MessageData → Result Text) → ℕ → MessageData → Result Text
render execute n content = and_then (execute n content) (λ text. ok (trim_space text))

module _ (execute : ℕ → MessageData → Result Text) (content : MessageData) where
  -- the room that an alert takes beyond a message without alerts
  abbrev pub measured : ℕ → ℕ → ℕ
  measured shell chars = if ltb chars shell then chars else chars - shell

  abbrev pub sized_within : ℕ → AlertData → ℕ → Result SizedAlert
  sized_within budget alert n =
      if ltb budget n
      then err (
          plain (
            codes "single alert exceeds Telegram limit ("
            ++ (decimal n ++ (codes " > " ++ (decimal budget ++ codes " chars)")))))
      else ok (record { alert = alert; size = n })

  abbrev pub sized_cons : Result (List SizedAlert) → SizedAlert → Result (List SizedAlert)
  sized_cons more entry = and_then more (λ sized. ok (entry ∷ sized))

  abbrev pub size_one :
      ℕ → ℕ → AlertData → Result (List SizedAlert) → Text → Result (List SizedAlert)
  size_one budget shell a more text =
      and_then (sized_within budget a (measured shell (length text))) (sized_cons more)

  -- the loop that renders each alert alone
  unfoldable pub size_alerts : ℕ → ℕ → ℕ → List AlertData → Result (List SizedAlert)
  size_alerts budget shell n [] = ok []
  size_alerts budget shell n (a ∷ rest) =
      and_then
        (wrapped (codes "render alert for sizing")
          (render execute n (clone_with_alerts content (a ∷ []) 1 1)))
        (size_one budget shell a (size_alerts budget shell (suc n) rest))

  abbrev pub checked_chunk : ℕ → Text → Result (List Text) → Result (List Text)
  checked_chunk index text more =
      if ltb max_telegram_message_chars (length text)
      then err (
          plain (
            codes "chunk "
            ++ (decimal index
                ++ (codes " exceeds Telegram limit after final render ("
                    ++ (decimal (length text) ++ codes " chars)")))))
      else and_then more (λ messages. ok (text ∷ messages))

  -- the loop of the final render, at `idx+1`
  unfoldable pub render_chunks : ℕ → ℕ → ℕ → List (List AlertData) → Result (List Text)
  render_chunks count n index [] = ok []
  render_chunks count n index (chunk ∷ rest) =
      and_then
        (wrapped (codes "render chunk " ++ decimal index)
          (render execute n (clone_with_alerts content chunk index count)))
        (λ text. checked_chunk index text (render_chunks count (suc n) (suc index) rest))

  unfoldable pub render_sized : ℕ → List SizedAlert → Result (List Text)
  render_sized budget sized =
      let chunks = pack_chunks budget [] 0 sized in
      render_chunks (length chunks) (suc (suc (length content.alerts))) 1 chunks

  unfoldable pub render_parts : ℕ → Result (List Text)
  render_parts shell =
      let budget = max_telegram_message_chars - (shell + part_count_reserve) in
      if leb max_telegram_message_chars (shell + part_count_reserve)
      then err (plain (codes "template header alone exceeds Telegram limit"))
      else and_then (size_alerts budget shell 2 content.alerts) (render_sized budget)

  unfoldable pub render_whole : Text → Result (List Text)
  render_whole whole =
      if leb (length whole) max_telegram_message_chars
      then ok (whole ∷ [])
      else and_then
          (wrapped (codes "render empty shell")
            (render execute 1 (clone_with_alerts content [] 1 1)))
          (λ shell. render_parts (length shell))

  unfoldable pub render_messages : Result (List Text)
  render_messages =
      and_then (wrapped (codes "render full batch") (render execute 0 content)) render_whole

module _ (env : Env) where
  abbrev pub with_renderer :
      ℕ → WebhookPayload → Option (ℕ → MessageData → Result Text) → Result (List Text)
  with_renderer call payload none = err (plain (codes "template renderer is not configured"))
  with_renderer call payload (some execute) =
      render_messages execute (build_data (env.display call) payload)

  -- `buildMessages`, at the number of outside calls made before
  unfoldable pub build_messages : ℕ → WebhookPayload → Result (List Text)
  build_messages call payload =
      if text_eq (env.cfg).alert_message_source (codes "alertmanager")
      then build_passthrough_messages payload
      else with_renderer call payload (env.renderer call)
