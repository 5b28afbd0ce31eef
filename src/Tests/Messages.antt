-- ===== src/Tests/Messages.antt =====
-- Instances of what is proved of the messages.
use mathlib.Core.List.{cons-ne-nil, flatten}
use mathlib.Core.List.Perm
use webhook_telegram_proxy.Prelude.{
  text_eq, ℕ, List, [], ◌∷◌, ◌≡◌, ◌⊎◌, refl, arith, codes, All, Text,
}
use webhook_telegram_proxy.Errors.{Result, ok}
use webhook_telegram_proxy.Models.{Alert}
use webhook_telegram_proxy.Template.{MessageData}
use webhook_telegram_proxy.Service.Splitting.{
  cut_from, last_fitting_cut, split_rounds, split_message, build_passthrough_messages,
}
use webhook_telegram_proxy.Prelude.{trim_right, trim_left, is_space, trim_space}
use webhook_telegram_proxy.Service.Splitting.Trimming.{visible}
use webhook_telegram_proxy.Service.Splitting.Parts.{IsGoodPart, split_message_lem}
use webhook_telegram_proxy.Service.Splitting.Passthrough.{
  IsPassthrough, build_passthrough_messages_lem,
}
use webhook_telegram_proxy.Service.Messages.{
  render, render_whole, SizedAlert, pack_chunks, render_messages, build_messages,
}
use webhook_telegram_proxy.Service.Messages.Packing.{IsPacked, pack_chunks_lem}
use webhook_telegram_proxy.Service.Messages.Built.{Fits, IsWhole, IsSplit, render_messages_lem}
use webhook_telegram_proxy.Service.Messages.Fits.{build_messages-Fits}
use webhook_telegram_proxy.Service.Fingerprint.{compute_fingerprint}
use webhook_telegram_proxy.Service.Fingerprint.Order.{compute_fingerprint-Perm}
use webhook_telegram_proxy.Service.Fingerprint.Ambiguity.{compute_fingerprint-bar}
use webhook_telegram_proxy.Tests.{calm, payload, alert, alert_data, message_data}

abbrev long_text : Text
long_text = codes "disk is full"

split_long : split_message long_text 8 ≡ codes "disk is" ∷ codes "full" ∷ []
unfolding split_message split_rounds last_fitting_cut cut_from trim_space trim_left trim_right
    is_space
split_long = refl

split_message_lem_example :
    All (IsGoodPart 8) (split_message long_text 8)
    × (visible (flatten (split_message long_text 8)) ≡ visible long_text)
unfolding is_space
split_message_lem_example =
    split_message_lem 8 (omega arith) long_text (cons-ne-nil 100 (visible (codes "isk is full")))

build_passthrough_messages_lem_example : IsPassthrough payload (build_passthrough_messages payload)
build_passthrough_messages_lem_example = build_passthrough_messages_lem payload

passed_on : build_messages calm 0 payload ≡ ok (codes "disk is full" ∷ [])
unfolding build_messages build_passthrough_messages split_message trim_space trim_left trim_right
    is_space text_eq
passed_on = refl

build_messages-Fits_example : All Fits (codes "disk is full" ∷ [])
build_messages-Fits_example =
    build_messages-Fits calm 0 payload (codes "disk is full" ∷ []) passed_on

-- a template that prints the title
abbrev titles : ℕ → MessageData → Result Text
titles n content = ok content.title

rendered_title : render_messages titles message_data ≡ ok (codes "title" ∷ [])
unfolding render_messages render_whole render trim_space trim_left trim_right is_space
rendered_title = refl

render_messages_lem_example :
    IsWhole titles message_data (codes "title" ∷ [])
    ⊎ IsSplit titles message_data (codes "title" ∷ [])
render_messages_lem_example =
    render_messages_lem titles message_data (codes "title" ∷ []) rendered_title

abbrev sized_alerts : List SizedAlert
sized_alerts =
    record { alert = alert_data (codes "disk"); size = 6 }
    ∷ record { alert = alert_data (codes "load"); size = 7 }
    ∷ []

pack_chunks_lem_example : IsPacked 10 sized_alerts (pack_chunks 10 [] 0 sized_alerts)
pack_chunks_lem_example = pack_chunks_lem 10 sized_alerts (omega arith, (omega arith, tt))

abbrev swapped : List Alert
swapped = alert (codes "load") ∷ alert (codes "disk") ∷ []

compute_fingerprint-Perm_example :
    compute_fingerprint calm (record payload { alerts = swapped })
    ≡ compute_fingerprint calm payload
compute_fingerprint-Perm_example =
    compute_fingerprint-Perm calm payload swapped
      (Perm.swap (alert (codes "disk")) (alert (codes "load")) [])

compute_fingerprint-bar_example :
    compute_fingerprint calm (record payload { receiver = codes "team|a"; status = codes "firing" })
    ≡ compute_fingerprint calm
        (record payload { receiver = codes "team"; status = codes "a|firing" })
compute_fingerprint-bar_example =
    compute_fingerprint-bar calm payload (codes "team") (codes "a") (codes "firing")
