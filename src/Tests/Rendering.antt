-- ===== src/Tests/Rendering.antt =====
-- Instances of what is proved of the template data.
use webhook_telegram_proxy.Prelude.{◌≤◌, ◌-◌, ◌↔◌, arith, codes, length}
use webhook_telegram_proxy.Template.Sanitize.{sanitize}
use webhook_telegram_proxy.Template.Sanitize.Plain.{IsPlain, sanitize_lem}
use webhook_telegram_proxy.Template.Durations.{minute, since_time}
use webhook_telegram_proxy.Template.Durations.Markup.{since_time-IsPlain}
use webhook_telegram_proxy.Template.Build.{build_data}
use webhook_telegram_proxy.Template.Build.Plain.{IsPlainMessage, build_data-IsPlainMessage}
use webhook_telegram_proxy.Tests.{display, payload}

sanitize_lem_example :
    IsPlain (sanitize (codes " <b>disk & co</b> ") 12)
    × (length (sanitize (codes " <b>disk & co</b> ") 12) ≤ 12)
sanitize_lem_example = sanitize_lem (codes " <b>disk & co</b> ") 12

since_time-IsPlain_example :
    IsPlain (since_time 300_000_000_000 90_000_000_000)
    ↔ (minute ≤ 300_000_000_000 - 90_000_000_000)
since_time-IsPlain_example =
    since_time-IsPlain 300_000_000_000 90_000_000_000 (omega arith) (omega arith) (omega arith)

build_data-IsPlainMessage_example : IsPlainMessage (build_data display payload)
build_data-IsPlainMessage_example = build_data-IsPlainMessage display payload
