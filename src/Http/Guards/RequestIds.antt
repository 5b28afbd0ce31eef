-- ===== src/Http/Guards/RequestIds.antt =====
-- What an accepted request id is.
use webhook_telegram_proxy.Prelude.{◌≤◌, true, false, Text, ◌≡◌, All, trim_space, is_empty}
use webhook_telegram_proxy.Http.Guards.{Site, byte_length, is_id_char}

-- What an accepted id promises of itself.
pub record IsRequestId (site : Site) (value id : Text) : Type 0 where
  pub trimmed : id ≡ trim_space value
  pub given : is_empty id ≡ false
  pub short : byte_length id ≤ 64
  pub plain_chars : All (λ c. is_id_char site c ≡ true) id
