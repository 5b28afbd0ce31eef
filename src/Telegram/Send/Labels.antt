-- ===== src/Telegram/Send/Labels.antt =====
-- The result label that a response is counted under tells whether the delivery will try again.
use webhook_telegram_proxy.Prelude.{
  Bool, true, false, not, ◌||◌, Option, none, some, String, ◌≡◌, refl, same_text, ℤ, is_int,
  at_least, Bool-cases, inl, inr, if◌then◌else◌,
}
use webhook_telegram_proxy.Errors.{Error}
use webhook_telegram_proxy.Telegram.{SendMessageResponse, Net, HttpClient}
use webhook_telegram_proxy.Telegram.Send.{result_label_for, is_retryable, build_api_error}

-- the labels of what may go well later
unfoldable pub is_transient : String → Bool
is_transient label =
    same_text label "throttled" || same_text label "server_error" || same_text label "decode_error"

answer_label :
    (is_ok : Bool) → is_transient (if not is_ok then "client_error" else "success") ≡ false
unfolding is_transient
answer_label true = refl
answer_label false = refl

module _ (status : ℤ) (is_ok : Bool) where
  decoded_label : is_transient (result_label_for status is_ok none) ≡ is_retryable status none
  unfolding is_transient result_label_for is_retryable
  decoded_label = elim (Bool-cases (is_int status 429)) [
    | inl throttled ↦ rw throttled refl
    | inr free ↦ elim (Bool-cases (at_least status 500)) [
      | inl down ↦ rw (free, down) refl
      | inr up ↦ elim (Bool-cases (at_least status 400)) [
        | inl bad ↦ rw (free, up, bad) refl
        | inr good ↦ rw (free, up, good) (answer_label is_ok)
      ]
    ]
  ]

  garbled_label :
      (e : Error)
      → is_transient (result_label_for status is_ok (some e)) ≡ is_retryable status (some e)
  unfolding is_transient result_label_for is_retryable
  garbled_label e = elim (Bool-cases (is_int status 429)) [
    | inl throttled ↦ rw throttled refl
    | inr free ↦ elim (Bool-cases (at_least status 500)) [
      | inl down ↦ rw (free, down) refl
      | inr up ↦ elim (Bool-cases (at_least status 400)) [
        | inl bad ↦ rw (free, up, bad) refl
        | inr good ↦ rw (free, up, good) refl
      ]
    ]
  ]

-- An error built from a response is retryable exactly when the response is counted under `throttled`,
-- `server_error` or `decode_error`.
pub result_label_for-retryable :
    (net : Net) (c : HttpClient) (status : ℤ) (parsed : SendMessageResponse)
    (decode_error : Option Error) (wait : ℤ)
    → is_transient (result_label_for status parsed.is_ok decode_error)
      ≡ (build_api_error net c status parsed decode_error wait).retryable
unfolding build_api_error
result_label_for-retryable net c status parsed none wait = decoded_label status parsed.is_ok
result_label_for-retryable net c status parsed (some e) wait = garbled_label status parsed.is_ok e
