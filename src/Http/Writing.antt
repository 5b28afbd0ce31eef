-- ===== src/Http/Writing.antt =====
-- The status that goes out on a connection.
use webhook_telegram_proxy.Prelude.{
  ℕ, true, false, Option, none, some, List, [], ◌∷◌, Text, ◌≡◌, refl, ◌∙◌, ap, All,
}
use webhook_telegram_proxy.Http.{
  Request, Headers, Connection, Recorder, Writer, Payload, send_head, write_through, write_header,
  write_payload, set_header, write_json, write_public_error,
}

abbrev pub status_of_head : Option (ℕ × Headers) → Option ℕ
status_of_head none = none
status_of_head (some (code, headers)) = some code

-- the status that the client gets
abbrev pub status_sent : Writer → Option ℕ
status_sent w = status_of_head w.connection.head

-- no status was written, through any of the recorders
pub record IsUnwritten (w : Writer) : Type 0 where
  pub no_recorded : All (λ (r : Recorder). r.wrote_header ≡ false) w.recorders
  pub no_head : w.connection.head ≡ none

abbrev AreWritten : List Recorder → Type 0
AreWritten [] = Unit
AreWritten (r ∷ rs) = r.wrote_header ≡ true

record IsWritten (code : ℕ) (w : Writer) : Type 0 where
  recorded : AreWritten w.recorders
  status : status_sent w ≡ some code

send_head-none :
    (code : ℕ) (h : Option (ℕ × Headers)) (c : Connection)
    → h ≡ none
    → (send_head code h c).head ≡ some (code, c.headers)
send_head-none code none c e = refl
send_head-none code (some h) c e = cc

write_through-status :
    (code : ℕ) (rs : List Recorder) (c : Connection)
    → All (λ (r : Recorder). r.wrote_header ≡ false) rs
    → c.head ≡ none
    → IsWritten code (write_through code rs c)
unfolding write_through
write_through-status code [] c h none_sent = record {
  recorded = tt;
  status = ap status_of_head (send_head-none code c.head c none_sent);
}
write_through-status code (r ∷ rs) c (fresh, h) none_sent =
    rw fresh
      (record { recorded = refl; status = (write_through-status code rs c h none_sent).status })

send_head-some :
    (code n : ℕ) (h : Option (ℕ × Headers)) (c : Connection)
    → c.head ≡ h
    → status_of_head h ≡ some n
    → status_of_head (send_head code h c).head ≡ some n
send_head-some code n none c e s = cc
send_head-some code n (some h) c e s = ap status_of_head e ∙ s

-- a status stays
rewritten :
    (code n : ℕ) (rs : List Recorder) (c : Connection)
    → AreWritten rs
    → status_of_head c.head ≡ some n
    → status_sent (write_through code rs c) ≡ some n
unfolding write_through
rewritten code n [] c written s = send_head-some code n c.head c refl s
rewritten code n (r ∷ rs) c written s = rw written s

pub write_json-status :
    (code : ℕ) (p : Payload) (w : Writer)
    → IsUnwritten w
    → status_sent (write_json code p w) ≡ some code
unfolding write_json write_payload write_header set_header
write_json-status code p w fresh =
    let written = write_through-status code w.recorders _ fresh.no_recorded fresh.no_head in
    rewritten 200 code _ _ written.recorded written.status

pub write_public_error-status :
    (r : Request) (code : ℕ) (message : Text) (w : Writer)
    → IsUnwritten w
    → status_sent (write_public_error r code message w) ≡ some code
unfolding write_public_error
write_public_error-status r code message w fresh = write_json-status code _ w fresh

pub set_header-IsUnwritten :
    (name value : Text) (w : Writer) → IsUnwritten w → IsUnwritten (set_header name value w)
unfolding set_header
set_header-IsUnwritten name value w fresh = record {
  no_recorded = fresh.no_recorded;
  no_head = fresh.no_head;
}
