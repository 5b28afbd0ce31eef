-- ===== src/Service/Messages/Built.antt =====
-- What `buildMessages` returns: the batch in one message, or all of its alerts in numbered ones.
use mathlib.Core.List.{flatten}
use webhook_telegram_proxy.Prelude.{
  codes, ℕ, suc, ◌+◌, ◌-◌, ◌≤◌, List, [], ◌∷◌, ◌++◌, map, ◌≡◌, refl, sym, ap, ◌∙◌, All, Bool-cases,
  inl, inr, arith, ltb, leb, length, subst, Text, ◌⊎◌,
}
use webhook_telegram_proxy.Errors.{wrapped, Result, ok, and_then-ok, wrapped-ok, ok-injective}
use webhook_telegram_proxy.Template.{
  AlertData, MessageData, clone_with_alerts, max_telegram_message_chars,
}
use webhook_telegram_proxy.Service.Messages.{
  SizedAlert, pack_chunks, part_count_reserve, render, measured, sized_within, sized_cons, size_one,
  checked_chunk, size_alerts, render_chunks, render_sized, render_parts, render_whole,
  render_messages,
}
use webhook_telegram_proxy.Service.Messages.Packing.{
  alerts_of, AllWithin, IsPacked, pack_chunks_lem,
}

-- A message of at most 4096 characters.
abbrev pub Fits : Text → Type 0
Fits text = length text ≤ max_telegram_message_chars

append-alerts_of : (a b : List SizedAlert) → alerts_of (a ++ b) ≡ alerts_of a ++ alerts_of b
append-alerts_of [] b = refl
append-alerts_of (x ∷ a) b = ap (λ l. x.alert ∷ l) (append-alerts_of a b)

flatten-alerts_of :
    (groups : List (List SizedAlert)) → flatten (map alerts_of groups) ≡ alerts_of (flatten groups)
unfolding flatten
flatten-alerts_of [] = refl
flatten-alerts_of (g ∷ groups) =
    ap (λ l. alerts_of g ++ l) (flatten-alerts_of groups)
    ∙ sym (append-alerts_of g (flatten groups))

packed_alerts :
    (budget : ℕ) (sized : List SizedAlert) (chunks : List (List AlertData))
    → IsPacked budget sized chunks
    → flatten chunks ≡ alerts_of sized
packed_alerts budget sized chunks p =
    ap flatten (sym p.same_alerts) ∙ flatten-alerts_of p.groups ∙ ap alerts_of p.divides

module _ (execute : ℕ → MessageData → Result Text) (content : MessageData) where
  -- The messages are the chunks, rendered with their numbers from `index` on, and each fits.
  abbrev pub AreRendered : ℕ → ℕ → ℕ → List (List AlertData) → List Text → Type 0
  AreRendered count n index [] [] = Unit
  AreRendered count n index (chunk ∷ chunks) (text ∷ messages) =
      (render execute n (clone_with_alerts content chunk index count) ≡ ok text)
      × (Fits text × AreRendered count (suc n) (suc index) chunks messages)
  AreRendered count n index [] (text ∷ messages) = ⊥
  AreRendered count n index (chunk ∷ chunks) [] = ⊥

  -- One message with every alert.
  pub record IsWhole (messages : List Text) : Type 0 where
    pub whole : Text
    pub rendered : render execute 0 content ≡ ok whole
    pub alone : messages ≡ whole ∷ []
    pub fits : Fits whole

  -- Message k of n has the alerts of chunk k, and the chunks make up the batch.
  pub record IsSplit (messages : List Text) : Type 0 where
    pub chunks : List (List AlertData)
    pub complete : flatten chunks ≡ content.alerts
    pub rendered : AreRendered (length chunks) (suc (suc (length content.alerts))) 1 chunks messages

  sized_within_lem :
      (budget n : ℕ) (a : AlertData) (e : SizedAlert)
      → sized_within execute content budget a n ≡ ok e
      → (e.alert ≡ a) × (e.size ≤ budget)
  sized_within_lem budget n a e h = elim (Bool-cases (ltb budget n)) [
    | inl over ↦ absurd cc
    | inr within ↦
        let same : record { alert = a; size = n } ≡ e = ok-injective (rw within at h) in
        (ap SizedAlert.alert (sym same), subst (λ s. s.size ≤ budget) same (ground arith))
  ]

  size_alerts_lem :
      (budget shell n : ℕ) (alerts : List AlertData) (sized : List SizedAlert)
      → size_alerts execute content budget shell n alerts ≡ ok sized
      → (alerts_of sized ≡ alerts) × AllWithin budget sized
  unfolding size_alerts
  size_alerts_lem budget shell n [] sized h =
      subst (λ l. (alerts_of l ≡ []) × AllWithin budget l) (ok-injective h) (refl, tt)
  size_alerts_lem budget shell n (a ∷ rest) sized h =
      let tail_sized = size_alerts execute content budget shell (suc n) rest in
      let (text, (rendered, h1)) =
        and_then-ok
          (wrapped (codes "render alert for sizing")
            (render execute n (clone_with_alerts content (a ∷ []) 1 1)))
          (size_one execute content budget shell a tail_sized) sized h in
      let (e, (within, h2)) =
        and_then-ok
          (sized_within execute content budget a (measured execute content shell (length text)))
          (sized_cons execute content tail_sized) sized h1 in
      let (more, (rest_sized, h3)) = and_then-ok tail_sized (λ l. ok (e ∷ l)) sized h2 in
      let head = sized_within_lem budget _ a e within in
      let tail = size_alerts_lem budget shell (suc n) rest more rest_sized in
      let one : (alerts_of (e ∷ more) ≡ a ∷ rest) × AllWithin budget (e ∷ more) =
        (ap (λ x. x ∷ alerts_of more) head.0 ∙ ap (λ l. a ∷ l) tail.0, (head.1, tail.1)) in
      subst (λ l. (alerts_of l ≡ a ∷ rest) × AllWithin budget l) (ok-injective h3) one

  render_chunk_lem :
      (count n index : ℕ) (chunk : List AlertData) (chunks : List (List AlertData)) (text : Text)
      (messages : List Text)
      → render execute n (clone_with_alerts content chunk index count) ≡ ok text
      → checked_chunk execute content index text
          (render_chunks execute content count (suc n) (suc index) chunks)
        ≡ ok messages
      → ((l : List Text)
          → render_chunks execute content count (suc n) (suc index) chunks ≡ ok l
          → AreRendered count (suc n) (suc index) chunks l)
      → AreRendered count n index (chunk ∷ chunks) messages
  render_chunk_lem count n index chunk chunks text messages rendered h rest =
      elim (Bool-cases (ltb max_telegram_message_chars (length text))) [
        | inl over ↦ absurd cc
        | inr within ↦
            let (more, (h1, h2)) = and_then-ok _ _ messages (rw within at h) in
            let one : AreRendered count n index (chunk ∷ chunks) (text ∷ more) =
              (rendered, (ground arith, rest more h1)) in
            subst (AreRendered count n index (chunk ∷ chunks)) (ok-injective h2) one
      ]

  render_chunks_lem :
      (count n index : ℕ) (chunks : List (List AlertData)) (messages : List Text)
      → render_chunks execute content count n index chunks ≡ ok messages
      → AreRendered count n index chunks messages
  unfolding render_chunks
  render_chunks_lem count n index [] messages h =
      subst (AreRendered count n index []) (ok-injective h) tt
  render_chunks_lem count n index (chunk ∷ chunks) messages h =
      let (text, (rendered, h1)) = and_then-ok _ _ messages h in
      render_chunk_lem count n index chunk chunks text messages (wrapped-ok _ _ text rendered) h1
        (render_chunks_lem count (suc n) (suc index) chunks)

  render_sized_lem :
      (budget : ℕ) (sized : List SizedAlert) (messages : List Text)
      → alerts_of sized ≡ content.alerts
      → AllWithin budget sized
      → render_sized execute content budget sized ≡ ok messages
      → IsSplit messages
  unfolding render_sized
  render_sized_lem budget sized messages same within h =
      let chunks = pack_chunks budget [] 0 sized in
      record {
        chunks = chunks;
        complete = packed_alerts budget sized chunks (pack_chunks_lem budget sized within) ∙ same;
        rendered = render_chunks_lem (length chunks) _ 1 chunks messages h;
      }

  render_parts_lem :
      (shell : ℕ) (messages : List Text)
      → render_parts execute content shell ≡ ok messages
      → IsSplit messages
  unfolding render_parts
  render_parts_lem shell messages h =
      let budget = max_telegram_message_chars - (shell + part_count_reserve) in
      elim (Bool-cases (leb max_telegram_message_chars (shell + part_count_reserve))) [
        | inl over ↦ absurd cc
        | inr within ↦
            let (sized, (h1, h2)) =
              and_then-ok (size_alerts execute content budget shell 2 content.alerts)
                (render_sized execute content budget) messages (rw within at h) in
            let s = size_alerts_lem budget shell 2 content.alerts sized h1 in
            render_sized_lem budget sized messages s.0 s.1 h2
      ]

  render_whole_lem :
      (whole : Text) (messages : List Text)
      → render execute 0 content ≡ ok whole
      → render_whole execute content whole ≡ ok messages
      → IsWhole messages ⊎ IsSplit messages
  unfolding render_whole
  render_whole_lem whole messages rendered h =
      elim (Bool-cases (leb (length whole) max_telegram_message_chars)) [
        | inl fits ↦ inl (record {
          whole = whole;
          rendered = rendered;
          alone = sym (ok-injective (rw fits at h));
          fits = ground arith;
        })
        | inr over ↦
            let (shell, (h1, h2)) =
              and_then-ok _ (λ s. render_parts execute content (length s)) messages
                (rw over at h) in
            inr (render_parts_lem (length shell) messages h2)
      ]

  -- When the messages can be built from a template, they are either the whole batch in one message of
  -- at most 4096 characters, or chunks that make up the batch in its order, each rendered with its
  -- number and the number of chunks, in a message of at most 4096 characters.
  pub render_messages_lem :
      (messages : List Text)
      → render_messages execute content ≡ ok messages
      → IsWhole messages ⊎ IsSplit messages
  unfolding render_messages
  render_messages_lem messages h =
      let (whole, (h1, h2)) = and_then-ok _ (render_whole execute content) messages h in
      render_whole_lem whole messages (wrapped-ok _ _ whole h1) h2

  pub rendered-Fits :
      (count n index : ℕ) (chunks : List (List AlertData)) (messages : List Text)
      → AreRendered count n index chunks messages
      → All Fits messages
  rendered-Fits count n index [] [] h = tt
  rendered-Fits count n index (c ∷ cs) (m ∷ ms) (r, (f, h)) =
      (f, rendered-Fits count (suc n) (suc index) cs ms h)
  rendered-Fits count n index [] (m ∷ ms) h = elim h [ ]
  rendered-Fits count n index (c ∷ cs) [] h = elim h [ ]
