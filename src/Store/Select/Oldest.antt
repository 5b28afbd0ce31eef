-- ===== src/Store/Select/Oldest.antt =====
-- `ListDueEventIDs` lists the oldest deliveries that are due, and only these.
use mathlib.Core.List.Perm
use mathlib.Core.List.{Perm, perm_middle}
use webhook_telegram_proxy.Prelude.{
  ℕ, zero, suc, ◌+◌, ◌≤◌, String, Bool, true, not, Option, none, some, List, [], ◌∷◌, ◌++◌, map,
  ◌≡◌, refl, sym, ◌∙◌, ap, subst, arith, filter, take, drop, length, length-take, length-append,
  take-append-drop, append_assoc, All, All-take, leb, min, Bool-cases, inl, inr,
}
use webhook_telegram_proxy.Store.Record.{
  Record, Table, Status, received, queued, retry_scheduled, is_claimable,
}
use webhook_telegram_proxy.Store.Queries.{insert_by, order_by, is_due, reached, select_due}
use webhook_telegram_proxy.Store.Select.{
  All-order_by, All-filter_holds, IsOrdered, order_by-IsOrdered, take-IsOrdered,
}

-- received, queued or scheduled for a retry
abbrev pub IsWaiting : Status → Type 0
IsWaiting received = Unit
IsWaiting queued = Unit
IsWaiting retry_scheduled = Unit
IsWaiting _ = ⊥

-- there is no time to wait for, or it is not in the future
abbrev pub HasCome : ℕ → Option ℕ → Type 0
HasCome now none = Unit
HasCome now (some at) = at ≤ now

abbrev pub IsDue : ℕ → Record → Type 0
IsDue now r = IsWaiting r.status × HasCome now r.next_retry_at

-- The listed events are those of a page of the table. The page holds due rows, oldest first; the due rows
-- that are left out are not older than any on the page; all other rows are not due; and the page is full
-- unless it holds every due row.
pub record IsOldestDue (now limit : ℕ) (t : Table) (ids : List String) : Type 0 where
  pub page : Table
  pub rest : Table
  pub others : Table
  pub listed : ids ≡ map (λ r. r.event_id) page
  pub all_rows : Perm t (page ++ (rest ++ others))
  pub page_due : All (IsDue now) page
  pub rest_due : All (IsDue now) rest
  pub others_not_due : All (λ r. IsDue now r → ⊥) others
  pub ordered : IsOrdered (λ r. r.created_at) page
  pub oldest : All (λ r. All (λ s. r.created_at ≤ s.created_at) rest) page
  pub full : length page ≡ min limit (length page + length rest)

claimable-IsWaiting : (s : Status) → is_claimable s ≡ true → IsWaiting s
claimable-IsWaiting received h = tt
claimable-IsWaiting queued h = tt
claimable-IsWaiting retry_scheduled h = tt
claimable-IsWaiting _ h = cc

IsWaiting-claimable : (s : Status) → IsWaiting s → is_claimable s ≡ true
IsWaiting-claimable received h = refl
IsWaiting-claimable queued h = refl
IsWaiting-claimable retry_scheduled h = refl
IsWaiting-claimable _ h = absurd h

reached-HasCome : (at : Option ℕ) (now : ℕ) → reached at now ≡ true → HasCome now at
reached-HasCome none now h = tt
reached-HasCome (some at) now h = ground arith

HasCome-reached : (at : Option ℕ) (now : ℕ) → HasCome now at → reached at now ≡ true
HasCome-reached none now h = refl
HasCome-reached (some at) now h = ground arith

is_due-IsDue : (now : ℕ) (r : Record) → is_due now r ≡ true → IsDue now r
is_due-IsDue now r h = (
  claimable-IsWaiting r.status (ground arith),
  reached-HasCome r.next_retry_at now (ground arith),
)

not-IsDue : (now : ℕ) (r : Record) → not (is_due now r) ≡ true → IsDue now r → ⊥
not-IsDue now r h (waiting, come) =
    let a = IsWaiting-claimable r.status waiting in
    let b = HasCome-reached r.next_retry_at now come in ground arith

All-map : {P Q : Record → Type 0} → ((r : Record) → P r → Q r) → (t : Table) → All P t → All Q t
All-map f [] h = tt
All-map f (r ∷ t) (h, hs) = (f r h, All-map f t hs)

All-drop : (P : Record → Type 0) (n : ℕ) (t : Table) → All P t → All P (drop n t)
All-drop P zero t h = h
All-drop P (suc n) [] h = tt
All-drop P (suc n) (r ∷ t) (h, hs) = All-drop P n t hs

filter-Perm : (p : Record → Bool) (t : Table) → Perm t (filter p t ++ filter (λ r. not (p r)) t)
filter-Perm p [] = Perm.nil
filter-Perm p (r ∷ t) = elim (Bool-cases (p r)) [
  | inl taken ↦ rw taken (Perm.cons r (filter-Perm p t))
  | inr left ↦ rw left (
      Perm.trans (Perm.cons r (filter-Perm p t))
        (Perm.symm (perm_middle (filter p t) (filter (λ r. not (p r)) t))))
]

module _ (key : Record → ℕ) where
  insert_by-Perm : (r : Record) (t : Table) → Perm (insert_by key r t) (r ∷ t)
  unfolding insert_by
  insert_by-Perm r [] = Perm.rfl
  insert_by-Perm r (s ∷ t) = elim (Bool-cases (leb (key r) (key s))) [
    | inl le ↦ rw le Perm.rfl
    | inr gt ↦ rw gt (Perm.trans (Perm.cons s (insert_by-Perm r t)) (Perm.swap r s t))
  ]

  order_by-Perm : (t : Table) → Perm (order_by key t) t
  unfolding order_by
  order_by-Perm [] = Perm.nil
  order_by-Perm (r ∷ t) =
      Perm.trans (insert_by-Perm r (order_by key t)) (Perm.cons r (order_by-Perm t))

  -- what is cut off an ordered table is not before what is kept
  take-before-drop :
      (n : ℕ) (t : Table)
      → IsOrdered key t
      → All (λ r. All (λ s. key r ≤ key s) (drop n t)) (take n t)
  take-before-drop zero t h = tt
  take-before-drop (suc n) [] h = tt
  take-before-drop (suc n) (r ∷ t) (h, hs) = (All-drop _ n t h, take-before-drop n t hs)

-- `select_due` lists the events of due rows, oldest first, and leaves out a due row only when as many as
-- the limit are listed and none of these is younger.
pub select_due-IsOldestDue :
    (now limit : ℕ) (t : Table) → IsOldestDue now limit t (select_due now limit t)
unfolding select_due
select_due-IsOldestDue now limit t =
    let key : Record → ℕ = λ r. r.created_at in
    let due : Table = order_by key (filter (is_due now) t) in
    let others : Table = filter (λ r. not (is_due now r)) t in
    let all_due : All (IsDue now) due =
      All-order_by (IsDue now) key _
        (All-map (is_due-IsDue now) _ (All-filter_holds (is_due now) t)) in
    record {
      page = take limit due;
      rest = drop limit due;
      others = others;
      listed = refl;
      all_rows =
          subst (Perm t)
            (ap (λ l. l ++ others) (sym (take-append-drop limit due))
              ∙ append_assoc (take limit due) (drop limit due) others)
            (Perm.trans (filter-Perm (is_due now) t)
              (Perm.append_right others (Perm.symm (order_by-Perm key (filter (is_due now) t)))));
      page_due = All-take (IsDue now) limit due all_due;
      rest_due = All-drop (IsDue now) limit due all_due;
      others_not_due = All-map (not-IsDue now) _ (All-filter_holds (λ r. not (is_due now r)) t);
      ordered = take-IsOrdered key limit due (order_by-IsOrdered key (filter (is_due now) t));
      oldest = take-before-drop key limit due (order_by-IsOrdered key (filter (is_due now) t));
      full =
          length-take limit due
          ∙ ap (min limit) (
              ap length (sym (take-append-drop limit due))
              ∙ length-append (take limit due) (drop limit due));
    }
