-- ===== src/Template/Labels/Plain.antt =====
-- Selecting, ordering and printing labels brings in no character of HTML markup.
use webhook_telegram_proxy.Prelude.{
  Unicode, is_empty, ◌&&◌, is_space, text_eq, text_leb, if-holds, ℕ, Bool, Option, none, some, List,
  [], ◌∷◌, refl, Text, codes, map, filter, All, All-append, join, sort_texts, insert_text,
  trim_space, trim_left, trim_right,
}
use webhook_telegram_proxy.Models.{StringMap, value_of}
use webhook_telegram_proxy.Template.Sanitize.Plain.{IsPlain, literal-IsPlain, sanitize_lem}
use webhook_telegram_proxy.Template.Sanitize.{sanitize, set_key, sanitize_string_map}
use webhook_telegram_proxy.Template.Labels.{
  group_context_priority, is_kept, pairs_to_map, where_label_priority, equal_fold,
  select_only_preferred_labels, filter_labels, ordered_label_pairs, render_where_lines, sort_pairs,
  add_selected, find_fold, select_from, map_to_pairs, preferred_pairs, render_group_context,
  insert_pair, where_line, or_all, set_pairs, pair_text, join_pairs, found_pairs, Pair, key_of,
}

abbrev pub IsPlainPair : Pair → Type 0
IsPlainPair p = IsPlain p.0 × IsPlain p.1

abbrev pub IsPlainMap : StringMap → Type 0
IsPlainMap m = All IsPlainPair m

pub value_of-IsPlain : (m : StringMap) (key : Text) → IsPlainMap m → IsPlain (value_of m key)
unfolding value_of
value_of-IsPlain [] key h = tt
value_of-IsPlain ((k, v) ∷ m) key ((hk, hv), hs) =
    if-holds IsPlain (text_eq k key) _ _ hv (value_of-IsPlain m key hs)

set_key-IsPlainMap :
    (key value : Text) (m : StringMap)
    → IsPlain key
    → IsPlain value
    → IsPlainMap m
    → IsPlainMap (set_key key value m)
unfolding set_key
set_key-IsPlainMap key value [] hk hv h = ((hk, hv), tt)
set_key-IsPlainMap key value ((k, v) ∷ m) hk hv (h, hs) =
    if-holds IsPlainMap (text_eq k key) _ _ ((hk, hv), hs)
      (h, set_key-IsPlainMap key value m hk hv hs)

pub sanitize-IsPlain : (value : Text) (max_len : ℕ) → IsPlain (sanitize value max_len)
sanitize-IsPlain value max_len = (sanitize_lem value max_len).0

pub sanitize_string_map-IsPlainMap :
    (m : StringMap) (max_key max_value : ℕ) (done : StringMap)
    → IsPlainMap done
    → IsPlainMap (sanitize_string_map m max_key max_value done)
unfolding sanitize_string_map
sanitize_string_map-IsPlainMap [] max_key max_value done h = h
sanitize_string_map-IsPlainMap ((k, v) ∷ m) max_key max_value done h =
    sanitize_string_map-IsPlainMap m max_key max_value _
      (set_key-IsPlainMap _ _ done (sanitize-IsPlain k max_key) (sanitize-IsPlain v max_value) h)

-- trimmed and joined texts
trim_left-IsPlain : (s : Text) → IsPlain s → IsPlain (trim_left s)
unfolding trim_left
trim_left-IsPlain [] h = tt
trim_left-IsPlain (c ∷ s) (hc, h) =
    if-holds IsPlain (is_space c) _ _ (trim_left-IsPlain s h) (hc, h)

trim_right-IsPlain : (s : Text) → IsPlain s → IsPlain (trim_right s)
unfolding trim_right
trim_right-IsPlain [] h = tt
trim_right-IsPlain (c ∷ s) (hc, h) =
    if-holds IsPlain (is_space c && is_empty (trim_right s)) _ _ tt (hc, trim_right-IsPlain s h)

pub trim_space-IsPlain : (s : Text) → IsPlain s → IsPlain (trim_space s)
unfolding trim_space
trim_space-IsPlain s h = trim_right-IsPlain (trim_left s) (trim_left-IsPlain s h)

join-IsPlain : (sep : Text) (l : List Text) → IsPlain sep → All IsPlain l → IsPlain (join sep l)
unfolding join
join-IsPlain sep [] hsep h = tt
join-IsPlain sep (s ∷ []) hsep (hs, h) = hs
join-IsPlain sep (s ∷ t ∷ l) hsep (hs, h) =
    All-append _ s _ hs (All-append _ sep _ hsep (join-IsPlain sep (t ∷ l) hsep h))

-- sorted keys and selected pairs
module _ {ℓ} (P : Text → Type ℓ) where
  All-insert_text : (s : Text) (l : List Text) → P s → All P l → All P (insert_text s l)
  unfolding insert_text
  All-insert_text s [] hs h = (hs, tt)
  All-insert_text s (t ∷ l) hs (ht, h) =
      if-holds (All P) (text_leb s t) _ _ (hs, (ht, h)) (ht, All-insert_text s l hs h)

  All-sort_texts : (l : List Text) → All P l → All P (sort_texts l)
  unfolding sort_texts
  All-sort_texts [] h = tt
  All-sort_texts (s ∷ l) (hs, h) = All-insert_text s (sort_texts l) hs (All-sort_texts l h)

All-map_key : (m : StringMap) → IsPlainMap m → All IsPlain (map key_of m)
All-map_key [] h = tt
All-map_key (p ∷ m) ((hk, hv), h) = (hk, All-map_key m h)

All-pairs :
    (m : StringMap) (keys : List Text)
    → IsPlainMap m
    → All IsPlain keys
    → IsPlainMap (map (λ key. (key, value_of m key)) keys)
All-pairs m [] h hk = tt
All-pairs m (k ∷ keys) h (hk, hks) = ((hk, value_of-IsPlain m k h), All-pairs m keys h hks)

map_to_pairs-IsPlainMap : (m : StringMap) → IsPlainMap m → IsPlainMap (map_to_pairs m)
unfolding map_to_pairs
map_to_pairs-IsPlainMap m h =
    All-pairs m _ h (All-sort_texts IsPlain (map key_of m) (All-map_key m h))

pair_texts-IsPlain : (ps : List Pair) → IsPlainMap ps → All IsPlain (map pair_text ps)
pair_texts-IsPlain [] h = tt
pair_texts-IsPlain (p ∷ ps) ((hk, hv), h) =
    (All-append _ p.0 _ hk (refl, hv), pair_texts-IsPlain ps h)

join_pairs-IsPlain : (m : StringMap) → IsPlainMap m → IsPlain (join_pairs m)
unfolding join_pairs
join_pairs-IsPlain m h =
    join-IsPlain (codes ", ") (map pair_text (map_to_pairs m)) (literal-IsPlain (codes ", ") refl)
      (pair_texts-IsPlain (map_to_pairs m) (map_to_pairs-IsPlainMap m h))

set_pairs-IsPlainMap :
    (ps : List Pair) (m : StringMap) → IsPlainMap ps → IsPlainMap m → IsPlainMap (set_pairs ps m)
set_pairs-IsPlainMap [] m hs h = h
set_pairs-IsPlainMap ((k, v) ∷ ps) m ((hk, hv), hs) h =
    set_pairs-IsPlainMap ps (set_key k v m) hs (set_key-IsPlainMap k v m hk hv h)

insert_pair-IsPlainMap :
    (p : Pair) (l : List Pair) → IsPlainPair p → IsPlainMap l → IsPlainMap (insert_pair p l)
unfolding insert_pair
insert_pair-IsPlainMap p [] hp h = (hp, tt)
insert_pair-IsPlainMap p (q ∷ l) hp (hq, h) =
    if-holds IsPlainMap (text_leb (key_of p) (key_of q)) _ _ (hp, (hq, h))
      (hq, insert_pair-IsPlainMap p l hp h)

sort_pairs-IsPlainMap : (l : List Pair) → IsPlainMap l → IsPlainMap (sort_pairs l)
unfolding sort_pairs
sort_pairs-IsPlainMap [] h = tt
sort_pairs-IsPlainMap (p ∷ l) (hp, h) =
    insert_pair-IsPlainMap p (sort_pairs l) hp (sort_pairs-IsPlainMap l h)

All-filter {ℓ κ} :
    {A : Type ℓ} (P : A → Type κ) (p : A → Bool) (l : List A) → All P l → All P (filter p l)
All-filter P p [] h = tt
All-filter P p (x ∷ l) (hx, h) =
    if-holds (All P) (p x) _ _ (hx, All-filter P p l h) (All-filter P p l h)

abbrev IsPlainFound : Option Pair → Type 0
IsPlainFound none = Unit
IsPlainFound (some p) = IsPlainPair p

module _ (u : Unicode) where
  filter_labels-IsPlainMap : (m : StringMap) → IsPlainMap m → IsPlainMap (filter_labels u m)
  unfolding filter_labels pairs_to_map
  filter_labels-IsPlainMap m h =
      All-filter IsPlainPair (is_kept u) _
        (set_pairs-IsPlainMap (map_to_pairs m) [] (map_to_pairs-IsPlainMap m h) tt)

  find_fold-IsPlain : (key : Text) (m : StringMap) → IsPlainMap m → IsPlainFound (find_fold u key m)
  unfolding find_fold
  find_fold-IsPlain key [] h = tt
  find_fold-IsPlain key (p ∷ m) (hp, h) =
      if-holds IsPlainFound (equal_fold u p.0 key) _ _ hp (find_fold-IsPlain key m h)

  add_selected-IsPlainMap :
      (o : Option Pair) (m : StringMap)
      → IsPlainFound o
      → IsPlainMap m
      → IsPlainMap (add_selected u o m)
  add_selected-IsPlainMap none m ho h = h
  add_selected-IsPlainMap (some p) m (hk, hv) h = set_key-IsPlainMap p.0 p.1 m hk hv h

  select_from-IsPlainMap :
      (m : StringMap) (preferred : List Text) (selected : StringMap)
      → IsPlainMap m
      → IsPlainMap selected
      → IsPlainMap (select_from u m preferred selected)
  unfolding select_from
  select_from-IsPlainMap m [] selected h hs = hs
  select_from-IsPlainMap m (key ∷ preferred) selected h hs =
      select_from-IsPlainMap m preferred _ h
        (add_selected-IsPlainMap (find_fold u key m) selected (find_fold-IsPlain key m h) hs)

  or_all-IsPlainMap :
      (m all : StringMap) → IsPlainMap m → IsPlainMap all → IsPlainMap (or_all u m all)
  or_all-IsPlainMap [] all hm h = h
  or_all-IsPlainMap (p ∷ m) all hm h = hm

  pub render_group_context-IsPlain :
      (m : StringMap) → IsPlainMap m → IsPlain (render_group_context u m)
  unfolding render_group_context select_only_preferred_labels
  render_group_context-IsPlain m h =
      let kept = filter_labels-IsPlainMap m h in
      join_pairs-IsPlain _
        (or_all-IsPlainMap _ _ (select_from-IsPlainMap _ group_context_priority [] kept tt) kept)

  found_pairs-IsPlainMap : (o : Option Pair) → IsPlainFound o → IsPlainMap (found_pairs u o)
  found_pairs-IsPlainMap none h = tt
  found_pairs-IsPlainMap (some p) h = (h, tt)

  preferred_pairs-IsPlainMap :
      (m : StringMap) (preferred : List Text)
      → IsPlainMap m
      → IsPlainMap (preferred_pairs u m preferred)
  unfolding preferred_pairs
  preferred_pairs-IsPlainMap m [] h = tt
  preferred_pairs-IsPlainMap m (key ∷ preferred) h =
      All-append _ (found_pairs u (find_fold u key m)) _
        (found_pairs-IsPlainMap (find_fold u key m) (find_fold-IsPlain key m h))
        (preferred_pairs-IsPlainMap m preferred h)

  ordered_label_pairs-IsPlainMap :
      (m : StringMap) (preferred : List Text)
      → IsPlainMap m
      → IsPlainMap (ordered_label_pairs u m preferred)
  unfolding ordered_label_pairs
  ordered_label_pairs-IsPlainMap m preferred h =
      All-append _ (preferred_pairs u m preferred) _ (preferred_pairs-IsPlainMap m preferred h)
        (sort_pairs-IsPlainMap _ (All-filter IsPlainPair _ m h))

  where_lines-IsPlain : (ps : List Pair) → IsPlainMap ps → All IsPlain (map (where_line u) ps)
  where_lines-IsPlain [] h = tt
  where_lines-IsPlain (p ∷ ps) ((hk, hv), h) =
      ((refl, (refl, All-append _ p.0 _ hk (refl, (refl, hv)))), where_lines-IsPlain ps h)

  pub render_where_lines-IsPlain :
      (m : StringMap) → IsPlainMap m → All IsPlain (render_where_lines u m)
  unfolding render_where_lines
  render_where_lines-IsPlain m h =
      where_lines-IsPlain _
        (ordered_label_pairs-IsPlainMap _ where_label_priority (filter_labels-IsPlainMap m h))
