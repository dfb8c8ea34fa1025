-- ===== src/Zte/Inbox/Listed.antt =====
-- utils/zte-http.js: which messages `getMessages` reads.
use modem_sms_gateway.Prelude.{
  ◌≡◌, ◌↔◌, refl, ◌⊎◌, inl, inr, ◌+◌, Bool, true, false, ◌||◌, List, [], ◌∷◌, ◌++◌, Option, none,
  some, Str, codes, str_eq, str_eq_iff, or_else, if◌then◌else◌,
}
use modem_sms_gateway.Prelude.Actions.{Result, ok, err, bind_from}
use modem_sms_gateway.Zte.Settings.{Settings}
use modem_sms_gateway.Zte.Session.{
  string_of, Item, Body, Json, object, null_json, Reply, get, Event, asked, Turn, Stick, Z,
  first_turn, other_turns, response_of, settle, request, get_cmd, encode_cmds, has_comma,
  ensure_authed_for_read,
}
use modem_sms_gateway.Zte.Inbox.{is_inbox, inbox_of, messages_of, list_items}
use modem_sms_gateway.Serial.Inbox.Spec.{In, In-right}

abbrev pub IsInbox : Item → Type 0
IsInbox m = (string_of m.tag ≡ codes "0") ⊎ (string_of m.tag ≡ codes "1")

-- The messages of the inbox among those of a list, in their order.
pub data Kept : List Item → List Item → Type 0 where
  none_kept : Kept [] []
  keep : (m : Item) (ms ns : List Item) → IsInbox m → Kept ms ns → Kept (m ∷ ms) (m ∷ ns)
  skip : (m : Item) (ms ns : List Item) → (IsInbox m → ⊥) → Kept ms ns → Kept (m ∷ ms) ns

abbrev pub list_url : Settings → Str
list_url z =
    z.base
    ++ (z.paths.get_path
        ++ codes
            "?isTest=false&cmd=sms_data_total&page=0&data_per_page=500&mem_store=1&tags=10&order_by=order+by+id+desc")

-- The messages are those of the inbox in the modem's answer to the request for its messages.
abbrev pub Listed : Settings → List Event → List Item → Type 0
Listed z log inbox =
    (reply : Reply) × (b : Body) × (items : List Item) × In (asked (get (list_url z)) reply) log
    × (response_of reply ≡ ok (object b))
    × (items ≡ or_else b.messages [])
    × Kept items inbox

is_inbox_iff : (m : Item) → (is_inbox m ≡ true → IsInbox m) × (is_inbox m ≡ false → IsInbox m → ⊥)
unfolding is_inbox
is_inbox_iff m =
    go (str_eq (string_of m.tag) (codes "0")) (str_eq (string_of m.tag) (codes "1"))
      (str_eq_iff (string_of m.tag) (codes "0")) (str_eq_iff (string_of m.tag) (codes "1"))
  where
    go :
        (a b : Bool)
        → (a ≡ true) ↔ (string_of m.tag ≡ codes "0")
        → (b ≡ true) ↔ (string_of m.tag ≡ codes "1")
        → ((a || b) ≡ true → IsInbox m) × ((a || b) ≡ false → IsInbox m → ⊥)
    go true b f g = (λ h. inl (f.0 refl), λ h k. absurd (cc))
    go false true f g = (λ h. inr (g.0 refl), λ h k. absurd (cc))
    go false false f g = (
      λ h. absurd (cc),
      λ h k. elim k [
        | inl x ↦ let e = f.1 x in absurd (cc e)
        | inr x ↦ let e = g.1 x in absurd (cc e)
      ],
    )

pub inbox_of-Kept : (items : List Item) → Kept items (inbox_of items)
unfolding inbox_of
inbox_of-Kept [] = none_kept
inbox_of-Kept (m ∷ ms) = go (is_inbox m) (is_inbox_iff m) (inbox_of-Kept ms)
  where
    go :
        (b : Bool)
        → (b ≡ true → IsInbox m) × (b ≡ false → IsInbox m → ⊥)
        → Kept ms (inbox_of ms)
        → Kept (m ∷ ms) ((if b then m ∷ [] else []) ++ inbox_of ms)
    go true f h = keep m ms (inbox_of ms) (f.0 refl) h
    go false f h = skip m ms (inbox_of ms) (f.1 refl) h

-- A list that is returned is the one of the log.
abbrev pub EndsListed : Settings → Stick × Result (List Item) → Type 0
EndsListed z (s, ok items) = Listed z s.log (inbox_of items)
EndsListed z (s, err e) = Unit

bind-EndsListed :
    {A : Type 0} (z : Settings) (r : Stick × Result A) (k : A → Z (List Item))
    → ((a : A) (s : Stick) → EndsListed z (k a s))
    → EndsListed z (bind_from r k)
bind-EndsListed z (s, ok a) k f = f a s
bind-EndsListed z (s, err e) k f = tt

items_or_none : (o : Option (List Item)) → elim o [ none ↦ [] | some items ↦ items ] ≡ or_else o []
items_or_none none = refl
items_or_none (some items) = refl

answer-Listed :
    (z : Settings) (t : Turn) (s : Stick)
    → EndsListed z (bind_from (settle (get (list_url z)) t s) messages_of)
unfolding settle
answer-Listed z t s = go (response_of t.reply) refl
  where
    s' : Stick
    s' = record s { clock = s.clock + t.took; log = s.log ++ asked (get (list_url z)) t.reply ∷ [] }

    go :
        (x : Result Json)
        → response_of t.reply ≡ x
        → EndsListed z (bind_from {A = Json} (s', x) messages_of)
    go (ok null_json) e = tt
    go (ok (object b)) e = (
      t.reply,
      b,
      elim b.messages [ none ↦ [] | some items ↦ items ],
      In-right (asked (get (list_url z)) t.reply) s.log _ (inl refl),
      e,
      items_or_none b.messages,
      inbox_of-Kept (elim b.messages [ none ↦ [] | some items ↦ items ]),
    )
    go (err x) e = tt

pub list_items-Listed : (z : Settings) (s : Stick) → EndsListed z (list_items z s)
unfolding list_items get_cmd request encode_cmds has_comma
list_items-Listed z s = bind-EndsListed z (ensure_authed_for_read z s) _ (λ u s1.
    answer-Listed z (first_turn s1.pending) (record s1 { pending = other_turns s1.pending }))
