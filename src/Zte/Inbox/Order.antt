-- ===== src/Zte/Inbox/Order.antt =====
-- utils/zte-http.js: the order of saving and deleting in `getMessages`.
use modem_sms_gateway.Prelude.{
  ℕ, arith, ◌≡◌, refl, sym, ap, ◌∙◌, ◌⊎◌, inl, inr, Bool, false, List, [], ◌∷◌, ◌++◌, append_assoc,
  Option, none, some, Str, codes, str_eq, All,
}
use mathlib.Core.Path.{subst}
use modem_sms_gateway.Prelude.Actions.{Failure, Result, ok, err, pure, bind_from, ◌>>◌}
use modem_sms_gateway.Zte.Settings.{Settings}
use modem_sms_gateway.Zte.Session.{
  string_of, Item, Json, object, null_json, Reply, get, post, Message, Event, asked, saved, Turn,
  Stick, Z, get_cmd, ensure_authed_for_read, set_cmd,
}
use modem_sms_gateway.Zte.Inbox.{
  id_list, inbox_of, view_items, messages_of, persisted, persist_messages, delete_params,
  delete_items, viewed, take_items, list_items, get_messages, list_extra,
}
use modem_sms_gateway.Zte.Inbox.Listed.{Listed, EndsListed, list_items-Listed}
use modem_sms_gateway.Zte.Added.{
  Adds, stays, bind-Adds, request-Adds, ensure_authed-Adds, set_cmd-Adds,
}

-- A request that deletes messages.
abbrev pub is_delete : Event → Bool
is_delete (asked (post ((key, name) ∷ params)) reply) = str_eq name (codes "DELETE_SMS")
is_delete (asked (post []) reply) = false
is_delete (asked (get url) reply) = false
is_delete (saved messages) = false

abbrev pub NotDelete : Event → Type 0
NotDelete x = is_delete x ≡ false

-- The ids of messages, each with a semicolon behind it.
abbrev pub named_ids : List Item → Str
named_ids [] = []
named_ids (m ∷ ms) = string_of m.id ++ (codes ";" ++ named_ids ms)

-- If it deletes, then just those messages.
abbrev pub DeletesOnly : List Item → Event → Type 0
DeletesOnly inbox x =
    (is_delete x ≡ false)
    ⊎ ((reply : Reply) × (x
          ≡ asked
              (post (
                (codes "goformId", codes "DELETE_SMS")
                ∷ (codes "msg_id", named_ids inbox)
                ∷ (codes "notCallback", codes "true")
                ∷ []))
              reply))

-- Nothing is deleted, or only messages that the modem listed and that the database took before.
abbrev pub TakenFirst : Settings → (List Message → Option Failure) → List Event → Type 0
TakenFirst z persist log =
    All NotDelete log
    ⊎ ((before : List Event) × (inbox : List Item) × (messages : List Message) × (after : List
          Event)
        × (log ≡ before ++ saved messages ∷ after)
        × All NotDelete before
        × Listed z before inbox
        × (view_items inbox ≡ some messages)
        × (persist messages ≡ none)
        × All (DeletesOnly inbox) after)

id_list-named_ids : (ms : List Item) → id_list ms ≡ named_ids ms
unfolding id_list
id_list-named_ids [] = refl
id_list-named_ids (m ∷ ms) = rw (id_list-named_ids ms) refl

messages_of-Adds : (j : Json) → Adds NotDelete (messages_of j)
messages_of-Adds null_json s = stays {A = List Item} NotDelete s (messages_of null_json s) refl
messages_of-Adds (object b) s = stays {A = List Item} NotDelete s (messages_of (object b) s) refl

list_items-Adds : (z : Settings) → Adds NotDelete (list_items z)
unfolding list_items get_cmd str_eq
list_items-Adds z =
    bind-Adds NotDelete (ensure_authed_for_read z) _
      (ensure_authed-Adds z NotDelete (λ reply. refl))
      (λ u.
        bind-Adds NotDelete (get_cmd z (codes "sms_data_total") list_extra) _
          (request-Adds NotDelete (get _) (λ reply. refl)) messages_of-Adds)

delete_items-Adds :
    (z : Settings) (inbox : List Item) → Adds (DeletesOnly inbox) (delete_items z inbox)
unfolding delete_items str_eq
delete_items-Adds z [] s = stays {A = Unit {0}} (DeletesOnly []) s (s, ok tt) refl
delete_items-Adds z (m ∷ ms) s =
    bind-Adds (DeletesOnly (m ∷ ms)) (set_cmd z (codes "DELETE_SMS") (delete_params (m ∷ ms)))
      (λ _. pure tt)
      (set_cmd-Adds z (DeletesOnly (m ∷ ms)) (λ reply. inl refl) (codes "DELETE_SMS")
        (delete_params (m ∷ ms))
        (λ reply. inr (
          reply,
          ap
              (λ (t : Str).
                asked
                  (post (
                    (codes "goformId", codes "DELETE_SMS")
                    ∷ (codes "msg_id", t)
                    ∷ (codes "notCallback", codes "true")
                    ∷ []))
                  reply)
              (id_list-named_ids (m ∷ ms)),
        )))
      (λ answer s'. stays {A = Unit {0}} (DeletesOnly (m ∷ ms)) s' (s', ok tt) refl) s

-- The end of a run does not touch the log.
return_log :
    {A B : Type 0} (r : Stick × Result A) (b : B) → (bind_from r (λ _. pure b)).0.log ≡ r.0.log
return_log (s, ok a) b = refl
return_log (s, err x) b = refl

-- Messages that are read are saved, if there are any, and deleted.
view-nonempty : (m : Item) (ms : List Item) → view_items (m ∷ ms) ≡ some [] → ⊥
unfolding view_items
view-nonempty m ms e = ground arith

take_items-TakenFirst :
    (z : Settings) (persist : List Message → Option Failure) (inbox : List Item) (s : Stick)
    → All NotDelete s.log
    → Listed z s.log inbox
    → TakenFirst z persist (take_items z (some persist) inbox s).0.log
unfolding take_items
take_items-TakenFirst z persist inbox s h l = go (view_items inbox) refl
  where
    rest : List Message → Z (List Message)
    rest ms = persist_messages (some persist) ms >> (delete_items z inbox >> pure ms)

    saving :
        (m : Message) (ms : List Message) (o : Option Failure)
        → view_items inbox ≡ some (m ∷ ms)
        → persist (m ∷ ms) ≡ o
        → TakenFirst z persist
            (bind_from (persisted (m ∷ ms) o s) (λ _. delete_items z inbox >> pure (m ∷ ms))).0.log
    saving m ms (some e) v p = unfold persisted in inl h
    saving m ms none v p =
        let s' : Stick = record s { log = s.log ++ saved (m ∷ ms) ∷ [] } in
        let (after, e, only) = delete_items-Adds z inbox s' in
        unfold persisted in
        inr (
          s.log,
          inbox,
          m ∷ ms,
          after,
          return_log (delete_items z inbox s') (m ∷ ms)
              ∙ e
              ∙ append_assoc s.log (saved (m ∷ ms) ∷ []) after,
          h,
          l,
          v,
          p,
          only,
        )

    quiet :
        (i : List Item)
        → view_items i ≡ some []
        → All NotDelete (bind_from (delete_items z i s) (λ _. pure {A = List Message} [])).0.log
    quiet [] v = unfold delete_items in h
    quiet (m ∷ ms) v = absurd (view-nonempty m ms v)

    go :
        (o : Option (List Message))
        → view_items inbox ≡ o
        → TakenFirst z persist (bind_from (viewed o s) rest).0.log
    go none v = inl h
    go (some []) v = unfold persist_messages in inl (quiet inbox v)
    go (some (m ∷ ms)) v = unfold persist_messages in saving m ms (persist (m ∷ ms)) v refl

-- Where `persist` is given, whatever the modem answers and whether the database takes the messages or
-- throws: a request that deletes messages comes only after the database took the messages of the inbox
-- in the modem's answer, and it names the ids of just those, in their order.
pub get_messages-TakenFirst :
    (z : Settings) (persist : List Message → Option Failure) (logged_in : Bool) (clock : ℕ)
    (pending : List Turn)
    → TakenFirst z persist
        (get_messages z
          (some persist)
          (record { logged_in = logged_in; clock = clock; pending = pending; log = [] })).0.log
unfolding get_messages
get_messages-TakenFirst z persist logged_in clock pending =
    let s : Stick = record { logged_in = logged_in; clock = clock; pending = pending; log = [] } in
    go (list_items z s) (list_items-Adds z s) (list_items-Listed z s)
  where
    go :
        (r : Stick × Result (List Item))
        → ((after : List Event) × (r.0.log ≡ [] ++ after) × All NotDelete after)
        → EndsListed z r
        → TakenFirst z persist
            (bind_from r (λ items. take_items z (some persist) (inbox_of items))).0.log
    go (s, ok items) (after, e, h) l =
        take_items-TakenFirst z persist (inbox_of items) s (subst (All NotDelete) (sym e) h) l
    go (s, err x) (after, e, h) l = inl (subst (All NotDelete) (sym e) h)
