-- ===== src/Zte/Inbox.antt =====
-- utils/zte-http.js: `getMessages`.
pub mod Listed
pub mod Order
use modem_sms_gateway.Prelude.{
  ℕ, Bool, true, false, not, ◌||◌, List, [], ◌∷◌, ◌++◌, Option, none, some, Str, codes, map_get,
  str_eq, ◌==◌, if◌then◌else◌, is_empty,
}
use modem_sms_gateway.Prelude.Actions.{
  Failure, Result, ok, err, Action, pure, throw, bind_from, ◌>>=◌, ◌>>◌, plain_error,
}
use modem_sms_gateway.Encoding.Hex.{ucs2_decode}
use modem_sms_gateway.Zte.Settings.{Settings, needs_login}
use modem_sms_gateway.Zte.Session.{
  Value, missing, null_value, flag, number, text, string_of, Item, Body, Json, object, null_json,
  Message, saved, Stick, Z, get_cmd, ensure_authed_for_read, set_cmd,
}

-- A read or an unread message of the inbox.
unfoldable pub is_inbox : Item → Bool
unfolding string_of
is_inbox m = str_eq (string_of m.tag) (codes "0") || str_eq (string_of m.tag) (codes "1")

unfoldable pub inbox_of : List Item → List Item
unfolding is_inbox
inbox_of [] = []
inbox_of (m ∷ ms) = (if is_inbox m then m ∷ [] else []) ++ inbox_of ms

-- `s.replace(/,/g, '/')`.
unfoldable pub slashes : Str → Str
slashes [] = []
slashes (c ∷ s) = (if c == b',' then b'/' else c) ∷ slashes s

-- `(m.date || '').replace(…)`: only a text has `replace`.
unfoldable pub date_text : Value → Option Str
unfolding slashes
date_text missing = some []
date_text null_value = some []
date_text (flag true) = none
date_text (flag false) = some []
date_text (number n) = if n == 0 then some [] else none
date_text (text s) = some (slashes s)

-- `ucs2Decode(m.content) || String(m.content ?? '')`.
unfoldable pub content_text : Value → Str
unfolding ucs2_decode string_of
content_text missing = []
content_text null_value = []
content_text (flag b) = string_of (flag b)
content_text (number n) = string_of (number n)
content_text (text s) = if is_empty (ucs2_decode s) then s else ucs2_decode s

abbrev pub read_status_name : Value → Str
read_status_name tag =
    if str_eq (string_of tag) (codes "1") then codes "REC UNREAD" else codes "REC READ"

unfoldable pub view_items : List Item → Option (List Message)
unfolding date_text content_text string_of
view_items [] = some []
view_items (m ∷ ms) = elim (date_text m.date) [
  | none ↦ none
  | some date ↦ elim (view_items ms) [
    | none ↦ none
    | some views ↦ some (
        record {
          status = read_status_name m.tag;
          from = m.from;
          date = date;
          text = content_text m.content;
        }
        ∷ views)
  ]
]

abbrev pub messages_of : Json → Z (List Item)
messages_of null_json = throw (plain_error (codes "Cannot read properties of null"))
messages_of (object b) = pure (elim b.messages [ none ↦ [] | some items ↦ items ])

-- The callback: `none` when it is not given; it returns, or throws an error.
abbrev pub Persist : Type 0
Persist = Option (List Message → Option Failure)

unfoldable pub persisted : List Message → Option Failure → Z (Unit {0})
persisted messages none s = (record s { log = s.log ++ saved messages ∷ [] }, ok tt)
persisted messages (some e) s = (s, err e)

-- `if (messages.length > 0 && persist)`.
unfoldable pub persist_messages : Persist → List Message → Z (Unit {0})
unfolding persisted
persist_messages none messages = pure tt
persist_messages (some persist) [] = pure tt
persist_messages (some persist) (m ∷ ms) = persisted (m ∷ ms) (persist (m ∷ ms))

-- `inbox.map((m) => String(m.id)).join(';') + ';'`.
unfoldable pub id_list : List Item → Str
unfolding string_of
id_list [] = []
id_list (m ∷ ms) = string_of m.id ++ (codes ";" ++ id_list ms)

abbrev pub delete_params : List Item → List (Str × Str)
delete_params inbox = (codes "msg_id", id_list inbox) ∷ (codes "notCallback", codes "true") ∷ []

abbrev pub viewed : Option (List Message) → Z (List Message)
viewed none = throw (plain_error (codes "replace is not a function"))
viewed (some messages) = pure messages

abbrev pub list_extra : Str
list_extra = codes "&page=0&data_per_page=500&mem_store=1&tags=10&order_by=order+by+id+desc"

module _ (settings : Settings) where
  unfoldable pub delete_items : List Item → Z (Unit {0})
  unfolding set_cmd id_list
  delete_items [] = pure tt
  delete_items (m ∷ ms) = do set_cmd settings (codes "DELETE_SMS") (delete_params (m ∷ ms)); pure tt

  unfoldable pub take_items : Persist → List Item → Z (List Message)
  unfolding view_items persist_messages delete_items
  take_items persist inbox = do
    messages ← viewed (view_items inbox)
    persist_messages persist messages
    delete_items inbox
    pure messages

  unfoldable pub list_items : Z (List Item)
  unfolding ensure_authed_for_read get_cmd
  list_items = do
    ensure_authed_for_read settings
    answer ← get_cmd settings (codes "sms_data_total") list_extra
    messages_of answer

  unfoldable pub get_messages : Persist → Z (List Message)
  unfolding list_items take_items inbox_of
  get_messages persist = do items ← list_items; take_items persist (inbox_of items)
