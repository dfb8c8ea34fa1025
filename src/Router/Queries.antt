-- ===== src/Router/Queries.antt =====
-- router/router.js: the lists, the metrics, one USSD request, and the health of the modems.
use modem_sms_gateway.Prelude.{
  ℕ, ◌+◌, ◌≤◌, Bool, true, false, ◌&&◌, List, [], ◌∷◌, Option, none, some, arith, Str, length, min,
  max, ltb, ◌==◌, if◌then◌else◌, trim_start, is_empty,
}
use modem_sms_gateway.Serial.Listing.{span_digits, digits_value}
use modem_sms_gateway.Store.InboxStore.{InboxRow, InboxTable, list_received}
use modem_sms_gateway.Store.LogStore.{SentRow, Entry, SentTable}
use modem_sms_gateway.Store.LogStore.Lists.{Filters, Metrics, list_sent, get_metrics}
use modem_sms_gateway.Store.Query.{Selects}
use modem_sms_gateway.Ussd.Store.{UssdRow, Request, UssdTable, get_request, list_requests}

-- `parseInt(v, 10)`: a sign and the digits in front, `none` for NaN.
pub record Signed : Type 0 where
  pub negative : Bool
  pub value : ℕ

unfoldable pub parse_digits : Bool → Str → Option Signed
unfolding span_digits digits_value
parse_digits negative s =
    let (digits, rest) = span_digits s in
    if is_empty digits
    then none
    else some (record { negative = negative; value = digits_value 0 digits })

abbrev pub parse_sign : Str → Option Signed
parse_sign [] = none
parse_sign (c ∷ s) =
    if c == b'-'
    then parse_digits true s
    else (if c == b'+' then parse_digits false s else parse_digits false (c ∷ s))

unfoldable pub parse_int : Str → Option Signed
unfolding parse_digits trim_start
parse_int s = parse_sign (trim_start s)

-- `parsed || fallback`, and then at least `low`.
abbrev pub at_least : ℕ → ℕ → Option Signed → ℕ
at_least low fallback none = max fallback low
at_least low fallback (some n) =
    if n.value == 0 then max fallback low else (if n.negative then low else max n.value low)

-- The value of a query that is not given is `undefined`, which is no number.
abbrev pub int_of : Option Str → Option Signed
int_of none = none
int_of (some s) = parse_int s

unfoldable pub parse_limit : Option Str → ℕ
unfolding parse_int
parse_limit v = min (at_least 1 50 (int_of v)) 500

unfoldable pub parse_offset : Option Str → ℕ
unfolding parse_int
parse_offset v = at_least 0 0 (int_of v)

-- 200, 404, and 500 on an exception of the database.
pub data QueryAnswer (A : Type 0) : Type 0 where
  success : A → QueryAnswer A
  not_found : QueryAnswer A
  server_error : QueryAnswer A

abbrev pub answer_of : {A : Type 0} → Option A → QueryAnswer A
answer_of none = server_error
answer_of (some a) = success a

abbrev pub found_or_not : {A : Type 0} → Option A → QueryAnswer A
found_or_not none = not_found
found_or_not (some a) = success a

-- `fails`: the SELECT throws.
unfoldable pub handle_inbox :
    (db : InboxTable)
    → Bool
    → Option Str
    → Option Str
    → Option Str
    → Option Str
    → db.State
    → QueryAnswer (List InboxRow)
unfolding parse_limit parse_offset
handle_inbox db fails limit offset modem from s =
    if fails
    then server_error
    else success (list_received db (parse_limit limit) (parse_offset offset) modem from s)

module _ (db : SentTable) (sel : Selects SentRow (λ r. r.id) db) where
  unfoldable pub handle_sent :
      Filters → Option Str → Option Str → db.State → QueryAnswer (List Entry × ℕ)
  unfolding parse_limit parse_offset
  handle_sent f limit offset s =
      answer_of (list_sent db sel f (parse_limit limit) (parse_offset offset) s)

  unfoldable pub handle_metrics : Str → db.State → QueryAnswer Metrics
  handle_metrics cutoff s = answer_of (get_metrics db sel cutoff s)

unfoldable pub handle_ussd_list :
    (db : UssdTable)
    → Selects UssdRow (λ r. r.id) db
    → Option Str
    → Option Str
    → Option Str
    → Option Str
    → db.State
    → QueryAnswer (List Request × ℕ)
unfolding parse_limit parse_offset
handle_ussd_list db sel kind modem limit offset s =
    answer_of (list_requests db sel kind modem (parse_limit limit) (parse_offset offset) s)

-- GET /ussd/:id; `none` is a row that is not there.
unfoldable pub handle_ussd_request : (db : UssdTable) → Str → db.State → QueryAnswer Request
handle_ussd_request db id s = found_or_not (get_request db id s)

-- A modem's answer to /health: its id, whether it is connected, and whether it answers a ping.
pub record Probe : Type 0 where
  pub id : Str
  pub connected : Bool
  pub pings : Bool

pub record Health : Type 0 where
  pub all_up : Bool
  pub some_up : Bool
  pub modems : List (Str × Bool)

unfoldable pub statuses : List Probe → List (Str × Bool)
statuses [] = []
statuses (p ∷ ps) = (p.id, p.connected && p.pings) ∷ statuses ps

unfoldable pub up_count : List (Str × Bool) → ℕ
up_count [] = 0
up_count ((id, up) ∷ xs) = (if up then 1 else 0) + up_count xs

unfoldable pub health : List Probe → Health
unfolding statuses up_count
health probes =
    let xs = statuses probes in
    record { all_up = up_count xs == length xs; some_up = ltb 0 (up_count xs); modems = xs }

parse_limit_bounds : (v : Option Str) → (1 ≤ parse_limit v) × (parse_limit v ≤ 500)
unfolding parse_limit
parse_limit_bounds v = go (int_of v)
  where
    go : (o : Option Signed) → (1 ≤ min (at_least 1 50 o) 500) × (min (at_least 1 50 o) 500 ≤ 500)
    go none = (omega arith, omega arith)
    go (some n) = (ground arith, ground arith)
