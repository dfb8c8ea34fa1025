-- ===== src/Tests/Servers.antt =====
-- index.js and the USSD values of router/router.js on concrete requests.
use modem_sms_gateway.Prelude.{
  ◌≡◌, ◌↔◌, refl, true, false, List, [], ◌∷◌, Option, none, some, Str, codes, is_empty, str_eq,
  trim_start, is_space,
}
use modem_sms_gateway.Encoding.Charset.{is_digit}
use modem_sms_gateway.Serial.Listing.{span_digits, digits_value}
use modem_sms_gateway.Ussd.Store.{
  UssdRow, Request, to_request, to_ussd_row, Completion, complete_row, completed, UssdTable,
  create_request, complete_request, get_request,
}
use modem_sms_gateway.Ussd.Worker.{line, success, pending_request}
use modem_sms_gateway.Router.Ussd.{Shown, run_ussd_now, finish_live}
use modem_sms_gateway.Router.Ussd.Live.{Matches, run_ussd_now-Matches}
use modem_sms_gateway.Router.Queries.{parse_limit, parse_int, parse_digits}
use modem_sms_gateway.Server.{Headers, check_api_key}
use modem_sms_gateway.Server.Access.{Shows, check_api_key_lem}
use modem_sms_gateway.Tests.Tables.{list_table, find_row, update_row, insert_row}
use modem_sms_gateway.Zte.Base64.{utf8}

abbrev bearer : Headers
bearer = record { api_key = []; authorization = codes "bearer s3cret" }

abbrev unchanged : Str → Str
unchanged s = s

check_api_key_lem_example : (check_api_key utf8 unchanged (codes "s3cret") bearer ≡ true) ↔ (
    (key : Str) × (is_empty key ≡ false)
    × Shows utf8 unchanged key bearer
    × (utf8 key ≡ utf8 (codes "s3cret")))
check_api_key_lem_example = check_api_key_lem utf8 unchanged (codes "s3cret") bearer

abbrev ussd_rows : UssdTable
ussd_rows = list_table (λ r. r.id)

abbrev balance_request : Request
balance_request =
    pending_request (codes "req-1") (codes "modem-1") (codes "balance") (codes "*0800#")
      (codes "t0")

completes_always :
    (id : Str) (done : Completion) (s : List UssdRow)
    → (s' : List UssdRow) × (r : Option Request) × (complete_request ussd_rows id done s
        ≡ some (s', r))
unfolding complete_request
completes_always id done s = (_, _, refl)

abbrev live_end : List UssdRow × Shown
live_end = (
  update_row (λ r. r.id) (codes "req-1") (complete_row (success (codes "5 TMT") (codes "t1")))
      (to_ussd_row balance_request ∷ []),
  record {
    value = some (codes "5 TMT");
    error = none;
    checked_at = some (codes "t1");
    request_id = some (codes "req-1");
  },
)

runs_live :
    run_ussd_now ussd_rows
      (codes "disk full")
      balance_request
      (line (codes "5 TMT"))
      (codes "t1")
      []
    ≡ some live_end
unfolding run_ussd_now finish_live create_request complete_request completed get_request
    complete_row to_request to_ussd_row insert_row find_row update_row str_eq
runs_live = refl

run_ussd_now-Matches_example :
    Matches ussd_rows
      (codes "disk full")
      balance_request
      (line (codes "5 TMT"))
      (codes "t1")
      live_end
run_ussd_now-Matches_example =
    run_ussd_now-Matches ussd_rows (codes "disk full") completes_always balance_request
      (line (codes "5 TMT")) (codes "t1") [] live_end refl runs_live

limits :
    (parse_limit (some (codes "-5")) ≡ 1)
    × (parse_limit (some (codes "many")) ≡ 50)
    × (parse_limit (some (codes "1000 rows")) ≡ 500)
unfolding parse_limit parse_int parse_digits span_digits digits_value is_digit trim_start is_space
limits = (refl, refl, refl)
