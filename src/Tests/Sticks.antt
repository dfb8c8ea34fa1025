-- ===== src/Tests/Sticks.antt =====
-- utils/zte-http.js on concrete replies.
use modem_sms_gateway.Prelude.{
  ◌+◌, ◌*◌, ◌≤◌, ◌≡◌, refl, ◌⊎◌, false, List, [], ◌∷◌, Option, none, some, Str, codes, map_get,
  str_eq, decimal_from,
}
use modem_sms_gateway.Prelude.Actions.{Failure, ok, reported_unconfirmed, is_ok}
use modem_sms_gateway.Zte.Settings.{Settings, east, sms_time, two_digits, zone_text}
use modem_sms_gateway.Zte.Base64.{base64, base64_bytes, base64_char, utf8, point_bytes}
use modem_sms_gateway.Zte.Session.{
  Value, number, text, Item, object, json, response, Turn, Stick, Message, set_cmd, ensure_login,
  post_cmd, request, settle, response_of, parsed_json, field, is_text, string_of, sleep, get_cmd,
  has_comma, encode_cmds,
}
use modem_sms_gateway.Encoding.Hex.{ucs2_decode}
use modem_sms_gateway.Zte.Send.{truthy, send_sms, poll_from, poll_status}
use modem_sms_gateway.Zte.Send.Stage.{stage_of, is_delivered, is_waiting}
use modem_sms_gateway.Zte.Send.Verdict.{send_sms-Agrees}
use modem_sms_gateway.Zte.Inbox.{get_messages}
use modem_sms_gateway.Zte.Inbox.Order.{TakenFirst, get_messages-TakenFirst}
use modem_sms_gateway.Zte.Ussd.{
  run_ussd, ussd_from, await_reply, cancel_session, ussd_flag, ussd_data, is_ready, reply_text,
}
use modem_sms_gateway.Zte.Ussd.Fresh.{Fresh, run_ussd-Fresh}
use modem_sms_gateway.Zte.Ussd.Rounds.{is_silent, poll_status_lem}

abbrev stick_settings : Settings
stick_settings = record {
  id = codes "zte";
  base = codes "http://192.168.0.1";
  paths = record { get_path = codes "/goform/get"; set_path = codes "/goform/set" };
  password = none;
  balance_code = codes "*0800#";
  tariff_code = codes "*0805#";
  number_code = codes "*222#";
}

-- An answer with one field, after 100 ms.
abbrev tells : Str → Value → Turn
tells name value = record {
  took = 100;
  reply = response 200 (json (object (record { fields = (name, value) ∷ []; messages = none })));
}

abbrev accepts_it : Turn
accepts_it = tells (codes "result") (text (codes "success"))

abbrev polled_twice : List Turn
polled_twice =
    accepts_it
    ∷ tells (codes "sms_cmd_status_result") (text (codes "1"))
    ∷ tells (codes "sms_cmd_status_result") (text (codes "3"))
    ∷ []

send_sms-Agrees_example :
    let r =
      send_sms stick_settings
        (codes "24;01;02;10;00;00;+5")
        (codes "+99361234567")
        (codes "hi")
        (record { logged_in = false; clock = 0; pending = polled_twice; log = [] }) in
    (is_ok r.1 ≡ is_delivered (stage_of r.0.log))
    × (reported_unconfirmed r.1 ≡ is_waiting (stage_of r.0.log))
send_sms-Agrees_example =
    send_sms-Agrees stick_settings (codes "24;01;02;10;00;00;+5") (codes "+99361234567")
      (codes "hi") false 0 polled_twice

abbrev polling : Stick
polling = record {
  logged_in = false;
  clock = 1000;
  pending =
      tells (codes "sms_cmd_status_result") (text (codes "1"))
      ∷ tells (codes "sms_cmd_status_result") (text (codes "3"))
      ∷ [];
  log = [];
}

poll_status_lem_example :
    let deadline = 1000 + 60000 * 2 in
    let r = poll_status stick_settings 2 polling in
    ((poll_from stick_settings (40 * 2 + 5) deadline polling ≡ r)
      × ((reported_unconfirmed r.1 ≡ false) ⊎ (deadline ≤ r.0.clock)))
    × (ussd_from stick_settings (20 + 5) (1000 + 30000) polling
        ≡ await_reply stick_settings polling)
    × ((is_silent (await_reply stick_settings polling).1 ≡ false)
        ⊎ (1000 + 30000 ≤ (await_reply stick_settings polling).0.clock))
poll_status_lem_example = poll_status_lem stick_settings 2 5 polling

abbrev stored_item : Item
stored_item = record {
  id = text (codes "7");
  tag = number 1;
  from = text (codes "+99361");
  date = text (codes "24,01,02");
  content = text (codes "00680069");
}

abbrev full_stick : List Turn
full_stick =
    record {
      took = 50;
      reply =
          response 200 (json (object (record { fields = []; messages = some (stored_item ∷ []) })));
    }
    ∷ accepts_it
    ∷ []

abbrev takes_all : List Message → Option Failure
takes_all messages = none

get_messages-TakenFirst_example :
    TakenFirst stick_settings takes_all
      (get_messages stick_settings
        (some takes_all)
        (record { logged_in = false; clock = 0; pending = full_stick; log = [] })).0.log
get_messages-TakenFirst_example =
    get_messages-TakenFirst stick_settings takes_all false 0 full_stick

abbrev ussd_stick : Stick
ussd_stick = record {
  logged_in = false;
  clock = 0;
  pending =
      accepts_it
      ∷ accepts_it
      ∷ tells (codes "ussd_write_flag") (number 15)
      ∷ tells (codes "ussd_write_flag") (number 16)
      ∷ tells (codes "ussd_data") (text (codes "hi"))
      ∷ [];
  log = [];
}

replies_hi : (run_ussd stick_settings (codes "*0800#") ussd_stick).1 ≡ ok (some (text (codes "hi")))
unfolding run_ussd cancel_session set_cmd ensure_login post_cmd request settle response_of
    parsed_json field is_text str_eq map_get string_of decimal_from sleep await_reply ussd_from
    ussd_flag ussd_data is_ready reply_text ucs2_decode truthy get_cmd has_comma encode_cmds
replies_hi = refl

run_ussd-Fresh_example :
    Fresh (text (codes "hi")) (run_ussd stick_settings (codes "*0800#") ussd_stick).0.log
run_ussd-Fresh_example =
    run_ussd-Fresh stick_settings (codes "*0800#") ussd_stick (text (codes "hi")) replies_hi

sms_time_one :
    sms_time (record {
      year = 2024;
      month = 1;
      day = 12;
      hours = 9;
      minutes = 5;
      seconds = 0;
      zone = east 330;
    })
    ≡ codes "24;01;12;09;05;00;+6"
unfolding sms_time two_digits zone_text decimal_from
sms_time_one = refl

base64_admin : base64 (codes "admin") ≡ codes "YWRtaW4="
unfolding base64 base64_bytes base64_char utf8 point_bytes
base64_admin = refl
