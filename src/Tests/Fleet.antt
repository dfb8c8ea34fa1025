-- ===== src/Tests/Fleet.antt =====
-- utils/modem-config.js and utils/serialize.js on a small fleet.
use modem_sms_gateway.Prelude.{
  ◌≡◌, ◌≢◌, ◌≤◌, refl, List, [], ◌∷◌, none, some, arith, Str, codes, length, get_elem?, trim, All,
  str_eq,
}
use modem_sms_gateway.Webhook.Url.{member}
use modem_sms_gateway.ModemConfig.{
  ModemEntry, object, Json, array, Env, ModemConfig, parsed, parse_modem_configs, make_config,
}
use modem_sms_gateway.ModemConfig.Laws.{IsUsable, Distinct, parse_modem_configs_lem}
use modem_sms_gateway.Serializer.{
  waiting, running, settled, chain_settled, last_settled, with_lock, start, finish, Reachable,
  created, then_step, Reachable-settled,
}
use modem_sms_gateway.Tests.Callbacks.{lower}

abbrev env : Env
env = record {
  modems = some (codes " [..] ");
  modem_driver = none;
  usb_port = none;
  baud_rate = none;
  zte_host = none;
  smsc = some (codes "+99365999999");
  ussd_balance_code = none;
  ussd_tariff_code = none;
  ussd_number_code = none;
}

abbrev entry : Str → Str → ModemEntry
entry id driver = record {
  id = some id;
  driver = some driver;
  port = none;
  baud_rate = none;
  host = none;
  smsc = none;
  ussd_balance_code = none;
  ussd_tariff_code = none;
  ussd_number_code = none;
}

abbrev fleet : Json
fleet = array (
    object (entry (codes " zte ") (codes "ZTE-http"))
    ∷ object (entry (codes "ufi") (codes "serial"))
    ∷ [])

abbrev configs : List ModemConfig
configs =
    make_config lower env (entry (codes "zte") (codes "zte-http"))
    ∷ make_config lower env (entry (codes "ufi") (codes "serial"))
    ∷ []

fleet_parsed : parse_modem_configs lower env (λ s. some fleet) ≡ parsed configs
unfolding parse_modem_configs make_config member str_eq trim
fleet_parsed = refl

parse_modem_configs_lem_example : (1 ≤ length configs) × All IsUsable configs × Distinct [] configs
parse_modem_configs_lem_example =
    parse_modem_configs_lem lower env (λ s. some fleet) configs fleet_parsed

-- Two calls, the first of which has ended and the second started.
two_calls : Reachable (settled ∷ running ∷ [])
unfolding chain_settled last_settled
two_calls =
    then_step _ _
      (then_step _ _
        (then_step _ _
          (then_step _ _ (then_step _ _ created (with_lock [])) (with_lock (waiting ∷ [])))
          (start [] (waiting ∷ []) refl))
        (finish [] (waiting ∷ [])))
      (start (settled ∷ []) [] refl)

not-waiting : running ≢ waiting
not-waiting h = cc

Reachable-settled_example : get_elem? (settled ∷ running ∷ []) 0 ≡ some settled
Reachable-settled_example =
    Reachable-settled (settled ∷ running ∷ []) two_calls 0 1 running (omega arith) refl not-waiting
