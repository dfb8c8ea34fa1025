-- ===== src/ModemConfig.antt =====
-- utils/modem-config.js: the modems that the environment configures. JSON parsing and lower-casing are
-- the platform's, and enter as parameters.
pub mod Laws
use modem_sms_gateway.Prelude.{
  ℕ, Bool, true, false, not, List, [], ◌∷◌, Option, none, some, Str, codes, if◌then◌else◌, or_else,
  is_empty, trim, ltb, length,
}
use modem_sms_gateway.Webhook.Url.{member}

-- An entry of the array that is an object: an id that is not a string and a driver that is falsy are
-- `none`, and so is every other field that is missing.
pub record ModemEntry : Type 0 where
  pub id : Option Str
  pub driver : Option Str
  pub port : Option Str
  pub baud_rate : Option Str
  pub host : Option Str
  pub smsc : Option Str
  pub ussd_balance_code : Option Str
  pub ussd_tariff_code : Option Str
  pub ussd_number_code : Option Str

pub data Value : Type 0 where
  object : ModemEntry → Value
  no_object : Value

-- What `JSON.parse` gives, if it does not throw.
pub data Json : Type 0 where
  array : List Value → Json
  no_array : Json

pub record Env : Type 0 where
  pub modems : Option Str
  pub modem_driver : Option Str
  pub usb_port : Option Str
  pub baud_rate : Option Str
  pub zte_host : Option Str
  pub smsc : Option Str
  pub ussd_balance_code : Option Str
  pub ussd_tariff_code : Option Str
  pub ussd_number_code : Option Str

pub record ModemConfig : Type 0 where
  pub id : Str
  pub driver : Str
  pub port : Option Str
  pub baud_rate : Option Str
  pub host : Option Str
  pub smsc : Option Str
  pub ussd_balance_code : Option Str
  pub ussd_tariff_code : Option Str
  pub ussd_number_code : Option Str

-- The errors that are thrown, by their cause.
pub data ConfigError : Type 0 where
  not_json empty_list not_object no_id : ConfigError
  duplicate_id unknown_driver : Str → ConfigError

pub data Parsed (A : Type 0) : Type 0 where
  parsed : A → Parsed A
  bad_config : ConfigError → Parsed A

abbrev pub drivers : List Str
drivers = codes "serial" ∷ codes "zte-http" ∷ codes "adb" ∷ []

-- `a !== undefined ? a : b`.
abbrev pub or_default : Option Str → Option Str → Option Str
or_default none b = b
or_default (some a) b = some a

-- `a || b` of a text that may be missing.
abbrev pub text_or : Option Str → Str → Str
text_or none b = b
text_or (some []) b = b
text_or (some (c ∷ s)) b = c ∷ s

abbrev pub cons_config : ModemConfig → Parsed (List ModemConfig) → Parsed (List ModemConfig)
cons_config c (parsed cs) = parsed (c ∷ cs)
cons_config c (bad_config e) = bad_config e

module _ (lower : Str → Str) (env : Env) where
  unfoldable pub make_config : ModemEntry → ModemConfig
  make_config entry = record {
    id = trim (or_else entry.id []);
    driver = lower (or_else entry.driver []);
    port = entry.port;
    baud_rate = entry.baud_rate;
    host = entry.host;
    smsc = or_default entry.smsc env.smsc;
    ussd_balance_code = or_default entry.ussd_balance_code env.ussd_balance_code;
    ussd_tariff_code = or_default entry.ussd_tariff_code env.ussd_tariff_code;
    ussd_number_code = or_default entry.ussd_number_code env.ussd_number_code;
  }

  -- The tests on one entry, and the entries behind it.
  unfoldable pub add_config :
      List Str → ModemConfig → Parsed (List ModemConfig) → Parsed (List ModemConfig)
  add_config seen c rest =
      if is_empty c.id
      then bad_config no_id
      else (if member c.id seen
          then bad_config (duplicate_id c.id)
          else (if not (member c.driver drivers)
              then bad_config (unknown_driver c.id)
              else cons_config c rest))

  -- `list.map(…)`, with the ids that were `seen`.
  unfoldable pub parse_entries : List Str → List Value → Parsed (List ModemConfig)
  unfolding add_config make_config
  parse_entries seen [] = parsed []
  parse_entries seen (no_object ∷ vs) = bad_config not_object
  parse_entries seen (object entry ∷ vs) =
      add_config seen (make_config entry) (parse_entries ((make_config entry).id ∷ seen) vs)

  unfoldable pub parse_list : Option Json → Parsed (List ModemConfig)
  unfolding parse_entries
  parse_list none = bad_config not_json
  parse_list (some no_array) = bad_config empty_list
  parse_list (some (array [])) = bad_config empty_list
  parse_list (some (array (v ∷ vs))) = parse_entries [] (v ∷ vs)

  -- The single modem of the old variables.
  unfoldable pub legacy_entry : ModemEntry
  legacy_entry = record {
    id = some (codes "default");
    driver = some (lower (text_or env.modem_driver (codes "serial")));
    port = env.usb_port;
    baud_rate = env.baud_rate;
    host = env.zte_host;
    smsc = none;
    ussd_balance_code = none;
    ussd_tariff_code = none;
    ussd_number_code = none;
  }

  -- `parseModemConfigs(env)`.
  unfoldable pub parse_modem_configs : (Str → Option Json) → Parsed (List ModemConfig)
  unfolding parse_list legacy_entry parse_entries
  parse_modem_configs parse_json =
      let raw = trim (or_else env.modems []) in
      if is_empty raw
      then parse_entries [] (object legacy_entry ∷ [])
      else parse_list (parse_json raw)
