-- ===== src/Zte/Settings.antt =====
-- utils/zte-http.js: what `createZteModem(config)` sets up, the time stamp of an SMS, and `analyzeUcs2`.
use modem_sms_gateway.Prelude.{
  ℕ, ◌+◌, ◌-◌, ◌*◌, ◌/◌, ◌%◌, ◌≤◌, ◌≡◌, ◌↔◌, arith, Bool, true, List, [], ◌∷◌, ◌++◌, Option, none,
  some, Str, codes, map_get, length, leb, ltb, decimal, str_eq, if◌then◌else◌, is_some,
}
use modem_sms_gateway.Encoding.Charset.{ucs2_single, ucs2_per_segment, max_segments}
use modem_sms_gateway.Encoding.Split.{Info, ucs2}
use modem_sms_gateway.Prelude.Actions.{Result, ok, err, plain_error}

-- The two URL layouts.
pub record Paths : Type 0 where
  pub get_path : Str
  pub set_path : Str

abbrev pub api_paths : List (Str × Paths)
api_paths =
    (
      codes "goform",
      record {
        get_path = codes "/goform/goform_get_cmd_process";
        set_path = codes "/goform/goform_set_cmd_process";
      },
    )
    ∷ (
      codes "reqproc",
      record { get_path = codes "/reqproc/proc_get"; set_path = codes "/reqproc/proc_post" },
    )
    ∷ []

-- A setting that is not given is the empty text, which the code treats alike.
pub record ZteConfig : Type 0 where
  pub id : Str
  pub host : Str
  pub api : Str
  pub password : Str
  pub balance_code : Str
  pub tariff_code : Str
  pub number_code : Str

pub record Settings : Type 0 where
  pub id : Str
  pub base : Str
  pub paths : Paths
  pub password : Option Str
  pub balance_code : Str
  pub tariff_code : Str
  pub number_code : Str

-- `value || fallback`.
abbrev pub text_or : Str → Str → Str
text_or [] fallback = fallback
text_or (c ∷ s) fallback = c ∷ s

-- `PASSWORD`.
unfoldable pub password_for : Str → Str → Option Str
password_for api [] = if str_eq api (codes "reqproc") then some (codes "admin") else none
password_for api (c ∷ s) = some (c ∷ s)

abbrev pub needs_login : Settings → Bool
needs_login settings = is_some settings.password

unfoldable pub settings_for : ZteConfig → Str → Option Paths → Result Settings
settings_for config api none = err (
    plain_error (
      codes "Modem \""
      ++ (text_or config.id (codes "zte")
          ++ (codes "\": unknown zte-http api \""
              ++ (config.api ++ codes "\" — use \"goform\" or \"reqproc\"")))))
settings_for config api (some paths) = ok (record {
  id = text_or config.id (codes "zte");
  base = codes "http://" ++ text_or config.host (codes "192.168.0.1");
  paths = paths;
  password = password_for api config.password;
  balance_code = text_or config.balance_code (codes "*0800#");
  tariff_code = text_or config.tariff_code (codes "*0805#");
  number_code = text_or config.number_code (codes "*222#");
})

-- `toLowerCase` is given; `API_PATHS` is read for its own keys.
unfoldable pub create_zte : (Str → Str) → ZteConfig → Result Settings
unfolding settings_for
create_zte lower config =
    let api = lower (text_or config.api (codes "goform")) in
    settings_for config api (map_get api_paths api)

-- Minutes east or west of Greenwich.
pub data Zone : Type 0 where
  east west : ℕ → Zone

pub record LocalTime : Type 0 where
  pub year : ℕ
  pub month : ℕ
  pub day : ℕ
  pub hours : ℕ
  pub minutes : ℕ
  pub seconds : ℕ
  pub zone : Zone

-- `String(n).padStart(2, '0')`.
unfoldable pub two_digits : ℕ → Str
two_digits n = (if ltb n 10 then codes "0" else []) ++ decimal n

-- `Math.round`, which rounds a half up, then the sign.
unfoldable pub zone_text : Zone → Str
zone_text (east m) = codes "+" ++ decimal ((m + 30) / 60)
zone_text (west m) =
    let hours = (m + 29) / 60 in if leb hours 0 then codes "+0" else codes "-" ++ decimal hours

unfoldable pub sms_time : LocalTime → Str
unfolding two_digits zone_text
sms_time d =
    two_digits (d.year % 100)
    ++ (codes ";"
        ++ (two_digits d.month
            ++ (codes ";"
                ++ (two_digits d.day
                    ++ (codes ";"
                        ++ (two_digits d.hours
                            ++ (codes ";"
                                ++ (two_digits d.minutes
                                    ++ (codes ";"
                                        ++ (two_digits d.seconds
                                            ++ (codes ";" ++ zone_text d.zone)))))))))))

-- `Math.ceil(n / k)`.
abbrev pub div_ceil : ℕ → ℕ → ℕ
div_ceil n k = (n + (k - 1)) / k

unfoldable pub analyze_ucs2 : Str → Info
analyze_ucs2 message =
    let segments =
      if leb (length message) ucs2_single then 1 else div_ceil (length message) ucs2_per_segment in
    record {
      encoding = ucs2;
      length = length message;
      segments = segments;
      max_length = ucs2_per_segment * max_segments;
      ok = leb segments max_segments;
    }

-- What the driver accepts has at most 201 code units.
pub analyze_ucs2-max :
    (message : Str)
    → ((analyze_ucs2 message).ok ≡ true) ↔ (length message ≤ (analyze_ucs2 message).max_length)
unfolding analyze_ucs2
analyze_ucs2-max message = ground arith
