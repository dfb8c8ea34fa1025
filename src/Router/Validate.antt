-- ===== src/Router/Validate.antt =====
-- router/router.js: `validateSend`. A refusal is named by its cause; its text is left out.
pub mod Laws
use modem_sms_gateway.Prelude.{
  ℕ, Bool, true, false, not, ◌&&◌, ◌||◌, List, [], ◌∷◌, Option, none, some, Str, length, leb, ltb,
  ◌==◌, if◌then◌else◌, is_empty, trim, min, max,
}
use modem_sms_gateway.Encoding.Charset.{phone_re}
use modem_sms_gateway.Encoding.Split.{Info}
use modem_sms_gateway.Pool
use modem_sms_gateway.Pool.{Modem}
use modem_sms_gateway.Webhook.Url.{Url, is_allowed_url}

-- A field of the JSON body: missing, a string, or a value of another type.
pub data Field : Type 0 where
  absent : Field
  text : Str → Field
  other : Field

pub record Body : Type 0 where
  pub to : Field
  pub message : Field
  pub project_name : Field
  pub modem : Field
  pub client_ref : Field
  pub callback_url : Field

-- The body that `next()` passes on.
pub record SendRequest : Type 0 where
  pub to : Str
  pub message : Str
  pub project_name : Str
  pub modem : Option Str
  pub client_ref : Option Str
  pub callback_url : Option Str

pub data Refusal : Type 0 where
  bad_number no_message control_chars no_project unknown_modem bad_client_ref bad_callback : Refusal
  too_long : Str → Refusal

pub data Validation : Type 0 where
  refused : Refusal → Validation
  valid : SendRequest → Validation

-- `CONTROL_CHARS_RE`.
unfoldable pub is_control : ℕ → Bool
is_control c = leb c 9 || c == 11 || c == 12 || (leb 14 c && leb c 31)

unfoldable pub has_control : Str → Bool
unfolding is_control
has_control [] = false
has_control (c ∷ s) = is_control c || has_control s

abbrev pub client_ref_max : ℕ
client_ref_max = 200

-- `typeof v === 'string' ? v : ''`.
abbrev pub text_of : Field → Str
text_of (text s) = s
text_of absent = []
text_of other = []

-- `typeof v !== 'string' || v.trim().length === 0`.
abbrev pub is_blank : Field → Bool
is_blank (text s) = is_empty (trim s)
is_blank absent = true
is_blank other = true

abbrev pub option_text : Field → Option Str
option_text (text s) = some s
option_text absent = none
option_text other = none

abbrev pub some_text : Str → Option Str
some_text [] = none
some_text (c ∷ s) = some (c ∷ s)

-- `clientRef.trim() || null`.
abbrev pub trimmed_ref : Field → Option Str
trimmed_ref (text s) = some_text (trim s)
trimmed_ref absent = none
trimmed_ref other = none

unfoldable pub is_bad_modem : List Modem → Field → Bool
is_bad_modem pool absent = false
is_bad_modem pool other = true
is_bad_modem pool (text id) = elim (Pool.get pool id) [ none ↦ true | some m ↦ false ]

abbrev pub is_bad_ref : Field → Bool
is_bad_ref absent = false
is_bad_ref other = true
is_bad_ref (text s) = ltb client_ref_max (length (trim s))

module _ (lower : Str → Str) (parse : Str → Option Url) (allowed_hosts : List Str) where
  unfoldable pub is_bad_callback : Field → Bool
  is_bad_callback absent = false
  is_bad_callback other = true
  is_bad_callback (text url) = not (is_allowed_url lower parse url allowed_hosts)

-- The modems that may send: the one asked for, or all of them.
unfoldable pub send_candidates : List Modem → Field → List Modem
send_candidates pool absent = pool
send_candidates pool other = pool
send_candidates pool (text []) = pool
send_candidates pool (text (c ∷ s)) = elim (Pool.get pool (c ∷ s)) [ none ↦ [] | some m ↦ m ∷ [] ]

-- `.find(({ info }) => !info.ok)`.
unfoldable pub first_refusing : (Modem → Str → Info) → List Modem → Str → Option Modem
first_refusing analyze [] message = none
first_refusing analyze (m ∷ ms) message =
    let rest = first_refusing analyze ms message in if (analyze m message).ok then rest else some m

-- The end of `validateSend`.
unfoldable pub check_length : Option Modem → SendRequest → Validation
check_length none r = valid r
check_length (some m) r = refused (too_long m.id)

-- `analyze` is the modem's own `analyzeMessage`.
module _ (lower : Str → Str) (parse : Str → Option Url) (allowed_hosts : List Str)
    (analyze : Modem → Str → Info) where
  unfoldable pub validate_send : List Modem → Body → Validation
  unfolding has_control is_bad_modem is_bad_callback send_candidates first_refusing check_length
  validate_send pool body =
      let to = trim (text_of body.to) in
      let message = text_of body.message in
      if not (phone_re to)
      then refused bad_number
      else (if is_blank body.message
          then refused no_message
          else (if has_control message
              then refused control_chars
              else (if is_blank body.project_name
                  then refused no_project
                  else (if is_bad_modem pool body.modem
                      then refused unknown_modem
                      else (if is_bad_ref body.client_ref
                          then refused bad_client_ref
                          else (if is_bad_callback lower parse allowed_hosts body.callback_url
                              then refused bad_callback
                              else check_length
                                  (first_refusing analyze (send_candidates pool body.modem) message)
                                  (record {
                                    to = to;
                                    message = message;
                                    project_name = text_of body.project_name;
                                    modem = option_text body.modem;
                                    client_ref = trimmed_ref body.client_ref;
                                    callback_url = option_text body.callback_url;
                                  })))))))
