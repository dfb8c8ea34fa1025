-- ===== src/Zte/Session.antt =====
-- utils/zte-http.js: `request`, the login and `setCmd`.
use modem_sms_gateway.Prelude.{
  ℕ, ◌+◌, Bool, true, false, not, ◌&&◌, ◌||◌, List, [], ◌∷◌, ◌++◌, Option, Str, codes, map_get,
  take, decimal, str_eq, ◌==◌, if◌then◌else◌, or_else,
}
use modem_sms_gateway.Prelude.Actions.{
  Result, ok, err, Action, pure, throw, ◌>>=◌, ◌>>◌, plain_error,
}
use modem_sms_gateway.Zte.Settings.{Settings, needs_login}
use modem_sms_gateway.Zte.Base64.{base64}

-- A field of the modem's JSON: a text or a number as the firmware likes it.
pub data Value : Type 0 where
  missing null_value : Value
  flag : Bool → Value
  number : ℕ → Value
  text : Str → Value

-- `String(value)`.
unfoldable pub string_of : Value → Str
string_of missing = codes "undefined"
string_of null_value = codes "null"
string_of (flag true) = codes "true"
string_of (flag false) = codes "false"
string_of (number n) = decimal n
string_of (text s) = s

-- `value === 's'`.
unfoldable pub is_text : Value → Str → Bool
is_text missing s = false
is_text null_value s = false
is_text (flag b) s = false
is_text (number n) s = false
is_text (text t) s = str_eq t s

-- A stored message, as the modem lists it.
pub record Item : Type 0 where
  pub id : Value
  pub tag : Value
  pub from : Value
  pub date : Value
  pub content : Value

-- `messages` is `none` where it is not an array.
pub record Body : Type 0 where
  pub fields : List (Str × Value)
  pub messages : Option (List Item)

pub data Json : Type 0 where
  object : Body → Json
  null_json : Json

-- The end of `JSON.parse`, and what becomes of a request.
pub data Parsed : Type 0 where
  json : Json → Parsed
  no_json : Str → Parsed

pub data Reply : Type 0 where
  response : ℕ → Parsed → Reply
  broken : Str → Reply

pub data Request : Type 0 where
  get : Str → Request
  post : List (Str × Str) → Request

-- A message as `getMessages` returns it.
pub record Message : Type 0 where
  pub status : Str
  pub from : Value
  pub date : Str
  pub text : Str

-- A request with its reply, or messages that were handed to the database.
pub data Event : Type 0 where
  asked : Request → Reply → Event
  saved : List Message → Event

pub record Turn : Type 0 where
  pub took : ℕ
  pub reply : Reply

pub record Stick : Type 0 where
  pub logged_in : Bool
  pub clock : ℕ
  pub pending : List Turn
  pub log : List Event

abbrev pub Z : Type 0 → Type 0
Z A = Action Stick A

-- After the last turn that is given in advance the modem is gone.
abbrev pub first_turn : List Turn → Turn
first_turn [] = record { took = 0; reply = broken (codes "connect ECONNREFUSED") }
first_turn (t ∷ ts) = t

abbrev pub other_turns : List Turn → List Turn
other_turns [] = []
other_turns (t ∷ ts) = ts

unfoldable pub parsed_json : Parsed → Result Json
parsed_json (json j) = ok j
parsed_json (no_json raw) = err (plain_error (codes "Invalid JSON from modem: " ++ take 100 raw))

unfoldable pub response_of : Reply → Result Json
unfolding parsed_json
response_of (broken message) = err (plain_error message)
response_of (response status parsed) =
    if status == 200
    then parsed_json parsed
    else err (plain_error (codes "Modem HTTP error " ++ decimal status))

unfoldable pub settle : Request → Turn → Stick → Stick × Result Json
unfolding response_of
settle r t s = (
  record s { clock = s.clock + t.took; log = s.log ++ asked r t.reply ∷ [] },
  response_of t.reply,
)

unfoldable pub request : Request → Z Json
unfolding settle
request r s = settle r (first_turn s.pending) (record s { pending = other_turns s.pending })

unfoldable pub sleep : ℕ → Z (Unit {0})
sleep ms s = (record s { clock = s.clock + ms }, ok tt)

-- `json.name`.
unfoldable pub field : Str → Json → Z Value
field name null_json = throw (plain_error (codes "Cannot read properties of null"))
field name (object b) = pure (or_else (map_get b.fields name) missing)

-- `cmds.includes(',')`.
unfoldable pub has_comma : Str → Bool
has_comma [] = false
has_comma (c ∷ s) = c == b',' || has_comma s

-- `encodeURIComponent(cmds)`, on names of letters and underscores between commas.
unfoldable pub encode_cmds : Str → Str
encode_cmds [] = []
encode_cmds (c ∷ s) = (if c == b',' then codes "%2C" else c ∷ []) ++ encode_cmds s

-- The errors leave out the JSON that they quote.
module _ (settings : Settings) where
  unfoldable pub get_cmd : Str → Str → Z Json
  unfolding request encode_cmds has_comma
  get_cmd cmds extra = request (
      get (
        settings.base
        ++ (settings.paths.get_path
            ++ (codes "?isTest=false&"
                ++ ((if has_comma cmds then codes "multi_data=1&" else [])
                    ++ (codes "cmd=" ++ (encode_cmds cmds ++ extra)))))))

  unfoldable pub post_cmd : List (Str × Str) → Z Json
  unfolding request
  post_cmd params = request (post params)

  abbrev pub set_logged_in : Bool → Z (Unit {0})
  set_logged_in b s = (record s { logged_in = b }, ok tt)

  unfoldable pub is_login_result : Str → Bool
  is_login_result result = str_eq result (codes "0") || str_eq result (codes "4")

  abbrev pub finish_login : Bool → Z (Unit {0})
  finish_login true = set_logged_in true
  finish_login false =
      throw (plain_error (codes "Login failed on \"" ++ (settings.id ++ codes "\"")))

  abbrev pub login_params : List (Str × Str)
  login_params =
      (codes "goformId", codes "LOGIN")
      ∷ (codes "password", base64 (or_else settings.password []))
      ∷ []

  unfoldable pub login : Z (Unit {0})
  unfolding post_cmd field string_of is_login_result
  login = do
    answer ← post_cmd login_params
    result ← field (codes "result") answer
    finish_login (is_login_result (string_of result))

  abbrev pub login_if : Bool → Z (Unit {0})
  login_if true = login
  login_if false = pure tt

  -- `if (needsLogin && !loggedIn) await login()`.
  unfoldable pub ensure_login : Z (Unit {0})
  unfolding login
  ensure_login s = login_if (needs_login settings && not s.logged_in) s

  unfoldable pub ensure_authed_for_read : Z (Unit {0})
  unfolding login
  ensure_authed_for_read = login_if (needs_login settings)

  -- `again` is `json.result !== 'success' && needsLogin`.
  abbrev pub post_again : List (Str × Str) → Json → Bool → Z Json
  post_again params answer true = do set_logged_in false; login; post_cmd params
  post_again params answer false = pure answer

  abbrev pub accept_answer : Str → Json → Bool → Z Json
  accept_answer name answer true = pure answer
  accept_answer name answer false = throw (plain_error (codes "Modem rejected " ++ name))

  -- `name` is `params.goformId`.
  unfoldable pub set_cmd : Str → List (Str × Str) → Z Json
  unfolding ensure_login post_cmd field is_text login
  set_cmd name params = do
    ensure_login
    first ← post_cmd ((codes "goformId", name) ∷ params)
    result ← field (codes "result") first
    answer ←
        post_again ((codes "goformId", name) ∷ params) first
          (not (is_text result (codes "success")) && needs_login settings)
    result' ← field (codes "result") answer
    accept_answer name answer (is_text result' (codes "success"))
