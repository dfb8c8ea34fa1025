-- ===== src/Server.antt =====
-- index.js: the API key, the dashboard's login, and the shutdown.
pub mod Access
use modem_sms_gateway.Prelude.{
  ℕ, Bool, true, false, not, ◌&&◌, List, [], ◌∷◌, ◌++◌, Option, none, some, Str, codes, drop,
  length, starts_with, str_eq, trim, is_empty, ◌==◌, if◌then◌else◌,
}

-- `crypto.timingSafeEqual` on buffers of one length: it looks at every byte.
unfoldable pub same_bytes : List ℕ → List ℕ → Bool
same_bytes [] b = true
same_bytes (x ∷ a) [] = true
same_bytes (x ∷ a) (y ∷ b) = same_bytes a b && x == y

-- A header of a request, empty where it is not sent.
pub record Headers : Type 0 where
  pub api_key : Str
  pub authorization : Str

-- `utf8` is `Buffer.from`, `lower` is `toLowerCase`.
module _ (utf8 : Str → List ℕ) (lower : Str → Str) where
  unfoldable pub timing_safe_equal : Str → Str → Bool
  unfolding same_bytes
  timing_safe_equal a b = length (utf8 a) == length (utf8 b) && same_bytes (utf8 a) (utf8 b)

  abbrev pub bearer_key : Str → Str
  bearer_key auth = if starts_with (lower auth) (codes "bearer ") then trim (drop 7 auth) else []

  unfoldable pub given_key : Headers → Str
  unfolding trim starts_with
  given_key h = if is_empty h.api_key then bearer_key h.authorization else h.api_key

  -- Whether `checkApiKey` lets a request pass; `api_key` is API_KEY.
  unfoldable pub check_api_key : Str → Headers → Bool
  unfolding given_key timing_safe_equal
  check_api_key api_key h =
      let key = given_key h in if is_empty key then false else timing_safe_equal key api_key

  -- The text before the first `:` and the one behind it; without one, the whole text and none.
  unfoldable pub split_login : Str → Str × Str
  split_login [] = ([], [])
  split_login (c ∷ s) =
      let rest = split_login s in if c == b':' then ([], s) else (c ∷ rest.0, rest.1)

  -- `credentials` are DASHBOARD_USER and DASHBOARD_PASSWORD, which are set together or not at all.
  abbrev pub login_ok : Option (Str × Str) → Str → Str × Str → Bool
  login_ok (some (user, password)) api_key (name, word) =
      timing_safe_equal word password && timing_safe_equal name user
  login_ok none api_key (name, word) =
      if is_empty word then false else timing_safe_equal word api_key

  -- Whether `checkBasicAuth` lets a request pass; `decode` is base64 and UTF-8.
  unfoldable pub check_basic_auth : (Str → Str) → Option (Str × Str) → Str → Headers → Bool
  unfolding starts_with split_login timing_safe_equal
  check_basic_auth decode credentials api_key h =
      if starts_with h.authorization (codes "Basic ")
      then login_ok credentials api_key (split_login (decode (drop 6 h.authorization)))
      else false

-- The steps of a shutdown.
pub data Step : Type 0 where
  stop_server close_queues close_modems exit_process : Step

-- `shutdown`: the flag `shuttingDown` afterwards, and what is done. Errors on the way are logged.
unfoldable pub shutdown : Bool → Bool × List Step
shutdown true = (true, [])
shutdown false = (true, stop_server ∷ close_queues ∷ close_modems ∷ exit_process ∷ [])
