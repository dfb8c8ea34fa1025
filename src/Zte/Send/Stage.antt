-- ===== src/Zte/Send/Stage.antt =====
-- utils/zte-http.js: what a log of requests and replies tells about an SMS.
use modem_sms_gateway.Prelude.{
  ◌≡◌, refl, Bool, true, false, ◌&&◌, List, [], ◌∷◌, ◌++◌, Option, none, some, Str, codes, map_get,
  str_eq, or_else,
}
use modem_sms_gateway.Prelude.Actions.{Result, ok, err}
use modem_sms_gateway.Zte.Session.{
  Value, missing, is_text, Json, object, null_json, get, post, Event, asked, saved, response_of,
}
use modem_sms_gateway.Zte.Send.{Status, is_sent, has_failed, undecided, status_of, value_or}

-- Not accepted by the modem; accepted and not decided; then sent, failed, or out of sight, when the
-- status could not be read.
pub data Stage : Type 0 where
  idle waiting delivered refused lost : Stage

abbrev pub field_of : Str → Json → Value
field_of name null_json = missing
field_of name (object b) = or_else (map_get b.fields name) missing

-- `result` is `success`.
abbrev pub says_success : Json → Bool
says_success null_json = false
says_success (object b) = is_text (field_of (codes "result") (object b)) (codes "success")

abbrev pub is_accepted : Result Json → Bool
is_accepted (ok answer) = says_success answer
is_accepted (err e) = false

abbrev pub told_status : Result Json → Option Status
told_status (ok null_json) = none
told_status (ok (object b)) = some (
    status_of (
      value_or (field_of (codes "sms_cmd_status_result") (object b))
        (field_of (codes "sms_cmd_status_info") (object b))))
told_status (err e) = none

abbrev pub is_submit : List (Str × Str) → Bool
is_submit [] = false
is_submit ((key, name) ∷ params) = str_eq name (codes "SEND_SMS")

abbrev pub stage_for : Option Status → Stage
stage_for none = lost
stage_for (some is_sent) = delivered
stage_for (some has_failed) = refused
stage_for (some undecided) = waiting

abbrev pub posted : Bool → Stage → Stage
posted true waiting = waiting
posted true idle = waiting
posted true delivered = waiting
posted true refused = waiting
posted true lost = waiting
posted false s = s

abbrev pub polled : Option Status → Stage → Stage
polled o idle = idle
polled o waiting = stage_for o
polled o delivered = delivered
polled o refused = refused
polled o lost = lost

abbrev pub next_stage : Stage → Event → Stage
next_stage s (asked (get url) reply) = polled (told_status (response_of reply)) s
next_stage s (asked (post params) reply) =
    posted (is_submit params && is_accepted (response_of reply)) s
next_stage s (saved messages) = s

abbrev pub stage_from : Stage → List Event → Stage
stage_from s [] = s
stage_from s (x ∷ xs) = stage_from (next_stage s x) xs

abbrev pub stage_of : List Event → Stage
stage_of log = stage_from idle log

abbrev pub is_delivered : Stage → Bool
is_delivered idle = false
is_delivered waiting = false
is_delivered delivered = true
is_delivered refused = false
is_delivered lost = false

abbrev pub is_waiting : Stage → Bool
is_waiting idle = false
is_waiting waiting = true
is_waiting delivered = false
is_waiting refused = false
is_waiting lost = false

pub stage_from-append :
    (s : Stage) (xs : List Event) (x : Event)
    → stage_from s (xs ++ x ∷ []) ≡ next_stage (stage_from s xs) x
stage_from-append s [] x = refl
stage_from-append s (y ∷ ys) x = stage_from-append (next_stage s y) ys x
