-- ===== src/Tests/Devices.antt =====
-- utils/adb.js on concrete replies.
use modem_sms_gateway.Prelude.{
  ◌≡◌, refl, true, false, List, [], ◌∷◌, ◌++◌, Option, none, some, Str, codes, concat,
}
use modem_sms_gateway.Prelude.Actions.{Failure, Result}
use modem_sms_gateway.Serial.Listing.{Received}
use modem_sms_gateway.Adb.{
  printed, is_void_reply, void_parcel, without_spaces, zeros_end, skip_zeros, parts_of, send_sms,
}
use modem_sms_gateway.Prelude.{is_space}
use modem_sms_gateway.Adb.Shell.{remote_command}
use modem_sms_gateway.Adb.Words.{between, lex, send_words, lex-remote_command}
use modem_sms_gateway.Adb.Parts.{Outcome, send_sms-Outcome}
use modem_sms_gateway.Adb.Bridge.{
  Fate, answered, lost, unreached, Files, BridgeLine, read_output, get_messages,
}
use modem_sms_gateway.Adb.Bridge.Kept.{Drained, Undrained, get_messages-Drained}

abbrev shell_package : Str
shell_package = codes "com.android.shell"

-- A message that would end the quotes and start a command.
abbrev hostile : Str
hostile = codes "'; rm -rf /; echo '"

lex-remote_command_example :
    lex between (remote_command 6 shell_package (codes "+99361234567") hostile)
    ≡ some (send_words 6 shell_package (codes "+99361234567") hostile)
lex-remote_command_example = lex-remote_command 6 shell_package (codes "+99361234567") hostile

abbrev void_reply : Str
void_reply = codes "Result: Parcel(00000000    '....')"

reply_runs :
    (is_void_reply void_reply ≡ true)
    × (is_void_reply (codes "Result: Parcel(ffffffff 00000000)") ≡ false)
    × (is_void_reply (codes "Result: Parcel(00000000 00000001)") ≡ false)
unfolding is_void_reply void_parcel without_spaces zeros_end skip_zeros is_space
reply_runs = (refl, refl, refl)

send_sms-Outcome_example :
    Outcome 6 shell_package (codes "+99361234567") hostile (
      send_sms 6 shell_package
        (codes "+99361234567")
        hostile
        (record { pending = printed void_reply ∷ []; log = [] }))
    × (concat (parts_of 6 shell_package hostile) ≡ hostile)
send_sms-Outcome_example =
    send_sms-Outcome 6 shell_package (codes "+99361234567") hostile (printed void_reply ∷ [])

-- A line is the text itself, with no date.
abbrev parse_text : Str → Option (BridgeLine Str)
parse_text line = some (record { from = codes "+99361"; date = none; text = line })

abbrev refuses : List Received → Option Failure
refuses messages =
    some (record { message = codes "disk full"; timeout = false; confirm_timeout = false })

get_messages-Drained_example :
    let run : Fate → Files × Result (List Received) = λ (drain : Fate).
      get_messages Str parse_text some true (some refuses) (record {
        incoming = codes "two\n";
        reading = codes "one\n";
        fates = drain ∷ answered ∷ [];
        saved = [];
      }) in
    Drained Str parse_text some refuses
      (read_output Str parse_text some (codes "one\n" ++ codes "two\n"))
      (codes "one\n" ++ codes "two\n")
      []
      (run answered)
    × Undrained Str parse_text some lost answered (codes "two\n") (codes "one\n") [] (run lost)
    × Undrained Str parse_text some unreached answered
        (codes "two\n")
        (codes "one\n")
        []
        (run unreached)
get_messages-Drained_example =
    get_messages-Drained Str parse_text some refuses (codes "two\n") (codes "one\n") [] answered
