-- ===== src/Tests/Dials.antt =====
-- utils/modem.js: USSD sessions on concrete chunks.
use modem_sms_gateway.Prelude.{
  ◌≡◌, refl, true, [], ◌∷◌, none, some, codes, trim, str_eq, starts_with,
}
use modem_sms_gateway.Prelude.Actions.{ok}
use modem_sms_gateway.Serial.Lines.{Serial}
use modem_sms_gateway.Serial.Ussd.{
  arrived, lost, command_timer, waiter_timer, ended, run_on_port, run_ussd,
}
use modem_sms_gateway.Serial.Ussd.Ends.Outcome.{EndsWell, is_ended}
use modem_sms_gateway.Serial.Ussd.Ends.Finish.{run_ussd-Ends}

abbrev idle : Serial
idle = record {
  rx_buffer = [];
  dialogue = record { current = none; waiters = []; quiet_until = 0; events = [] };
}

-- The reply arrives in the chunk that ends the command.
a_reply :
    (run_ussd 1
      (codes "*0800#")
      (arrived (codes "\r\nOK\r\n") ∷ arrived (codes "+CUSD: 0,\"5\"\r\nOK\r\n") ∷ [])
      true
      idle).phase
    ≡ ended (ok (some (codes "+CUSD: 0,\"5\"")))
unfolding run_ussd trim str_eq starts_with
a_reply = refl

-- A session whose command is refused leaves its waiter behind, which takes the reply to the next one.
stolen :
    (run_ussd 2
      (codes "*222#")
      (arrived (codes "OK\r\n") ∷ arrived (codes "OK\r\n+CUSD: 0,\"5\"\r\n") ∷ waiter_timer 2 ∷ [])
      true
      (run_ussd 1
        (codes "*0800#")
        (arrived (codes "OK\r\n") ∷ arrived (codes "ERROR\r\n") ∷ [])
        true
        idle).serial).phase
    ≡ ended (ok none)
unfolding run_ussd trim str_eq starts_with
stolen = refl

-- A port on which a session of before left its waiter.
abbrev used : Serial
used = record idle {
  dialogue = record idle.dialogue { waiters = record { id = 1; prefix = codes "+CUSD" } ∷ [] };
}

run_ussd-Ends_example :
    let p =
      run_ussd 2
        (codes "*222#")
        (arrived (codes "OK\r\n") ∷ arrived (codes "OK\r\n+CUSD: 0,\"5\"\r\n") ∷ lost ∷ [])
        true
        used in
    EndsWell p.phase
    × (is_ended (run_on_port 2 (codes "*222#") (command_timer 10 ∷ waiter_timer 2 ∷ []) p).phase
        ≡ true)
run_ussd-Ends_example =
    run_ussd-Ends 2 10 (codes "*222#")
      (arrived (codes "OK\r\n") ∷ arrived (codes "OK\r\n+CUSD: 0,\"5\"\r\n") ∷ lost ∷ []) true used
      (refl, tt) refl
