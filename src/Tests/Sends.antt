-- ===== src/Tests/Sends.antt =====
-- The pool, the wait for a modem and the SMS worker on concrete inputs.
use modem_sms_gateway.Prelude.{
  ℕ, suc, ◌+◌, ◌*◌, ◌≤◌, ◌<◌, ◌≡◌, ◌⊎◌, ◌↔◌, refl, inl, inr, Bool, true, false, not, ◌&&◌, List, [],
  ◌∷◌, Option, none, some, arith, Str, codes, length, get_elem?, ltb, str_eq, is_some, Bool-cases,
}
use modem_sms_gateway.Pool.{Modem, only_connected, candidates, pick}
use modem_sms_gateway.Pool.Rotation.{picks, pick_lem}
use modem_sms_gateway.Worker.Wait.{wait_for_modem, wait_for_modem_lem}
use modem_sms_gateway.Store.LogStore.{
  SentRow, Entry, Patch, SentTable, get_log, update_log, no_patch, to_row, to_entry, has_sets,
  apply_patch, updated,
}
use modem_sms_gateway.Store.Table.{row_count}
use modem_sms_gateway.Webhook.Payload.{sent_status, pending_status}
use modem_sms_gateway.Webhook.Sender.{Platform, Config, Delivery, DeliveryQueue}
use modem_sms_gateway.Worker.Send.{
  SendJob, SendResult, accepted, rejected, SendError, done, thrown, choose_modem, pinned,
  attempts_or_one, BalanceChecks, World, process_send,
}
use modem_sms_gateway.Worker.Send.Machine.{Phase, phase_status, is_open, Moves}
use modem_sms_gateway.Worker.Send.Lifecycle.{run_world, run_heard, run_world-Moves}
use modem_sms_gateway.Worker.Send.Laws.{status_of, process_send_lem}
use modem_sms_gateway.Worker.Send.Life.{Attempt, MaySubmit, run_job, run_job_no_resend}
use modem_sms_gateway.Tests.Tables.{list_table, list_queue, find_row, update_row}

abbrev pub modem_1 : Modem
modem_1 = record {
  id = codes "modem-1";
  driver = codes "serial";
  supports_ussd = true;
  connected = false;
}

abbrev pub modem_2 : Modem
modem_2 = record {
  id = codes "modem-2";
  driver = codes "zte-http";
  supports_ussd = false;
  connected = true;
}

abbrev pub two_modems : List Modem
two_modems = modem_1 ∷ modem_2 ∷ []

pick_second : (pick two_modems 7).0 ≡ some modem_2
unfolding pick candidates only_connected
pick_second = refl

one_candidate : 0 < length (candidates two_modems)
unfolding candidates only_connected
one_candidate = omega arith

pick_lem_example :
    ((m : Modem) × ((pick two_modems 5).0 ≡ some m)
      × ((m.connected ≡ true) ⊎ (only_connected two_modems ≡ [])))
    × ((i : ℕ) × (i < length (candidates two_modems))
        × (get_elem? (picks two_modems 5 (length (candidates two_modems))) i
            ≡ some (get_elem? (candidates two_modems) 0)))
pick_lem_example = pick_lem two_modems 5 0 (omega arith) one_candidate

-- A modem that is connected at the poll 3.
abbrev third_poll : ℕ → Bool
third_poll i = ltb 2 i

abbrev half_seconds : ℕ → ℕ
half_seconds i = 1000 + 500 * i

wait_for_modem_lem_example :
    let r = wait_for_modem third_poll half_seconds in
    ((third_poll r ≡ true) ⊎ (half_seconds 0 + 30000 ≤ half_seconds r))
    × (r ≤ 60)
    × ((j : ℕ) → j < r → (third_poll j ≡ false) × (half_seconds j < half_seconds 0 + 30000))
wait_for_modem_lem_example = wait_for_modem_lem third_poll half_seconds (λ i. omega arith)

abbrev pub db : SentTable
db = list_table (λ r. r.id)

abbrev pub queue : DeliveryQueue
queue = list_queue Delivery

abbrev platform : Platform
platform = record {
  lower = λ s. s;
  parse_url = λ s. some (record { protocol = codes "https:"; hostname = codes "hooks.test" });
  hmac = λ k s. k;
  stringify = λ p. p.status;
}

abbrev config : Config
config = record {
  signing_secret = codes "secret";
  default_url = codes "https://hooks.test/sms";
  send_intermediate = true;
  allowed_hosts = [];
}

abbrev entry_1 : Entry
entry_1 = record {
  id = codes "log-1";
  timestamp = codes "2024-01-01";
  to = codes "+99360123456";
  message = codes "hi";
  project_name = none;
  ip = none;
  status = pending_status;
  error = none;
  sent_at = none;
  reference = none;
  modem_id = none;
  client_ref = none;
  callback_url = none;
}

abbrev rows : List SentRow
rows = to_row entry_1 ∷ []

abbrev sent_now : Patch
sent_now = record no_patch { status = some sent_status }

abbrev other_id : Str
other_id = codes "log-2"

abbrev world_1 : World db queue platform config
world_1 = record { log = rows; webhooks = [] }

abbrev job_1 : SendJob
job_1 = record {
  to = codes "+99360123456";
  message = codes "hi";
  log_id = codes "log-1";
  modem = none;
}

abbrev accepts : Modem → SendResult
accepts m = accepted (some (codes "12"))

process_send_lem_example :
    let o =
      (process_send db queue platform config two_modems 0 job_1 0 accepts
        (codes "now")
        world_1).1 in
    ((m : Modem) (reference : Option Str)
      → (choose_modem two_modems 0 job_1.modem).0 ≡ some m
      → accepts m ≡ accepted reference
      → o ≡ done reference m.id)
    × (((e : SendError) × (o ≡ thrown e) × (e.unrecoverable ≡ true)) ↔ (
        ((choose_modem two_modems 0 job_1.modem).0 ≡ none) × (is_some (pinned job_1.modem) ≡ true)
        ⊎ ((m : Modem) × (message : Str) × ((choose_modem two_modems 0 job_1.modem).0 ≡ some m)
            × (accepts m ≡ rejected message true))))
process_send_lem_example =
    process_send_lem db queue platform config two_modems 0 job_1 0 accepts (codes "now") world_1

pub updates :
    (id : Str) (patch : Patch) (s : List SentRow)
    → (s' : List SentRow) × (r : Option Entry) × (update_log db id patch s ≡ some (s', r))
updates id patch s = elim (Bool-cases (has_sets patch)) [
  | inl sets ↦ (
    update_row (λ r. r.id) id (apply_patch patch) s,
    (updated db id
        (update_row (λ r. r.id) id (apply_patch patch) s, row_count (find_row (λ r. r.id) id s))).1,
    unfold update_log updated in rw sets refl,
  )
  | inr empty ↦ (s, get_log db id s, unfold update_log in rw empty refl)
]

abbrev rejects_all : Modem → SendResult
rejects_all m = rejected (codes "+CMS ERROR: 500") false

abbrev busy : SendError
busy = record {
  message = codes "+CMS ERROR: 500";
  unrecoverable = false;
  modem_id = some (codes "modem-2");
}

abbrev retry : SendError → ℕ → ℕ → Bool
retry e made attempts = not e.unrecoverable && ltb made attempts

-- The modem rejects the first attempt and takes the second.
abbrev env : List Attempt
env =
    record {
      pool = two_modems;
      rr = 0;
      result = λ m. rejected (codes "busy") false;
      now = codes "t1";
      now_ms = 1000;
    }
    ∷ record { pool = two_modems; rr = 1; result = accepts; now = codes "t2"; now_ms = 6000 }
    ∷ []

abbrev start : World db queue platform config × BalanceChecks
start = (world_1, record { last_check_at = []; requested = [] })

run_job_no_resend_example :
    ((i : ℕ) (a : Attempt)
      → get_elem? env i ≡ some a
      → suc i < length (run_job db queue platform config retry job_1 0 (some 3) env start)
      → ¬ MaySubmit db queue platform config retry job_1 a)
    × (0 + length (run_job db queue platform config retry job_1 0 (some 3) env start)
        ≤ attempts_or_one (some 3))
run_job_no_resend_example =
    run_job_no_resend db queue platform config retry (λ e made attempts. refl) job_1 0 (some 3) env
      start (omega arith)

starts_pending :
    status_of db queue platform config start.0 job_1.log_id ≡ some (phase_status Phase.pending)
unfolding get_log find_row to_row to_entry str_eq
starts_pending = refl

run_world-Moves_example :
    let hears = run_heard db queue platform config retry job_1 0 (some 3) env start in
    let end = run_world db queue platform config retry job_1 0 (some 3) env start in
    (q : Phase) × Moves Phase.pending hears q
    × (status_of db queue platform config end.0 job_1.log_id ≡ some (phase_status q))
    × (3 ≤ 0 + length env → is_open q ≡ false)
unfolding pinned
run_world-Moves_example =
    run_world-Moves db queue platform config retry (λ e made attempts. refl) updates job_1 0
      (some 3) env start Phase.pending (inl refl, (inl refl, tt)) starts_pending refl (omega arith)
