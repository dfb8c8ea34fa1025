-- ===== src/Worker/Wait.antt =====
-- config/bull.config.js: `waitForModem`, which polls a modem until it is connected or a deadline has
-- passed. The answers of the modem and of the clock at each poll are the environment's.
use native.Mathlib.Decide.{dec_lt}
use modem_sms_gateway.Prelude.{
  ℕ, zero, suc, ◌+◌, ◌*◌, ◌≤◌, ◌<◌, ◌≡◌, refl, ◌⊎◌, inl, inr, Bool, true, false, not, ◌&&◌, arith,
  ltb, Bool-cases,
}

abbrev pub modem_ready_timeout_ms : ℕ
modem_ready_timeout_ms = 30000

module _ (connected : ℕ → Bool) (clock : ℕ → ℕ) (deadline : ℕ) where
  -- The loop at poll `i`; the result is the poll at which it stops.
  unfoldable pub wait_from : ℕ → ℕ → ℕ
  wait_from zero i = i
  wait_from (suc fuel) i = elim (not (connected i) && ltb (clock i) deadline) [
    | true ↦ wait_from fuel (suc i)
    | false ↦ i
  ]

  wait_from_stop :
      (fuel i : ℕ)
      → (not (connected i) && ltb (clock i) deadline) ≡ false
      → wait_from (suc fuel) i ≡ i
  unfolding wait_from
  wait_from_stop fuel i e = rw (wait_from, e) refl

  wait_from_go :
      (fuel i : ℕ)
      → (not (connected i) && ltb (clock i) deadline) ≡ true
      → wait_from (suc fuel) i ≡ wait_from fuel (suc i)
  unfolding wait_from
  wait_from_go fuel i e = rw (wait_from, e) refl

  wait_from_lem :
      ((i : ℕ) → clock i + 500 ≤ clock (suc i))
      → (fuel i : ℕ) → deadline ≤ clock i + 500 * fuel
      → let r = wait_from (suc fuel) i in
        ((connected r ≡ true) ⊎ (deadline ≤ clock r))
        × (r ≤ i + fuel)
        × ((j : ℕ) → i ≤ j → j < r → (connected j ≡ false) × (clock j < deadline))
  wait_from_lem tick zero i room =
      let stop : (not (connected i) && ltb (clock i) deadline) ≡ false = ground arith in
      rw (wait_from_stop zero i stop)
        (inr (omega arith), omega arith, λ j lo hi. absurd (omega arith))
  wait_from_lem tick (suc fuel) i room =
      elim (Bool-cases (not (connected i) && ltb (clock i) deadline)) [
        | inl go ↦
            let (ends, soon, idle) = wait_from_lem tick fuel (suc i) (omega (arith, tick i)) in
            rw (wait_from_go (suc fuel) i go) (
              ends,
              omega arith,
              λ j lo hi. elim (dec_lt i j) [
                | yes later ↦ idle j later hi
                | no first ↦ let same : j ≡ i = omega arith in rw same (ground arith)
              ],
            )
        | inr stop ↦
            rw (wait_from_stop (suc fuel) i stop)
              (ground arith, omega arith, λ j lo hi. absurd (omega arith))
      ]

-- `waitForModem`, which starts at the time of the first reading of the clock.
unfoldable pub wait_for_modem : (ℕ → Bool) → (ℕ → ℕ) → ℕ
unfolding wait_from
wait_for_modem connected clock = wait_from connected clock (clock 0 + modem_ready_timeout_ms) 61 0

-- Where each poll comes at least 500 ms after the one before, the wait ends within 60 further polls;
-- it ends with a connected modem or 30 seconds after its start, and not before.
pub wait_for_modem_lem :
    (connected : ℕ → Bool) (clock : ℕ → ℕ)
    → ((i : ℕ) → clock i + 500 ≤ clock (suc i))
    → let r = wait_for_modem connected clock in
      ((connected r ≡ true) ⊎ (clock 0 + 30000 ≤ clock r))
      × (r ≤ 60)
      × ((j : ℕ) → j < r → (connected j ≡ false) × (clock j < clock 0 + 30000))
unfolding wait_for_modem
wait_for_modem_lem connected clock tick =
    let (ends, soon, idle) =
      wait_from_lem connected clock (clock 0 + 30000) tick 60 0 (omega arith) in
    (ends, omega arith, λ j h. idle j (omega arith) h)
