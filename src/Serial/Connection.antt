-- ===== src/Serial/Connection.antt =====
-- utils/modem.js: opening, losing and reopening the port, and the shutdown.
use modem_sms_gateway.Prelude.{ℕ, ◌+◌, ◌≡◌, refl, ◌∙◌, Bool, true, false, ◌&&◌, ◌||◌, if◌then◌else◌}

-- `reconnectTimer`: `null`, running, or cleared by `close`.
pub data Timer : Type 0 where
  unset armed cleared : Timer

-- `opening` holds from the call of `port.open` until its callback; `ports` counts the ports made.
pub record Link : Type 0 where
  pub connected : Bool
  pub closing : Bool
  pub opening : Bool
  pub timer : Timer
  pub ports : ℕ

unfoldable pub connect : Link → Link
connect l = if l.closing then l else record l { opening = true; ports = l.ports + 1 }

abbrev pub is_unset : Timer → Bool
is_unset unset = true
is_unset armed = false
is_unset cleared = false

unfoldable pub schedule_reconnect : Link → Link
schedule_reconnect l =
    if l.closing then l else (if is_unset l.timer then record l { timer = armed } else l)

unfoldable pub open_failed : Link → Link
unfolding schedule_reconnect
open_failed l = schedule_reconnect (record l { opening = false })

unfoldable pub opened : Link → Link
opened l = record l { opening = false; connected = true }

unfoldable pub port_closed : Link → Link
unfolding schedule_reconnect
port_closed l = schedule_reconnect (record l { connected = false })

unfoldable pub timer_fired : Link → Link
unfolding connect
timer_fired l = connect (record l { timer = unset })

abbrev pub clear_timer : Timer → Timer
clear_timer unset = unset
clear_timer armed = cleared
clear_timer cleared = cleared

unfoldable pub close : Link → Link
close l = record l { closing = true; timer = clear_timer l.timer }

-- `createSerialModem` up to its `connect()`.
abbrev pub fresh_link : Link
fresh_link = record {
  connected = false;
  closing = false;
  opening = false;
  timer = unset;
  ports = 0;
}

-- What may happen to a link, and when.
pub data LinkStep : Link → Link → Type 0 where
  on_open_error : (l : Link) → l.opening ≡ true → LinkStep l (open_failed l)
  on_open : (l : Link) → l.opening ≡ true → LinkStep l (opened l)
  on_close : (l : Link) → l.connected ≡ true → LinkStep l (port_closed l)
  on_timer : (l : Link) → l.timer ≡ armed → LinkStep l (timer_fired l)
  on_shutdown : (l : Link) → LinkStep l (close l)

pub data LinkRun : Link → Link → Type 0 where
  stay : (l : Link) → LinkRun l l
  then_link : (l m n : Link) → LinkRun l m → LinkStep m n → LinkRun l n

abbrev pub is_armed : Timer → Bool
is_armed armed = true
is_armed unset = false
is_armed cleared = false

-- The driver has a port, is about to get one, or is shutting down.
abbrev pub is_alive : Link → Bool
is_alive l = l.closing || (is_armed l.timer || (is_unset l.timer && (l.connected || l.opening)))

alive_scheduled :
    (c closing o : Bool) (t : Timer) (n : ℕ)
    → (closing || (is_armed t || is_unset t)) ≡ true
    → is_alive (
        schedule_reconnect
          (record { connected = c; closing = closing; opening = o; timer = t; ports = n }))
      ≡ true
unfolding schedule_reconnect
alive_scheduled c true o t n h = refl
alive_scheduled c false o unset n h = refl
alive_scheduled c false o armed n h = refl
alive_scheduled c false o cleared n h = absurd (cc)

alive_timer :
    (c closing o : Bool) (t : Timer) (x : Bool)
    → (closing || (is_armed t || (is_unset t && x))) ≡ true
    → (closing || (is_armed t || is_unset t)) ≡ true
alive_timer c true o t x h = refl
alive_timer c false o unset x h = refl
alive_timer c false o armed x h = refl
alive_timer c false o cleared x h = h

alive_opened :
    (closing : Bool) (t : Timer) (x : Bool)
    → (closing || (is_armed t || (is_unset t && x))) ≡ true
    → (closing || (is_armed t || (is_unset t && true))) ≡ true
alive_opened true t x h = refl
alive_opened false unset x h = refl
alive_opened false armed x h = refl
alive_opened false cleared x h = h

alive_fired :
    (c closing o : Bool) (n : ℕ)
    → is_alive (
        connect
          (record { connected = c; closing = closing; opening = o; timer = unset; ports = n }))
      ≡ true
unfolding connect
alive_fired true true o n = refl
alive_fired true false o n = refl
alive_fired false true o n = refl
alive_fired false false o n = refl

step-is_alive : (l m : Link) → LinkStep l m → is_alive l ≡ true → is_alive m ≡ true
unfolding open_failed opened port_closed timer_fired close
step-is_alive _ _ (on_open_error l o) h =
    alive_scheduled l.connected l.closing false l.timer l.ports
      (alive_timer l.connected l.closing l.opening l.timer (l.connected || l.opening) h)
step-is_alive _ _ (on_open l o) h = alive_opened l.closing l.timer (l.connected || l.opening) h
step-is_alive _ _ (on_close l o) h =
    alive_scheduled false l.closing l.opening l.timer l.ports
      (alive_timer l.connected l.closing l.opening l.timer (l.connected || l.opening) h)
step-is_alive _ _ (on_timer l o) h = alive_fired l.connected l.closing l.opening l.ports
step-is_alive _ _ (on_shutdown l) h = refl

run-is_alive : (l m : Link) → LinkRun l m → is_alive l ≡ true → is_alive m ≡ true
run-is_alive _ _ (stay l) h = h
run-is_alive _ _ (then_link l m n r s) h = step-is_alive m n s (run-is_alive l m r h)

-- A link that is shutting down makes no port.
schedule_keeps :
    (l : Link)
    → ((schedule_reconnect l).closing ≡ l.closing) × ((schedule_reconnect l).ports ≡ l.ports)
unfolding schedule_reconnect
schedule_keeps l = go l.closing (is_unset l.timer)
  where
    go :
        (a b : Bool)
        → ((if a then l else (if b then record l { timer = armed } else l)).closing ≡ l.closing)
          × ((if a then l else (if b then record l { timer = armed } else l)).ports ≡ l.ports)
    go true b = (refl, refl)
    go false true = (refl, refl)
    go false false = (refl, refl)

connect_closing :
    (l : Link) → l.closing ≡ true → ((connect l).closing ≡ true) × ((connect l).ports ≡ l.ports)
unfolding connect
connect_closing l e = go l.closing e
  where
    go :
        (a : Bool)
        → a ≡ true
        → ((if a then l else record l { opening = true; ports = l.ports + 1 }).closing ≡ true)
          × ((if a then l else record l { opening = true; ports = l.ports + 1 }).ports ≡ l.ports)
    go true h = (e, refl)
    go false h = absurd (cc)

step-closing :
    (l m : Link) → LinkStep l m → l.closing ≡ true → (m.closing ≡ true) × (m.ports ≡ l.ports)
unfolding open_failed opened port_closed timer_fired close
step-closing _ _ (on_open_error l o) e =
    let (same, ports) = schedule_keeps (record l { opening = false }) in (same ∙ e, ports)
step-closing _ _ (on_open l o) e = (e, refl)
step-closing _ _ (on_close l o) e =
    let (same, ports) = schedule_keeps (record l { connected = false }) in (same ∙ e, ports)
step-closing _ _ (on_timer l o) e = connect_closing (record l { timer = unset }) e
step-closing _ _ (on_shutdown l) e = (refl, refl)

run-closing :
    (l m : Link) → LinkRun l m → l.closing ≡ true → (m.closing ≡ true) × (m.ports ≡ l.ports)
run-closing _ _ (stay l) e = (e, refl)
run-closing _ _ (then_link l m n r s) e =
    let (shut, same) = run-closing l m r e in
    let (shut', same') = step-closing m n s shut in (shut', same' ∙ same)

-- In every order of events: from its start until it is shut down, the driver has a port, is opening
-- one, or will try again when a timer fires; and once it is shut down it never makes a port again.
pub LinkRun-alive :
    (l m : Link)
    → LinkRun (connect fresh_link) l
    → LinkRun l m
    → (is_alive l ≡ true) × (l.closing ≡ true → (m.closing ≡ true) × (m.ports ≡ l.ports))
LinkRun-alive l m r s =
    (run-is_alive (connect fresh_link) l r (unfold connect in refl), run-closing l m s)
