-- ===== src/Serial/Lines/Chunks.antt =====
-- utils/modem.js: `handleData` on text that comes in several chunks.
use modem_sms_gateway.Prelude.{
  List, ℕ, zero, suc, ◌≤◌, ◌≡◌, refl, sym, ap, ◌∙◌, inl, inr, Bool, true, false, [], ◌∷◌, ◌++◌,
  append_assoc, Option, none, some, arith, Str, length, length-append, if◌then◌else◌, trim,
  Option-cases,
}
use modem_sms_gateway.Serial.Utf8.{idle, decode, ends_ascii, decode-append}
use modem_sms_gateway.Serial.Lines.{
  Command, Dialogue, Serial, settle_command, take_waiter, command_line, handle_line, next_line,
  resolved, rejected, error_text, is_terminal_line, is_error_line, take_line, feed, awaits_prompt,
  check_prompt, handle_text, handle_data,
}
use modem_sms_gateway.Serial.Lines.Ends.{next_line-append, next_line_shorter}

feed_end : (n : ℕ) (a : Str) (d : Dialogue) → next_line a ≡ none → feed n a d ≡ (d, a)
unfolding feed
feed_end zero a d h = refl
feed_end (suc n) a d h = rw (feed, h) refl

feed_line :
    (n : ℕ) (a l r : Str) (d : Dialogue)
    → next_line a ≡ some (l, r)
    → feed (suc n) a d ≡ feed n r (take_line (trim l) d)
unfolding feed
feed_line n a l r d h = rw (feed, h) refl

-- More fuel than there are characters changes nothing.
feed_stable :
    (n m : ℕ) (a : Str) (d : Dialogue) → length a ≤ n → length a ≤ m → feed n a d ≡ feed m a d
feed_stable (suc n) (suc m) a d hn hm = elim (Option-cases (next_line a)) [
  | inl end ↦ feed_end (suc n) a d end ∙ sym (feed_end (suc m) a d end)
  | inr ((l, r), e) ↦
      let small = next_line_shorter a l r e in
      feed_line n a l r d e
      ∙ feed_stable n m r (take_line (trim l) d) (omega arith) (omega arith)
      ∙ sym (feed_line m a l r d e)
]
feed_stable zero m a d hn hm = elim (Option-cases (next_line a)) [
  | inl end ↦ feed_end zero a d end ∙ sym (feed_end m a d end)
  | inr ((l, r), e) ↦ let small = next_line_shorter a l r e in absurd (omega arith)
]
feed_stable (suc n) zero a d hn hm = elim (Option-cases (next_line a)) [
  | inl end ↦ feed_end (suc n) a d end ∙ sym (feed_end zero a d end)
  | inr ((l, r), e) ↦ let small = next_line_shorter a l r e in absurd (omega arith)
]

-- Text that comes later is fed to what is left.
feed-append :
    (n m k : ℕ) (a b : Str) (d : Dialogue)
    → length a ≤ n
    → length (a ++ b) ≤ m
    → length ((feed n a d).1 ++ b) ≤ k
    → feed m (a ++ b) d ≡ feed k ((feed n a d).1 ++ b) (feed n a d).0
feed-append (suc n) (suc m) k a b d hn hm hk = elim (Option-cases (next_line a)) [
  | inl end ↦
      let same = feed_end (suc n) a d end in
      let room : length (a ++ b) ≤ k = rw (sym (ap (λ t. t.1) same)) hk in
      rw same (feed_stable (suc m) k (a ++ b) d hm room)
  | inr ((l, r), e) ↦
      let small = next_line_shorter a l r e in
      let step = feed_line n a l r d e in
      let d' = take_line (trim l) d in
      let size_a = length-append a b in
      let size_r = length-append r b in
      let room : length ((feed n r d').1 ++ b) ≤ k = rw (sym (ap (λ t. t.1) step)) hk in
      feed_line m (a ++ b) l (r ++ b) d (next_line-append a b l r e)
      ∙ rw step (feed-append n m k r b d' (omega arith) (omega arith) room)
]
feed-append zero m k a b d hn hm hk = elim (Option-cases (next_line a)) [
  | inl end ↦
      let same = feed_end zero a d end in
      let room : length (a ++ b) ≤ k = rw (sym (ap (λ t. t.1) same)) hk in
      rw same (feed_stable m k (a ++ b) d hm room)
  | inr ((l, r), e) ↦ let small = next_line_shorter a l r e in absurd (omega arith)
]
feed-append (suc n) zero k a b d hn hm hk = elim (Option-cases (next_line a)) [
  | inl end ↦
      let same = feed_end (suc n) a d end in
      let room : length (a ++ b) ≤ k = rw (sym (ap (λ t. t.1) same)) hk in
      rw same (feed_stable zero k (a ++ b) d hm room)
  | inr ((l, r), e) ↦
      let small = next_line_shorter a l r e in let size = length-append a b in absurd (omega arith)
]

-- Lines do not make the dialogue wait for a prompt.
awaits-command_line :
    (line : Str) (o : Option Command) (d : Dialogue)
    → awaits_prompt o ≡ false
    → o ≡ d.current
    → awaits_prompt (command_line line o d).current ≡ false
unfolding awaits_prompt command_line settle_command
awaits-command_line line none d h e = rw (sym e) refl
awaits-command_line line (some cmd) d h e = branches (is_terminal_line line) (is_error_line line)
  where
    branches :
        (x y : Bool)
        → awaits_prompt
            (if x
              then (if y
                  then record d {
                    current = none;
                    events = d.events ++ rejected (error_text line cmd.label) ∷ [];
                  }
                  else record d {
                    current = none;
                    events = d.events ++ resolved (cmd.lines ++ line ∷ []) ∷ [];
                  })
              else record d {
                current = some (record cmd { lines = cmd.lines ++ line ∷ [] });
              }).current
          ≡ false
    branches true true = refl
    branches true false = refl
    branches false y = h

awaits-handle_line :
    (line : Str) (d : Dialogue)
    → awaits_prompt d.current ≡ false
    → awaits_prompt (handle_line line d).current ≡ false
unfolding handle_line
awaits-handle_line line d h = elim (Option-cases (take_waiter line d.waiters)) [
  | inl nobody ↦ rw (handle_line, nobody) (awaits-command_line line d.current d h refl)
  | inr ((w, ws), taken) ↦ rw (handle_line, taken) h
]

awaits-take_line :
    (line : Str) (d : Dialogue)
    → awaits_prompt d.current ≡ false
    → awaits_prompt (take_line line d).current ≡ false
unfolding take_line
awaits-take_line [] d h = h
awaits-take_line (c ∷ line) d h = awaits-handle_line (c ∷ line) d h

awaits-feed :
    (n : ℕ) (a : Str) (d : Dialogue)
    → awaits_prompt d.current ≡ false
    → awaits_prompt (feed n a d).0.current ≡ false
awaits-feed zero a d h = unfold feed in h
awaits-feed (suc n) a d h = elim (Option-cases (next_line a)) [
  | inl end ↦ rw (feed_end (suc n) a d end) h
  | inr ((l, r), e) ↦
      rw (feed_line n a l r d e)
        (awaits-feed n r (take_line (trim l) d) (awaits-take_line (trim l) d h))
]

check_prompt_no :
    (p : Dialogue × Str)
    → awaits_prompt p.0.current ≡ false
    → check_prompt p ≡ record { rx_buffer = p.1; dialogue = p.0 }
unfolding check_prompt
check_prompt_no p h = rw h refl

handle_text-append :
    (a b : Str) (s : Serial)
    → awaits_prompt s.dialogue.current ≡ false
    → handle_text b (handle_text a s) ≡ handle_text (a ++ b) s
unfolding handle_text
handle_text-append a b s h =
    let buffer = s.rx_buffer ++ a in
    let first = feed (length buffer) buffer s.dialogue in
    let one = check_prompt_no first (awaits-feed (length buffer) buffer s.dialogue h) in
    let join : s.rx_buffer ++ (a ++ b) ≡ buffer ++ b = sym (append_assoc s.rx_buffer a b) in
    rw (one, join)
      (ap check_prompt (
        sym (
          feed-append (length buffer) (length (buffer ++ b)) (length (first.1 ++ b)) buffer b
            s.dialogue (omega arith) (omega arith) (omega arith))))

-- Where no prompt is awaited and the first of two chunks ends in a byte of ASCII, which is so wherever
-- an ASCII text is cut, the two chunks one after the other do what their bytes do in one piece: the
-- same lines are handled in the same order, and the same text stays in the buffer.
pub handle_data-append :
    (a b : List ℕ) (s : Serial)
    → ends_ascii a ≡ true
    → awaits_prompt s.dialogue.current ≡ false
    → handle_data b (handle_data a s) ≡ handle_data (a ++ b) s
unfolding handle_data
handle_data-append a b s e h =
    handle_text-append (decode idle a) (decode idle b) s h
    ∙ ap (λ (t : Str). handle_text t s) (sym (decode-append idle a b e))
