-- ===== src/Zte/Added.antt =====
-- utils/zte-http.js: what the driver's actions add to the log.
use modem_sms_gateway.Prelude.{
  ◌≡◌, refl, sym, ap, ◌∙◌, Bool, true, false, not, ◌&&◌, List, [], ◌∷◌, ◌++◌, append_assoc,
  append-nil, Str, codes, All, All-append,
}
use modem_sms_gateway.Prelude.Actions.{Result, ok, err, bind_from, ◌>>=◌, ◌>>◌}
use modem_sms_gateway.Zte.Settings.{Settings, needs_login}
use modem_sms_gateway.Zte.Session.{
  Value, is_text, string_of, Json, object, null_json, Reply, Request, post, Event, asked, Stick, Z,
  first_turn, settle, request, field, post_cmd, set_logged_in, is_login_result, finish_login,
  login_params, login, login_if, ensure_login, ensure_authed_for_read, post_again, accept_answer,
  set_cmd,
}

-- The items behind the log of a state.
abbrev pub Added : {A : Type 0} → (Event → Type 0) → Stick → Stick × Result A → Type 0
Added P s r = (after : List Event) × (r.0.log ≡ s.log ++ after) × All P after

-- An action that adds only such items.
abbrev pub Adds : {A : Type 0} → (Event → Type 0) → Z A → Type 0
Adds P m = (s : Stick) → Added P s (m s)

pub stays :
    {A : Type 0} (P : Event → Type 0) (s : Stick) (r : Stick × Result A)
    → r.0.log ≡ s.log
    → Added P s r
stays P s r e = ([], e ∙ sym (append-nil s.log), tt)

pub bind-Adds :
    {A B : Type 0} (P : Event → Type 0) (m : Z A) (k : A → Z B)
    → Adds P m
    → ((a : A) → Adds P (k a))
    → Adds P (m >>= k)
bind-Adds {A} {B} P m k hm hk s = go (m s) (hm s)
  where
    go : (r : Stick × Result A) → Added P s r → Added P s (bind_from r k)
    go (s', ok a) (xs, e, h) =
        let (ys, e', h') = hk a s' in
        (xs ++ ys, e' ∙ ap (λ l. l ++ ys) e ∙ append_assoc s.log xs ys, All-append P xs ys h h')
    go (s', err x) added = added

pub request-Adds :
    (P : Event → Type 0) (r : Request) → ((reply : Reply) → P (asked r reply)) → Adds P (request r)
unfolding request settle
request-Adds P r p s =
    (asked r (first_turn s.pending).reply ∷ [], refl, (p (first_turn s.pending).reply, tt))

pub field-Adds : (P : Event → Type 0) (name : Str) (j : Json) → Adds P (field name j)
unfolding field
field-Adds P name null_json s = stays {A = Value} P s (field name null_json s) refl
field-Adds P name (object b) s = stays {A = Value} P s (field name (object b) s) refl

-- The login and a command, where both posts are allowed.
module _ (z : Settings) (P : Event → Type 0)
    (logs_in : (reply : Reply) → P (asked (post (login_params z)) reply)) where
  finish_login-Adds : (b : Bool) → Adds P (finish_login z b)
  finish_login-Adds true s = stays {A = Unit {0}} P s (finish_login z true s) refl
  finish_login-Adds false s = stays {A = Unit {0}} P s (finish_login z false s) refl

  login-Adds : Adds P (login z)
  unfolding login post_cmd
  login-Adds =
      bind-Adds P (post_cmd z (login_params z)) _ (request-Adds P (post (login_params z)) logs_in)
        (λ answer.
          bind-Adds P (field (codes "result") answer) _ (field-Adds P (codes "result") answer)
            (λ result. finish_login-Adds (is_login_result z (string_of result))))

  login_if-Adds : (b : Bool) → Adds P (login_if z b)
  login_if-Adds true s = login-Adds s
  login_if-Adds false s = stays {A = Unit {0}} P s (s, ok tt) refl

  pub ensure_authed-Adds : Adds P (ensure_authed_for_read z)
  unfolding ensure_authed_for_read
  ensure_authed-Adds = login_if-Adds (needs_login z)

  ensure_login-Adds : Adds P (ensure_login z)
  unfolding ensure_login
  ensure_login-Adds s = login_if-Adds (needs_login z && not s.logged_in) s

  module _ (name : Str) (params : List (Str × Str))
      (posts : (reply : Reply) → P (asked (post ((codes "goformId", name) ∷ params)) reply)) where
    posts-Adds : Adds P (post_cmd z ((codes "goformId", name) ∷ params))
    unfolding post_cmd
    posts-Adds = request-Adds P (post ((codes "goformId", name) ∷ params)) posts

    relogin-Adds : Adds P (login z >> post_cmd z ((codes "goformId", name) ∷ params))
    relogin-Adds =
        bind-Adds P (login z) (λ _. post_cmd z ((codes "goformId", name) ∷ params)) login-Adds
          (λ v. posts-Adds)

    again-Adds :
        (answer : Json) (b : Bool)
        → Adds P (post_again z ((codes "goformId", name) ∷ params) answer b)
    again-Adds answer true s =
        bind-Adds P (set_logged_in z false)
          (λ _. login z >> post_cmd z ((codes "goformId", name) ∷ params))
          (λ s'. stays {A = Unit {0}} P s' (set_logged_in z false s') refl) (λ u. relogin-Adds) s
    again-Adds answer false s = stays {A = Json} P s (s, ok answer) refl

    accept-Adds : (answer : Json) (b : Bool) → Adds P (accept_answer z name answer b)
    accept-Adds answer true s = stays {A = Json} P s (accept_answer z name answer true s) refl
    accept-Adds answer false s = stays {A = Json} P s (accept_answer z name answer false s) refl

    pub set_cmd-Adds : Adds P (set_cmd z name params)
    unfolding set_cmd
    set_cmd-Adds = bind-Adds P (ensure_login z) _ ensure_login-Adds (λ u.
        bind-Adds P (post_cmd z ((codes "goformId", name) ∷ params)) _ posts-Adds (λ first.
          bind-Adds P (field (codes "result") first) _ (field-Adds P (codes "result") first)
            (λ result.
              bind-Adds P
                (post_again z ((codes "goformId", name) ∷ params) first
                  (not (is_text result (codes "success")) && needs_login z))
                _ (again-Adds first (not (is_text result (codes "success")) && needs_login z))
                (λ answer.
                  bind-Adds P (field (codes "result") answer) _
                    (field-Adds P (codes "result") answer)
                    (λ result'. accept-Adds answer (is_text result' (codes "success")))))))
