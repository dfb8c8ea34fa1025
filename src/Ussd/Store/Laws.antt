-- ===== src/Ussd/Store/Laws.antt =====
-- store/ussd-store.js: lookups after `createRequest` and `completeRequest`.
use modem_sms_gateway.Prelude.{
  ℕ, ◌≡◌, refl, sym, ap, ◌∙◌, Bool, true, false, Option, none, some, arith, Str, str_eq,
  str_eq_refl, ◌==◌, if◌then◌else◌,
}
use modem_sms_gateway.Store.Table.{map_option, row_count}
use modem_sms_gateway.Ussd.Store.{
  UssdRow, Request, to_request, status_or_pending, to_ussd_row, Completion, complete_row, UssdTable,
  create_request, get_request, completed, complete_request,
}

-- What a completion makes of a request.
abbrev pub settled : Completion → Request → Request
settled done r = record r {
  status = done.status;
  reply = done.reply;
  error = done.error;
  completed_at = some done.completed_at;
}

to_request-complete_row :
    (done : Completion) (o : Option UssdRow)
    → map_option to_request (map_option (complete_row done) o)
      ≡ map_option (settled done) (map_option to_request o)
unfolding complete_row to_request
to_request-complete_row done none = refl
to_request-complete_row done (some row) = refl

counted_rows :
    (done : Completion) (o : Option UssdRow)
    → (if row_count o == 0 then none else map_option (settled done) (map_option to_request o))
      ≡ map_option (settled done) (map_option to_request o)
counted_rows done none = refl
counted_rows done (some row) = refl

split_some :
    {A B : Type 0} (a : A) (b : B) (c : A) (d : B)
    → ◌≡◌ {A = Option (A × B)} (some (a, b)) (some (c, d))
    → (a ≡ c) × (b ≡ d)
split_some a b c d h = ground arith

module _ (db : UssdTable) where
  -- A created request reads back with its status, `pending` if it had none.
  pub get_request-create_request :
      (r : Request) (s s' : db.State)
      → create_request db r s ≡ some s'
      → get_request db r.id s' ≡ some (record r { status = status_or_pending r.status })
  unfolding create_request get_request to_request to_ussd_row
  get_request-create_request r s s' h =
      let row : db.find r.id s' ≡ some (to_ussd_row r) =
        db.find-insert (to_ussd_row r) s s' h r.id ∙ rw (str_eq_refl r.id) refl in
      ap (map_option to_request) row

  if_request :
      (done : Completion) (b : Bool) (o u : Option UssdRow)
      → map_option to_request (if b then map_option (complete_row done) o else u) ≡ (
          if b
          then map_option (settled done) (map_option to_request o)
          else map_option to_request u)
  if_request done true o u = to_request-complete_row done o
  if_request done false o u = refl

  -- Where the update of a request does not throw, it returns the request as settled, or `null` exactly
  -- when the id is unknown; that request reads back settled, and every other one as before.
  pub get_request-complete_request :
      (id j : Str) (done : Completion) (s s' : db.State) (result : Option Request)
      → complete_request db id done s ≡ some (s', result)
      → (result ≡ map_option (settled done) (get_request db id s))
        × (get_request db j s' ≡ (
            if str_eq id j
            then map_option (settled done) (get_request db id s)
            else get_request db j s))
  unfolding complete_request completed get_request complete_row
  get_request-complete_request id j done s s' result h =
      go (db.update id (complete_row done) s) refl h
    where
      go :
          (o : Option (db.State × ℕ))
          → db.update id (complete_row done) s ≡ o
          → map_option (completed db id) o ≡ some (s', result)
          → (result ≡ map_option (settled done) (get_request db id s))
            × (get_request db j s' ≡ (
                if str_eq id j
                then map_option (settled done) (get_request db id s)
                else get_request db j s))
      go none e h = absurd (cc)
      go (some (s1, n)) e h =
          let (a, b) = split_some s1 (if n == 0 then none else get_request db id s1) s' result h in
          let found = db.find-update id (complete_row done) s s1 n (λ r. refl) e in
          let self : map_option to_request (db.find id s1)
              ≡ map_option (settled done) (map_option to_request (db.find id s)) =
            ap (map_option to_request) (found id ∙ rw (str_eq_refl id) refl)
            ∙ to_request-complete_row done (db.find id s) in
          (
            sym b
                ∙ rw (db.update_count id (complete_row done) s s1 n e, self)
                    (counted_rows done (db.find id s)),
            ap (λ t. map_option to_request (db.find j t)) (sym a)
                ∙ ap (map_option to_request) (found j)
                ∙ if_request done (str_eq id j) (db.find id s) (db.find j s),
          )
