-- ===== src/Server/Access.antt =====
-- index.js: who gets past the API key.
use modem_sms_gateway.Prelude.{
  ℕ, ◌≡◌, ◌↔◌, refl, ap, ◌∙◌, ◌⊎◌, inl, inr, Bool, true, false, ◌&&◌, List, [], ◌∷◌, arith, Str,
  codes, drop, length, starts_with, trim, is_empty, ◌==◌, if◌then◌else◌,
}
use modem_sms_gateway.Server.{
  same_bytes, Headers, timing_safe_equal, bearer_key, given_key, check_api_key,
}

same_bytes_sound : (a b : List ℕ) → (length a == length b) ≡ true → same_bytes a b ≡ true → a ≡ b
unfolding same_bytes
same_bytes_sound [] [] e h = refl
same_bytes_sound [] (y ∷ b) e h = absurd (ground (arith, e))
same_bytes_sound (x ∷ a) [] e h = absurd (ground (arith, e))
same_bytes_sound (x ∷ a) (y ∷ b) e h = ground (arith, e, h, same_bytes_sound a b)

same_bytes_refl : (a : List ℕ) → same_bytes a a ≡ true
unfolding same_bytes
same_bytes_refl [] = refl
same_bytes_refl (x ∷ a) = ground (arith, same_bytes_refl a)

length_refl : (a : List ℕ) → (length a == length a) ≡ true
length_refl a = ground arith

module _ (utf8 : Str → List ℕ) (lower : Str → Str) where
  timing_safe_equal_lem :
      (a b : Str) → (timing_safe_equal utf8 lower a b ≡ true) ↔ (utf8 a ≡ utf8 b)
  unfolding timing_safe_equal
  timing_safe_equal_lem a b = (
    λ h. same_bytes_sound (utf8 a) (utf8 b) (and_left _ _ h) (and_right _ _ h),
    λ e. rw (e, length_refl (utf8 b), same_bytes_refl (utf8 b)) refl,
  )
    where
      and_left : (x y : Bool) → (x && y) ≡ true → x ≡ true
      and_left true y h = refl
      and_left false y h = cc

      and_right : (x y : Bool) → (x && y) ≡ true → y ≡ true
      and_right true y h = h
      and_right false y h = absurd (cc)

  -- The key that a request shows.
  abbrev pub Shows : Str → Headers → Type 0
  Shows key h =
      (h.api_key ≡ key)
      ⊎ ((h.api_key ≡ [])
          × (starts_with (lower h.authorization) (codes "bearer ") ≡ true)
          × (trim (drop 7 h.authorization) ≡ key))

  not_empty : (k : Str) → is_empty k ≡ false → [] ≡ k → ⊥
  not_empty [] full e = cc
  not_empty (c ∷ s) full e = cc

  sent_shows :
      (key sent auth : Str)
      → is_empty key ≡ false
      → (if is_empty sent then bearer_key utf8 lower auth else sent) ≡ key
      → (sent ≡ key)
        ⊎ ((sent ≡ [])
            × (starts_with (lower auth) (codes "bearer ") ≡ true)
            × (trim (drop 7 auth) ≡ key))
  sent_shows key (c ∷ s) auth full e = inl e
  sent_shows key [] auth full e = go (starts_with (lower auth) (codes "bearer ")) refl e
    where
      go :
          (b : Bool)
          → starts_with (lower auth) (codes "bearer ") ≡ b
          → (if b then trim (drop 7 auth) else []) ≡ key
          → ([] ≡ key)
            ⊎ (◌≡◌ {A = Str} [] []
                × (starts_with (lower auth) (codes "bearer ") ≡ true)
                × (trim (drop 7 auth) ≡ key))
      go true s k = inr (refl, s, k)
      go false s k = absurd (not_empty key full k)

  shows_sent :
      (key sent auth : Str)
      → is_empty key ≡ false
      → (sent ≡ key)
        ⊎ ((sent ≡ [])
            × (starts_with (lower auth) (codes "bearer ") ≡ true)
            × (trim (drop 7 auth) ≡ key))
      → (if is_empty sent then bearer_key utf8 lower auth else sent) ≡ key
  shows_sent key [] auth full (inl e) = absurd (not_empty key full e)
  shows_sent key [] auth full (inr (e, s, k)) = rw s k
  shows_sent key (c ∷ s) auth full (inl e) = e
  shows_sent key (c ∷ s) auth full (inr (e, u, k)) = absurd (cc)

  -- A request gets past the API key exactly when it shows a key that is not empty and has the same bytes
  -- as the API key: in `x-api-key`, or, where that is not sent, behind `Bearer` in `Authorization`.
  pub check_api_key_lem :
      (api_key : Str) (h : Headers)
      → (check_api_key utf8 lower api_key h ≡ true)
        ↔ ((key : Str) × (is_empty key ≡ false) × Shows key h × (utf8 key ≡ utf8 api_key))
  unfolding check_api_key given_key
  check_api_key_lem api_key h = (there, back)
    where
      passes :
          (k : Str)
          → (if is_empty k then false else timing_safe_equal utf8 lower k api_key) ≡ true
          → (is_empty k ≡ false) × (utf8 k ≡ utf8 api_key)
      passes [] t = absurd (cc)
      passes (c ∷ s) t = (refl, (timing_safe_equal_lem (c ∷ s) api_key).0 t)

      is_let :
          (k : Str)
          → is_empty k ≡ false
          → utf8 k ≡ utf8 api_key
          → (if is_empty k then false else timing_safe_equal utf8 lower k api_key) ≡ true
      is_let k full e = rw full ((timing_safe_equal_lem k api_key).1 e)

      there :
          (let key = given_key utf8 lower h in
              if is_empty key then false else timing_safe_equal utf8 lower key api_key)
            ≡ true
          → (key : Str) × (is_empty key ≡ false) × Shows key h × (utf8 key ≡ utf8 api_key)
      there t =
          let (full, same) = passes (given_key utf8 lower h) t in
          (
            given_key utf8 lower h,
            full,
            sent_shows (given_key utf8 lower h) h.api_key h.authorization full refl,
            same,
          )

      back :
          (key : Str) × (is_empty key ≡ false) × Shows key h × (utf8 key ≡ utf8 api_key)
          → (let key = given_key utf8 lower h in
              if is_empty key then false else timing_safe_equal utf8 lower key api_key)
            ≡ true
      back (key, full, shows, same) =
          let is : given_key utf8 lower h ≡ key =
            shows_sent key h.api_key h.authorization full shows in
          is_let (given_key utf8 lower h) (ap is_empty is ∙ full) (ap utf8 is ∙ same)
