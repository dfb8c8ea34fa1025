-- ===== src/Webhook/Url.antt =====
-- utils/webhook.js: the allowlist of callback hosts. URL parsing and lower-casing are the
-- platform's, and enter as parameters.
use modem_sms_gateway.Prelude.{
  ◌≡◌, refl, sym, ◌∙◌, inl, inr, ◌⊎◌, Bool, true, false, not, ◌&&◌, ◌||◌, List, [], ◌∷◌, ◌++◌,
  Option, none, some, arith, Str, codes, length, ltb, ◌==◌, if◌then◌else◌, str_eq, str_eq_iff, ◌↔◌,
  trim, is_empty, Option-cases, All,
}

-- A parsed URL: the protocol with its colon, and the host name.
pub record Url : Type 0 where
  pub protocol : Str
  pub hostname : Str

-- `s.split(',')`, with the characters of the field so far.
unfoldable pub split_comma_from : Str → Str → List Str
split_comma_from field [] = field ∷ []
split_comma_from field (c ∷ s) =
    let next = field ∷ split_comma_from [] s in
    let more = split_comma_from (field ++ c ∷ []) s in if c == b',' then next else more

unfoldable pub member : Str → List Str → Bool
member k [] = false
member k (x ∷ xs) = str_eq x k || member k xs

module _ (lower : Str → Str) where
  -- `.map((h) => h.trim().toLowerCase()).filter(Boolean)`.
  unfoldable pub clean_hosts : List Str → List Str
  clean_hosts [] = []
  clean_hosts (h ∷ hs) =
      let host = lower (trim h) in
      let rest = clean_hosts hs in if is_empty host then rest else host ∷ rest

  unfoldable pub parse_allowed_hosts : Str → List Str
  unfolding clean_hosts split_comma_from
  parse_allowed_hosts env = clean_hosts (split_comma_from [] env)

  -- The checks on a URL that parsed.
  unfoldable pub url_allowed : Url → List Str → Bool
  unfolding member
  url_allowed url allowed_hosts =
      if not (str_eq url.protocol (codes "http:")) && not (str_eq url.protocol (codes "https:"))
      then false
      else (if ltb 0 (length allowed_hosts)
          then member (lower url.hostname) allowed_hosts
          else true)

  -- `parse` is `new URL`, `none` when it throws.
  unfoldable pub is_allowed_url : (Str → Option Url) → Str → List Str → Bool
  unfolding url_allowed
  is_allowed_url parse url allowed_hosts = elim (parse url) [
    | none ↦ false
    | some parsed ↦ url_allowed parsed allowed_hosts
  ]

  -- Every host on a parsed allowlist is not empty and, where lowering twice is lowering once, is in
  -- lower case.
  parse_allowed_hosts-lower :
      ((s : Str) → lower (lower s) ≡ lower s)
      → (env : Str) → All (λ h. (is_empty h ≡ false) × (lower h ≡ h)) (parse_allowed_hosts env)
  unfolding parse_allowed_hosts
  parse_allowed_hosts-lower idem env = clean (split_comma_from [] env)
    where
      keep :
          (h : Str) (rest : List Str)
          → lower h ≡ h
          → All (λ h. (is_empty h ≡ false) × (lower h ≡ h)) rest
          → All (λ h. (is_empty h ≡ false) × (lower h ≡ h)) (if is_empty h then rest else h ∷ rest)
      keep [] rest e all = all
      keep (c ∷ s) rest e all = ((refl, e), all)

      clean : (hs : List Str) → All (λ h. (is_empty h ≡ false) × (lower h ≡ h)) (clean_hosts hs)
      clean [] = tt
      clean (h ∷ hs) = keep (lower (trim h)) (clean_hosts hs) (idem (trim h)) (clean hs)

  url_parsed :
      (parse : Str → Option Url) (url : Str) (allowed : List Str) (u : Url)
      → parse url ≡ some u
      → is_allowed_url parse url allowed ≡ url_allowed u allowed
  unfolding is_allowed_url
  url_parsed parse url allowed u e = rw (is_allowed_url, e) refl

  url_unparsed :
      (parse : Str → Option Url) (url : Str) (allowed : List Str)
      → parse url ≡ none
      → is_allowed_url parse url allowed ≡ false
  unfolding is_allowed_url
  url_unparsed parse url allowed e = rw (is_allowed_url, e) refl

  abbrev pub MayCall : Url → List Str → Type 0
  MayCall u allowed =
      ((u.protocol ≡ codes "http:") ⊎ (u.protocol ≡ codes "https:"))
      × ((allowed ≡ []) ⊎ (member (lower u.hostname) allowed ≡ true))

  url_allowed-MayCall :
      (u : Url) (allowed : List Str) → (url_allowed u allowed ≡ true) ↔ MayCall u allowed
  unfolding url_allowed
  url_allowed-MayCall u [] =
      ground (arith, str_eq_iff u.protocol (codes "http:"), str_eq_iff u.protocol (codes "https:"))
  url_allowed-MayCall u (h ∷ hs) =
      ground (arith, str_eq_iff u.protocol (codes "http:"), str_eq_iff u.protocol (codes "https:"))

  is_allowed_url-MayCall :
      (parse : Str → Option Url) (url : Str) (allowed : List Str)
      → (is_allowed_url parse url allowed ≡ true)
        ↔ ((u : Url) × (parse url ≡ some u) × MayCall u allowed)
  is_allowed_url-MayCall parse url allowed = (there, back)
    where
      there :
          is_allowed_url parse url allowed ≡ true
          → (u : Url) × (parse url ≡ some u) × MayCall u allowed
      there h = elim (Option-cases (parse url)) [
        | inl bad ↦ absurd (cc (url_unparsed parse url allowed bad))
        | inr (u, e) ↦
            (u, e, (url_allowed-MayCall u allowed).0 (sym (url_parsed parse url allowed u e) ∙ h))
      ]

      back :
          ((u : Url) × (parse url ≡ some u) × MayCall u allowed)
          → is_allowed_url parse url allowed ≡ true
      back (u, e, may) = url_parsed parse url allowed u e ∙ (url_allowed-MayCall u allowed).1 may

  -- Where lowering twice is lowering once: every host on the allowlist that is parsed from the
  -- environment is in lower case and not empty, and a URL passes exactly when it parses, is http or
  -- https and, if there is an allowlist, its host in lower case is on the list.
  pub is_allowed_url_lem :
      ((s : Str) → lower (lower s) ≡ lower s)
      → (parse : Str → Option Url) (url env : Str)
      → All (λ h. (is_empty h ≡ false) × (lower h ≡ h)) (parse_allowed_hosts env)
        × ((is_allowed_url parse url (parse_allowed_hosts env) ≡ true)
            ↔ ((u : Url) × (parse url ≡ some u) × MayCall u (parse_allowed_hosts env)))
  is_allowed_url_lem idem parse url env = (
    parse_allowed_hosts-lower idem env,
    is_allowed_url-MayCall parse url (parse_allowed_hosts env),
  )
