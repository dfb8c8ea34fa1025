-- ===== src/ModemConfig/Laws.antt =====
-- utils/modem-config.js: the list that `parseModemConfigs` returns.
use modem_sms_gateway.Prelude.{
  ℕ, ◌≤◌, ◌≡◌, refl, sym, Bool, true, false, not, List, [], ◌∷◌, Option, none, some, arith, Str,
  if◌then◌else◌, or_else, is_empty, trim, length, All,
}
use modem_sms_gateway.Webhook.Url.{member}
use modem_sms_gateway.ModemConfig.{
  Value, object, no_object, Json, array, no_array, Env, ModemConfig, ConfigError, no_id,
  duplicate_id, unknown_driver, Parsed, parsed, bad_config, drivers, cons_config, make_config,
  add_config, parse_entries, parse_list, legacy_entry, parse_modem_configs,
}

-- A modem that can be made.
abbrev pub IsUsable : ModemConfig → Type 0
IsUsable c = (is_empty c.id ≡ false) × (member c.driver drivers ≡ true)

-- The ids differ from each other and from those in a list.
abbrev pub Distinct : List Str → List ModemConfig → Type 0
Distinct seen [] = Unit
Distinct seen (c ∷ cs) = (member c.id seen ≡ false) × Distinct (c.id ∷ seen) cs

add_lem :
    (b : Bool) (e : ConfigError) (p : Parsed (List ModemConfig)) (cs : List ModemConfig)
    → (if b then bad_config e else p) ≡ parsed cs
    → (b ≡ false) × (p ≡ parsed cs)
add_lem true e p cs h = absurd (cc)
add_lem false e p cs h = (refl, h)

cons_config_lem :
    (c : ModemConfig) (p : Parsed (List ModemConfig)) (cs : List ModemConfig)
    → cons_config c p ≡ parsed cs
    → (ds : List ModemConfig) × (p ≡ parsed ds) × (c ∷ ds ≡ cs)
cons_config_lem c (parsed ds) cs h = (ds, refl, ground arith)
cons_config_lem c (bad_config e) cs h = absurd (cc)

not-true : (b : Bool) → not b ≡ false → b ≡ true
not-true b h = ground arith

module _ (lower : Str → Str) (env : Env) where
  -- What is wanted of a parsed list.
  abbrev pub GoodConfigs : List Str → ℕ → List ModemConfig → Type 0
  GoodConfigs seen n cs = All IsUsable cs × Distinct seen cs × (length cs ≡ n)

  parse_entries-GoodConfigs :
      (seen : List Str) (vs : List Value) (cs : List ModemConfig)
      → parse_entries lower env seen vs ≡ parsed cs
      → GoodConfigs seen (length vs) cs
  unfolding parse_entries add_config
  parse_entries-GoodConfigs seen [] [] h = (tt, tt, refl)
  parse_entries-GoodConfigs seen [] (c ∷ cs) h = absurd (ground arith)
  parse_entries-GoodConfigs seen (no_object ∷ vs) cs h = absurd (cc)
  parse_entries-GoodConfigs seen (object entry ∷ vs) cs h =
      let c : ModemConfig = make_config lower env entry in
      let rest = parse_entries lower env (c.id ∷ seen) vs in
      let (full, h1) = add_lem (is_empty c.id) no_id _ cs h in
      let (fresh, h2) = add_lem (member c.id seen) (duplicate_id c.id) _ cs h1 in
      let (known, h3) = add_lem (not (member c.driver drivers)) (unknown_driver c.id) _ cs h2 in
      let (ds, e, same) = cons_config_lem c rest cs h3 in
      let (usable, distinct, count) = parse_entries-GoodConfigs (c.id ∷ seen) vs ds e in
      rw (sym same)
        (((full, not-true (member c.driver drivers) known), usable), (fresh, distinct), omega arith)

  -- Whatever the environment says, a configuration that is accepted has at least one modem, and each
  -- has an id that is not empty, a driver that the pool knows, and an id of its own.
  pub parse_modem_configs_lem :
      (parse_json : Str → Option Json) (cs : List ModemConfig)
      → parse_modem_configs lower env parse_json ≡ parsed cs
      → (1 ≤ length cs) × All IsUsable cs × Distinct [] cs
  unfolding parse_modem_configs
  parse_modem_configs_lem parse_json cs h = go (is_empty (trim (or_else env.modems []))) h
    where
      listed :
          (o : Option Json)
          → parse_list lower env o ≡ parsed cs
          → (1 ≤ length cs) × All IsUsable cs × Distinct [] cs
      listed none h = absurd (unfold parse_list in cc)
      listed (some no_array) h = absurd (unfold parse_list in cc)
      listed (some (array [])) h = absurd (unfold parse_list in cc)
      listed (some (array (v ∷ vs))) h =
          let (usable, distinct, count) =
            parse_entries-GoodConfigs [] (v ∷ vs) cs (unfold parse_list in h) in
          (omega arith, usable, distinct)

      go :
          (b : Bool)
          → (if b
              then parse_entries lower env [] (object (legacy_entry lower env) ∷ [])
              else parse_list lower env (parse_json (trim (or_else env.modems []))))
            ≡ parsed cs
          → (1 ≤ length cs) × All IsUsable cs × Distinct [] cs
      go true h =
          let (usable, distinct, count) =
            parse_entries-GoodConfigs [] (object (legacy_entry lower env) ∷ []) cs h in
          (omega arith, usable, distinct)
      go false h = listed (parse_json (trim (or_else env.modems []))) h
