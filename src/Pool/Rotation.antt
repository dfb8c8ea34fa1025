-- ===== src/Pool/Rotation.antt =====
-- utils/pool.js: what `pick` gives once, and many times in a row.
use modem_sms_gateway.Prelude.{
  ℕ, zero, suc, ◌+◌, ◌-◌, ◌%◌, ◌<◌, ◌≡◌, refl, sym, ap, ◌∙◌, ◌⊎◌, inl, inr, Bool, true, false, List,
  [], ◌∷◌, Option, some, arith, length, get_elem?, leb, if◌then◌else◌, Bool-cases, All,
}
use mathlib.Core.Path.{subst}
use mathlib.Core.Option.{some-injective}
use modem_sms_gateway.Pool.{Modem, only_connected, candidates, pick}
use native.Mathlib.Nat.{mod-lt, mod-eq_of_lt, mod-add-mod, add-mod_left}

only_connected-All : (ms : List Modem) → All (λ m. m.connected ≡ true) (only_connected ms)
unfolding only_connected
only_connected-All [] = tt
only_connected-All (m ∷ ms) = keep (only_connected-All ms) m.connected refl
  where
    keep :
        All (λ n. n.connected ≡ true) (only_connected ms)
        → (b : Bool) → m.connected ≡ b
        → All (λ n. n.connected ≡ true) (if b then m ∷ only_connected ms else only_connected ms)
    keep rest true e = (e, rest)
    keep rest false e = rest

pub get_elem?-All {ℓ} :
    {A : Type ℓ} (P : A → Type 0) (xs : List A) (i : ℕ) (a : A)
    → All P xs
    → get_elem? xs i ≡ some a
    → P a
get_elem?-All P [] i a h e = absurd (cc)
get_elem?-All P (x ∷ xs) zero a h e = subst P (some-injective x a e) h.0
get_elem?-All P (x ∷ xs) (suc i) a h e = get_elem?-All P xs i a h.1 e

get_elem?-some {ℓ} :
    {A : Type ℓ} (xs : List A) (i : ℕ) → i < length xs → (a : A) × (get_elem? xs i ≡ some a)
get_elem?-some [] i h = absurd (omega arith)
get_elem?-some (x ∷ xs) zero h = (x, refl)
get_elem?-some (x ∷ xs) (suc i) h = get_elem?-some xs i (omega arith)

candidates_pos : (ms : List Modem) → 0 < length ms → 0 < length (candidates ms)
unfolding candidates
candidates_pos ms h = ground arith

-- A pool with a modem always gives one, and a connected one whenever any modem is connected.
pick-connected :
    (ms : List Modem) (rr : ℕ)
    → 0 < length ms
    → (m : Modem) × ((pick ms rr).0 ≡ some m) × ((m.connected ≡ true) ⊎ (only_connected ms ≡ []))
unfolding pick
pick-connected ms rr h =
    let pos = candidates_pos ms h in
    let (m, e) = get_elem?-some (candidates ms) (rr % length (candidates ms)) (mod-lt rr pos) in
    (m, e, kind m e)
  where
    kind :
        (m : Modem)
        → get_elem? (candidates ms) (rr % length (candidates ms)) ≡ some m
        → (m.connected ≡ true) ⊎ (only_connected ms ≡ [])
    kind m e = from (only_connected ms) refl
      where
        from :
            (l : List Modem)
            → only_connected ms ≡ l
            → (m.connected ≡ true) ⊎ (only_connected ms ≡ [])
        from [] none_up = inr none_up
        from (c ∷ cs) up =
            let chosen : candidates ms ≡ only_connected ms =
              unfold candidates in rw up (ground arith) in
            let all : All (λ n. n.connected ≡ true) (candidates ms) =
              rw chosen (only_connected-All ms) in
            inl (
              get_elem?-All (λ n. n.connected ≡ true) (candidates ms) (rr % length (candidates ms))
                m all e)

-- The next `k` picks from the counter `rr` on, while the connections stay as they are.
abbrev pub picks : List Modem → ℕ → ℕ → List (Option Modem)
picks ms rr zero = []
picks ms rr (suc k) = (pick ms rr).0 ∷ picks ms (pick ms rr).1 k

get_elem?-picks :
    (ms : List Modem) (k rr i : ℕ) → i < k → get_elem? (picks ms rr k) i ≡ some (pick ms (rr + i)).0
unfolding pick
get_elem?-picks ms zero rr i h = absurd (omega arith)
get_elem?-picks ms (suc k) rr zero h =
    let e : rr ≡ rr + 0 = omega arith in ap (λ t. some (pick ms t).0) e
get_elem?-picks ms (suc k) rr (suc i) h =
    let e : rr + 1 + i ≡ rr + suc i = omega arith in
    get_elem?-picks ms k (rr + 1) i (omega arith) ∙ ap (λ t. some (pick ms t).0) e

-- Which pick of a round gives the candidate at index `j`.
turn : (n rr j : ℕ) → 0 < n → j < n → (i : ℕ) × (i < n) × ((rr + i) % n ≡ j)
turn n rr j pos small = elim (Bool-cases (leb (rr % n) j)) [
  | inl near ↦
      let e : rr % n + (j - rr % n) ≡ j = ground arith in
      (j - rr % n, ground arith, sym (mod-add-mod rr n (j - rr % n)) ∙ rw e (mod-eq_of_lt small))
  | inr far ↦
      let low = mod-lt rr pos in
      let e : rr % n + (n + j - rr % n) ≡ n + j = ground arith in
      (
        n + j - rr % n,
        ground arith,
        sym (mod-add-mod rr n (n + j - rr % n)) ∙ rw e (add-mod_left n j ∙ mod-eq_of_lt small),
      )
]

-- Round robin: among as many consecutive picks as there are candidates, every candidate gets its
-- turn, whatever the counter was.
picks-round :
    (ms : List Modem) (rr j : ℕ)
    → j < length (candidates ms)
    → (i : ℕ) × (i < length (candidates ms))
      × (get_elem? (picks ms rr (length (candidates ms))) i ≡ some (get_elem? (candidates ms) j))
unfolding pick
picks-round ms rr j h =
    let n = length (candidates ms) in
    let (i, small, e) = turn n rr j (omega arith) h in
    (i, small, get_elem?-picks ms n rr i small ∙ ap (λ t. some (get_elem? (candidates ms) t)) e)

-- A pool with a modem always gives one, and a connected one whenever any modem is connected. Round
-- robin: among as many consecutive picks as there are candidates, every candidate gets its turn,
-- whatever the counter was.
pub pick_lem :
    (ms : List Modem) (rr j : ℕ)
    → 0 < length ms
    → j < length (candidates ms)
    → ((m : Modem) × ((pick ms rr).0 ≡ some m) × ((m.connected ≡ true) ⊎ (only_connected ms ≡ [])))
      × ((i : ℕ) × (i < length (candidates ms))
          × (get_elem? (picks ms rr (length (candidates ms))) i
              ≡ some (get_elem? (candidates ms) j)))
pick_lem ms rr j h k = (pick-connected ms rr h, picks-round ms rr j k)
