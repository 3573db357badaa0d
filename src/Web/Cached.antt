-- ===== src/Web/Cached.antt =====
-- How often `handleReady` asks Grafana.
use grafana_mcp_setup.Prelude.{
  ℕ, zero, suc, ◌+◌, ◌-◌, ◌*◌, ◌≤◌, ◌≡◌, refl, ◌⊎◌, inl, inr, true, ◌||◌, Option, none, some, leb,
  ◌==◌, arith, Text, Bool-cases,
}
use grafana_mcp_setup.Exec.{Error, Exec, Result-cases}
use grafana_mcp_setup.Go.Time.{Time, zero_time}
use grafana_mcp_setup.Web.Ready.{Readiness, check_all, locker_check, handle_ready}

-- A world with the number of times that Grafana was asked.
pub record Counted (S : Type 0) : Type 0 where
  pub inner : S
  pub checks : ℕ

module _ {S : Type 0} where
  abbrev pub lifted {ℓ} : {A : Type ℓ} → ℕ → A × S → A × Counted S
  lifted checks (r, s) = (r, record { inner = s; checks = checks })

  abbrev pub counted : Exec S (Unit {0}) → Exec (Counted S) (Unit {0})
  counted check s = lifted (s.checks + 1) (check s.inner)

  abbrev pub uncounted : Option (Exec S (Unit {0})) → Option (Exec (Counted S) (Unit {0}))
  uncounted none = none
  uncounted (some check) = some (λ s. lifted s.checks (check s.inner))

-- A clock that does not go back: a reading lies between the time before it and the time after it, and
-- the checks take no negative time.
pub record Clock {S : Type 0} (now : S → Time × S) (grafana_ready : Exec S (Unit {0}))
    (locker_ready : Option (Exec S (Unit {0}))) : Type 0 where
  pub time : S → Time
  pub reads : (s : S) → (time s ≤ (now s).0) × ((now s).0 ≤ time (now s).1)
  pub asks : (s : S) → time s ≤ time (grafana_ready s).1
  pub locks : (s : S) → time s ≤ time (locker_check locker_ready s).1

-- The checks of one round, counted.
check_all-counted :
    {S : Type 0} (grafana_ready : Exec S (Unit {0})) (locker_ready : Option (Exec S (Unit {0})))
    (s : Counted S)
    → (check_all (counted grafana_ready) (uncounted locker_ready) s).1
      ≡ record { inner = (check_all grafana_ready locker_ready s.inner).1; checks = s.checks + 1 }
unfolding check_all
check_all-counted grafana_ready none s = elim (Result-cases (grafana_ready s.inner).0) [
  | inl (u, fine) ↦ rw fine refl
  | inr (e, bad) ↦ rw bad refl
]
check_all-counted grafana_ready (some check) s = elim (Result-cases (grafana_ready s.inner).0) [
  | inl (u, fine) ↦ rw fine refl
  | inr (e, bad) ↦ rw bad refl
]

-- The state of a reading `checked` and a number of checks.
abbrev IsPaced : ℕ → ℕ → ℕ → ℕ → Type 0
IsPaced readiness_ttl start checked checks =
    ((checked ≡ 0) × (checks ≡ 0))
    ⊎ ((1 ≤ checked) × (checks * readiness_ttl + start ≤ checked + readiness_ttl))

first_check :
    (checks ttl start t : ℕ) → checks ≡ 0 → start ≤ t → (checks + 1) * ttl + start ≤ t + ttl
first_check checks ttl start t none_yet h = rw none_yet (omega (arith, h))

next_check :
    (checks ttl start checked t later : ℕ)
    → checks * ttl + start ≤ checked + ttl
    → checked ≤ t
    → ttl ≤ t - checked
    → t ≤ later
    → (checks + 1) * ttl + start ≤ later + ttl
next_check checks ttl start checked t later a b c d = omega (arith, a, b, c, d)

stale_check :
    (checks ttl start checked t later : ℕ)
    → IsPaced ttl start checked checks
    → (checked == zero_time || leb ttl (t - checked)) ≡ true
    → checked ≤ t
    → start ≤ later
    → t ≤ later
    → (checks + 1) * ttl + start ≤ later + ttl
stale_check checks ttl start checked t later (inl (fresh, none_yet)) stale past started d =
    first_check checks ttl start later none_yet started
stale_check checks ttl start checked t later (inr (positive, h)) stale past started d =
    next_check checks ttl start checked t later h past (grind arith) d

zero_least : (n : ℕ) → 0 ≤ n
zero_least n = omega arith

le_self : (n : ℕ) → n ≤ n
le_self n = omega arith

paced_bound :
    (checks ttl start checked t : ℕ)
    → IsPaced ttl start checked checks
    → checked ≤ t
    → start ≤ t
    → checks * ttl + start ≤ t + ttl
paced_bound checks ttl start checked t (inl (fresh, none_yet)) past started =
    rw none_yet (omega (arith, started))
paced_bound checks ttl start checked t (inr (positive, h)) past started = omega (arith, h, past)

-- Before the first request.
abbrev pub not_checked : Readiness
not_checked = record { checked = zero_time; error = none }

abbrev pub at_start : {S : Type 0} → S → Counted S
at_start s = record { inner = s; checks = 0 }

module _ {S : Type 0} (now : S → Time × S) (grafana_ready : Exec S (Unit {0}))
    (locker_ready : Option (Exec S (Unit {0}))) (clock : Clock now grafana_ready locker_ready) where
  check_all-later : (s : S) → clock.time s ≤ clock.time (check_all grafana_ready locker_ready s).1
  unfolding check_all
  check_all-later s = elim (Result-cases (grafana_ready s).0) [
    | inl (u, fine) ↦ rw fine (grind (arith, clock.asks s, clock.locks (grafana_ready s).1))
    | inr (e, bad) ↦ rw bad (clock.asks s)
  ]

  -- The time does not go back, and between two checks lies the lifetime of their outcome.
  abbrev Paced : ℕ → Time → Readiness × Counted S → Type 0
  Paced readiness_ttl start (ready, s) =
      (ready.checked ≤ clock.time s.inner)
      × (start ≤ clock.time s.inner)
      × IsPaced readiness_ttl start ready.checked s.checks

module _ {S : Type 0} (now : S → Time × S) (grafana_ready : Exec S (Unit {0}))
    (locker_ready : Option (Exec S (Unit {0}))) (readiness_ttl : ℕ)
    (show_error : Error → Text) where
  abbrev counted_now : Counted S → Time × Counted S
  counted_now s = lifted s.checks (now s.inner)

  unfoldable pub request : Readiness × Counted S → Readiness × Counted S
  unfolding handle_ready
  request (ready, s) =
      let (response, later, t) =
        handle_ready counted_now (counted grafana_ready) (uncounted locker_ready) readiness_ttl
          show_error ready s in
      (later, t)

  -- One request after the other.
  unfoldable pub handle_all : ℕ → Readiness × Counted S → Readiness × Counted S
  unfolding request
  handle_all zero x = x
  handle_all (suc n) x = handle_all n (request x)

  module _ (clock : Clock now grafana_ready locker_ready) where
    request-Paced :
        (start : Time) (ready : Readiness) (s : Counted S)
        → 1 ≤ start
        → Paced now grafana_ready locker_ready clock readiness_ttl start (ready, s)
        → Paced now grafana_ready locker_ready clock readiness_ttl start (request (ready, s))
    unfolding request handle_ready
    request-Paced start ready s positive (past, started, h) =
        let t = (now s.inner).0 in
        let s1 = (now s.inner).1 in
        let s2 = (check_all grafana_ready locker_ready s1).1 in
        let (below, above) = clock.reads s.inner in
        let (below2, above2) = clock.reads s2 in
        let later = check_all-later now grafana_ready locker_ready clock s1 in
        elim (Bool-cases (ready.checked == zero_time || leb readiness_ttl (t - ready.checked))) [
          | inr fresh ↦
              rw fresh (omega (arith, past, below, above), omega (arith, started, below, above), h)
          | inl stale ↦
              rw
                (
                  stale,
                  check_all-counted grafana_ready locker_ready (lifted s.checks (now s.inner)).1,
                )
                (
                  above2,
                  omega (arith, started, below, above, later, below2, above2),
                  inr (
                    omega (arith, positive, started, below, above, later, below2),
                    stale_check s.checks readiness_ttl start ready.checked t (now s2).0 h stale
                        (omega (arith, past, below))
                        (omega (arith, started, below, above, later, below2))
                        (omega (arith, above, later, below2)),
                  ),
                )
        ]

    handle_all-Paced :
        (n : ℕ) (start : Time) (x : Readiness × Counted S)
        → 1 ≤ start
        → Paced now grafana_ready locker_ready clock readiness_ttl start x
        → Paced now grafana_ready locker_ready clock readiness_ttl start (handle_all n x)
    unfolding handle_all
    handle_all-Paced zero start x positive h = h
    handle_all-Paced (suc n) start (ready, s) positive h =
        handle_all-Paced n start (request (ready, s)) positive
          (request-Paced start ready s positive h)

    -- However many requests for the readiness come, from the start of the server, and whatever Grafana
    -- answers: `n` checks of Grafana take at least the time of `n - 1` lifetimes of an outcome, by a
    -- clock that does not go back and has left its zero.
    pub handle_all-checks :
        (n : ℕ) (s : S)
        → 1 ≤ clock.time s
        → (handle_all n (not_checked, at_start s)).1.checks * readiness_ttl + clock.time s
          ≤ clock.time (handle_all n (not_checked, at_start s)).1.inner + readiness_ttl
    handle_all-checks n s positive =
        let (past, started, h) =
          handle_all-Paced n (clock.time s) (not_checked, at_start s) positive
            (zero_least (clock.time s), le_self (clock.time s), inl (refl, refl)) in
        paced_bound (handle_all n (not_checked, at_start s)).1.checks readiness_ttl (clock.time s)
          (handle_all n (not_checked, at_start s)).0.checked
          (clock.time (handle_all n (not_checked, at_start s)).1.inner) h past started
