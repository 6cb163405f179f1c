-- ===== src/Hefs/Walks.antt =====
-- The scan of the directory region, for any test: where it stops, and how many steps it takes.
use krnl.Base.{
  ℕ, zero, suc, ◌+◌, ◌*◌, ◌^◌, ◌≤◌, ◌<◌, ◌≡◌, ◌≢◌, refl, sym, subst, ◌∙◌, Bool, true, false, arith,
  Bool-cases, inl, inr, ◌⊎◌,
}
use krnl.Hefs.Scan.{Verdict, here, onward, give_up, at, nowhere, unfinished, scan, next_position}

module _ (judge : ℕ → Verdict) (past : ℕ → Bool) where
  -- The scan from one position passes `k` others and stops at the last.
  pub data Reaches : ℕ → ℕ → ℕ → Type 0 where
    stop : {start : ℕ} → judge start ≡ here → Reaches 0 start start
    pass :
        {k start goal : ℕ}
        → judge start ≡ onward
        → past (next_position start) ≡ false
        → Reaches k (next_position start) goal
        → Reaches (suc k) start goal

  pub scan_here :
      (steps start : ℕ) → judge start ≡ here → scan judge past (suc steps) start ≡ at start
  unfolding scan
  scan_here steps start j = rw (scan, j) refl

  pub scan_onward :
      (steps start : ℕ)
      → judge start ≡ onward
      → past (next_position start) ≡ false
      → scan judge past (suc steps) start ≡ scan judge past steps (next_position start)
  unfolding scan
  scan_onward steps start j p = rw (scan, j, p) refl

  pub scan_past :
      (steps start : ℕ)
      → judge start ≡ onward
      → past (next_position start) ≡ true
      → scan judge past (suc steps) start ≡ nowhere
  unfolding scan
  scan_past steps start j p = rw (scan, j, p) refl

  pub scan_give_up :
      (steps start : ℕ) → judge start ≡ give_up → scan judge past (suc steps) start ≡ nowhere
  unfolding scan
  scan_give_up steps start j = rw (scan, j) refl

  pub scan-Reaches :
      (steps start goal k : ℕ)
      → Reaches k start goal
      → k < steps
      → scan judge past steps start ≡ at goal
  scan-Reaches zero start goal k r h = absurd (omega arith)
  scan-Reaches (suc steps) start goal zero (stop j) h = scan_here steps start j
  scan-Reaches (suc steps) start goal (suc k) (pass j p r) h =
      scan_onward steps start j p ∙ scan-Reaches steps (next_position start) goal k r (omega arith)

  pub Verdict-cases : (v : Verdict) → (v ≡ here) ⊎ ((v ≡ onward) ⊎ (v ≡ give_up))
  Verdict-cases here = inl refl
  Verdict-cases onward = inr (inl refl)
  Verdict-cases give_up = inr (inr refl)

  position_cases : (a b : ℕ) → (a ≤ b) ⊎ (b < a)
  position_cases a b = ground arith

  -- A position from which a scan to an end below 2 ^ 64 is over within the steps.
  pub scan_ends :
      (limit : ℕ)
      → ((start : ℕ) → limit < start → past start ≡ true)
      → limit + 512 < 2 ^ 64
      → (steps start : ℕ) → start ≤ limit
      → limit < start + 512 * steps
      → scan judge past steps start ≢ unfinished
  scan_ends limit over small zero start low enough e = absurd (omega arith)
  scan_ends limit over small (suc steps) start low enough e = elim (Verdict-cases (judge start)) [
    | inl j ↦ cc (scan_here steps start j, e)
    | inr (inr j) ↦ cc (scan_give_up steps start j, e)
    | inr (inl j) ↦ elim (Bool-cases (past (next_position start))) [
      | inl p ↦ cc (scan_past steps start j p, e)
      | inr p ↦ elim (position_cases (next_position start) limit) [
        | inl low' ↦
            scan_ends limit over small steps (next_position start) low' (omega arith)
              (sym (scan_onward steps start j p) ∙ e)
        | inr high ↦ cc (over (next_position start) high, p)
      ]
    ]
  ]

  -- A scan below an end that does not wrap visits the positions in steps of 512.
  pub Reaches_position :
      (limit : ℕ)
      → ((start : ℕ) → past start ≡ false → start ≤ limit)
      → limit + 512 < 2 ^ 64
      → {k start goal : ℕ} → start ≤ limit
      → Reaches k start goal
      → (goal ≡ start + 512 * k) × (goal ≤ limit)
  Reaches_position limit within small low (stop j) = (omega arith, low)
  Reaches_position limit within small low (pass {k = k} {start = start} j p r) =
      let fits : next_position start ≡ start + 512 = omega arith in
      let rest = Reaches_position limit within small (within (next_position start) p) r in
      (omega (arith, rest.0, fits), rest.1)

-- A second scan, which does not give up on the way to where the first stops and would stop there too,
-- stops there or before.
pub Reaches_meets :
    (judge judge' : ℕ → Verdict) (past past' : ℕ → Bool) (limit : ℕ)
    → ((start : ℕ) → past start ≡ false → start ≤ limit)
    → limit + 512 < 2 ^ 64
    → {k start goal : ℕ} → start ≤ limit
    → Reaches judge past k start goal
    → ((q : ℕ) → q ≤ goal → start < q → past' q ≡ false)
    → ((i : ℕ) → i < k → judge' (start + 512 * i) ≢ give_up)
    → judge' goal ≡ here
    → (j : ℕ) × (p : ℕ) × (j ≤ k) × Reaches judge' past' j start p × (judge' p ≡ here)
Reaches_meets judge judge' past past' limit within small low (stop {start = start} j) inside goes
      ends =
    (0, start, omega arith, stop ends, ends)
Reaches_meets judge judge' past past' limit within small low
      (pass {k = k} {start = start} {goal = goal} j p r) inside goes ends =
    let fits : next_position start ≡ start + 512 = omega arith in
    let place = Reaches_position judge past limit within small (within (next_position start) p) r in
    elim (Verdict-cases judge' past' (judge' start)) [
      | inl stops ↦ (0, start, omega arith, stop stops, stops)
      | inr (inr gives) ↦
          absurd (goes 0 (omega arith) (subst (λ q. judge' q ≡ give_up) (omega arith) gives))
      | inr (inl goes_on) ↦
          (let (j', p', le, r', s') =
              Reaches_meets judge judge' past past' limit within small
                (within (next_position start) p) r (λ q le lt. inside q le (omega (arith, fits)))
                (λ i lt e.
                  goes (suc i) (omega arith)
                    (subst (λ q. judge' q ≡ give_up) (omega (arith, fits)) e))
                ends in
            (
              suc j',
              p',
              omega arith,
              pass goes_on
                  (inside (next_position start) (omega (arith, place.0)) (omega (arith, fits))) r',
              s',
            ))
    ]

pub Reaches-judge :
    (judge : ℕ → Verdict) (past : ℕ → Bool) {k start goal : ℕ}
    → Reaches judge past k start goal
    → judge goal ≡ here
Reaches-judge judge past (stop j) = j
Reaches-judge judge past (pass j p r) = Reaches-judge judge past r

-- What a scan finds, it reaches.
pub scan_found :
    (judge : ℕ → Verdict) (past : ℕ → Bool) (steps start goal : ℕ)
    → scan judge past steps start ≡ at goal
    → (k : ℕ) × Reaches judge past k start goal
unfolding scan
scan_found judge past zero start goal e = absurd (cc e)
scan_found judge past (suc steps) start goal e = elim (Verdict-cases judge past (judge start)) [
  | inl j ↦
      (let same : start ≡ goal = cc (scan_here judge past steps start j, e) in
        (0, subst (λ q. Reaches judge past 0 start q) same (stop j)))
  | inr (inr j) ↦ absurd (cc (scan_give_up judge past steps start j, e))
  | inr (inl j) ↦ elim (Bool-cases (past (next_position start))) [
    | inl p ↦ absurd (cc (scan_past judge past steps start j p, e))
    | inr p ↦
        (let (k, r) =
            scan_found judge past steps (next_position start) goal
              (sym (scan_onward judge past steps start j p) ∙ e) in
          (suc k, pass j p r))
  ]
]
