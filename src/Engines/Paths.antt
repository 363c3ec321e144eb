-- ===== src/Engines/Paths.antt =====
-- Sequences of states that lead to a bad state, and how they are cut short: the argument that the simple
-- path constraints and the denied initial states of engines/kinduction.cpp rest on.
use pono.Base.{
  ℕ, zero, suc, ◌+◌, ◌-◌, ◌≤◌, ◌<◌, ◌≡◌, ◌⊎◌, inl, inr, refl, sym, ap, subst, ◌∙◌, arith, Bool,
  true, false, Bool-cases, dec_lt, ltb, if◌then◌else◌,
}

-- a bounded search, with what it finds
pub find_below :
    (n : ℕ) (P : ℕ → Bool) → ((j : ℕ) × (j < n) × (P j ≡ true)) ⊎ ((j : ℕ) → j < n → P j ≡ false)
find_below zero P = inr (λ j lt. absurd (omega arith))
find_below (suc n) P = elim (find_below n P) [
  | inl (j, lt, h) ↦ inl (j, omega arith, h)
  | inr none_below ↦ elim (Bool-cases (P n)) [
    | inl here ↦ inl (n, omega arith, here)
    | inr gone ↦ inr (λ j lt. elim (dec_lt j n) [
      | yes below ↦ none_below j below
      | no last ↦ let eq : n ≡ j = omega arith in subst (λ i. P i ≡ false) eq gone
    ])
  ]
]

-- the same over the pairs `j < l < n`
pub find_pair_below :
    (n : ℕ) (P : ℕ → ℕ → Bool)
    → ((j : ℕ) × (l : ℕ) × (j < l) × (l < n) × (P j l ≡ true))
      ⊎ ((j l : ℕ) → j < l → l < n → P j l ≡ false)
find_pair_below zero P = inr (λ j l lt lt'. absurd (omega arith))
find_pair_below (suc n) P = elim (find_pair_below n P) [
  | inl (j, l, lt, lt', h) ↦ inl (j, l, lt, omega arith, h)
  | inr none_below ↦ elim (find_below n (λ j. P j n)) [
    | inl (j, lt, h) ↦ inl (j, n, lt, omega arith, h)
    | inr none_here ↦ inr (λ j l lt lt'. elim (dec_lt l n) [
      | yes below ↦ none_below j l lt below
      | no last ↦
          let eq : n ≡ l = omega arith in subst (λ i. P j i ≡ false) eq (none_here j (omega arith))
    ])
  ]
]

module _ {State : Type 0} where
  -- the sequence without the `d` states from `j`
  abbrev pub skip : ℕ → ℕ → (ℕ → State) → ℕ → State
  skip j d π k = if ltb k j then π k else π (k + d)

  skip-before : (j d : ℕ) (π : ℕ → State) (k : ℕ) → k < j → skip j d π k ≡ π k
  skip-before j d π k lt = ground arith

  pub skip-after : (j d : ℕ) (π : ℕ → State) (k m : ℕ) → j ≤ k → k + d ≡ m → skip j d π k ≡ π m
  skip-after j d π k m le eq =
      let later : skip j d π k ≡ π (k + d) = ground arith in later ∙ ap π eq

module _ {State : Type 0} (init_in : State → Bool) (trans_in : State → State → Bool)
    (bad_in : State → Bool) (agree : Bool → State → State → Bool) where
  -- `n` transitions from an initial state to a bad one
  pub record Failing (π : ℕ → State) (n : ℕ) : Type 0 where
    pub starts : init_in (π 0) ≡ true
    pub steps : (j : ℕ) → j < n → trans_in (π j) (π (suc j)) ≡ true
    pub ends : bad_in (π n) ≡ true

  -- one that cannot be cut short: no state is bad before its end, or initial after its start, and no two
  -- states agree. The first state is compared as a whole, which the Boolean says.
  pub record Shortest (π : ℕ → State) (n : ℕ) : Type 0 where
    pub failing : Failing π n
    pub no_bad : (j : ℕ) → j < n → bad_in (π j) ≡ false
    pub no_init : (j : ℕ) → 0 < j → j ≤ n → init_in (π j) ≡ false
    pub distinct : (j l : ℕ) → j < l → l ≤ n → agree (ltb 0 j) (π j) (π l) ≡ false

  module _ (init_agree : (s r : State) → agree false s r ≡ true → init_in s ≡ init_in r)
      (reenter : (q s q' s' : State)
        → trans_in q s ≡ true
        → trans_in q' s' ≡ true
        → agree true s s' ≡ true
        → trans_in q s' ≡ true) where
    -- The states from `j` to before `j + d` can be left out where the state at `j + d` may follow the one
    -- before `j`, or be the first.
    skip-Failing :
        (j d n : ℕ) (π : ℕ → State)
        → 1 ≤ d
        → j + d ≤ n
        → Failing π n
        → (j ≡ 0 → init_in (π d) ≡ true)
        → (0 < j → agree true (π j) (π (j + d)) ≡ true)
        → Failing (skip j d π) (n - d)
    skip-Failing j d n π pos le h at_start within = record {
      starts = elim (dec_lt 0 j) [
        | yes later ↦ ap init_in (skip-before j d π 0 later) ∙ h.starts
        | no first ↦
            ap init_in (skip-after j d π 0 d (omega arith) (omega arith)) ∙ at_start (omega arith)
      ];
      steps = λ k lt. elim (dec_lt (suc k) j) [
        | yes before ↦
            rw (skip-before j d π k (omega arith), skip-before j d π (suc k) before)
              (h.steps k (omega arith))
        | no not_before ↦ elim (dec_lt k j) [
          | yes last ↦
              let at_j : suc k ≡ j = omega arith in
              let into : trans_in (π k) (π j) ≡ true =
                subst (λ i. trans_in (π k) (π i) ≡ true) at_j (h.steps k (omega arith)) in
              let back : suc (j + d - 1) ≡ j + d = omega arith in
              let again : trans_in (π (j + d - 1)) (π (j + d)) ≡ true =
                subst (λ i. trans_in (π (j + d - 1)) (π i) ≡ true) back
                  (h.steps (j + d - 1) (omega arith)) in
              rw
                (
                  skip-before j d π k last,
                  skip-after j d π (suc k) (j + d) (omega arith) (omega arith),
                )
                (reenter (π k) (π j) (π (j + d - 1)) (π (j + d)) into again (within (omega arith)))
          | no after ↦
              rw
                (
                  skip-after j d π k (k + d) (omega arith) refl,
                  skip-after j d π (suc k) (suc (k + d)) (omega arith) (omega arith),
                )
                (h.steps (k + d) (omega arith))
        ]
      ];
      ends = ap bad_in (skip-after j d π (n - d) n (omega arith) (omega arith)) ∙ h.ends;
    }

    cut-Failing :
        (j l n : ℕ) (π : ℕ → State)
        → j < l
        → l ≤ n
        → agree (ltb 0 j) (π j) (π l) ≡ true
        → Failing π n
        → Failing (skip j (l - j) π) (n - (l - j))
    cut-Failing j l n π before le same h =
        skip-Failing j (l - j) n π (omega arith) (omega arith) h
          (λ at_0.
            let first : ltb 0 j ≡ false = ground arith in
            let whole_l : l ≡ l - j = omega arith in
            let whole : agree false (π 0) (π (l - j)) ≡ true = cc (first, at_0, whole_l, same) in
            sym (init_agree (π 0) (π (l - j)) whole) ∙ h.starts)
          (λ later.
            let after : ltb 0 j ≡ true = ground arith in
            let at_l : l ≡ j + (l - j) = omega arith in cc (after, at_l, same))

    Shortest-within :
        (fuel n : ℕ) (π : ℕ → State)
        → n < fuel
        → Failing π n
        → (m : ℕ) × (m ≤ n) × (ρ : ℕ → State) × Shortest ρ m
    Shortest-within zero n π lt h = absurd (omega arith)
    Shortest-within (suc fuel) n π lt h = elim (find_below n (λ j. bad_in (π j))) [
      | inl (j, below, bad_here) ↦
          let (m, le, ρ, s) = Shortest-within fuel j π (omega arith) (record {
            starts = h.starts;
            steps = λ k lt'. h.steps k (omega arith);
            ends = bad_here;
          }) in
          (m, omega arith, ρ, s)
      | inr no_bad ↦ elim (find_below n (λ j. init_in (π (suc j)))) [
        | inl (j, below, init_here) ↦
            let (m, le, ρ, s) = Shortest-within fuel (n - suc j) (skip 0 (suc j) π) (omega arith) (
              skip-Failing 0 (suc j) n π (omega arith) (omega arith) h (λ _. init_here)
                (λ wrong. absurd (omega arith))) in
            (m, omega arith, ρ, s)
        | inr no_init ↦ elim (find_pair_below (suc n) (λ j l. agree (ltb 0 j) (π j) (π l))) [
          | inl (j, l, before, l_le, same) ↦
              let (m, le, ρ, s) =
                Shortest-within fuel (n - (l - j)) (skip j (l - j) π) (omega arith)
                  (cut-Failing j l n π before (omega arith) same h) in
              (m, omega arith, ρ, s)
          | inr distinct ↦ (
            n,
            omega arith,
            π,
            record {
              failing = h;
              no_bad = no_bad;
              no_init = λ j pos le.
                  let eq : suc (j - 1) ≡ j = omega arith in
                  subst (λ i. init_in (π i) ≡ false) eq (no_init (j - 1) (omega arith));
              distinct = λ j l before le. distinct j l before (omega arith);
            },
          )
        ]
      ]
    ]

    -- Where a failing sequence exists, one that cannot be cut short exists and is not longer.
    pub Failing-Shortest :
        (n : ℕ) (π : ℕ → State) → Failing π n → (m : ℕ) × (m ≤ n) × (ρ : ℕ → State) × Shortest ρ m
    Failing-Shortest n π h = Shortest-within (suc n) n π (omega arith) h
