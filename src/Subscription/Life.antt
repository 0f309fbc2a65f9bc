-- ===== src/Subscription/Life.antt =====
-- What holds of a subscription at any time of its life.
use accensa_app.Prelude.{
  ℕ, ◌+◌, ◌≤◌, ◌<◌, ◌≡◌, refl, sym, subst, ◌⊎◌, String, Bool, true, false, ◌||◌, List, [], ◌∷◌,
  Option, none, some, arith, ltb, Bool-cases, inl, inr,
}
use accensa_app.Subscription.{
  BillingInterval, expired, SubscriptionPlan, Subscription, Result, ok, throw, is_canceled,
  is_past_due, has_ended, apply_charge_result, expire_if_grace_elapsed, expire_at,
  cancel_at_period_end, reactivate, cancel_immediately, start_subscription, advance_period,
}

abbrev pub is_some : Option ℕ → Bool
is_some none = false
is_some (some n) = true

pub record IsSound (now : ℕ) (s : Subscription) : Type 0 where
  pub begun : s.current_start ≤ now
  pub ordered : s.current_start ≤ s.current_end
  pub graced : is_past_due s.status ≡ true → is_some s.grace_ends_at ≡ true
  pub cleared : is_some s.grace_ends_at ≡ true → (is_past_due s.status || has_ended s.status) ≡ true

pub data Change : Type 0 where
  advances : Change
  charges : Bool → Change
  graces : Change
  cancels_later : Change
  cancels_now : Change
  reactivates : Change

-- The subscription stays as it is where the change throws.
abbrev pub or_same : Subscription → Result Subscription → Subscription
or_same s (ok t) = t
or_same s (throw e) = s

expire_at_cases :
    (s : Subscription) (ends : Option ℕ) (now : ℕ)
    → (expire_at s ends now ≡ s) ⊎ (expire_at s ends now ≡ record s { status = expired })
expire_at_cases s none now = inl refl
expire_at_cases s (some ends) now = elim (Bool-cases (ltb now ends)) [
  | inl early ↦ inl (rw early refl)
  | inr over ↦ inr (rw over refl)
]

pub expire_if_grace_elapsed_cases :
    (s : Subscription) (now : ℕ)
    → (expire_if_grace_elapsed s now ≡ s)
      ⊎ (expire_if_grace_elapsed s now ≡ record s { status = expired })
unfolding expire_if_grace_elapsed
expire_if_grace_elapsed_cases s now = elim (Bool-cases (is_past_due s.status)) [
  | inl late ↦ rw late (expire_at_cases s s.grace_ends_at now)
  | inr other ↦ inl (rw other refl)
]

module _ (next_date : BillingInterval → ℕ → ℕ) (plan : SubscriptionPlan) where
  unfoldable pub step : Change → ℕ → Subscription → Subscription
  step advances now s = advance_period next_date s plan now
  step (charges paid) now s = apply_charge_result s plan paid now
  step graces now s = expire_if_grace_elapsed s now
  step cancels_later now s = cancel_at_period_end s
  step cancels_now now s = cancel_immediately s now
  step reactivates now s = or_same s (reactivate s)

  -- Changes one after another, each so long after the one before.
  unfoldable pub run : List (ℕ × Change) → ℕ → Subscription → ℕ × Subscription
  unfolding step
  run [] now s = (now, s)
  run ((wait, c) ∷ cs) now s = run cs (now + wait) (step c (now + wait) s)

  module _ (forward : (i : BillingInterval) (t : ℕ) → t < next_date i t) where
    advance_period-IsSound :
        (now : ℕ) (s : Subscription)
        → IsSound now s
        → IsSound now (advance_period next_date s plan now)
    unfolding advance_period
    advance_period-IsSound now s v = elim (Bool-cases (ltb now s.current_end)) [
      | inl early ↦ rw early v
      | inr due ↦ elim (Bool-cases (s.cancels || is_canceled s.status)) [
        | inl last ↦
            rw (due, last)
              (record {
                begun = v.begun;
                ordered = v.ordered;
                graced = λ p. absurd (ground arith);
                cleared = λ p. refl;
              })
        | inr again ↦
            rw (due, again)
              (record {
                begun = ground arith;
                ordered = omega (arith, forward plan.billing_interval s.current_end);
                graced = λ p. absurd (ground arith);
                cleared = λ p. absurd (ground arith);
              })
      ]
    ]

  apply_charge_result-IsSound :
      (paid : Bool) (now : ℕ) (s : Subscription)
      → IsSound now s
      → IsSound now (apply_charge_result s plan paid now)
  unfolding apply_charge_result
  apply_charge_result-IsSound true now s v = record {
    begun = v.begun;
    ordered = v.ordered;
    graced = λ p. absurd (ground arith);
    cleared = λ p. absurd (ground arith);
  }
  apply_charge_result-IsSound false now s v = record {
    begun = v.begun;
    ordered = v.ordered;
    graced = λ p. refl;
    cleared = λ p. refl;
  }

  ended-IsSound :
      (now : ℕ) (s : Subscription) → IsSound now s → IsSound now (record s { status = expired })
  ended-IsSound now s v = record {
    begun = v.begun;
    ordered = v.ordered;
    graced = λ p. absurd (ground arith);
    cleared = λ p. refl;
  }

  expire_if_grace_elapsed-IsSound :
      (now : ℕ) (s : Subscription) → IsSound now s → IsSound now (expire_if_grace_elapsed s now)
  expire_if_grace_elapsed-IsSound now s v = elim (expire_if_grace_elapsed_cases s now) [
    | inl same ↦ subst (IsSound now) (sym same) v
    | inr over ↦ subst (IsSound now) (sym over) (ended-IsSound now s v)
  ]

  module _ (forward : (i : BillingInterval) (t : ℕ) → t < next_date i t) where
    step-IsSound :
        (c : Change) (now : ℕ) (s : Subscription) → IsSound now s → IsSound now (step c now s)
    unfolding step cancel_at_period_end cancel_immediately reactivate
    step-IsSound advances now s v = advance_period-IsSound forward now s v
    step-IsSound (charges paid) now s v = apply_charge_result-IsSound paid now s v
    step-IsSound graces now s v = expire_if_grace_elapsed-IsSound now s v
    step-IsSound cancels_later now s v = elim (Bool-cases (has_ended s.status)) [
      | inl over ↦ rw over v
      | inr live ↦
          rw live (record {
            begun = v.begun;
            ordered = v.ordered;
            graced = v.graced;
            cleared = v.cleared;
          })
    ]
    step-IsSound cancels_now now s v = record {
      begun = v.begun;
      ordered = v.begun;
      graced = λ p. absurd (ground arith);
      cleared = λ p. refl;
    }
    step-IsSound reactivates now s v = elim (Bool-cases (has_ended s.status)) [
      | inl over ↦ rw over v
      | inr live ↦
          rw live (record {
            begun = v.begun;
            ordered = v.ordered;
            graced = v.graced;
            cleared = v.cleared;
          })
    ]

    run-IsSound :
        (cs : List (ℕ × Change)) (now : ℕ) (s : Subscription)
        → IsSound now s
        → let (later, t) = run cs now s in IsSound later t
    unfolding run
    run-IsSound [] now s v = v
    run-IsSound ((wait, c) ∷ cs) now s v = run-IsSound cs (now + wait) (step c (now + wait) s) (
        step-IsSound c (now + wait) s (record {
          begun = omega (arith, v.begun);
          ordered = v.ordered;
          graced = v.graced;
          cleared = v.cleared;
        }))

    -- If a billing date is later than the one before, then after any sequence of changes to a new
    -- subscription its period has begun and does not end before it begins, a past due subscription
    -- has a grace date, and only a past due or ended one has.
    pub start_subscription-IsSound :
        (customer id : String) (now : ℕ) (cs : List (ℕ × Change))
        → let (later, t) = run cs now (start_subscription next_date plan customer id now) in
          IsSound later t
    unfolding start_subscription
    start_subscription-IsSound customer id now cs =
        run-IsSound cs now (start_subscription next_date plan customer id now) (record {
          begun = omega arith;
          ordered = ground (arith, forward plan.billing_interval now);
          graced = λ p. absurd (ground arith);
          cleared = λ p. absurd (ground arith);
        })
