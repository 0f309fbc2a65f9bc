-- ===== src/Subscription/Rules.antt =====
-- What a cancellation means.
use accensa_app.Prelude.{
  ℕ, ◌+◌, ◌≤◌, ◌≡◌, refl, sym, subst, Bool, true, false, ◌&&◌, List, [], ◌∷◌, arith, ltb, inl, inr,
}
use accensa_app.Subscription.{
  BillingInterval, expired, SubscriptionPlan, Subscription, has_ended, apply_charge_result,
  expire_if_grace_elapsed, cancel_at_period_end, advance_period,
}
use accensa_app.Subscription.Life.{
  Change, advances, charges, graces, cancels_later, cancels_now, reactivates, step, run,
  expire_if_grace_elapsed_cases,
}

-- Changes other than a reactivation and an immediate cancellation.
abbrev pub is_passive : Change → Bool
is_passive cancels_now = false
is_passive reactivates = false
is_passive _ = true

abbrev pub all_passive : List (ℕ × Change) → Bool
all_passive [] = true
all_passive ((wait, c) ∷ cs) = is_passive c && all_passive cs

-- The second keeps the period and the cancellation of the first.
pub record KeepsPeriod (s t : Subscription) : Type 0 where
  pub start : t.current_start ≡ s.current_start
  pub end_ : t.current_end ≡ s.current_end
  pub cancels : t.cancels ≡ true

module _ (next_date : BillingInterval → ℕ → ℕ) (plan : SubscriptionPlan) where
  step-KeepsPeriod :
      (c : Change) (now : ℕ) (s : Subscription)
      → is_passive c ≡ true
      → s.cancels ≡ true
      → KeepsPeriod s (step next_date plan c now s)
  unfolding step advance_period apply_charge_result expire_if_grace_elapsed cancel_at_period_end
  step-KeepsPeriod advances now s p v = ground arith
  step-KeepsPeriod (charges true) now s p v = record { start = refl; end_ = refl; cancels = v }
  step-KeepsPeriod (charges false) now s p v = record { start = refl; end_ = refl; cancels = v }
  step-KeepsPeriod graces now s p v = elim (expire_if_grace_elapsed_cases s now) [
    | inl same ↦
        subst (KeepsPeriod s) (sym same) (record { start = refl; end_ = refl; cancels = v })
    | inr over ↦
        subst (KeepsPeriod s) (sym over) (record { start = refl; end_ = refl; cancels = v })
  ]
  step-KeepsPeriod cancels_later now s p v = ground arith
  step-KeepsPeriod cancels_now now s p v = absurd (ground arith)
  step-KeepsPeriod reactivates now s p v = absurd (ground arith)

  run-KeepsPeriod :
      (cs : List (ℕ × Change)) (now : ℕ) (s : Subscription)
      → all_passive cs ≡ true
      → s.cancels ≡ true
      → KeepsPeriod s (run next_date plan cs now s).1
  unfolding run
  run-KeepsPeriod [] now s p v = record { start = refl; end_ = refl; cancels = v }
  run-KeepsPeriod ((wait, c) ∷ cs) now s p v =
      let one = step-KeepsPeriod c (now + wait) s (ground arith) v in
      let more =
        run-KeepsPeriod cs (now + wait) (step next_date plan c (now + wait) s) (ground arith)
          one.cancels in
      record { start = cc; end_ = cc; cancels = more.cancels }

  cancel_at_period_end_live :
      (s : Subscription)
      → has_ended s.status ≡ false
      → cancel_at_period_end s ≡ record s { cancels = true }
  unfolding cancel_at_period_end
  cancel_at_period_end_live s live = rw live refl

  advance_period_last :
      (s : Subscription) (now : ℕ)
      → s.current_end ≤ now
      → s.cancels ≡ true
      → (advance_period next_date s plan now).status ≡ expired
  unfolding advance_period
  advance_period_last s now h v =
      let due : ltb now s.current_end ≡ false = ground arith in rw (due, v) refl

  -- Once a subscription that has not ended is to be cancelled at the end of its period, then whatever
  -- renewals, charges, grace checks and further such cancellations follow, its period stays, and a
  -- renewal at its end or later expires it.
  pub cancel_at_period_end-run :
      (s : Subscription) (cs : List (ℕ × Change)) (now at : ℕ)
      → has_ended s.status ≡ false
      → all_passive cs ≡ true
      → s.current_end ≤ at
      → let t = (run next_date plan cs now (cancel_at_period_end s)).1 in
        (t.current_start ≡ s.current_start)
        × (t.current_end ≡ s.current_end)
        × ((advance_period next_date t plan at).status ≡ expired)
  cancel_at_period_end-run s cs now at live p due =
      let kept : KeepsPeriod s (run next_date plan cs now (cancel_at_period_end s)).1 =
        rw (cancel_at_period_end_live s live) (
          let k = run-KeepsPeriod cs now (record s { cancels = true }) p refl in
          record { start = k.start; end_ = k.end_; cancels = k.cancels }) in
      (
        kept.start,
        kept.end_,
        advance_period_last (run next_date plan cs now (cancel_at_period_end s)).1 at
            (omega (arith, kept.end_)) kept.cancels,
      )
