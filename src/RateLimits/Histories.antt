-- ===== src/RateLimits/Histories.antt =====
-- The attempts of a merchant over a history of calls.
use accensa_app.Prelude.{
  ℕ, ◌≤◌, ◌≡◌, refl, sym, ◌∙◌, ap, inl, inr, Bool, true, false, List, [], ◌∷◌, ◌==◌, if◌then◌else◌,
  Bool-cases, arith,
}
use accensa_app.Prelude.Text.{same_text, same_text_refl, eq_of_same}
use accensa_app.Prelude.Decimal.{number_from, to_digits, number_from-digits}
use accensa_app.RateLimits.{
  Answer, Hits, no_hits, Remote, absent, failing, answering, memory_limit, check_totp_rate_limit,
  clear_totp_attempts,
}
use accensa_app.RateLimits.Window.{
  count, Tracks, Tracks-later, Tracks-none, Reference, passed_next, admit-Reference, admit-other,
}

-- A call: an attempt of a merchant at a time, with what the shared limiter does, or a reset.
pub data Call : Type 0 where
  attempt : Remote → ℕ → ℕ → Call
  clear : ℕ → Call

same_digits : (k m : ℕ) → (k == m) ≡ false → same_text (to_digits k) (to_digits m) ≡ false
same_digits k m h = elim (Bool-cases (same_text (to_digits k) (to_digits m))) [
  | inl same ↦
      let read : k ≡ m =
        sym (number_from-digits k)
        ∙ ap (number_from 0) (eq_of_same (to_digits k) (to_digits m) same)
        ∙ number_from-digits m in
      absurd (ground arith)
  | inr other ↦ other
]

-- Calls in the order of their times, from a start to an end.
abbrev pub Ordered : ℕ → List Call → ℕ → Type 0
Ordered start [] end = start ≤ end
Ordered start (attempt remote k now ∷ calls) end = (start ≤ now) × Ordered now calls end
Ordered start (clear k ∷ calls) end = Ordered start calls end

module _ (m : ℕ) where
  -- The times at which the process let the merchant pass since its last reset.
  abbrev pub noted : Remote → Bool → Answer → ℕ → List ℕ → List ℕ
  noted (answering given) mine answer now passed = passed
  noted absent mine answer now passed =
      if mine then passed_next 5 300000 answer now passed else passed
  noted failing mine answer now passed =
      if mine then passed_next 5 300000 answer now passed else passed

  unfoldable pub play : List Call → Hits → List ℕ → Hits × List ℕ
  unfolding check_totp_rate_limit clear_totp_attempts
  play [] hits passed = (hits, passed)
  play (attempt remote k now ∷ calls) hits passed =
      let (answer, next) = check_totp_rate_limit remote k now hits in
      play calls next (noted remote (k == m) answer now passed)
  play (clear k ∷ calls) hits passed =
      play calls (clear_totp_attempts k hits) (if k == m then [] else passed)

  abbrev Follows : ℕ → Hits → List ℕ → Type 0
  Follows now hits passed = Tracks 5 300000 now passed (hits (to_digits m))

  memory_limit-Follows :
      (start now k : ℕ) (mine : Bool) (hits : Hits) (passed : List ℕ)
      → start ≤ now
      → (k == m) ≡ mine
      → Follows start hits passed
      → let (answer, next) = memory_limit k now hits in
        Follows now next (if mine then passed_next 5 300000 answer now passed else passed)
  unfolding memory_limit
  memory_limit-Follows start now k true hits passed h e f =
      let same : k ≡ m = ground arith in
      rw same (admit-Reference 5 300000 start now (to_digits m) hits passed h f).1
  memory_limit-Follows start now k false hits passed h e f =
      rw (admit-other 5 300000 now (to_digits k) (to_digits m) hits (same_digits k m e))
        (Tracks-later 5 300000 start now passed (hits (to_digits m)) h f)

  clear-Follows :
      (now k : ℕ) (mine : Bool) (hits : Hits) (passed : List ℕ)
      → (k == m) ≡ mine
      → Follows now hits passed
      → Follows now (clear_totp_attempts k hits) (if mine then [] else passed)
  unfolding clear_totp_attempts
  clear-Follows now k true hits passed e f =
      let same : k ≡ m = ground arith in
      rw (same, same_text_refl (to_digits m)) (Tracks-none 5 300000 now)
  clear-Follows now k false hits passed e f = rw (same_digits k m e) f

  attempt-Follows :
      (start now k : ℕ) (remote : Remote) (hits : Hits) (passed : List ℕ)
      → start ≤ now
      → Follows start hits passed
      → let (answer, next) = check_totp_rate_limit remote k now hits in
        Follows now next (noted remote (k == m) answer now passed)
  unfolding check_totp_rate_limit
  attempt-Follows start now k (answering given) hits passed h f =
      Tracks-later 5 300000 start now passed (hits (to_digits m)) h f
  attempt-Follows start now k absent hits passed h f =
      memory_limit-Follows start now k (k == m) hits passed h refl f
  attempt-Follows start now k failing hits passed h f =
      memory_limit-Follows start now k (k == m) hits passed h refl f

  play-Follows :
      (start end : ℕ) (calls : List Call) (hits : Hits) (passed : List ℕ)
      → Ordered start calls end
      → Follows start hits passed
      → Follows end (play calls hits passed).0 (play calls hits passed).1
  unfolding play
  play-Follows start end [] hits passed h f =
      Tracks-later 5 300000 start end passed (hits (to_digits m)) h f
  play-Follows start end (attempt remote k now ∷ calls) hits passed (h, later) f =
      let step = check_totp_rate_limit remote k now hits in
      play-Follows now end calls step.1 (noted remote (k == m) step.0 now passed) later
        (attempt-Follows start now k remote hits passed h f)
  play-Follows start end (clear k ∷ calls) hits passed later f =
      play-Follows start end calls (clear_totp_attempts k hits) (if k == m then [] else passed)
        later (clear-Follows start k (k == m) hits passed refl f)

  -- If the clock does not run backwards, at most 5 of the attempts of a merchant that the process let
  -- pass since the merchant's last reset are in the 300 seconds at the end of a history of
  -- calls, whatever other merchants do and whenever the shared limiter fails.
  pub check_totp_rate_limit-count :
      (end : ℕ) (calls : List Call)
      → Ordered 0 calls end
      → count 300000 end (play calls no_hits []).1 ≤ 5
  check_totp_rate_limit-count end calls h =
      (play-Follows 0 end calls no_hits [] h (Tracks-none 5 300000 0)).limited

  -- If the clock does not run backwards and the shared limiter fails, an attempt passes exactly if fewer
  -- than 5 of the merchant passed in the 300 seconds before it since the last reset, and it is told how
  -- many remain.
  pub check_totp_rate_limit-Reference :
      (end : ℕ) (calls : List Call)
      → Ordered 0 calls end
      → let (hits, passed) = play calls no_hits [] in
        Reference 5 300000 end passed (check_totp_rate_limit failing m end hits).0
  unfolding check_totp_rate_limit memory_limit
  check_totp_rate_limit-Reference end calls h =
      let before = play calls no_hits [] in
      (admit-Reference 5 300000 end end (to_digits m) before.0 before.1 (omega arith)
        (play-Follows 0 end calls no_hits [] h (Tracks-none 5 300000 0))).0
