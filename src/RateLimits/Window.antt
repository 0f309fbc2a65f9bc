-- ===== src/RateLimits/Window.antt =====
-- The times that a limiter keeps, against all the times at which it let a call pass.
use accensa_app.Prelude.{
  ℕ, suc, ◌+◌, ◌-◌, ◌≤◌, ◌≡◌, refl, ◌∙◌, inl, inr, true, false, List, [], ◌∷◌, ◌++◌, length, ltb,
  leb, if◌then◌else◌, Bool-cases, arith, length-append,
}
use accensa_app.Prelude.Text.{same_text, same_text_refl}
use accensa_app.Money.{Text}
use accensa_app.RateLimits.{Answer, Hits, recent, decide, admit}

module _ (window : ℕ) where
  -- How many of the times are in the window that ends now.
  unfoldable pub count : ℕ → List ℕ → ℕ
  count now [] = 0
  count now (t ∷ times) =
      let rest = count now times in if ltb now (t + window) then suc rest else rest

  pub count-later :
      (now later : ℕ) (times : List ℕ) → now ≤ later → count later times ≤ count now times
  unfolding count
  count-later now later [] h = omega arith
  count-later now later (t ∷ times) h = ground (arith, count-later now later times h)

  count-append : (now : ℕ) (xs ys : List ℕ) → count now (xs ++ ys) ≡ count now xs + count now ys
  unfolding count
  count-append now [] ys = omega arith
  count-append now (x ∷ xs) ys = ground (arith, count-append now xs ys)

module _ (limit window : ℕ) where
  length-recent :
      (now : ℕ) (times : List ℕ) → length (recent window now times) ≡ count window now times
  unfolding recent count
  length-recent now [] = refl
  length-recent now (t ∷ times) = elim (Bool-cases (ltb now (t + window))) [
    | inl inside ↦ rw inside (omega (arith, length-recent now times))
    | inr outside ↦ rw outside (length-recent now times)
  ]

  count-recent :
      (now later : ℕ) (times : List ℕ)
      → now ≤ later
      → count window later (recent window now times) ≡ count window later times
  unfolding recent count
  count-recent now later [] h = refl
  count-recent now later (t ∷ times) h = elim (Bool-cases (ltb now (t + window))) [
    | inl inside ↦ rw (inside, count-recent now later times h) refl
    | inr outside ↦
        let gone : ltb later (t + window) ≡ false = ground arith in
        rw (outside, gone) (count-recent now later times h)
  ]

  -- The times that are kept count, from now on, as all the times at which a call passed.
  pub record Tracks (now : ℕ) (passed kept : List ℕ) : Type 0 where
    pub same : (later : ℕ) → now ≤ later → count window later kept ≡ count window later passed
    pub limited : count window now passed ≤ limit

  -- What a limiter does that keeps all the times.
  abbrev pub Reference : ℕ → List ℕ → Answer → Type 0
  Reference now passed answer =
      (answer.success ≡ ltb (count window now passed) limit)
      × (answer.remaining ≡ limit - suc (count window now passed))

  abbrev pub passed_next : Answer → ℕ → List ℕ → List ℕ
  passed_next answer now passed = if answer.success then now ∷ passed else passed

  abbrev pub Stepped : ℕ → Text → List ℕ → Answer × Hits → Type 0
  Stepped now key passed (answer, hits) =
      Reference now passed answer × Tracks now (passed_next answer now passed) (hits key)

  refused_step :
      (now : ℕ) (key : Text) (hits : Hits) (passed times : List ℕ)
      → Tracks now passed times
      → limit ≤ length times
      → length times ≡ count window now passed
      → Stepped now key passed (decide limit window true now key times hits)
  refused_step now key hits passed times h full e =
      let at : same_text key key ≡ true = same_text_refl key in
      let over : ltb (count window now passed) limit ≡ false = ground arith in
      rw (at, over) ((refl, omega arith), h)

  passed_step :
      (now : ℕ) (key : Text) (hits : Hits) (passed times : List ℕ)
      → Tracks now passed times
      → length times ≡ count window now passed
      → suc (length times) ≤ limit
      → Stepped now key passed (decide limit window false now key times hits)
  unfolding count
  passed_step now key hits passed times h e free =
      let at : same_text key key ≡ true = same_text_refl key in
      let under : ltb (count window now passed) limit ≡ true = ground arith in
      rw (at, under)
        (
          (refl, omega (arith, length-append times (now ∷ []))),
          record {
            same = λ later k.
                let more = count-append window later times (now ∷ []) in
                let old = h.same later k in ground arith;
            limited = ground arith;
          },
        )

  Tracks-recent :
      (start now : ℕ) (passed kept : List ℕ)
      → start ≤ now
      → Tracks start passed kept
      → Tracks now passed (recent window now kept)
  Tracks-recent start now passed kept h k = record {
    same = λ later l. count-recent now later kept l ∙ k.same later (omega arith);
    limited = omega (arith, count-later window start now passed h, k.limited);
  }

  pub Tracks-later :
      (start now : ℕ) (passed kept : List ℕ)
      → start ≤ now
      → Tracks start passed kept
      → Tracks now passed kept
  Tracks-later start now passed kept h k = record {
    same = λ later l. k.same later (omega arith);
    limited = omega (arith, count-later window start now passed h, k.limited);
  }

  pub Tracks-none : (now : ℕ) → Tracks now [] []
  unfolding count
  Tracks-none now = record { same = λ later l. refl; limited = omega arith }

  -- The hits of another key stay.
  pub admit-other :
      (now : ℕ) (key other : Text) (hits : Hits)
      → same_text key other ≡ false
      → (admit limit window now key hits).1 other ≡ hits other
  unfolding admit
  admit-other now key other hits h =
      elim (Bool-cases (leb limit (length (recent window now (hits key))))) [
        | inl full ↦ rw (full, h) refl
        | inr free ↦ rw (free, h) refl
      ]

  pub admit-Reference :
      (start now : ℕ) (key : Text) (hits : Hits) (passed : List ℕ)
      → start ≤ now
      → Tracks start passed (hits key)
      → Stepped now key passed (admit limit window now key hits)
  unfolding admit
  admit-Reference start now key hits passed h k =
      let times = recent window now (hits key) in
      let kept = Tracks-recent start now passed (hits key) h k in
      let long : length times ≡ count window now passed =
        length-recent now (hits key) ∙ k.same now h in
      elim (Bool-cases (leb limit (length times))) [
        | inl full ↦ rw full (refused_step now key hits passed times kept (ground arith) long)
        | inr free ↦ rw free (passed_step now key hits passed times kept long (ground arith))
      ]
