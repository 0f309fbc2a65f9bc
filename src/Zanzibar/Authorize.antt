-- ===== src/Zanzibar/Authorize.antt =====
-- What `authorize` lets through.
use accensa_app.Prelude.{
  ℕ, ◌≡◌, refl, sym, ◌∙◌, Bool, true, false, List, [], ◌∷◌, Option, none, some, Option-cases, inl,
  inr, All,
}
use accensa_app.Money.{Text}
use accensa_app.Zanzibar.{
  Permission, permission_of, Row, Remote, absent, failing, answering, check_local, check_delegating,
  Headers, user_ref, subject_of, authorize_subject, authorize_merchant, refuse_unless, authorize,
}
use accensa_app.Zanzibar.Grants.{Known, AnyRow, Granting, check_local-Granting}

-- A cluster that is not asked or that fails.
abbrev pub IsLocal : Remote → Type 0
IsLocal absent = Unit
IsLocal failing = Unit
IsLocal (answering permitted) = ⊥

refuse_unless-none :
    (remote : Remote) (rows : List Row) (b : Bool) → refuse_unless remote rows b ≡ none → b ≡ true
refuse_unless-none remote rows true h = refl
refuse_unless-none remote rows false h = absurd (cc)

check_delegating-local :
    (remote : Remote) (rows : List Row) (merchant : ℕ) (p : Permission) (user : Text)
    → IsLocal remote
    → check_delegating remote rows merchant p user ≡ check_local rows merchant p user
unfolding check_delegating
check_delegating-local absent rows merchant p user h = refl
check_delegating-local failing rows merchant p user h = refl
check_delegating-local (answering b) rows merchant p user h = absurd h

-- A permission that is known, a merchant and a subject, whom the check permits.
pub record Permitted (remote : Remote) (rows : List Row) (value : Text) (merchant : Option ℕ)
    (subject : Text) : Type 0 where
  pub permission : Permission
  pub is_known : permission_of value ≡ some permission
  pub number : ℕ
  pub of_merchant : merchant ≡ some number
  pub named : ¬ (subject ≡ [])
  pub permits : check_delegating remote rows number permission (user_ref subject) ≡ true

module _ (remote : Remote) (rows : List Row) where
  authorize_subject-Permitted :
      (value : Text) (p : Permission) (m : ℕ) (subject : Text)
      → permission_of value ≡ some p
      → authorize_subject remote rows p m subject ≡ none
      → Permitted remote rows value (some m) subject
  authorize_subject-Permitted value p m [] known h = absurd (cc)
  authorize_subject-Permitted value p m (c ∷ cs) known h = record {
    permission = p;
    is_known = known;
    number = m;
    of_merchant = refl;
    named = cc;
    permits = refuse_unless-none remote rows _ h;
  }

  authorize_merchant-Permitted :
      (value : Text) (p : Permission) (merchant : Option ℕ) (subject : Text)
      (request : Option Headers)
      → permission_of value ≡ some p
      → authorize_merchant remote rows p merchant subject request ≡ none
      → Permitted remote rows value merchant (subject_of subject request)
  authorize_merchant-Permitted value p none subject request known h = absurd (cc)
  authorize_merchant-Permitted value p (some m) subject request known h =
      authorize_subject-Permitted value p m (subject_of subject request) known h

  authorize-Permitted :
      (value : Text) (merchant : Option ℕ) (subject : Text) (request : Option Headers)
      → authorize remote rows value merchant subject request ≡ none
      → Permitted remote rows value merchant (subject_of subject request)
  unfolding authorize
  authorize-Permitted value merchant subject request h = elim (Option-cases (permission_of value)) [
    | inl unknown ↦ let k = rw unknown at h in absurd (cc)
    | inr (p, known) ↦
        authorize_merchant-Permitted value p merchant subject request known (rw known at h)
  ]

  check_local-number :
      (m : ℕ) (p : Permission) (user : Text) → check_local rows m p user ≡ true → ¬ (m ≡ 0)
  unfolding check_local
  check_local-number m p user h = λ e. let k = rw e at h in cc

  -- If the cluster is not configured or fails, and every row has a relation of the schema or admin, then a
  -- request that is let through names a permission of the schema, a merchant and a subject, and some row
  -- gives that subject a role at that merchant of which the schema makes the permission.
  pub authorize-Granting :
      (value : Text) (merchant : Option ℕ) (subject : Text) (request : Option Headers)
      → IsLocal remote
      → All Known rows
      → authorize remote rows value merchant subject request ≡ none
      → (p : Permission) × (permission_of value ≡ some p)
        × ((m : ℕ) × (merchant ≡ some m)
            × AnyRow (Granting m p (user_ref (subject_of subject request))) rows)
  authorize-Granting value merchant subject request local known h =
      let permitted = authorize-Permitted value merchant subject request h in
      let m = permitted.number in
      let p = permitted.permission in
      let user = user_ref (subject_of subject request) in
      let checked : check_local rows m p user ≡ true =
        sym (check_delegating-local remote rows m p user local) ∙ permitted.permits in
      (
        p,
        permitted.is_known,
        (
          m,
          permitted.of_merchant,
          (check_local-Granting m p user rows known (check_local-number m p user checked)).0
              checked,
        ),
      )
