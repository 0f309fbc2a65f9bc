-- ===== src/Zanzibar/Tests.antt =====
-- The rows of a merchant, and the theorems at them.
use accensa_app.Prelude.{ℕ, ◌≡◌, refl, true, false, List, [], ◌∷◌, Option, none, some, All}
use accensa_app.Prelude.Text.{codes}
use accensa_app.Zanzibar.{
  Permission, view_payments, permission_of, Row, absent, failing, answering, check_local, Headers,
  user_ref, subject_of, authorize, can, permission_denied, unknown_permission, unauthorized,
}
use accensa_app.Zanzibar.Grants.{Known, AnyRow, Granting, editor, viewer, as_editor, as_viewer}
use accensa_app.Zanzibar.Authorize.{authorize-Granting}

abbrev rows : List Row
rows =
    record { merchant_id = 7; relation = codes "viewer"; user = codes "user:ann" }
    ∷ record { merchant_id = 7; relation = codes "editor"; user = codes "user:bob" }
    ∷ []

rows-Known : All Known rows
rows-Known = ((viewer, as_viewer), ((editor, as_editor), tt))

abbrev bob : Option Headers
bob = some (record { accensa_sub = none; authorization = some (codes "Bearer  bob") })

bob_edits : authorize failing rows (codes "edit_merchant") (some 7) [] bob ≡ none
unfolding authorize
bob_edits = refl

ann_reads :
    authorize absent rows (codes "edit_merchant") (some 7) (codes "ann") bob
    ≡ some permission_denied
unfolding authorize
ann_reads = refl

no_permission : authorize absent rows (codes "edit") (some 7) [] bob ≡ some unknown_permission
unfolding authorize
no_permission = refl

nobody : authorize absent rows (codes "view_payments") (some 7) [] none ≡ some unauthorized
unfolding authorize
nobody = refl

not_asked : can (answering false) rows (codes "view_payments") (some 7) [] bob ≡ false
unfolding can
not_asked = refl

-- A relation that the schema does not give for payments lets its user see them.
member_reads :
    check_local
      (record { merchant_id = 7; relation = codes "member"; user = codes "user:eve" } ∷ [])
      7
      view_payments
      (codes "user:eve")
    ≡ true
unfolding check_local
member_reads = refl

authorize-Granting_example :
    (p : Permission) × (permission_of (codes "edit_merchant") ≡ some p)
    × ((m : ℕ) × (some 7 ≡ some m) × AnyRow (Granting m p (user_ref (subject_of [] bob))) rows)
authorize-Granting_example =
    authorize-Granting failing rows (codes "edit_merchant") (some 7) [] bob tt rows-Known bob_edits
