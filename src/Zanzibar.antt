-- ===== src/Zanzibar.antt =====
-- apps/web/src/lib/zanzibar: checks and authorization. A row of role_tuples is a record, and what SpiceDB answers is an argument.
-- The row-level security of the table hides nothing from a query by the merchant's own number, and the
-- database is taken to answer.
pub mod Grants
pub mod Authorize
mod Tests
use accensa_app.Prelude.{
  ℕ, suc, Bool, true, false, ◌&&◌, ◌||◌, List, [], ◌∷◌, ◌++◌, Option, none, some, ◌==◌, ltb,
  if◌then◌else◌,
}
use accensa_app.Prelude.Text.{codes, same_text, is_space, drop_spaces}
use accensa_app.Prelude.Decimal.{to_digits}
use accensa_app.Money.{Text}

-- `PERMISSIONS`
pub data Permission : Type 0 where
  manage_merchant edit_merchant view_payments view_dashboard : Permission
  manage_team manage_billing delete_merchant : Permission

abbrev pub permission_name : Permission → Text
permission_name manage_merchant = codes "manage_merchant"
permission_name edit_merchant = codes "edit_merchant"
permission_name view_payments = codes "view_payments"
permission_name view_dashboard = codes "view_dashboard"
permission_name manage_team = codes "manage_team"
permission_name manage_billing = codes "manage_billing"
permission_name delete_merchant = codes "delete_merchant"

abbrev pub permissions : List Permission
permissions =
    manage_merchant ∷ edit_merchant ∷ view_payments ∷ view_dashboard ∷ manage_team ∷ manage_billing
    ∷ delete_merchant ∷ []

unfoldable pub find_permission : Text → List Permission → Option Permission
unfolding same_text
find_permission value [] = none
find_permission value (p ∷ ps) =
    let rest = find_permission value ps in
    if same_text value (permission_name p) then some p else rest

-- `permissionOf`
unfoldable pub permission_of : Text → Option Permission
unfolding find_permission
permission_of value = find_permission value permissions

pub record Row : Type 0 where
  pub merchant_id : ℕ
  pub relation : Text
  pub user : Text

abbrev pub is_view : Permission → Bool
is_view view_payments = true
is_view view_dashboard = true
is_view _ = false

abbrev pub is_edit : Permission → Bool
is_edit edit_merchant = true
is_edit _ = false

abbrev pub is_owner : Text → Bool
is_owner relation = same_text relation (codes "owner") || same_text relation (codes "admin")

-- The body of the loop over the rows of a user.
unfoldable pub row_grants : Permission → Text → Bool
unfolding same_text
row_grants permission relation =
    is_owner relation
    || is_view permission
    || (is_edit permission && (same_text relation (codes "editor") || is_owner relation))

-- The loop over the rows, of which the query returns those of the merchant and the user.
unfoldable pub any_row : ℕ → Permission → Text → List Row → Bool
unfolding same_text row_grants
any_row merchant permission user [] = false
any_row merchant permission user (row ∷ rows) =
    let rest = any_row merchant permission user rows in
    if row.merchant_id == merchant && same_text row.user user
    then (if row_grants permission row.relation then true else rest)
    else rest

-- `check` of PostgresZanzibarStore for the object of a merchant's number; where the object has none, the
-- number is 0.
unfoldable pub check_local : List Row → ℕ → Permission → Text → Bool
unfolding any_row
check_local rows merchant permission user =
    if merchant == 0 then false else any_row merchant permission user rows

-- What the cluster answers to a check: it is not configured, the call throws, or it permits or not.
pub data Remote : Type 0 where
  absent failing : Remote
  answering : Bool → Remote

-- `check` of DelegatingZanzibarClient
unfoldable pub check_delegating : Remote → List Row → ℕ → Permission → Text → Bool
unfolding check_local
check_delegating absent rows merchant permission user = check_local rows merchant permission user
check_delegating failing rows merchant permission user = check_local rows merchant permission user
check_delegating (answering permitted) rows merchant permission user = permitted

-- `authorize`: a refusal with its status, or none.
pub data Refusal : Type 0 where
  unknown_permission unauthorized permission_denied : Refusal

abbrev pub status : Refusal → ℕ
status unknown_permission = 400
status unauthorized = 401
status permission_denied = 403

pub record Headers : Type 0 where
  pub accensa_sub : Option Text
  pub authorization : Option Text

unfoldable pub has_prefix : Text → Text → Bool
has_prefix [] text = true
has_prefix (c ∷ cs) [] = false
has_prefix (c ∷ cs) (d ∷ text) = c == d && has_prefix cs text

abbrev pub user_ref : Text → Text
user_ref subject = if has_prefix (codes "user:") subject then subject else codes "user:" ++ subject

-- `replace(/^Bearer\s+/, '')`
unfoldable pub strip_prefix : Text → Text → Option Text
strip_prefix [] text = some text
strip_prefix (c ∷ cs) [] = none
strip_prefix (c ∷ cs) (d ∷ text) = let rest = strip_prefix cs text in if c == d then rest else none

abbrev after_bearer : Text → Option Text → Text
after_bearer header none = header
after_bearer header (some []) = header
after_bearer header (some (c ∷ cs)) = if is_space c then drop_spaces cs else header

-- The subject that the headers give.
abbrev pub from_headers : Option Headers → Text
from_headers none = []
from_headers (some headers) = elim headers.accensa_sub [
  | some sub ↦ sub
  | none ↦ elim headers.authorization [
    | some header ↦ after_bearer header (strip_prefix (codes "Bearer") header)
    | none ↦ []
  ]
]

-- A subject that is empty counts as missing.
abbrev pub subject_of : Text → Option Headers → Text
subject_of [] request = from_headers request
subject_of (c ∷ cs) request = c ∷ cs

module _ (remote : Remote) (rows : List Row) where
  abbrev pub refuse_unless : Bool → Option Refusal
  refuse_unless true = none
  refuse_unless false = some permission_denied

  abbrev pub authorize_subject : Permission → ℕ → Text → Option Refusal
  authorize_subject permission merchant [] = some unauthorized
  authorize_subject permission merchant (c ∷ cs) =
      refuse_unless (check_delegating remote rows merchant permission (user_ref (c ∷ cs)))

  abbrev pub authorize_merchant : Permission → Option ℕ → Text → Option Headers → Option Refusal
  authorize_merchant permission none subject request = some unauthorized
  authorize_merchant permission (some merchant) subject request =
      authorize_subject permission merchant (subject_of subject request)

  abbrev pub authorize_known : Option Permission → Option ℕ → Text → Option Headers → Option Refusal
  authorize_known none merchant subject request = some unknown_permission
  authorize_known (some permission) merchant subject request =
      authorize_merchant permission merchant subject request

  unfoldable pub authorize : Text → Option ℕ → Text → Option Headers → Option Refusal
  unfolding permission_of check_delegating has_prefix strip_prefix drop_spaces is_space
  authorize permission merchant subject request =
      authorize_known (permission_of permission) merchant subject request

  -- `can`
  unfoldable pub can : Text → Option ℕ → Text → Option Headers → Bool
  unfolding authorize
  can permission merchant subject request = elim (authorize permission merchant subject request) [
    | none ↦ true
    | some refusal ↦ false
  ]
