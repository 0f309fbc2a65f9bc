-- ===== src/Zanzibar/Grants.antt =====
-- The local store, against the permissions of the SpiceDB schema (zanzibar/schema.ts).
use accensa_app.Prelude.{
  ℕ, ◌≡◌, refl, sym, ◌∙◌, ◌⊎◌, ◌↔◌, inl, inr, Bool, true, false, ◌&&◌, ◌||◌, List, [], ◌∷◌, ◌==◌,
  Bool-cases, arith, All,
}
use accensa_app.Prelude.Text.{codes, same_text}
use accensa_app.Money.{Text}
use accensa_app.Zanzibar.{
  Permission, manage_merchant, edit_merchant, view_payments, view_dashboard, manage_team,
  manage_billing, delete_merchant, Row, row_grants, any_row, check_local,
}

-- `relation`, with admin for an owner as the store has it.
pub data Role : Type 0 where
  owner editor viewer : Role

-- The relations of which a permission of the schema is the union.
abbrev pub schema : Permission → List Role
schema manage_merchant = owner ∷ []
schema edit_merchant = owner ∷ editor ∷ []
schema view_payments = owner ∷ editor ∷ viewer ∷ []
schema view_dashboard = owner ∷ editor ∷ viewer ∷ []
schema manage_team = owner ∷ []
schema manage_billing = owner ∷ []
schema delete_merchant = owner ∷ []

abbrev same_role : Role → Role → Bool
same_role owner owner = true
same_role editor editor = true
same_role viewer viewer = true
same_role _ _ = false

unfoldable pub in_union : Role → List Role → Bool
in_union role [] = false
in_union role (r ∷ roles) = same_role role r || in_union role roles

-- A row with a relation of the schema, or with admin.
pub data Has : Text → Role → Type 0 where
  as_owner : Has (codes "owner") owner
  as_admin : Has (codes "admin") owner
  as_editor : Has (codes "editor") editor
  as_viewer : Has (codes "viewer") viewer

in_union-owner : (p : Permission) → in_union owner (schema p) ≡ true
unfolding in_union
in_union-owner manage_merchant = refl
in_union-owner edit_merchant = refl
in_union-owner view_payments = refl
in_union-owner view_dashboard = refl
in_union-owner manage_team = refl
in_union-owner manage_billing = refl
in_union-owner delete_merchant = refl

row_grants-editor : (p : Permission) → row_grants p (codes "editor") ≡ in_union editor (schema p)
unfolding row_grants in_union
row_grants-editor manage_merchant = refl
row_grants-editor edit_merchant = refl
row_grants-editor view_payments = refl
row_grants-editor view_dashboard = refl
row_grants-editor manage_team = refl
row_grants-editor manage_billing = refl
row_grants-editor delete_merchant = refl

row_grants-viewer : (p : Permission) → row_grants p (codes "viewer") ≡ in_union viewer (schema p)
unfolding row_grants in_union
row_grants-viewer manage_merchant = refl
row_grants-viewer edit_merchant = refl
row_grants-viewer view_payments = refl
row_grants-viewer view_dashboard = refl
row_grants-viewer manage_team = refl
row_grants-viewer manage_billing = refl
row_grants-viewer delete_merchant = refl

row_grants-schema :
    (p : Permission) (relation : Text) (role : Role)
    → Has relation role
    → row_grants p relation ≡ in_union role (schema p)
unfolding row_grants
row_grants-schema p _ _ as_owner = sym (in_union-owner p)
row_grants-schema p _ _ as_admin = sym (in_union-owner p)
row_grants-schema p _ _ as_editor = row_grants-editor p
row_grants-schema p _ _ as_viewer = row_grants-viewer p

-- A relation that is one of the schema's, or admin.
abbrev pub Known : Row → Type 0
Known row = (role : Role) × Has row.relation role

-- A row that gives the user a role at the merchant, of which the permission is made.
pub record Granting (merchant : ℕ) (p : Permission) (user : Text) (row : Row) : Type 0 where
  pub of_merchant : row.merchant_id ≡ merchant
  pub of_user : same_text row.user user ≡ true
  pub role : Role
  pub has_role : Has row.relation role
  pub in_schema : in_union role (schema p) ≡ true

-- Some row of a list.
abbrev pub AnyRow : (Row → Type 0) → List Row → Type 0
AnyRow P [] = ⊥
AnyRow P (row ∷ rows) = P row ⊎ AnyRow P rows

module _ (merchant : ℕ) (p : Permission) (user : Text) where
  any_row-Granting :
      (rows : List Row)
      → All Known rows
      → any_row merchant p user rows ≡ true
      → AnyRow (Granting merchant p user) rows
  unfolding any_row
  any_row-Granting [] known h = absurd (cc)
  any_row-Granting (row ∷ rows) ((role, has), known) h =
      elim (Bool-cases (row.merchant_id == merchant && same_text row.user user)) [
        | inr other ↦ inr (any_row-Granting rows known (rw other at h))
        | inl mine ↦ elim (Bool-cases (row_grants p row.relation)) [
          | inl grants ↦ inl (record {
            of_merchant = ground arith;
            of_user = ground arith;
            role = role;
            has_role = has;
            in_schema = sym (row_grants-schema p row.relation role has) ∙ grants;
          })
          | inr passes ↦ inr (any_row-Granting rows known (rw (mine, passes) at h))
        ]
      ]

  Granting-any_row :
      (rows : List Row)
      → AnyRow (Granting merchant p user) rows
      → any_row merchant p user rows ≡ true
  unfolding any_row
  Granting-any_row [] h = absurd h
  Granting-any_row (row ∷ rows) (inl g) =
      let mine : (row.merchant_id == merchant && same_text row.user user) ≡ true =
        ground (arith, g.of_merchant, g.of_user) in
      let grants : row_grants p row.relation ≡ true =
        row_grants-schema p row.relation g.role g.has_role ∙ g.in_schema in
      rw (mine, grants) refl
  Granting-any_row (row ∷ rows) (inr later) =
      let rest = Granting-any_row rows later in
      elim (Bool-cases (row.merchant_id == merchant && same_text row.user user)) [
        | inr other ↦ rw other rest
        | inl mine ↦ elim (Bool-cases (row_grants p row.relation)) [
          | inl grants ↦ rw (mine, grants) refl
          | inr passes ↦ rw (mine, passes) rest
        ]
      ]

  -- Where every row has a relation of the schema, or admin, the local store gives a user a permission at a
  -- merchant, whose number is not 0, exactly if some row gives the user there a role of which the
  -- schema makes the permission, admin counting as owner.
  pub check_local-Granting :
      (rows : List Row)
      → All Known rows
      → ¬ (merchant ≡ 0)
      → (check_local rows merchant p user ≡ true) ↔ AnyRow (Granting merchant p user) rows
  unfolding check_local
  check_local-Granting rows known h =
      let some_merchant : (merchant == 0) ≡ false = ground arith in
      rw some_merchant (any_row-Granting rows known, Granting-any_row rows)
