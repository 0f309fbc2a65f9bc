-- ===== src/Indexer/Table.antt =====
-- The statements on `payments` and `sync_state`: the multi-row INSERT of buildBatchInsertSql, and those
-- of recordSettlement, setLastSyncedLedger and rollbackSyncToLedger of lib/db.ts.
use accensa_app.Prelude.{
  ℕ, suc, ◌-◌, ◌^◌, leb, length, all, String, Bool, true, false, ◌&&◌, ◌||◌, not, List, [], ◌∷◌,
  Option, none, some, ltb, ◌==◌, if◌then◌else◌, str_eq,
}
use accensa_app.Prelude.Text.{codes}
use accensa_app.Money.{Text}
use accensa_app.Indexer.{PaymentRow, Payment, SyncState}

abbrev pub has_key : ℕ → String → Payment → Bool
has_key m hash p = p.merchant_id == m && str_eq p.tx_hash hash

abbrev pub is_none {ℓ} : {A : Type ℓ} → Option A → Bool
is_none none = true
is_none (some a) = false

-- The row that the INSERT makes where the key is new.
abbrev pub inserted : PaymentRow → Payment
inserted r = record {
  merchant_id = r.merchant_id;
  tx_hash = r.tx_hash;
  ledger = some r.ledger;
  payer = some r.payer;
  amount = some r.amount;
  asset = some r.asset;
  ts = some r.ts;
  route = none;
  method = none;
  request_id = none;
  hook_reported_at = none;
}

-- `SET ledger = EXCLUDED.ledger, ...`
abbrev pub filled : PaymentRow → Payment → Payment
filled r p = record p {
  ledger = some r.ledger;
  payer = some r.payer;
  amount = some r.amount;
  asset = some r.asset;
  ts = some r.ts;
}

-- One row of the INSERT: what RETURNING has of it, and the table.
unfoldable pub upsert : PaymentRow → List Payment → Option Payment × List Payment
upsert r [] = (some (inserted r), inserted r ∷ [])
upsert r (p ∷ ps) =
    let (out, qs) = upsert r ps in
    if has_key r.merchant_id r.tx_hash p
    then (if is_none p.ledger then (some (filled r p), filled r p ∷ ps) else (none, p ∷ ps))
    else (out, p ∷ qs)

abbrev pub add_returned : Option Payment → List Payment → List Payment
add_returned none ps = ps
add_returned (some p) ps = p ∷ ps

-- The rows one at a time, as the statement for a single row has them.
unfoldable pub upsert_all : List PaymentRow → List Payment → List Payment × List Payment
unfolding upsert
upsert_all [] table = ([], table)
upsert_all (r ∷ rs) table =
    let (out, table') = upsert r table in
    let (rest, table'') = upsert_all rs table' in (add_returned out rest, table'')

unfoldable pub is_written : PaymentRow → List PaymentRow → Bool
is_written r [] = false
is_written r (x ∷ xs) =
    (x.merchant_id == r.merchant_id && str_eq x.tx_hash r.tx_hash) || is_written r xs

abbrev pub written_with : PaymentRow → Option Payment → List PaymentRow → List PaymentRow
written_with r none written = written
written_with r (some p) written = r ∷ written

abbrev pub returned_with :
    Option Payment → Option (List Payment × List Payment) → Option (List Payment × List Payment)
returned_with out none = none
returned_with out (some (ps, table)) = some (add_returned out ps, table)

-- The statement for several rows, with those it has written so far. None is the error of PostgreSQL
-- "ON CONFLICT DO UPDATE command cannot affect row a second time", for a row that conflicts with one
-- that the same statement wrote.
unfoldable pub insert_statement :
    List PaymentRow → List PaymentRow → List Payment → Option (List Payment × List Payment)
unfolding upsert is_written
insert_statement written [] table = some ([], table)
insert_statement written (r ∷ rs) table =
    let (out, table') = upsert r table in
    let rest = insert_statement (written_with r out written) rs table' in
    if is_written r written then none else returned_with out rest

-- A text that a VARCHAR of so many characters takes.
abbrev pub is_within : ℕ → String → Bool
is_within n s = leb (length (codes s)) n

abbrev pub max_bigint : ℕ
max_bigint = 2 ^ 63 - 1

-- The columns of `payments` take the values of the row; `casts` says whether PostgreSQL reads the amount
-- as a NUMERIC and the close time as a TIMESTAMPTZ.
unfoldable pub fits : (Text → String → Bool) → PaymentRow → Bool
fits casts r =
    is_within 64 r.tx_hash
    && (leb r.ledger max_bigint
        && (is_within 56 r.payer && (is_within 64 r.asset && casts r.amount r.ts)))

-- The INSERT, which PostgreSQL refuses also where a column does not take a value.
unfoldable pub insert_checked :
    (Text → String → Bool) → List PaymentRow → List Payment → Option (List Payment × List Payment)
unfolding insert_statement fits
insert_checked casts rows table =
    if all (fits casts) rows then insert_statement [] rows table else none

-- A settlement that the merchant reports, with the key of its payment.
pub record Settlement : Type 0 where
  pub merchant_id : ℕ
  pub tx_hash : String
  pub route : String
  pub method : String
  pub request_id : Option String
  pub payer : Option String
  pub reported_at : ℕ

-- `hook_reported_at IS NULL OR hook_reported_at < $6`
abbrev pub is_newer : ℕ → Option ℕ → Bool
is_newer at none = true
is_newer at (some t) = ltb t at

-- `SET route = $3, method = $4, request_id = $5, hook_reported_at = $6`
abbrev pub attributed : Settlement → Payment → Payment
attributed s p = record p {
  route = some s.route;
  method = some s.method;
  request_id = s.request_id;
  hook_reported_at = some s.reported_at;
}

-- The UPDATE of recordSettlement: its rowCount and the table.
unfoldable pub update_reported : Settlement → List Payment → ℕ × List Payment
update_reported s [] = (0, [])
update_reported s (p ∷ ps) =
    let (n, qs) = update_reported s ps in
    if has_key s.merchant_id s.tx_hash p && is_newer s.reported_at p.hook_reported_at
    then (suc n, attributed s p ∷ qs)
    else (n, p ∷ qs)

-- A row with a null ledger.
abbrev pub staged : Settlement → Payment
staged s = record {
  merchant_id = s.merchant_id;
  tx_hash = s.tx_hash;
  ledger = none;
  payer = s.payer;
  amount = none;
  asset = none;
  ts = none;
  route = some s.route;
  method = some s.method;
  request_id = s.request_id;
  hook_reported_at = some s.reported_at;
}

-- The INSERT of recordSettlement.
unfoldable pub insert_reported : Settlement → List Payment → List Payment
insert_reported s [] = staged s ∷ []
insert_reported s (p ∷ ps) =
    let qs = insert_reported s ps in
    if has_key s.merchant_id s.tx_hash p
    then (if is_newer s.reported_at p.hook_reported_at then attributed s p ∷ ps else p ∷ ps)
    else p ∷ qs

-- `DELETE FROM payments WHERE merchant_id = $1 AND ledger > $2`: its rowCount and the table.
abbrev pub is_above : ℕ → Option ℕ → Bool
is_above n none = false
is_above n (some l) = ltb n l

unfoldable pub delete_above : ℕ → ℕ → List Payment → ℕ × List Payment
delete_above m n [] = (0, [])
delete_above m n (p ∷ ps) =
    let (k, qs) = delete_above m n ps in
    if p.merchant_id == m && is_above n p.ledger then (suc k, qs) else (k, p ∷ qs)

-- `SELECT last_ledger, updated_at FROM sync_state WHERE merchant_id = $1`
unfoldable pub find_state : ℕ → List SyncState → Option SyncState
find_state m [] = none
find_state m (s ∷ ss) = if s.merchant_id == m then some s else find_state m ss

abbrev pub ledger_of : Option SyncState → Option ℕ
ledger_of none = none
ledger_of (some s) = some s.last_ledger

-- The upsert of setLastSyncedLedger, which only moves forward, and that of rollbackSyncToLedger,
-- which moves either way.
unfoldable pub set_state : Bool → ℕ → ℕ → ℕ → List SyncState → List SyncState
set_state forward_only m n now [] =
    (record { merchant_id = m; last_ledger = n; updated_at = now }) ∷ []
set_state forward_only m n now (s ∷ ss) =
    let rest = set_state forward_only m n now ss in
    if s.merchant_id == m
    then (if not forward_only || ltb s.last_ledger n
        then (record s { last_ledger = n; updated_at = now }) ∷ ss
        else s ∷ ss)
    else s ∷ rest
