-- ===== src/Indexer/Inserts.antt =====
-- When insertPaymentRows succeeds, and what it does either way.
use accensa_app.Prelude.{
  ◌≡◌, refl, sym, ◌∙◌, ap₂, Bool, true, false, ◌&&◌, ◌||◌, ◌⊎◌, List, [], ◌∷◌, ◌++◌, Option, none,
  some, Option-cases, inl, inr, arith, All, ◌==◌, str_eq, String, all, Bool-cases, subst,
}
use accensa_app.Money.{Text}
use accensa_app.Indexer.{PaymentRow, Payment, Db}
use accensa_app.Indexer.Table.{
  upsert, upsert_all, is_written, written_with, returned_with, insert_statement, insert_checked,
  fits,
}
use accensa_app.Indexer.Batch.{payments_batch_size, chunk_rows}
use accensa_app.Indexer.Queries.{
  Query, query, applied, answered, stored, transaction, ended, began, commit_or, after,
  insert_chunk, insert_chunks, insert_payment_rows, ◌>>=◌,
}
use accensa_app.Indexer.Keys.{str_eq_comm, ==_comm}
use accensa_app.Indexer.Chunks.{
  join, join-chunk_rows, upserted, insert_payment_rows-upsert_all, insert_payment_rows-none,
}

-- No two rows are of one merchant and transaction.
abbrev pub IsDistinct : List PaymentRow → Type 0
IsDistinct [] = Unit
IsDistinct (r ∷ rs) = (is_written r rs ≡ false) × IsDistinct rs

abbrev Separate : List PaymentRow → List PaymentRow → Type 0
Separate written [] = Unit
Separate written (r ∷ rs) = (is_written r written ≡ false) × Separate written rs

same_row_comm :
    (x r : PaymentRow)
    → (x.merchant_id == r.merchant_id && str_eq x.tx_hash r.tx_hash)
      ≡ (r.merchant_id == x.merchant_id && str_eq r.tx_hash x.tx_hash)
same_row_comm x r =
    ap₂ (λ a. λ b. a && b) (==_comm x.merchant_id r.merchant_id) (str_eq_comm x.tx_hash r.tx_hash)

or_false : (a b : Bool) → a || b ≡ false → (a ≡ false) × (b ≡ false)
or_false a b h = ground arith

false_or : (a b : Bool) → a ≡ false → b ≡ false → a || b ≡ false
false_or a b h k = ground arith

nothing_written : (rs : List PaymentRow) → Separate [] rs
unfolding is_written
nothing_written [] = tt
nothing_written (r ∷ rs) = (refl, nothing_written rs)

Separate-more :
    (r : PaymentRow) (written rs : List PaymentRow)
    → is_written r rs ≡ false
    → Separate written rs
    → Separate (r ∷ written) rs
unfolding is_written
Separate-more r written [] h k = tt
Separate-more r written (x ∷ rs) h (first, rest) =
    let (one, others) =
      or_false (x.merchant_id == r.merchant_id && str_eq x.tx_hash r.tx_hash) (is_written r rs) h in
    (
      false_or (r.merchant_id == x.merchant_id && str_eq r.tx_hash x.tx_hash) (is_written x written)
          (sym (same_row_comm x r) ∙ one) first,
      Separate-more r written rs others rest,
    )

Separate-written :
    (r : PaymentRow) (out : Option Payment) (written rs : List PaymentRow)
    → is_written r rs ≡ false
    → Separate written rs
    → Separate (written_with r out written) rs
Separate-written r none written rs h k = k
Separate-written r (some p) written rs h k = Separate-more r written rs h k

returned_with-none :
    (out : Option Payment) (r : Option (List Payment × List Payment))
    → returned_with out r ≡ none
    → r ≡ none
returned_with-none out none h = refl
returned_with-none out (some x) h = absurd (cc)

insert_statement-succeeds :
    (written rs : List PaymentRow) (table : List Payment)
    → IsDistinct rs
    → Separate written rs
    → ¬ (insert_statement written rs table ≡ none)
unfolding insert_statement
insert_statement-succeeds written [] table d s h = cc
insert_statement-succeeds written (r ∷ rs) table (once, distinct) (fresh, separate) h =
    insert_statement-succeeds (written_with r (upsert r table).0 written) rs (upsert r table).1
      distinct (Separate-written r (upsert r table).0 written rs once separate)
      (returned_with-none (upsert r table).0 _ (rw fresh at h))

stored-none : (r : Option (List Payment × List Payment)) (db : Db) → stored r db ≡ none → r ≡ none
stored-none none db h = refl
stored-none (some (ps, table)) db h = absurd (cc)

after-succeeds :
    {N A B : Type 0} (f : A → Query N B) (r : Option A × (Db × N))
    → ¬ (r.0 ≡ none)
    → ((a : A) (w : Db × N) → ¬ ((f a w).0 ≡ none))
    → ¬ ((after f r).0 ≡ none)
after-succeeds f (none, w) h k e = h refl
after-succeeds f (some a, w) h k e = k a w e

applied-none-of :
    {N A : Type 0} (r : Option (A × Db)) (db : Db) (n : N) → (applied r db n).0 ≡ none → r ≡ none
applied-none-of none db n h = refl
applied-none-of (some (a, db')) db n h = absurd (cc)

answered-succeeds :
    {N A : Type 0} (f : Db → Option (A × Db)) (db : Db) (r : Bool × N)
    → r.0 ≡ false
    → ¬ (f db ≡ none)
    → ¬ ((answered f db r).0 ≡ none)
answered-succeeds f db (true, n) up h e = cc
answered-succeeds f db (false, n) up h e = h (applied-none-of (f db) db n e)

all-append {ℓ} :
    {A : Type ℓ} (f : A → Bool) (xs ys : List A)
    → all f (xs ++ ys) ≡ true
    → (all f xs ≡ true) × (all f ys ≡ true)
all-append f [] ys h = (refl, h)
all-append f (x ∷ xs) ys h = elim (Bool-cases (f x)) [
  | inl holds ↦ rw holds (all-append f xs ys (rw holds at h))
  | inr fails ↦ let clash : false ≡ true = rw fails at h in absurd (cc)
]

insert_checked-fit :
    (casts : Text → String → Bool) (rows : List PaymentRow) (table : List Payment)
    → all (fits casts) rows ≡ true
    → insert_checked casts rows table ≡ none
    → insert_statement [] rows table ≡ none
unfolding insert_checked
insert_checked-fit casts rows table fit h = rw fit at h

module _ {N : Type 0} (down : N → Bool × N) (casts : Text → String → Bool)
    (up : (n : N) → (down n).0 ≡ false) where
  commit_or-succeeds :
      {A : Type 0} (before : Db) (a : A) (r : Bool × N) (db : Db)
      → r.0 ≡ false
      → ¬ ((commit_or before a r db).0 ≡ none)
  commit_or-succeeds before a (true, n) db h e = cc
  commit_or-succeeds before a (false, n) db h e = cc

  ended-succeeds :
      {A : Type 0} (before : Db) (r : Option A × (Db × N))
      → ¬ (r.0 ≡ none)
      → ¬ ((ended down before r).0 ≡ none)
  ended-succeeds before (none, (db, n)) h e = h refl
  ended-succeeds before (some a, (db, n)) h e = commit_or-succeeds before a (down n) db (up n) e

  began-succeeds :
      {A : Type 0} (body : Query N A) (db : Db) (r : Bool × N)
      → r.0 ≡ false
      → ((w : Db × N) → ¬ ((body w).0 ≡ none))
      → ¬ ((began down body db r).0 ≡ none)
  began-succeeds body db (true, n) h k e = cc
  began-succeeds body db (false, n) h k e = ended-succeeds db (body (db, n)) (k (db, n)) e

  chunk-succeeds :
      (chunk : List PaymentRow) (w : Db × N)
      → all (fits casts) chunk ≡ true
      → IsDistinct chunk
      → Separate [] chunk
      → ¬ ((query down (insert_chunk casts chunk) w).0 ≡ none)
  unfolding query
  chunk-succeeds chunk (db, n) fit d s e =
      answered-succeeds (insert_chunk casts chunk) db (down n) (up n)
        (λ k. insert_statement-succeeds [] chunk db.payments d s (
          insert_checked-fit casts chunk db.payments fit
            (stored-none (insert_checked casts chunk db.payments) db k)))
        e

  insert_chunks-succeed :
      (chunks : List (List PaymentRow)) (payments : List Payment) (w : Db × N)
      → all (fits casts) (join chunks) ≡ true
      → All IsDistinct chunks
      → ¬ ((insert_chunks down casts chunks payments w).0 ≡ none)
  unfolding insert_chunks ◌>>=◌
  insert_chunks-succeed [] payments w f d e = cc
  insert_chunks-succeed (chunk ∷ chunks) payments w f (first, rest) e =
      let (fit, fit_rest) = all-append (fits casts) chunk (join chunks) f in
      after-succeeds (λ more. insert_chunks down casts chunks (payments ++ more))
        (query down (insert_chunk casts chunk) w)
        (chunk-succeeds chunk w fit first (nothing_written chunk))
        (λ more w'. insert_chunks-succeed chunks (payments ++ more) w' fit_rest rest) e

  insert_payment_rows-succeeds :
      (rows : List PaymentRow) (w : Db × N)
      → all (fits casts) rows ≡ true
      → All IsDistinct (chunk_rows rows payments_batch_size)
      → ¬ ((insert_payment_rows down casts rows w).0 ≡ none)
  unfolding insert_payment_rows transaction
  insert_payment_rows-succeeds rows (db, n) fit d e =
      let whole = join-chunk_rows rows payments_batch_size (omega arith) in
      began-succeeds (insert_chunks down casts (chunk_rows rows payments_batch_size) []) db (down n)
        (up n)
        (λ w.
          insert_chunks-succeed (chunk_rows rows payments_batch_size) [] w
            (subst (λ xs. all (fits casts) xs ≡ true) (sym whole) fit) d)
        e

-- An insert of rows in chunks either throws and leaves the database as it was, or returns the payments,
-- and leaves the table, that the rows give one at a time.
pub insert_payment_rows-Reference :
    {N : Type 0} (down : N → Bool × N) (casts : Text → String → Bool) (rows : List PaymentRow)
    (w : Db × N)
    → let r = insert_payment_rows down casts rows w in
      ((r.0 ≡ none) × (r.1.0 ≡ w.0))
      ⊎ ((r.0 ≡ some (upsert_all rows w.0.payments).0) × (r.1.0 ≡ upserted rows w.0))
insert_payment_rows-Reference down casts rows w =
    elim (Option-cases (insert_payment_rows down casts rows w).0) [
      | inl none' ↦ inl (none', insert_payment_rows-none down casts rows w none')
      | inr (payments, got) ↦
          let (same, table) = insert_payment_rows-upsert_all down casts rows w payments got in
          inr (rw (← same) got, table)
    ]

-- If no query fails, the columns take the values of every row, and no chunk has two rows of one merchant
-- and transaction, then an insert does not throw: it returns the payments, and leaves the table, that the rows give one at a time.
pub insert_payment_rows-some :
    {N : Type 0} (down : N → Bool × N) (casts : Text → String → Bool) (rows : List PaymentRow)
    (w : Db × N) (up : (n : N) → (down n).0 ≡ false)
    → all (fits casts) rows ≡ true
    → All IsDistinct (chunk_rows rows payments_batch_size)
    → let r = insert_payment_rows down casts rows w in
      (r.0 ≡ some (upsert_all rows w.0.payments).0) × (r.1.0 ≡ upserted rows w.0)
insert_payment_rows-some down casts rows w up fit distinct =
    elim (insert_payment_rows-Reference down casts rows w) [
      | inl (none', _) ↦
          absurd (insert_payment_rows-succeeds down casts up rows w fit distinct none')
      | inr done ↦ done
    ]
