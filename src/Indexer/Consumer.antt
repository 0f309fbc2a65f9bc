-- ===== src/Indexer/Consumer.antt =====
-- The consumer of a sync's sweep: what one call of it does to the database.
use accensa_app.Prelude.{
  ◌≡◌, refl, sym, subst, ◌∙◌, ℕ, String, true, false, List, [], ◌∷◌, Option, none, some, Bool-cases,
  inl, inr, str_eq,
}
use accensa_app.Pager.{RawEvent}
use accensa_app.Pager.Members.{IsIn}
use accensa_app.Indexer.{TransferEvent, PaymentRow, Payment, Db, Merchant}
use accensa_app.Indexer.Decode.{
  Native, decode_transfer_event, add_event, row_of, events_to_payment_rows,
}
use accensa_app.Indexer.Table.{upsert_all}
use accensa_app.Indexer.Queries.{insert_payment_rows}
use accensa_app.Indexer.Window.{Services, World, consumed, consume_rows, on_events}
use accensa_app.Indexer.Upserts.{IsRecorded, AllRecorded, upsert_all-keeps, upsert_all-AllRecorded}
use accensa_app.Indexer.Chunks.{upserted, insert_payment_rows-upsert_all, insert_payment_rows-none}

add_event-AllRecorded :
    (merchant : Merchant) (o : Option TransferEvent) (rest : List PaymentRow × ℕ)
    (table : List Payment)
    → AllRecorded (add_event merchant o rest).0 table
    → AllRecorded rest.0 table
      × ((t : TransferEvent)
          → o ≡ some t
          → str_eq t.to merchant.address ≡ true
          → IsRecorded merchant.id t.tx_hash table)
add_event-AllRecorded merchant none (rows, n) table all = (all, λ t same mine. absurd (cc))
add_event-AllRecorded merchant (some x) (rows, n) table all =
    elim (Bool-cases (str_eq x.to merchant.address)) [
      | inl to ↦
          let (first, rest) : AllRecorded (row_of merchant x ∷ rows) table = rw to at all in
          (
            rest,
            λ t same mine.
                let known : x ≡ t = cc in
                subst (λ y. IsRecorded merchant.id y.tx_hash table) known first,
          )
      | inr other ↦ (
        rw other at all,
        λ t same mine.
            let known : x ≡ t = cc in
            let also : str_eq x.to merchant.address ≡ true =
              subst (λ y. str_eq y.to merchant.address ≡ true) (sym known) mine in
            absurd (cc),
      )
    ]

module _ (native_of : String → Option Native) (merchant : Merchant) where
  -- A transfer to the merchant that the event decodes to is recorded.
  abbrev pub IsPaid : RawEvent → List Payment → Type 0
  IsPaid e table =
      (t : TransferEvent)
      → decode_transfer_event native_of e ≡ some t
      → str_eq t.to merchant.address ≡ true
      → IsRecorded merchant.id t.tx_hash table

  AllRecorded-IsPaid :
      (es : List RawEvent) (table : List Payment)
      → AllRecorded (events_to_payment_rows native_of merchant es).0 table
      → (e : RawEvent) → IsIn e es
      → IsPaid e table
  unfolding events_to_payment_rows
  AllRecorded-IsPaid [] table all e has = elim has [ ]
  AllRecorded-IsPaid (x ∷ es) table all e has =
      let (rest, first) =
        add_event-AllRecorded merchant (decode_transfer_event native_of x)
          (events_to_payment_rows native_of merchant es) table all in
      elim has [
        | inl same ↦ subst (λ y. IsPaid y table) same first
        | inr later ↦ AllRecorded-IsPaid es table rest e later
      ]

module _ {N : Type 0} (S : Services N) (merchant : Merchant) where
  consumed-true :
      (w : World N) (r : Option (List Payment) × (Db × N))
      → (consumed S merchant w r).0 ≡ true
      → (payments : List Payment) × ((r.0 ≡ some payments)
          × ((consumed S merchant w r).1.db ≡ r.1.0))
  consumed-true w (none, (db, n)) h = absurd (cc)
  consumed-true w (some payments, (db, n)) h = (payments, (refl, refl))

  consumed-false :
      (w : World N) (r : Option (List Payment) × (Db × N))
      → (consumed S merchant w r).0 ≡ false
      → (r.0 ≡ none) × ((consumed S merchant w r).1.db ≡ r.1.0)
  consumed-false w (none, (db, n)) h = (refl, refl)
  consumed-false w (some payments, (db, n)) h = absurd (cc)

  consume_rows-true :
      (rows : List PaymentRow) (w : World N)
      → (consume_rows S merchant rows w).0 ≡ true
      → (consume_rows S merchant rows w).1.db ≡ upserted rows w.db
  unfolding upsert_all
  consume_rows-true [] w h = refl
  consume_rows-true (r ∷ rows) w h =
      let insert = insert_payment_rows S.down S.casts (r ∷ rows) (w.db, w.net) in
      let (payments, (got, same)) = consumed-true w insert h in
      same ∙ (insert_payment_rows-upsert_all S.down S.casts (r ∷ rows) (w.db, w.net) payments got).1

  consume_rows-false :
      (rows : List PaymentRow) (w : World N)
      → (consume_rows S merchant rows w).0 ≡ false
      → (consume_rows S merchant rows w).1.db ≡ w.db
  consume_rows-false [] w h = absurd (cc)
  consume_rows-false (r ∷ rows) w h =
      let insert = insert_payment_rows S.down S.casts (r ∷ rows) (w.db, w.net) in
      let (got, same) = consumed-false w insert h in
      same ∙ insert_payment_rows-none S.down S.casts (r ∷ rows) (w.db, w.net) got

  -- The rows of a window.
  abbrev pub rows_of : List RawEvent → List PaymentRow
  rows_of es = (events_to_payment_rows S.native_of merchant es).0

  -- A consumer that succeeds has upserted the rows of its events, one after another.
  pub on_events-true :
      (es : List RawEvent) (w : World N)
      → (on_events S merchant es w).0 ≡ true
      → (on_events S merchant es w).1.db ≡ upserted (rows_of es) w.db
  unfolding on_events
  on_events-true es w h = consume_rows-true (rows_of es) _ h

  -- A consumer that throws has written nothing.
  pub on_events-false :
      (es : List RawEvent) (w : World N)
      → (on_events S merchant es w).0 ≡ false
      → (on_events S merchant es w).1.db ≡ w.db
  unfolding on_events
  on_events-false es w h = consume_rows-false (rows_of es) _ h

  -- The events of a window that the consumer took are paid.
  pub on_events-IsPaid :
      (es : List RawEvent) (w : World N)
      → (on_events S merchant es w).0 ≡ true
      → (e : RawEvent) → IsIn e es
      → IsPaid S.native_of merchant e (on_events S merchant es w).1.db.payments
  on_events-IsPaid es w h e has =
      subst (λ db. IsPaid S.native_of merchant e db.payments) (sym (on_events-true es w h))
        (AllRecorded-IsPaid S.native_of merchant es _
          (upsert_all-AllRecorded (rows_of es) w.db.payments) e has)

  -- No payment that was recorded is lost.
  pub on_events-keeps :
      (es : List RawEvent) (w : World N) (m : ℕ) (hash : String)
      → (on_events S merchant es w).0 ≡ true
      → IsRecorded m hash w.db.payments
      → IsRecorded m hash (on_events S merchant es w).1.db.payments
  on_events-keeps es w m hash h known =
      subst (λ db. IsRecorded m hash db.payments) (sym (on_events-true es w h))
        (upsert_all-keeps m hash (rows_of es) w.db.payments known)
