-- ===== src/Indexer/Times.antt =====
-- The time that the steps of a sync take.
use accensa_app.Prelude.{
  ◌≤◌, ◌<◌, ◌+◌, ◌*◌, ℕ, zero, suc, Bool, true, false, List, [], ◌∷◌, ◌++◌, Option, String, none,
  some, Bool-cases, inl, inr, arith,
}
use accensa_app.Prelude.Text.{is_empty}
use accensa_app.Pager.{RawEvent, Request}
use accensa_app.Indexer.{PaymentRow, Payment, Db, Merchant}
use accensa_app.Indexer.Decode.{events_to_payment_rows}
use accensa_app.Indexer.Batch.{payments_batch_size, chunk_rows}
use accensa_app.Indexer.Queries.{
  Query, query, applied, answered, transaction, after, began, ended, commit_or, insert_chunk,
  insert_chunks, insert_payment_rows, ◌>>=◌,
}
use accensa_app.Indexer.Window.{
  Services, World, is_settled, send_webhook, send_webhooks, notify, consumed, consume_rows,
  on_events,
}

-- A time of the world in nanoseconds that no service turns back, of which a request for events takes
-- some, and that `Date.now()` gives in milliseconds.
pub record IsTimely {N : Type 0} (S : Services N) (time : N → ℕ) : Type 0 where
  pub down : (n : N) → time n ≤ time (S.down n).1
  pub events : (r : Request) (n : N) → time n < time (S.get_events r n).1
  pub chat : (ps : List Payment) (n : N) → time n ≤ time (S.enqueue_chat ps n)
  pub post : (p : Payment) (n : N) → time n ≤ time (S.post p n).1
  pub ticks : (n : N) → time n ≤ time (S.clock n).1
  pub reached : (n : N) → (S.clock n).0 * 1_000_000 ≤ time (S.clock n).1
  pub reads : (n : N) → time n < ((S.clock n).0 + 1) * 1_000_000

module _ {N : Type 0} (S : Services N) (time : N → ℕ) (timely : IsTimely S time) (t : ℕ) where
  applied-later :
      {A : Type 0} (r : Option (A × Db)) (db : Db) (n : N)
      → t ≤ time n
      → t ≤ time (applied r db n).1.1
  applied-later none db n h = h
  applied-later (some (a, db')) db n h = h

  commit_or-later :
      {A : Type 0} (before : Db) (a : A) (r : Bool × N) (db : Db)
      → t ≤ time r.1
      → t ≤ time (commit_or before a r db).1.1
  commit_or-later before a (true, n) db h = h
  commit_or-later before a (false, n) db h = h

  answered-later :
      {A : Type 0} (f : Db → Option (A × Db)) (db : Db) (r : Bool × N)
      → t ≤ time r.1
      → t ≤ time (answered f db r).1.1
  answered-later f db (true, n) h = h
  answered-later f db (false, n) h = applied-later (f db) db n h

  after-later :
      {A B : Type 0} (f : A → Query N B) (r : Option A × (Db × N))
      → t ≤ time r.1.1
      → ((a : A) (w : Db × N) → t ≤ time w.1 → t ≤ time (f a w).1.1)
      → t ≤ time (after f r).1.1
  after-later f (none, w) h k = h
  after-later f (some a, w) h k = k a w h

  ended-later :
      {A : Type 0} (before : Db) (r : Option A × (Db × N))
      → t ≤ time r.1.1
      → t ≤ time (ended S.down before r).1.1
  ended-later before (none, (db, n)) h = h
  ended-later before (some a, (db, n)) h =
      let d = timely.down n in commit_or-later before a (S.down n) db (omega arith)

  began-later :
      {A : Type 0} (body : Query N A) (db : Db) (r : Bool × N)
      → t ≤ time r.1
      → ((w : Db × N) → t ≤ time w.1 → t ≤ time (body w).1.1)
      → t ≤ time (began S.down body db r).1.1
  began-later body db (true, n) h k = h
  began-later body db (false, n) h k = ended-later db (body (db, n)) (k (db, n) h)

  query-later :
      {A : Type 0} (f : Db → Option (A × Db)) (w : Db × N)
      → t ≤ time w.1
      → t ≤ time (query S.down f w).1.1
  unfolding query
  query-later f (db, n) h = let d = timely.down n in answered-later f db (S.down n) (omega arith)

  insert_chunks-later :
      (chunks : List (List PaymentRow)) (payments : List Payment) (w : Db × N)
      → t ≤ time w.1
      → t ≤ time (insert_chunks S.down S.casts chunks payments w).1.1
  unfolding insert_chunks ◌>>=◌
  insert_chunks-later [] payments w h = h
  insert_chunks-later (chunk ∷ chunks) payments w h =
      after-later (λ more. insert_chunks S.down S.casts chunks (payments ++ more))
        (query S.down (insert_chunk S.casts chunk) w) (query-later (insert_chunk S.casts chunk) w h)
        (λ more w' k. insert_chunks-later chunks (payments ++ more) w' k)

  insert_payment_rows-later :
      (rows : List PaymentRow) (w : Db × N)
      → t ≤ time w.1
      → t ≤ time (insert_payment_rows S.down S.casts rows w).1.1
  unfolding insert_payment_rows transaction
  insert_payment_rows-later rows (db, n) h =
      let d = timely.down n in
      began-later (insert_chunks S.down S.casts (chunk_rows rows payments_batch_size) []) db
        (S.down n) (omega arith)
        (λ w k. insert_chunks-later (chunk_rows rows payments_batch_size) [] w k)

  send_webhook-later :
      (tries : ℕ) (p : Payment) (n : N) → t ≤ time n → t ≤ time (send_webhook S tries p n)
  unfolding send_webhook
  send_webhook-later zero p n h = h
  send_webhook-later (suc tries) p n h =
      let d = timely.post p n in
      elim (Bool-cases (is_settled (S.post p n).0)) [
        | inl settled ↦ rw settled (omega arith)
        | inr again ↦ rw again (send_webhook-later tries p (S.post p n).1 (omega arith))
      ]

  send_webhooks-later : (ps : List Payment) (n : N) → t ≤ time n → t ≤ time (send_webhooks S ps n)
  unfolding send_webhooks
  send_webhooks-later [] n h = h
  send_webhooks-later (p ∷ ps) n h =
      send_webhooks-later ps (send_webhook S 3 p n) (send_webhook-later 3 p n h)

  notify-later :
      (url : Option String) (ps : List Payment) (n : N) → t ≤ time n → t ≤ time (notify S url ps n)
  notify-later none ps n h = h
  notify-later (some url) ps n h = elim (Bool-cases (is_empty url)) [
    | inl blank ↦ rw blank h
    | inr full ↦ rw full (send_webhooks-later ps n h)
  ]

  consumed-later :
      (merchant : Merchant) (w : World N) (r : Option (List Payment) × (Db × N))
      → t ≤ time r.1.1
      → t ≤ time (consumed S merchant w r).1.net
  consumed-later merchant w (none, (db, n)) h = h
  consumed-later merchant w (some payments, (db, n)) h =
      let d = timely.chat payments n in
      notify-later merchant.webhook_url payments (S.enqueue_chat payments n) (omega arith)

  consume_rows-later :
      (merchant : Merchant) (rows : List PaymentRow) (w : World N)
      → t ≤ time w.net
      → t ≤ time (consume_rows S merchant rows w).1.net
  consume_rows-later merchant [] w h = h
  consume_rows-later merchant (r ∷ rs) w h =
      consumed-later merchant w (insert_payment_rows S.down S.casts (r ∷ rs) (w.db, w.net))
        (insert_payment_rows-later (r ∷ rs) (w.db, w.net) h)

  -- A call of the consumer does not turn the clock back.
  pub on_events-later :
      (merchant : Merchant) (es : List RawEvent) (w : World N)
      → t ≤ time w.net
      → t ≤ time (on_events S merchant es w).1.net
  unfolding on_events
  on_events-later merchant es w h =
      consume_rows-later merchant (events_to_payment_rows S.native_of merchant es).0 _ h
