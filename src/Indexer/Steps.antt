-- ===== src/Indexer/Steps.antt =====
-- The laws of the queries and transactions of Queries: what one that succeeds has done, and what one
-- that throws has left.
use accensa_app.Prelude.{◌≡◌, refl, sym, Bool, true, false, Option, none, some}
use accensa_app.Indexer.{Db}
use accensa_app.Indexer.Queries.{
  Query, query, answered, applied, transaction, after, began, ended, commit_or, ◌>>=◌,
}

after_ok :
    {N A B : Type 0} (f : A → Query N B) (r : Option A × (Db × N)) (b : B)
    → (after f r).0 ≡ some b
    → (a : A) × ((r.0 ≡ some a) × (after f r ≡ f a r.1))
after_ok f (none, w) b h = absurd (cc)
after_ok f (some a, w) b h = (a, (refl, refl))

-- A sequence that succeeds has run its first part and then the rest.
pub bind_ok :
    {N A B : Type 0} (m : Query N A) (f : A → Query N B) (w : Db × N) (b : B)
    → ((m >>= f) w).0 ≡ some b
    → (a : A) × (((m w).0 ≡ some a) × ((m >>= f) w ≡ f a (m w).1))
unfolding ◌>>=◌
bind_ok m f w b h = after_ok f (m w) b h

applied_ok :
    {N A : Type 0} (r : Option (A × Db)) (db : Db) (n : N) (a : A)
    → (applied r db n).0 ≡ some a
    → r ≡ some (a, (applied r db n).1.0)
applied_ok none db n a h = absurd (cc)
applied_ok (some (x, db')) db n a h = let same : x ≡ a = cc in rw same refl

applied_none :
    {N A : Type 0} (r : Option (A × Db)) (db : Db) (n : N)
    → (applied r db n).0 ≡ none
    → (applied r db n).1.0 ≡ db
applied_none none db n h = refl
applied_none (some (x, db')) db n h = absurd (cc)

answered_ok :
    {N A : Type 0} (f : Db → Option (A × Db)) (db : Db) (r : Bool × N) (a : A)
    → (answered f db r).0 ≡ some a
    → f db ≡ some (a, (answered f db r).1.0)
answered_ok f db (true, n) a h = absurd (cc)
answered_ok f db (false, n) a h = applied_ok (f db) db n a h

answered-none :
    {N A : Type 0} (f : Db → Option (A × Db)) (db : Db) (r : Bool × N)
    → (answered f db r).0 ≡ none
    → (answered f db r).1.0 ≡ db
answered-none f db (true, n) h = refl
answered-none f db (false, n) h = applied_none (f db) db n h

commit_or_ok :
    {N A : Type 0} (before : Db) (x a : A) (r : Bool × N) (db : Db)
    → (commit_or before x r db).0 ≡ some a
    → (some x ≡ some a) × ((commit_or before x r db).1.0 ≡ db)
commit_or_ok before x a (true, n) db h = absurd (cc)
commit_or_ok before x a (false, n) db h = (h, refl)

commit_or-none :
    {N A : Type 0} (before : Db) (x : A) (r : Bool × N) (db : Db)
    → (commit_or before x r db).0 ≡ none
    → (commit_or before x r db).1.0 ≡ before
commit_or-none before x (true, n) db h = refl
commit_or-none before x (false, n) db h = absurd (cc)

ended_ok :
    {N A : Type 0} (down : N → Bool × N) (before : Db) (r : Option A × (Db × N)) (a : A)
    → (ended down before r).0 ≡ some a
    → (r.0 ≡ some a) × ((ended down before r).1.0 ≡ r.1.0)
ended_ok down before (none, (db, n)) a h = absurd (cc)
ended_ok down before (some x, (db, n)) a h = commit_or_ok before x a (down n) db h

ended-none :
    {N A : Type 0} (down : N → Bool × N) (before : Db) (r : Option A × (Db × N))
    → (ended down before r).0 ≡ none
    → (ended down before r).1.0 ≡ before
ended-none down before (none, (db, n)) h = refl
ended-none down before (some x, (db, n)) h = commit_or-none before x (down n) db h

began_ok :
    {N A : Type 0} (down : N → Bool × N) (body : Query N A) (db : Db) (r : Bool × N) (a : A)
    → (began down body db r).0 ≡ some a
    → ((body (db, r.1)).0 ≡ some a) × ((began down body db r).1.0 ≡ (body (db, r.1)).1.0)
began_ok down body db (true, n) a h = absurd (cc)
began_ok down body db (false, n) a h = ended_ok down db (body (db, n)) a h

began-none :
    {N A : Type 0} (down : N → Bool × N) (body : Query N A) (db : Db) (r : Bool × N)
    → (began down body db r).0 ≡ none
    → (began down body db r).1.0 ≡ db
began-none down body db (true, n) h = refl
began-none down body db (false, n) h = ended-none down db (body (db, n)) h

module _ {N : Type 0} (down : N → Bool × N) where
  -- A statement that succeeds has done what it says.
  pub query_ok :
      {A : Type 0} (f : Db → Option (A × Db)) (w : Db × N) (a : A)
      → (query down f w).0 ≡ some a
      → f w.0 ≡ some (a, (query down f w).1.0)
  unfolding query
  query_ok f (db, n) a h = answered_ok f db (down n) a h

  -- A statement that throws writes nothing.
  pub query-none :
      {A : Type 0} (f : Db → Option (A × Db)) (w : Db × N)
      → (query down f w).0 ≡ none
      → (query down f w).1.0 ≡ w.0
  unfolding query
  query-none f (db, n) h = answered-none f db (down n) h

  -- A transaction that succeeds has done what its body did.
  pub transaction_ok :
      {A : Type 0} (body : Query N A) (w : Db × N) (a : A)
      → (transaction down body w).0 ≡ some a
      → (n : N) × (((body (w.0, n)).0 ≡ some a)
          × ((transaction down body w).1.0 ≡ (body (w.0, n)).1.0))
  unfolding transaction
  transaction_ok body (db, n) a h = ((down n).1, began_ok down body db (down n) a h)

  -- A transaction that throws has written nothing.
  pub transaction-none :
      {A : Type 0} (body : Query N A) (w : Db × N)
      → (transaction down body w).0 ≡ none
      → (transaction down body w).1.0 ≡ w.0
  unfolding transaction
  transaction-none body (db, n) h = began-none down body db (down n) h

read_answered :
    {N A : Type 0} (f : Db → A) (db : Db) (r : Bool × N)
    → (answered (λ d. some (f d, d)) db r).1.0 ≡ db
read_answered f db (true, n) = refl
read_answered f db (false, n) = refl

read_answered_ok :
    {N A : Type 0} (f : Db → A) (db : Db) (r : Bool × N) (a : A)
    → (answered (λ d. some (f d, d)) db r).0 ≡ some a
    → a ≡ f db
read_answered_ok f db (true, n) a h = absurd (cc)
read_answered_ok f db (false, n) a h = let same : f db ≡ a = cc in sym same

-- A query that only reads.
pub read_db :
    {N A : Type 0} (f : Db → A) (down : N → Bool × N) (w : Db × N)
    → (query down (λ d. some (f d, d)) w).1.0 ≡ w.0
unfolding query
read_db f down (db, n) = read_answered f db (down n)

pub read_ok :
    {N A : Type 0} (f : Db → A) (down : N → Bool × N) (w : Db × N) (a : A)
    → (query down (λ d. some (f d, d)) w).0 ≡ some a
    → a ≡ f w.0
unfolding query
read_ok f down (db, n) a h = read_answered_ok f db (down n) a h

after-keep :
    {N A B : Type 0} (P : Db → Type 0) (f : A → Query N B) (r : Option A × (Db × N))
    → P r.1.0
    → ((a : A) (w : Db × N) → P w.0 → P (f a w).1.0)
    → P (after f r).1.0
after-keep P f (none, w) h k = h
after-keep P f (some a, w) h k = k a w h

-- A property of the database that both parts of a sequence keep.
pub bind-keep :
    {N A B : Type 0} (P : Db → Type 0) (m : Query N A) (f : A → Query N B) (w : Db × N)
    → P (m w).1.0
    → ((a : A) (w' : Db × N) → P w'.0 → P (f a w').1.0)
    → P ((m >>= f) w).1.0
unfolding ◌>>=◌
bind-keep P m f w h k = after-keep P f (m w) h k

applied-keep :
    {N A : Type 0} (P : Db → Type 0) (r : Option (A × Db)) (db : Db) (n : N)
    → P db
    → ((x : A × Db) → r ≡ some x → P x.1)
    → P (applied r db n).1.0
applied-keep P none db n h k = h
applied-keep P (some (a, db')) db n h k = k (a, db') refl

answered-keep :
    {N A : Type 0} (P : Db → Type 0) (f : Db → Option (A × Db)) (db : Db) (r : Bool × N)
    → P db
    → ((x : A × Db) → f db ≡ some x → P x.1)
    → P (answered f db r).1.0
answered-keep P f db (true, n) h k = h
answered-keep P f db (false, n) h k = applied-keep P (f db) db n h k

-- A property of the database that the result of a statement has.
pub query-keep :
    {N A : Type 0} (P : Db → Type 0) (down : N → Bool × N) (f : Db → Option (A × Db)) (w : Db × N)
    → P w.0
    → ((x : A × Db) → f w.0 ≡ some x → P x.1)
    → P (query down f w).1.0
unfolding query
query-keep P down f (db, n) h k = answered-keep P f db (down n) h k
