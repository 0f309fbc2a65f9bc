-- ===== src/Inventory/Stock.antt =====
-- What each write to the items does to the stock of an item.
use accensa_app.Prelude.{
  ℕ, ◌+◌, ◌≤◌, ◌<◌, ◌≡◌, refl, String, ◌&&◌, List, [], ◌∷◌, none, some, arith, str_eq, ◌==◌,
  if◌then◌else◌, ◌≢◌, eq_iff, All, Option-cases, inl, inr, some_of_ne_none,
}
use accensa_app.Inventory.{Line, Item, ok}
use accensa_app.Inventory.Store.{
  is_item, lock_stock, quantity_of, ensure_stock_item, update_stock, decrement_stock,
}
use accensa_app.Inventory.Manager.{decrement_lines}

-- The stock of an item, 0 where the merchant has no such item.
abbrev pub stock_of : ℕ → String → List Item → ℕ
stock_of m sku [] = 0
stock_of m sku (i ∷ is) = if is_item m sku i then i.stock else stock_of m sku is

pub stock_of-lock :
    (m : ℕ) (sku : String) (is : List Item) (i : Item)
    → lock_stock m sku is ≡ some i
    → stock_of m sku is ≡ i.stock
unfolding lock_stock
stock_of-lock m sku [] i e = absurd (ground arith)
stock_of-lock m sku (x ∷ is) i e = ground (arith, stock_of-lock m sku is i)

pub stock_of-ensure :
    (m k : ℕ) (sku s name : String) (is : List Item)
    → stock_of k s (ensure_stock_item m sku name is) ≡ stock_of k s is
unfolding ensure_stock_item
stock_of-ensure m k sku s name [] = ground arith
stock_of-ensure m k sku s name (i ∷ is) = ground (arith, stock_of-ensure m k sku s name is)

pub stock_of-update :
    (m k : ℕ) (sku s name : String) (n t : ℕ) (is : List Item)
    → stock_of k s (update_stock m sku name n t (ensure_stock_item m sku name is))
      ≡ (if m == k && str_eq sku s then n else stock_of k s is)
unfolding ensure_stock_item update_stock
stock_of-update m k sku s name n t [] = ground (arith, eq_iff sku s, eq_iff sku sku)
stock_of-update m k sku s name n t (i ∷ is) =
    ground
      (arith, stock_of-update m k sku s name n t is, eq_iff i.sku s, eq_iff i.sku sku, eq_iff sku s)

-- What a line takes from the stock of one item.
abbrev pub taken : ℕ → String → ℕ → ℕ → String → ℕ
taken m sku q k s = if m == k && str_eq sku s then q else 0

pub stock_of-decrement :
    (m : ℕ) (sku : String) (q k : ℕ) (s : String) (is is' : List Item)
    → decrement_stock m sku q is ≡ some is'
    → stock_of k s is' + taken m sku q k s ≡ stock_of k s is
unfolding decrement_stock
stock_of-decrement m sku q k s [] is' e = absurd (ground arith)
stock_of-decrement m sku q k s (i ∷ is) is' e = elim (Option-cases (decrement_stock m sku q is)) [
  | inl n ↦ ground (arith, eq_iff i.sku sku, eq_iff i.sku s, eq_iff sku s)
  | inr (js, f) ↦ ground (
    arith,
    eq_iff i.sku sku,
    eq_iff i.sku s,
    eq_iff sku s,
    stock_of-decrement m sku q k s is js f,
  )
]

decrement_stock-ne-none :
    (m : ℕ) (sku : String) (q : ℕ) (is : List Item)
    → 0 < q
    → q ≤ stock_of m sku is
    → decrement_stock m sku q is ≢ none
unfolding decrement_stock
decrement_stock-ne-none m sku q [] p h = absurd (omega arith)
decrement_stock-ne-none m sku q (i ∷ is) p h = elim (Option-cases (decrement_stock m sku q is)) [
  | inl n ↦ ground (arith, decrement_stock-ne-none m sku q is p)
  | inr (js, f) ↦ ground (arith)
]

decrement_stock-some :
    (m : ℕ) (sku : String) (q : ℕ) (is : List Item)
    → 0 < q
    → q ≤ stock_of m sku is
    → (is' : List Item) × (decrement_stock m sku q is ≡ some is')
decrement_stock-some m sku q is p h = some_of_ne_none _ (decrement_stock-ne-none m sku q is p h)

-- Removing lines that the stock covers succeeds.
pub decrement_lines-ok :
    (m : ℕ) (ls : List Line) (is : List Item)
    → All (λ l. 0 < l.quantity) ls
    → ((s : String) → quantity_of s ls ≤ stock_of m s is)
    → (is' : List Item) × (decrement_lines m ls is ≡ ok is')
unfolding decrement_lines quantity_of
decrement_lines-ok m [] is p h = (is, refl)
decrement_lines-ok m (l ∷ ls) is (p, ps) h =
    let here : l.quantity ≤ stock_of m l.sku is = ground (arith, h l.sku, eq_iff l.sku l.sku) in
    let (js, e) = decrement_stock-some m l.sku l.quantity is p here in
    let (is', f) =
      decrement_lines-ok m ls js ps
        (λ s. ground (arith, h s, stock_of-decrement m l.sku l.quantity m s is js e)) in
    (is', ground (arith, e, f))

-- And takes from each item what the lines say.
pub stock_of-decrement_lines :
    (m : ℕ) (ls : List Line) (is is' : List Item) (k : ℕ) (s : String)
    → decrement_lines m ls is ≡ ok is'
    → stock_of k s is' + (if m == k then quantity_of s ls else 0) ≡ stock_of k s is
unfolding decrement_lines quantity_of
stock_of-decrement_lines m [] is is' k s e = ground arith
stock_of-decrement_lines m (l ∷ ls) is is' k s e =
    elim (Option-cases (decrement_stock m l.sku l.quantity is)) [
      | inl n ↦ ground arith
      | inr (js, f) ↦ ground (
        arith,
        stock_of-decrement m l.sku l.quantity k s is js f,
        stock_of-decrement_lines m ls js is' k s,
      )
    ]
