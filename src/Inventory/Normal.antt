-- ===== src/Inventory/Normal.antt =====
-- What `normalizedLines` answers: the lines of the request, merged by sku.
use accensa_app.Prelude.{
  ◌+◌, ◌^◌, ◌≤◌, ◌<◌, ◌≡◌, refl, String, Bool, false, ◌||◌, List, [], ◌∷◌, arith, str_eq, eq_iff,
  ◌∙◌, subst, Bool-cases, inl, inr, All, if◌then◌else◌,
}
use accensa_app.Inventory.{Line, ok, result_cases}
use accensa_app.Inventory.Lines.{is_line, add_line, collect, insert, sort, normalized_lines}
use accensa_app.Inventory.Store.{quantity_of, sku_taken}
use accensa_app.Inventory.Doubles.{nearest-exact, nearest-pos}
use accensa_app.Inventory.Sums.{quantity_of-sort}

abbrev pub Distinct : List Line → Type 0
Distinct [] = Unit {0}
Distinct (l ∷ ls) = (sku_taken l.sku ls ≡ false) × Distinct ls

abbrev pub Positive : List Line → Type 0
Positive = All λ l. 0 < l.quantity

pub quantity_of-absent :
    (s : String) (ls : List Line) → sku_taken s ls ≡ false → quantity_of s ls ≡ 0
unfolding quantity_of sku_taken
quantity_of-absent s [] h = refl
quantity_of-absent s (l ∷ ls) h = ground (arith, quantity_of-absent s ls)

quantity_of-add_line :
    (s : String) (l : Line) (qs : List Line)
    → (if str_eq l.sku s then l.quantity else 0) + quantity_of s qs ≤ 2 ^ 53
    → quantity_of s (add_line l qs) ≡ (if str_eq l.sku s then l.quantity else 0) + quantity_of s qs
unfolding quantity_of add_line
quantity_of-add_line s l [] h = refl
quantity_of-add_line s l (x ∷ xs) h = ground (
  arith,
  quantity_of-add_line s l xs,
  nearest-exact (x.quantity + l.quantity),
  eq_iff x.sku l.sku,
  eq_iff x.sku s,
  eq_iff l.sku s,
)

sku_taken-add_line :
    (s : String) (l : Line) (qs : List Line)
    → sku_taken s (add_line l qs) ≡ str_eq l.sku s || sku_taken s qs
unfolding sku_taken add_line
sku_taken-add_line s l [] = refl
sku_taken-add_line s l (x ∷ xs) =
    ground (arith, sku_taken-add_line s l xs, eq_iff x.sku l.sku, eq_iff x.sku s, eq_iff l.sku s)

add_line-Distinct : (l : Line) (qs : List Line) → Distinct qs → Distinct (add_line l qs)
unfolding add_line sku_taken
add_line-Distinct l [] d = (refl, tt)
add_line-Distinct l (x ∷ xs) d = ground (
  arith,
  add_line-Distinct l xs d.1,
  sku_taken-add_line x.sku l xs,
  eq_iff x.sku l.sku,
  eq_iff l.sku x.sku,
)

add_line-Positive :
    (l : Line) (qs : List Line) → 0 < l.quantity → Positive qs → Positive (add_line l qs)
unfolding add_line
add_line-Positive l [] h p = (h, tt)
add_line-Positive l (x ∷ xs) h p =
    ground (arith, add_line-Positive l xs h p.1, nearest-pos (x.quantity + l.quantity))

sku_taken-insert :
    (le : String → String → Bool) (s : String) (l : Line) (ls : List Line)
    → sku_taken s (insert le l ls) ≡ str_eq l.sku s || sku_taken s ls
unfolding sku_taken insert
sku_taken-insert le s l [] = refl
sku_taken-insert le s l (x ∷ xs) = ground (arith, sku_taken-insert le s l xs)

sku_taken-sort :
    (le : String → String → Bool) (s : String) (ls : List Line)
    → sku_taken s (sort le ls) ≡ sku_taken s ls
unfolding sku_taken sort
sku_taken-sort le s [] = refl
sku_taken-sort le s (l ∷ ls) =
    ground (arith, sku_taken-insert le s l (sort le ls), sku_taken-sort le s ls)

insert-Distinct :
    (le : String → String → Bool) (l : Line) (ls : List Line)
    → sku_taken l.sku ls ≡ false
    → Distinct ls
    → Distinct (insert le l ls)
unfolding insert sku_taken
insert-Distinct le l [] h d = (refl, tt)
insert-Distinct le l (x ∷ xs) h d = ground (
  arith,
  insert-Distinct le l xs,
  sku_taken-insert le x.sku l xs,
  eq_iff x.sku l.sku,
  eq_iff l.sku x.sku,
)

insert-Positive :
    (le : String → String → Bool) (l : Line) (ls : List Line)
    → 0 < l.quantity
    → Positive ls
    → Positive (insert le l ls)
unfolding insert
insert-Positive le l [] h p = (h, tt)
insert-Positive le l (x ∷ xs) h p = ground (arith, insert-Positive le l xs h p.1)

sort-Distinct : (le : String → String → Bool) (ls : List Line) → Distinct ls → Distinct (sort le ls)
unfolding sort
sort-Distinct le [] d = tt
sort-Distinct le (l ∷ ls) (h, d) =
    insert-Distinct le l (sort le ls) (sku_taken-sort le l.sku ls ∙ h) (sort-Distinct le ls d)

pub sort-Positive :
    (le : String → String → Bool) (ls : List Line) → Positive ls → Positive (sort le ls)
unfolding sort
sort-Positive le [] p = tt
sort-Positive le (l ∷ ls) (h, p) = insert-Positive le l (sort le ls) h (sort-Positive le ls p)

-- What a merged list says of the lines that it was made from.
pub record IsMerged (lines merged : List Line) : Type 0 where
  pub distinct : Distinct merged
  pub positive : Positive merged
  pub total :
      (s : String) → quantity_of s lines ≤ 2 ^ 53 → quantity_of s merged ≡ quantity_of s lines

-- A list that was merged from the lines of `qs` and of `lines`.
record IsSum (qs lines merged : List Line) : Type 0 where
  distinct : Distinct merged
  positive : Positive merged
  total :
      (s : String)
      → quantity_of s qs + quantity_of s lines ≤ 2 ^ 53
      → quantity_of s merged ≡ quantity_of s qs + quantity_of s lines

total_of :
    (s : String) (l : Line) (qs ls out : List Line)
    → (quantity_of s (add_line l qs) + quantity_of s ls ≤ 2 ^ 53
        → quantity_of s out ≡ quantity_of s (add_line l qs) + quantity_of s ls)
    → quantity_of s qs + quantity_of s (l ∷ ls) ≤ 2 ^ 53
    → quantity_of s out ≡ quantity_of s qs + quantity_of s (l ∷ ls)
unfolding quantity_of
total_of s l qs ls out known h =
    let added = quantity_of-add_line s l qs (omega arith) in
    let sum = known (omega arith) in omega arith

collect-IsSum :
    (qs lines out : List Line)
    → Distinct qs
    → Positive qs
    → collect qs lines ≡ ok out
    → IsSum qs lines out
unfolding collect quantity_of
collect-IsSum qs [] out d p e =
    let same : qs ≡ out = cc in
    record {
      distinct = subst Distinct same d;
      positive = subst Positive same p;
      total = λ s h. rw (← same) (omega arith);
    }
collect-IsSum qs (l ∷ ls) out d p e = elim (Bool-cases (is_line l)) [
  | inl good ↦
      let rest : collect (add_line l qs) ls ≡ ok out = ground arith in
      let m =
        collect-IsSum (add_line l qs) ls out (add_line-Distinct l qs d)
          (add_line-Positive l qs (ground arith) p) rest in
      record {
        distinct = m.distinct;
        positive = m.positive;
        total = λ s h. total_of s l qs ls out (m.total s) h;
      }
  | inr bad ↦ absurd (ground arith)
]

-- Every sku of the request occurs once, with a positive quantity, which is the sum of its quantities
-- in the request if this is at most 2 ^ 53, up to where doubles are exact.
pub normalized_lines-IsMerged :
    (le : String → String → Bool) (lines merged : List Line)
    → normalized_lines le lines ≡ ok merged
    → IsMerged lines merged
unfolding normalized_lines quantity_of
normalized_lines-IsMerged le lines merged e = elim (result_cases (collect [] lines)) [
  | inl (out, f) ↦
      let m = collect-IsSum [] lines out tt tt f in
      let same : sort le out ≡ merged = ground arith in
      record {
        distinct = subst Distinct same (sort-Distinct le out m.distinct);
        positive = subst Positive same (sort-Positive le out m.positive);
        total =
            λ s h. rw (← same) (omega (arith, quantity_of-sort le s out, m.total s (omega arith)));
      }
  | inr (x, f) ↦ absurd (ground arith)
]
