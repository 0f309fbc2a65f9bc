-- ===== src/Pager/Members.antt =====
-- Which events a list has.
use accensa_app.Prelude.{◌≡◌, String, Bool, List, [], ◌∷◌, ◌++◌, ◌⊎◌, inl, inr, Bool-cases}
use accensa_app.Pager.{RawEvent, event_le, insert_event, order_events}

abbrev pub IsIn : RawEvent → List RawEvent → Type 0
IsIn e [] = ⊥
IsIn e (x ∷ xs) = (x ≡ e) ⊎ IsIn e xs

pub IsIn-split : (e : RawEvent) (xs ys : List RawEvent) → IsIn e (xs ++ ys) → IsIn e xs ⊎ IsIn e ys
IsIn-split e [] ys h = inr h
IsIn-split e (x ∷ xs) ys h = elim h [
  | inl same ↦ inl (inl same)
  | inr later ↦ elim (IsIn-split e xs ys later) [ inl l ↦ inl (inr l) | inr r ↦ inr r ]
]

module _ (e : RawEvent) where
  pub IsIn-append : (xs ys : List RawEvent) → IsIn e xs → IsIn e (xs ++ ys)
  IsIn-append [] ys h = elim h [ ]
  IsIn-append (x ∷ xs) ys h = elim h [
    | inl same ↦ inl same
    | inr later ↦ inr (IsIn-append xs ys later)
  ]

  pub append-IsIn : (xs ys : List RawEvent) → IsIn e ys → IsIn e (xs ++ ys)
  append-IsIn [] ys h = h
  append-IsIn (x ∷ xs) ys h = inr (append-IsIn xs ys h)

  module _ (locale_le : String → String → Bool) where
    insert_event-here :
        (f : RawEvent) (es : List RawEvent) → f ≡ e → IsIn e (insert_event locale_le f es)
    unfolding insert_event
    insert_event-here f [] same = inl same
    insert_event-here f (x ∷ es) same = elim (Bool-cases (event_le locale_le f x)) [
      | inl first ↦ rw first (inl same)
      | inr later ↦ rw later (inr (insert_event-here f es same))
    ]

    insert_event-later :
        (f : RawEvent) (es : List RawEvent) → IsIn e es → IsIn e (insert_event locale_le f es)
    unfolding insert_event
    insert_event-later f [] h = elim h [ ]
    insert_event-later f (x ∷ es) h = elim (Bool-cases (event_le locale_le f x)) [
      | inl first ↦ rw first (inr h)
      | inr later ↦
          rw later (elim h [ inl same ↦ inl same | inr rest ↦ inr (insert_event-later f es rest) ])
    ]

    -- Sorting loses no event.
    pub order_events-IsIn : (es : List RawEvent) → IsIn e es → IsIn e (order_events locale_le es)
    unfolding order_events
    order_events-IsIn [] h = elim h [ ]
    order_events-IsIn (x ∷ es) h = elim h [
      | inl same ↦ insert_event-here x (order_events locale_le es) same
      | inr later ↦ insert_event-later x (order_events locale_le es) (order_events-IsIn es later)
    ]
