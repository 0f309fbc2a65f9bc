-- ===== src/Indexer/Exact.antt =====
-- What decodeTransferEvent returns of an amount and the addresses.
use accensa_app.Prelude.{
  ◌≡◌, subst, ◌∙◌, ap, String, false, Option, none, some, Bool-cases, Option-cases, inl, inr,
}
use accensa_app.Prelude.Text.{is_empty}
use accensa_app.Money.{to_stroops}
use accensa_app.Money.RoundTrip.{to_stroops-from_stroops}
use accensa_app.Pager.{RawEvent, truthy}
use accensa_app.Indexer.{TransferEvent}
use accensa_app.Indexer.Decode.{
  Native, native_text, native_integer, native_object, native_other, is_transfer, to_address_string,
  decode_topics, topics_of, decode_stroops, decode_transfer_event, stroops_to_decimal_lem,
}

-- The amount reads back as the stroops, and the addresses are not empty.
pub record IsExact (t : TransferEvent) : Type 0 where
  pub amount : to_stroops t.amount ≡ some t.stroops
  pub from : is_empty t.from ≡ false
  pub to : is_empty t.to ≡ false

abbrev Decoded : Option TransferEvent → Type 0
Decoded none = Unit
Decoded (some t) = IsExact t

truthy-full : (s x : String) → truthy (some s) ≡ some x → is_empty x ≡ false
truthy-full s x h = elim (Bool-cases (is_empty s)) [
  | inl blank ↦ let clash : none ≡ some x = rw blank at h in absurd (cc)
  | inr full ↦ let same : some s ≡ some x = rw full at h in let is : s ≡ x = cc in rw (← is) full
]

to_address_string-full :
    (v : Native) (x : String) → to_address_string v ≡ some x → is_empty x ≡ false
to_address_string-full (native_text s) x h = truthy-full s x h
to_address_string-full (native_integer n) x h = absurd (cc)
to_address_string-full (native_object amount) x h = absurd (cc)
to_address_string-full native_other x h = absurd (cc)

decode_transfer_event-Decoded :
    (native_of : String → Option Native) (e : RawEvent)
    → Decoded (decode_transfer_event native_of e)
unfolding decode_transfer_event
decode_transfer_event-Decoded native_of e =
    elim (Option-cases (decode_topics native_of (topics_of e.topic))) [
      | inl none' ↦ rw (decode_transfer_event, none') tt
      | inr ((name, from, to, asset), topics) ↦ elim (Bool-cases (is_transfer name)) [
        | inr other ↦ rw (decode_transfer_event, topics, other) tt
        | inl transfer ↦ elim (Option-cases (to_address_string from)) [
          | inl none' ↦ rw (decode_transfer_event, topics, transfer, none') tt
          | inr (payer, got) ↦ elim (Option-cases (to_address_string to)) [
            | inl none' ↦ rw (decode_transfer_event, topics, transfer, got, none') tt
            | inr (payee, got') ↦ elim (Option-cases (decode_stroops native_of e.value)) [
              | inl none' ↦ rw (decode_transfer_event, topics, transfer, got, got', none') tt
              | inr (stroops, value) ↦
                  rw (decode_transfer_event, topics, transfer, got, got', value)
                    (record {
                      amount =
                          ap to_stroops (stroops_to_decimal_lem stroops)
                          ∙ to_stroops-from_stroops stroops;
                      from = to_address_string-full from payer got;
                      to = to_address_string-full to payee got';
                    })
            ]
          ]
        ]
      ]
    ]

-- A transfer that an event decodes to has an amount text that reads back as exactly its stroops, and
-- two addresses that are not empty.
pub decode_transfer_event-IsExact :
    (native_of : String → Option Native) (e : RawEvent) (t : TransferEvent)
    → decode_transfer_event native_of e ≡ some t
    → IsExact t
decode_transfer_event-IsExact native_of e t h =
    subst Decoded h (decode_transfer_event-Decoded native_of e)
