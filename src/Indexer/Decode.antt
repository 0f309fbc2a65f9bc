-- ===== src/Indexer/Decode.antt =====
-- stellar-events.ts, and eventsToPaymentRows of insert-payments.ts. What `scValToNative` makes of an
-- XDR text is a parameter.
use accensa_app.Prelude.{
  ℕ, suc, ◌/◌, ◌%◌, ◌≡◌, refl, String, Bool, true, false, List, [], ◌∷◌, ◌++◌, Option, none, some,
  if◌then◌else◌, str_eq,
}
use accensa_app.Prelude.Text.{is_empty}
use accensa_app.Prelude.Int.{ℤ, is_negative, abs}
use accensa_app.Prelude.Decimal.{to_digits, pad_start}
use accensa_app.Money.{Text, sign_text, from_stroops}
use accensa_app.Pager.{RawEvent, Value, text, object, truthy}
use accensa_app.Indexer.{TransferEvent, PaymentRow, Merchant}

abbrev pub stroops_per_unit : ℕ
stroops_per_unit = 10000000

-- A native value: a text (symbols and addresses are texts too), a bigint or a whole number, an
-- object with or without a whole `amount`, or another value.
pub data Native : Type 0 where
  native_text : String → Native
  native_integer : ℤ → Native
  native_object : Option ℤ → Native
  native_other : Native

-- `stroopsToDecimal`
unfoldable pub stroops_to_decimal : ℤ → Text
unfolding to_digits
stroops_to_decimal stroops =
    let whole = abs stroops / stroops_per_unit in
    let frac = abs stroops % stroops_per_unit in
    let frac_str = pad_start 7 (to_digits frac) in
    sign_text (is_negative stroops) ++ (to_digits whole ++ b'.' ∷ frac_str)

-- `toAddressString`, none for the empty text too, which the caller refuses.
abbrev pub to_address_string : Native → Option String
to_address_string (native_text s) = truthy (some s)
to_address_string (native_integer n) = none
to_address_string (native_object amount) = none
to_address_string native_other = none

-- The branches on `decodedValue`.
abbrev pub stroops_of : Native → Option ℤ
stroops_of (native_text s) = none
stroops_of (native_integer n) = some n
stroops_of (native_object amount) = amount
stroops_of native_other = none

abbrev pub raw_value : Option Value → Option String
raw_value none = none
raw_value (some (text s)) = truthy (some s)
raw_value (some (object none)) = none
raw_value (some (object (some s))) = truthy (some s)

abbrev pub is_transfer : Native → Bool
is_transfer (native_text s) = str_eq s "transfer"
is_transfer _ = false

abbrev pub asset_of : Option Native → String
asset_of (some (native_text s)) = s
asset_of _ = "native"

abbrev pub or_blank : Option String → String
or_blank none = ""
or_blank (some s) = s

abbrev pub or_zero : Option ℕ → ℕ
or_zero none = 0
or_zero (some n) = n

abbrev pub row_of : Merchant → TransferEvent → PaymentRow
row_of merchant t = record {
  merchant_id = merchant.id;
  tx_hash = t.tx_hash;
  ledger = t.ledger;
  payer = t.from;
  amount = t.amount;
  asset = t.asset;
  ts = t.ledger_closed_at;
}

-- The step of the loop of `eventsToPaymentRows`, on what an event decodes to.
abbrev pub add_event : Merchant → Option TransferEvent → List PaymentRow × ℕ → List PaymentRow × ℕ
add_event merchant none (rows, decoded) = (rows, decoded)
add_event merchant (some t) (rows, decoded) =
    (if str_eq t.to merchant.address then row_of merchant t ∷ rows else rows, suc decoded)

abbrev pub topics_of : Option (List String) → List String
topics_of none = []
topics_of (some topics) = topics

module _ (native_of : String → Option Native) where
  -- `topics[3]`, if there is one: none where it does not decode.
  abbrev pub decode_asset_topic : List String → Option (Option Native)
  decode_asset_topic [] = some none
  decode_asset_topic (t ∷ rest) =
      if is_empty t then some none else elim (native_of t) [ none ↦ none | some v ↦ some (some v) ]

  -- `[name, from, to, assetTopic]`; none for less than three topics and where one does not decode.
  abbrev pub decode_topics : List String → Option (Native × Native × Native × Option Native)
  decode_topics (a ∷ b ∷ c ∷ rest) = elim (native_of a) [
    | none ↦ none
    | some name ↦ elim (native_of b) [
      | none ↦ none
      | some from ↦ elim (native_of c) [
        | none ↦ none
        | some to ↦ elim (decode_asset_topic rest) [
          | none ↦ none
          | some asset ↦ some (name, from, to, asset)
        ]
      ]
    ]
  ]
  decode_topics _ = none

  abbrev pub decode_stroops : Option Value → Option ℤ
  decode_stroops value = elim (raw_value value) [
    | none ↦ none
    | some raw ↦ elim (native_of raw) [ none ↦ none | some v ↦ stroops_of v ]
  ]

  -- `decodeTransferEvent`
  unfoldable pub decode_transfer_event : RawEvent → Option TransferEvent
  unfolding stroops_to_decimal
  decode_transfer_event event = elim (decode_topics (topics_of event.topic)) [
    | none ↦ none
    | some (name, from, to, asset) ↦ elim (is_transfer name) [
      | false ↦ none
      | true ↦ elim (to_address_string from) [
        | none ↦ none
        | some from_str ↦ elim (to_address_string to) [
          | none ↦ none
          | some to_str ↦ elim (decode_stroops event.value) [
            | none ↦ none
            | some stroops ↦ some (record {
              tx_hash = or_blank event.tx_hash;
              ledger = or_zero event.ledger;
              ledger_closed_at = or_blank event.ledger_closed_at;
              from = from_str;
              to = to_str;
              asset = asset_of asset;
              stroops = stroops;
              amount = stroops_to_decimal stroops;
            })
          ]
        ]
      ]
    ]
  ]

  -- `eventsToPaymentRows`: the rows and how many events decoded.
  unfoldable pub events_to_payment_rows : Merchant → List RawEvent → List PaymentRow × ℕ
  unfolding decode_transfer_event
  events_to_payment_rows merchant [] = ([], 0)
  events_to_payment_rows merchant (e ∷ es) =
      add_event merchant (decode_transfer_event e) (events_to_payment_rows merchant es)

pub stroops_to_decimal_lem : (z : ℤ) → stroops_to_decimal z ≡ from_stroops z
unfolding stroops_to_decimal from_stroops
stroops_to_decimal_lem z = refl
