-- ===== src/Messages/Raw.antt =====
-- A message of the feed before its kind is parsed (src/messages/parser.py): the results of the parser,
-- what the JSON decoder gives, and `_process_bytes`. The decoder is a parameter: what it gives is a
-- message or a list of them. A message is read as the source's annotations say: its fields are texts,
-- or lists of dictionaries of texts.
use polypy.Prelude.{String, Option, none, some, List, [], ◌∷◌, ◌==◌, if◌then◌else◌}
use polypy.Prelude.Int.{ℤ, pos}
use polypy.Prelude.Dict.{Dict, get}
use polypy.Messages.{EventType, unknown, event_type_of}

pub data Failure : Type 0 where
  decode_error unknown_message_type unknown_market value_error key_error not_implemented : Failure

pub data Result {ℓ} (A : Type ℓ) : Type ℓ where
  ok : A → Result A
  err : Failure → Result A

infixl 10 ◌>>=◌
abbrev pub ◌>>=◌ {ℓ κ} : {A : Type ℓ} {B : Type κ} → Result A → (A → Result B) → Result B
ok a >>= f = f a
err e >>= f = err e

-- x, or the exception for a missing value
abbrev pub or_raise {ℓ} : {A : Type ℓ} → Failure → Option A → Result A
or_raise e none = err e
or_raise e (some a) = ok a

-- tuple(f(x) for x in l)
unfoldable pub for_all {ℓ κ} : {A : Type ℓ} {B : Type κ} → (A → Result B) → List A → Result (List B)
for_all f [] = ok []
for_all f (x ∷ xs) = do y ← f x; ys ← for_all f xs; ok (y ∷ ys)

-- a decoded message
pub record RawData : Type 0 where
  pub texts : Dict String
  pub tables : Dict (List (Dict String))

pub data Decoded : Type 0 where
  one : RawData → Decoded
  many : List RawData → Decoded

-- raw if isinstance(raw, list) else [raw]
unfoldable pub raw_messages : Decoded → List RawData
raw_messages (one r) = r ∷ []
raw_messages (many rs) = rs

pub record RawMessage : Type 0 where
  pub event_type : EventType
  pub market : String
  pub timestamp : ℤ
  pub raw_data : RawData

-- d[k], d.get(k, default)
abbrev pub item : Dict String → String → Result String
item d k = or_raise key_error (get d k)

abbrev pub text_or : Dict String → String → String → String
text_or d k default = elim (get d k) [ none ↦ default | some t ↦ t ]

abbrev pub table : RawData → String → List (Dict String)
table r k = elim (get r.tables k) [ none ↦ [] | some l ↦ l ]

-- int(message.get("timestamp", 0)); `parse_int` is int(text)
unfoldable pub timestamp_of : (String → Option ℤ) → Dict String → Result ℤ
timestamp_of parse_int d = elim (get d "timestamp") [
  | none ↦ ok (pos 0)
  | some t ↦ or_raise value_error (parse_int t)
]

-- the body of the loop of `_process_bytes`, after the event type
unfoldable pub process_known : (String → Option ℤ) → RawData → EventType → Result RawMessage
unfolding timestamp_of
process_known parse_int message event_type =
    let market = text_or message.texts "market" "" in
    if market == "" then err unknown_market else (do
      timestamp ← timestamp_of parse_int message.texts
      ok (record {
        event_type = event_type;
        market = market;
        timestamp = timestamp;
        raw_data = message;
      }))

unfoldable pub process_one : (String → Option ℤ) → RawData → Result RawMessage
unfolding event_type_of process_known
process_one parse_int message = elim (event_type_of (text_or message.texts "event_type" "")) [
  | unknown ↦ err unknown_message_type
  | known ↦ process_known parse_int message known
]
