-- ===== src/Messages/Tests.antt =====
-- Concrete floating point numbers, and the parser (src/messages/parser.py) at concrete messages.
use polypy.Prelude.{
  ℕ, ◌*◌, ◌/◌, String, ◌≡◌, refl, Option, none, some, List, [], ◌∷◌, ◌==◌, if◌then◌else◌,
}
use polypy.Prelude.Int.{ℤ, pos}
use polypy.Prelude.Dict.{get}
use polypy.Messages.{Floats, price_change, ParsedMessage}
use polypy.Messages.Raw.{Result, ok, RawData, Decoded, many, RawMessage}
use polypy.Messages.Parser.{parse_each, parse_price_change}

-- numbers with one decimal, as tenths
abbrev pub tenths : Floats
tenths = record {
  Float = ℕ;
  parse = λ t. if t == "0.5" then some 5 else if t == "10" then some 100 else none;
  scaled = λ x k. some (pos (x * k / 10));
}

abbrev pub parse_int : String → Option ℤ
parse_int t = if t == "7" then some (pos 7) else none

abbrev change_data : RawData
change_data = record {
  texts = ("event_type", "price_change") ∷ ("market", "game") ∷ ("timestamp", "7") ∷ [];
  tables =
      (
        "price_changes",
        (("asset_id", "yes")
              ∷ ("price", "0.5")
              ∷ ("size", "10")
              ∷ ("side", "BUY")
              ∷ ("hash", "h")
              ∷ ("best_bid", "0.5")
              ∷ ("best_ask", "0.5")
              ∷ [])
            ∷ (("asset_id", "no")
                ∷ ("price", "0.5")
                ∷ ("size", "10")
                ∷ ("side", "SELL")
                ∷ ("hash", "h")
                ∷ ("best_bid", "0.5")
                ∷ ("best_ask", "0.5")
                ∷ [])
            ∷ [],
      )
      ∷ [];
}

abbrev nameless_data : RawData
nameless_data = record { texts = ("event_type", "book") ∷ []; tables = [] }

abbrev pub decode : ℕ → Option Decoded
decode n = some (many (change_data ∷ nameless_data ∷ []))

change_data_parses : (parse_each tenths parse_int (change_data ∷ [])).1 ≡ none
unfolding parse_each get
change_data_parses = refl

abbrev raw_change : RawMessage
raw_change = record {
  event_type = price_change;
  market = "game";
  timestamp = pos 7;
  raw_data = change_data;
}

abbrev read : Result (List (ParsedMessage tenths)) → List (ParsedMessage tenths)
read (ok ms) = ms
read _ = []

raw_change_parses :
    parse_price_change tenths raw_change ≡ ok (read (parse_price_change tenths raw_change))
unfolding parse_price_change get
raw_change_parses = refl
