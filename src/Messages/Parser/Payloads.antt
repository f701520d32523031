-- ===== src/Messages/Parser/Payloads.antt =====
-- Each parser of src/messages/parser.py gives the one payload of its kind of event.
use polypy.Prelude.{
  ◌≡◌, refl, Option, none, some, List, [], ◌∷◌, map, All, Bool, true, false, ◌==◌, arith,
}
use polypy.Messages.{
  Floats, EventType, book, price_change, last_trade_price, tick_size_change, unknown, PriceChange,
  ParsedMessage, side_of,
}
use polypy.Messages.Raw.{
  value_error, key_error, not_implemented, Result, ok, err, ◌>>=◌, or_raise, for_all, RawMessage,
  item, table,
}
use polypy.Messages.Parser.{
  scale, level_from, price_change_from, parse_book_snapshot, change_message, parse_price_change,
  parse_last_trade_price, parse_tick_size_change, parse_message,
}
use polypy.Messages.Parser.Raising.{
  is_reachable, Raises, for_all-Raises, item-Raises, level_from-Raises, or_raise-Raises,
  price_change_from-Raises, scale-Raises,
}

abbrev is_some {ℓ} : {A : Type ℓ} → Option A → Bool
is_some none = false
is_some (some _) = true

-- which of the four payloads a message carries, and which its event type calls for
abbrev pub payloads : {F : Floats} → ParsedMessage F → Bool × Bool × Bool × Bool
payloads m =
    (is_some m.book, is_some m.price_change, is_some m.last_trade, is_some m.tick_size_change)

abbrev pub payloads_for : EventType → Bool × Bool × Bool × Bool
payloads_for book = (true, false, false, false)
payloads_for price_change = (false, true, false, false)
payloads_for last_trade_price = (false, false, true, false)
payloads_for tick_size_change = (false, false, false, true)
payloads_for unknown = (false, false, false, false)

abbrev pub is_known : EventType → Bool
is_known unknown = false
is_known _ = true

-- a message of a known type, with its one payload and a market
pub record IsTagged {F : Floats} (m : ParsedMessage F) : Type 0 where
  pub known : is_known m.event_type ≡ true
  pub payload : payloads m ≡ payloads_for m.event_type
  pub has_market : (m.market == "") ≡ false

abbrev pub Yields : {F : Floats} → Result (List (ParsedMessage F)) → Type 0
Yields (ok ms) = All IsTagged ms
Yields (err e) = is_reachable e ≡ true

module _ (F : Floats) where
  bind-Yields {ℓ} :
      {A : Type ℓ} (r : Result A) (f : A → Result (List (ParsedMessage F)))
      → Raises r
      → ((a : A) → Yields (f a))
      → Yields (r >>= f)
  bind-Yields (ok a) f g h = h a
  bind-Yields (err e) f g h = g

  changes-IsTagged :
      (raw : RawMessage) (cs : List PriceChange)
      → raw.event_type ≡ price_change
      → (raw.market == "") ≡ false
      → All IsTagged (map (change_message F raw) cs)
  unfolding change_message
  changes-IsTagged raw [] e m = tt
  changes-IsTagged raw (c ∷ cs) e m = (
    record { known = ground (arith, e); payload = ground (arith, e); has_market = m },
    changes-IsTagged raw cs e m,
  )

  parse_book_snapshot-Yields :
      (raw : RawMessage)
      → raw.event_type ≡ book
      → (raw.market == "") ≡ false
      → Yields (parse_book_snapshot F raw)
  unfolding parse_book_snapshot
  parse_book_snapshot-Yields raw e m =
      bind-Yields (for_all (level_from F) (table raw.raw_data "bids")) _
        (for_all-Raises (level_from F) (level_from-Raises F) _)
        λ bids.
          bind-Yields (for_all (level_from F) (table raw.raw_data "asks")) _
            (for_all-Raises (level_from F) (level_from-Raises F) _)
            λ asks. (
              record { known = ground (arith, e); payload = ground (arith, e); has_market = m },
              tt,
            )

  parse_price_change-Yields :
      (raw : RawMessage)
      → raw.event_type ≡ price_change
      → (raw.market == "") ≡ false
      → Yields (parse_price_change F raw)
  unfolding parse_price_change
  parse_price_change-Yields raw e m =
      bind-Yields (for_all (price_change_from F) (table raw.raw_data "price_changes")) _
        (for_all-Raises (price_change_from F) (price_change_from-Raises F) _)
        λ cs. changes-IsTagged raw cs e m

  parse_last_trade_price-Yields :
      (raw : RawMessage)
      → raw.event_type ≡ last_trade_price
      → (raw.market == "") ≡ false
      → Yields (parse_last_trade_price F raw)
  unfolding parse_last_trade_price
  parse_last_trade_price-Yields raw e m =
      bind-Yields (item raw.raw_data.texts "price") _ (item-Raises raw.raw_data.texts "price") λ p.
        bind-Yields (item raw.raw_data.texts "size") _ (item-Raises raw.raw_data.texts "size") λ s.
          bind-Yields (item raw.raw_data.texts "side") _ (item-Raises raw.raw_data.texts "side")
            λ t. bind-Yields (scale F 1000 p) _ (scale-Raises F 1000 p) λ price.
              bind-Yields (scale F 100 s) _ (scale-Raises F 100 s) λ size.
                bind-Yields (or_raise key_error (side_of t)) _
                  (or_raise-Raises key_error (side_of t) refl)
                  λ side.
                    bind-Yields (item raw.raw_data.texts "asset_id") _
                      (item-Raises raw.raw_data.texts "asset_id")
                      λ a. (
                        record {
                          known = ground (arith, e);
                          payload = ground (arith, e);
                          has_market = m;
                        },
                        tt,
                      )

  parse_tick_size_change-Yields :
      (raw : RawMessage)
      → raw.event_type ≡ tick_size_change
      → (raw.market == "") ≡ false
      → Yields (parse_tick_size_change F raw)
  unfolding parse_tick_size_change
  parse_tick_size_change-Yields raw e m =
      bind-Yields (item raw.raw_data.texts "old_tick_size") _
        (item-Raises raw.raw_data.texts "old_tick_size")
        λ o.
          bind-Yields (item raw.raw_data.texts "new_tick_size") _
            (item-Raises raw.raw_data.texts "new_tick_size")
            λ n.
              bind-Yields (or_raise value_error (F.parse o)) _
                (or_raise-Raises value_error (F.parse o) refl)
                λ old.
                  bind-Yields (or_raise value_error (F.parse n)) _
                    (or_raise-Raises value_error (F.parse n) refl)
                    λ new.
                      bind-Yields (item raw.raw_data.texts "asset_id") _
                        (item-Raises raw.raw_data.texts "asset_id")
                        λ a. (
                          record {
                            known = ground (arith, e);
                            payload = ground (arith, e);
                            has_market = m;
                          },
                          tt,
                        )

  pub parse_message-Yields :
      (raw : RawMessage)
      → is_known raw.event_type ≡ true
      → (raw.market == "") ≡ false
      → Yields (parse_message F raw)
  unfolding parse_message
  parse_message-Yields raw k m = go raw.event_type refl k
    where
      go :
          (t : EventType)
          → raw.event_type ≡ t
          → is_known t ≡ true
          → Yields (elim t [
            | book ↦ parse_book_snapshot F raw
            | price_change ↦ parse_price_change F raw
            | last_trade_price ↦ parse_last_trade_price F raw
            | tick_size_change ↦ parse_tick_size_change F raw
            | unknown ↦ err not_implemented
          ])
      go book e h = parse_book_snapshot-Yields raw e m
      go price_change e h = parse_price_change-Yields raw e m
      go last_trade_price e h = parse_last_trade_price-Yields raw e m
      go tick_size_change e h = parse_tick_size_change-Yields raw e m
      go unknown e h = absurd (ground (arith, h))
