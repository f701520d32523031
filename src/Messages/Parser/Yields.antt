-- ===== src/Messages/Parser/Yields.antt =====
-- How much the parser yields (src/messages/parser.py): all before the message that fails, and one
-- message for each price change.
use polypy.Prelude.{String, ◌≡◌, refl, sym, ap, ◌∙◌, Option, none, some, List, [], ◌∷◌, ◌++◌, map}
use mathlib.Core.List.{append_assoc}
use polypy.Prelude.Int.{ℤ}
use polypy.Prelude.Dict.{Dict, get}
use polypy.Messages.{Floats, Side, PriceChange, ParsedMessage, side_of}
use polypy.Messages.Raw.{
  Failure, key_error, Result, ok, err, ◌>>=◌, or_raise, for_all, RawData, RawMessage, item, table,
  process_one,
}
use polypy.Messages.Parser.{
  scale, price_change_from, change_message, parse_price_change, parse_message, parse_each,
  continue_with,
}

continue_append :
    (F : Floats) (x : Result (List (ParsedMessage F)))
    (later more all : List (ParsedMessage F) × Option Failure)
    → (later.1 ≡ none → all ≡ (later.0 ++ more.0, more.1))
    → (continue_with F x later).1 ≡ none
    → continue_with F x all ≡ ((continue_with F x later).0 ++ more.0, more.1)
continue_append F (err e) later more all same h = cc
continue_append F (ok ms) later more all same h =
    rw (same h) (rw (append_assoc ms later.0 more.0) refl)

bind-ok {ℓ κ} :
    {A : Type ℓ} {B : Type κ} (r : Result A) (f : A → Result B) (b : B)
    → (r >>= f) ≡ ok b
    → (a : A) × (r ≡ ok a) × (f a ≡ ok b)
bind-ok (ok a) f b h = (a, refl, h)
bind-ok (err e) f b h = cc

or_raise-ok {ℓ} :
    {A : Type ℓ} (e : Failure) (o : Option A) (a : A) → or_raise e o ≡ ok a → o ≡ some a
or_raise-ok e none a h = cc
or_raise-ok e (some b) a h = cc

module _ (F : Floats) where
  -- Messages that all parse are yielded whatever follows them: the failure of a later message ends
  -- the generator behind them.
  pub parse_each_before :
      (parse_int : String → Option ℤ) (rs qs : List RawData)
      → (parse_each F parse_int rs).1 ≡ none
      → parse_each F parse_int (rs ++ qs) ≡ (
        (parse_each F parse_int rs).0 ++ (parse_each F parse_int qs).0,
        (parse_each F parse_int qs).1,
      )
  unfolding parse_each
  parse_each_before parse_int [] qs h = refl
  parse_each_before parse_int (r ∷ rs) qs h =
      continue_append F (process_one parse_int r >>= parse_message F) (parse_each F parse_int rs)
        (parse_each F parse_int qs) (parse_each F parse_int (rs ++ qs))
        (λ later. parse_each_before parse_int rs qs later) h

  asset-price_change_from :
      (d : Dict String) (c : PriceChange)
      → price_change_from F d ≡ ok c
      → get d "asset_id" ≡ some c.asset_id
  unfolding price_change_from
  asset-price_change_from d c e =
      let (a, ea, e1) = bind-ok (item d "asset_id") _ c e in
      let (p, _, e2) = bind-ok (item d "price") _ c e1 in
      let (s, _, e3) = bind-ok (item d "size") _ c e2 in
      let (t, _, e4) = bind-ok (item d "side") _ c e3 in
      let (h, _, e5) = bind-ok (item d "hash") _ c e4 in
      let (b, _, e6) = bind-ok (item d "best_bid") _ c e5 in
      let (k, _, e7) = bind-ok (item d "best_ask") _ c e6 in
      let (price, _, e8) = bind-ok (scale F 1000 p) _ c e7 in
      let (size, _, e9) = bind-ok (scale F 100 s) _ c e8 in
      let (side, _, e10) = bind-ok (or_raise key_error (side_of t)) _ c e9 in
      let (bid, _, e11) = bind-ok (scale F 1000 b) _ c e10 in
      let (ask, _, e12) = bind-ok (scale F 1000 k) _ c e11 in
      or_raise-ok key_error (get d "asset_id") a ea ∙ ap some (asset_of e12)
    where
      asset_of :
          {a h : String} {price size bid ask : ℤ} {side : Side} {c : PriceChange}
          → Path
              (Result PriceChange)
              (ok (record {
                asset_id = a;
                price = price;
                size = size;
                side = side;
                hash = h;
                best_bid = bid;
                best_ask = ask;
              }))
              (ok c)
          → a ≡ c.asset_id
      asset_of e = cc

  changes_of :
      (raw : RawMessage) (ds : List (Dict String)) (cs : List PriceChange)
      → for_all (price_change_from F) ds ≡ ok cs
      → map (λ (m : ParsedMessage F). some m.asset_id) (map (change_message F raw) cs)
        ≡ map (λ d. get d "asset_id") ds
  unfolding for_all change_message
  changes_of raw [] cs e = let empty : [] ≡ cs = cc in rw (sym empty) refl
  changes_of raw (d ∷ ds) cs e =
      let (c, ec, e1) = bind-ok (price_change_from F d) _ cs e in
      let (rest, er, e2) = bind-ok (for_all (price_change_from F) ds) _ cs e1 in
      let here : c ∷ rest ≡ cs = cc in
      rw (sym here) (rw (asset-price_change_from d c ec) (rw (changes_of raw ds rest er) refl))

  -- An event with several price changes yields one message for each of them, in order and under
  -- its own asset, or none at all.
  pub parse_price_change_fans_out :
      (raw : RawMessage) (ms : List (ParsedMessage F))
      → parse_price_change F raw ≡ ok ms
      → map (λ (m : ParsedMessage F). some m.asset_id) ms
        ≡ map (λ d. get d "asset_id") (table raw.raw_data "price_changes")
  unfolding parse_price_change
  parse_price_change_fans_out raw ms e =
      let (cs, ec, e1) =
        bind-ok (for_all (price_change_from F) (table raw.raw_data "price_changes")) _ ms e in
      let here : map (change_message F raw) cs ≡ ms = cc in
      rw (sym here) (changes_of raw (table raw.raw_data "price_changes") cs ec)
