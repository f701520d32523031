-- ===== src/Lifecycle/Api.antt =====
-- The client of the Gamma API (src/lifecycle/api.py). What the server answers to each attempt at each
-- offset is an argument, and so are the readings of a JSON text, of a date and of a number's digits.
-- A field of a market has the type that the code says, or is missing.
use polypy.Prelude.{
  ℕ, zero, suc, ◌+◌, ◌-◌, ◌*◌, ◌^◌, String, Bool, true, false, Option, none, some, List, [], ◌∷◌,
  ◌++◌, ◌&&◌, length, get_elem?, ltb, eqb, ◌==◌, if◌then◌else◌,
}
use polypy.Prelude.Int.{ℤ, pos}
use polypy.Prelude.Dict.{Dict}
use polypy.Lifecycle.{MarketInfo}

abbrev pub default_page_size : ℕ
default_page_size = 500

abbrev pub max_retries : ℕ
max_retries = 3

-- in seconds
abbrev pub retry_delay : ℕ
retry_delay = 2

-- a list that comes as such, or as a JSON text
pub data Listed : Type 0 where
  json_text : String → Listed
  items : List String → Listed

pub record RawMarket : Type 0 where
  pub condition_id : Option String
  pub question : Option String
  pub outcomes : Option Listed
  pub clob_token_ids : Option Listed
  pub end_date : Option String
  pub active : Option Bool
  pub closed : Option Bool

-- json.loads on a list of texts, none for a JSONDecodeError; the milliseconds of a date after
-- fromisoformat, none for a ValueError; and the digits of a number
pub record Readers : Type 0 where
  pub loads : String → Option (List String)
  pub milliseconds : String → Option ℤ
  pub outcome_name : ℕ → String

pub data Response : Type 0 where
  page : List RawMarket → Response
  client_error : Response
  other_error : Response

pub data Fetched {ℓ} (A : Type ℓ) : Type ℓ where
  ok : A → Fetched A
  raised : Fetched A

abbrev is_there {ℓ} : {A : Type ℓ} → Option A → Bool
is_there none = false
is_there (some a) = true

abbrev get_or {ℓ} : {A : Type ℓ} → Option A → A → A
get_or none d = d
get_or (some a) d = a

-- `_is_valid_market`
unfoldable pub is_valid_market : RawMarket → Bool
is_valid_market m =
    is_there m.condition_id
    && is_there m.question
    && is_there m.outcomes
    && is_there m.clob_token_ids
    && is_there m.end_date

module _ (R : Readers) where
  unfoldable pub parse_outcomes : Listed → List String
  parse_outcomes (items l) = l
  parse_outcomes (json_text t) = get_or (R.loads t) ("Yes" ∷ "No" ∷ [])

  unfoldable pub parse_clob_token_ids : Listed → List String
  parse_clob_token_ids (items l) = l
  parse_clob_token_ids (json_text t) = get_or (R.loads t) []

  -- the loop over the token identifiers, from the `i`-th
  unfoldable pub tokens_from : ℕ → List String → List String → List (Dict String)
  tokens_from i outcomes [] = []
  tokens_from i outcomes (t ∷ ts) =
      (("token_id", t) ∷ ("outcome", get_or (get_elem? outcomes i) (R.outcome_name i)) ∷ [])
      ∷ tokens_from (i + 1) outcomes ts

  unfoldable pub end_timestamp_of : String → ℤ
  end_timestamp_of t = if t == "" then pos 0 else get_or (R.milliseconds t) (pos 0)

  -- `_parse_market`, of a market that has a conditionId; the defaults stand for missing fields
  unfoldable pub parse_market : String → RawMarket → MarketInfo
  unfolding parse_outcomes parse_clob_token_ids tokens_from end_timestamp_of
  parse_market condition_id m =
      let outcomes = parse_outcomes (get_or m.outcomes (json_text "[\"Yes\", \"No\"]")) in
      record {
        condition_id = condition_id;
        question = get_or m.question "";
        outcomes = outcomes;
        tokens =
            tokens_from 0 outcomes
              (parse_clob_token_ids (get_or m.clob_token_ids (json_text "[]")));
        end_date_iso = get_or m.end_date "";
        end_timestamp = end_timestamp_of (get_or m.end_date "");
        active = get_or m.active true;
        closed = get_or m.closed false;
      }

  -- [_parse_market(m) for m in data if _is_valid_market(m)]
  unfoldable pub parse_valid : List RawMarket → List MarketInfo
  unfolding is_valid_market parse_market
  parse_valid [] = []
  parse_valid (m ∷ ms) =
      if is_valid_market m
      then parse_market (get_or m.condition_id "") m ∷ parse_valid ms
      else parse_valid ms

  -- The attempts of `_fetch_page` that are left, from the `attempt`-th; beside the result the seconds that it
  -- slept.
  unfoldable pub attempts : ℕ → ℕ → (ℕ → Response) → Fetched (List MarketInfo × ℕ) × List ℕ
  unfolding parse_valid
  attempts zero attempt respond = (ok ([], 0), [])
  attempts (suc left) attempt respond =
      let (next, slept) = attempts left (attempt + 1) respond in
      elim (respond attempt) [
        | page d ↦ (ok (parse_valid d, length d), [])
        | client_error ↦
            if ltb attempt (max_retries - 1)
            then (next, (retry_delay * 2 ^ attempt) ∷ slept)
            else (raised, [])
        | other_error ↦ (raised, [])
      ]

  -- `_fetch_page`
  unfoldable pub fetch_page : (ℕ → Response) → Fetched (List MarketInfo × ℕ) × List ℕ
  unfolding attempts
  fetch_page respond = attempts max_retries 0 respond

  -- The `while` of `fetch_active_markets`; none when the fuel is spent.
  unfoldable pub fetch_loop :
      ℕ → (ℕ → ℕ → Response) → ℕ → ℕ → List MarketInfo → Option (Fetched (List MarketInfo))
  unfolding fetch_page
  fetch_loop zero server page_size offset all_markets = none
  fetch_loop (suc fuel) server page_size offset all_markets = elim (fetch_page (server offset)).0 [
    | raised ↦ some raised
    | ok (markets, count) ↦
        let more = fetch_loop fuel server page_size (offset + page_size) (all_markets ++ markets) in
        if eqb (length markets) 0
        then some (ok all_markets)
        else if ltb count page_size
        then some (ok (all_markets ++ markets))
        else more
  ]

  -- `fetch_active_markets`
  unfoldable pub fetch_active_markets :
      ℕ → (ℕ → ℕ → Response) → ℕ → Option (Fetched (List MarketInfo))
  unfolding fetch_loop
  fetch_active_markets fuel server page_size = fetch_loop fuel server page_size 0 []
