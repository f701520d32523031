-- ===== src/Registry/Tests.antt =====
-- The registry (src/registry/asset_registry.py) at concrete inputs.
use polypy.Prelude.{
  ℕ, ◌+◌, ◌≤◌, String, ◌≡◌, ◌≢◌, refl, Bool, true, false, ◌&&◌, Option, none, some, List, [], ◌∷◌,
  ◌++◌, length, min, eqb, if◌then◌else◌, arith, eq_iff,
}
use polypy.Prelude.Int.{pos}
use polypy.Prelude.Ids.{member}
use polypy.Prelude.Dict.{get, has}
use polypy.SortedDict.Reference.{sorted_listing}
use polypy.Registry.{AssetRegistry, init}
use polypy.Registry.Queries.{get_expiring_before}
use polypy.Registry.Updates
use polypy.Registry.Updates.{ok}
use polypy.Registry.Coherence.{IsCoherent}
use polypy.Registry.Outcomes.Batching.{add_asset_race}
use polypy.Registry.Runs.{
  Operation, add_asset, mark_subscribed, mark_expired, run, init-IsCoherent, run-IsCoherent,
}

-- two assets of one condition, the first subscribed and then expired
abbrev operations : List Operation
operations =
    add_asset 1 "yes" "game" (pos 50)
    ∷ add_asset 2 "no" "game" (pos 40)
    ∷ mark_subscribed 3 ("yes" ∷ "gone" ∷ []) "c1"
    ∷ mark_expired ("yes" ∷ [])
    ∷ []

abbrev registry : AssetRegistry sorted_listing
registry = run sorted_listing operations (init sorted_listing)

registry-IsCoherent : IsCoherent sorted_listing registry
registry-IsCoherent =
    run-IsCoherent sorted_listing operations (init sorted_listing) (init-IsCoherent sorted_listing)

expiring_test : get_expiring_before sorted_listing registry (pos 60) ≡ "no" ∷ "yes" ∷ []
unfolding get_expiring_before run polypy.SortedDict.Listing.below Updates.mark_expired get
    Updates.mark_subscribed Updates.add_asset_locked init polypy.Prelude.Dict.put
    polypy.SortedDict.Listing.insert polypy.SortedDict.Listing.find polypy.Prelude.Ids.add
expiring_test = refl

run-IsCoherent_example :
    IsCoherent sorted_listing (run sorted_listing operations (init sorted_listing))
run-IsCoherent_example =
    run-IsCoherent sorted_listing operations (init sorted_listing) (init-IsCoherent sorted_listing)

new_is_absent : get registry.assets "new" ≡ none
unfolding run get Updates.mark_expired Updates.mark_subscribed Updates.add_asset_locked init
    polypy.Prelude.Dict.put
new_is_absent = refl

add_asset_race_example :
    ((Updates.add_asset_locked sorted_listing 9 "new" "b" (pos 0) registry).1 ≡ true)
    × (Updates.add_asset sorted_listing
          (λ r. (Updates.add_asset_locked sorted_listing 9 "new" "b" (pos 0) r).0)
          8
          "new"
          "a"
          (pos 5)
          registry
        ≡ ((Updates.add_asset_locked sorted_listing 9 "new" "b" (pos 0) registry).0, false))
add_asset_race_example =
    add_asset_race sorted_listing 8 9 "new" "a" "b" (pos 5) (pos 0) registry new_is_absent
