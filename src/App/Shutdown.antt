-- ===== src/App/Shutdown.antt =====
-- What `stop` of src/app.py does to the components: each is tried, whatever the others raise.
use polypy.Prelude.{Bool, true, false, Option, none, some, List, [], ◌∷◌, if◌then◌else◌}
use polypy.App.{Part, PolyPy, part_eq}

abbrev is_there : Option Bool → Bool
is_there none = false
is_there (some b) = true

-- the components that are there, in the order of a list
abbrev pub present : PolyPy → List Part → List Part
present a [] = []
present a (p ∷ ps) = if is_there (a.state p) then p ∷ present a ps else present a ps

-- what is left of a component when its `stop` has been called, or not
abbrev pub stopped : Bool → Option Bool → Option Bool
stopped raises none = none
stopped raises (some b) = some (if raises then b else false)

abbrev among : Part → List Part → Bool
among p [] = false
among p (q ∷ qs) = if part_eq q p then true else among p qs
