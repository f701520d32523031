-- ===== src/Messages/Parser/Shapes.antt =====
-- The shape of the messages that the parser yields (src/messages/parser.py), and what it yields
-- before it fails.
use polypy.Prelude.{◌≡◌, Option, some, List, All, true}
use polypy.Messages.{Floats, ParsedMessage}
use polypy.Messages.Raw.{Failure}
use polypy.Messages.Parser.Raising.{is_reachable}
use polypy.Messages.Parser.Payloads.{IsTagged}

module _ (F : Floats) where
  -- what a parse may come to: tagged messages, then no failure or one that a message can cause
  abbrev pub IsProper : List (ParsedMessage F) × Option Failure → Type 0
  IsProper r = All IsTagged r.0 × ((e : Failure) → r.1 ≡ some e → is_reachable e ≡ true)
