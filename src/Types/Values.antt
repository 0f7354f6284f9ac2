-- ===== src/Types/Values.antt =====
-- JSON values, as the metadata of a record and the results of a tool carry them. Numbers are the
-- integers that the source writes there.
use openclaw_nie_guard.Common.{ℕ, String, Bool, List, [], ◌∷◌}

mutual
  pub data Json : Type 0 where
    null : Json
    bool : Bool → Json
    num : ℕ → Json
    str : String → Json
    arr : Items → Json
    obj : Members → Json

  pub data Items : Type 0 where
    nil : Items
    cons : Json → Items → Items

  pub data Members : Type 0 where
    end : Members
    member : String → Json → Members → Members

abbrev pub items : List Json → Items
items [] = nil
items (x ∷ xs) = cons x (items xs)

abbrev pub strings : List String → Json
strings xs = arr (go xs)
  where
    go : List String → Items
    go [] = nil
    go (s ∷ ss) = cons (str s) (go ss)

-- Metadata: the members of a plain object, in the order in which the source writes them.
abbrev pub Metadata : Type 0
Metadata = List (String × Json)
