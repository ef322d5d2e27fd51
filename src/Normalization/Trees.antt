-- ===== src/Normalization/Trees.antt =====
-- JSON values, as observations hold them.
use os_bench.Common.{String, Bool, List, [], ◌∷◌}

mutual
  pub data Json : Type 0 where
    null : Json
    boolean : Bool → Json
    number : String → Json
    text : String → Json
    array : Elements → Json
    object : Members → Json

  pub data Elements : Type 0 where
    none_left : Elements
    element : Json → Elements → Elements

  pub data Members : Type 0 where
    no_more : Members
    member : String → Json → Members → Members

unfoldable pub elements_of : List Json → Elements
elements_of [] = none_left
elements_of (x ∷ xs) = element x (elements_of xs)

unfoldable pub list_of : Elements → List Json
list_of none_left = []
list_of (element x xs) = x ∷ list_of xs
