-- ===== src/Engine/Ai/Laws.antt =====
-- The skills of a résumé: ai.py.
use recruit_me.Prelude.{◌≡◌, String, Bool, false, ◌||◌, List, [], ◌∷◌, All, str_eq, strip}
use recruit_me.Engine.Ai.{is_seen}

module _ (lower : String → String) where
  -- No two skills are the same but for their case.
  abbrev pub IsDistinct : List String → Type 0
  IsDistinct [] = Unit
  IsDistinct (s ∷ ss) = All (λ t. str_eq (lower s) (lower t) ≡ false) ss × IsDistinct ss

  -- The test of the loop: the item is dropped, or it is new and not blank.
  drops : List String → String → Bool
  drops seen item = str_eq (strip item) "" || is_seen lower seen (strip item)

  -- What the collected skills keep to: they are distinct and none is blank.
  abbrev pub IsClean : List String → Type 0
  IsClean ss = IsDistinct ss × All (λ s. str_eq s "" ≡ false) ss

  -- An item is blank, or a skill is the same but for the case.
  abbrev pub is_found : List String → String → Bool
  is_found ss item = str_eq (strip item) "" || is_seen lower ss (strip item)
