-- ===== src/Decode/Lines.antt =====
-- The lines of the tables.
use advanced_slop.Base.{List, [], ◌∷◌}

module _ {A : Type 0} where
  abbrev pub line2 : A → A → List A
  line2 a b = a ∷ b ∷ []

  abbrev pub line4 : (a b c d : A) → List A
  line4 a b c d = a ∷ b ∷ c ∷ d ∷ []

  abbrev pub line8 : (a b c d e f g h : A) → List A
  line8 a b c d e f g h = a ∷ b ∷ c ∷ d ∷ e ∷ f ∷ g ∷ h ∷ []
