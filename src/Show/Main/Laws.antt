-- ===== src/Show/Main/Laws.antt =====
-- show_main on the list of interfaces.
use router1_app.Prelude.{List, [], ◌∷◌, ◌++◌, Bytes, codes}

-- The texts with a separator between them.
abbrev pub joined : Bytes → List Bytes → Bytes
joined sep [] = []
joined sep (x ∷ []) = x
joined sep (x ∷ y ∷ xs) = x ++ (sep ++ joined sep (y ∷ xs))

-- The names on one line, and nothing where there is none.
abbrev pub one_line : List Bytes → Bytes
one_line [] = []
one_line (name ∷ names) = joined (codes " ") (name ∷ names) ++ codes "\n"
