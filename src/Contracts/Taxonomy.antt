-- ===== src/Contracts/Taxonomy.antt =====
-- src/contracts/taxonomy.ts: the values that a memory's kind, class, scope and status may take.
use edgemneme.Base.{List, [], ◌∷◌, Text, codes}

abbrev pub memory_kinds : List Text
memory_kinds =
    codes "decision"
    ∷ codes "fact"
    ∷ codes "convention"
    ∷ codes "procedure"
    ∷ codes "learning"
    ∷ codes "incident"
    ∷ codes "reference"
    ∷ codes "feedback"
    ∷ []

abbrev pub memory_classes : List Text
memory_classes = codes "semantic" ∷ codes "procedural" ∷ codes "episodic" ∷ []

abbrev pub memory_scopes : List Text
memory_scopes =
    codes "project" ∷ codes "repository" ∷ codes "ref" ∷ codes "worktree" ∷ codes "session" ∷ []

abbrev pub memory_statuses : List Text
memory_statuses =
    codes "active"
    ∷ codes "contested"
    ∷ codes "superseded"
    ∷ codes "invalidated"
    ∷ codes "archived"
    ∷ []
