-- ===== src/Pipeline/Mailboxes/Finished.antt =====
-- When the actors of a pipeline of src/aggregations have handled everything: how many messages that takes.
use ingraind.Prelude.{ℕ, ◌+◌, List, [], ◌∷◌}
use ingraind.Float.{Float}

-- as many messages for each of so many stages
abbrev pub times : {A : Type 0} → List A → ℕ → ℕ
times [] n = 0
times (x ∷ xs) n = n + times xs n
