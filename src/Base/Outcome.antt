-- ===== src/Base/Outcome.antt =====
-- The ends of a run of a command of topicmappr.
-- What comes of a run: os.Exit(1), a panic, a result, or no end within the fuel.
pub data Run {ℓ} (A : Type ℓ) : Type ℓ where
  exits panics runs_on : Run A
  returns : A → Run A

unfoldable pub and_then {ℓ κ} : {A : Type ℓ} {B : Type κ} → Run A → (A → Run B) → Run B
and_then exits f = exits
and_then panics f = panics
and_then runs_on f = runs_on
and_then (returns a) f = f a
