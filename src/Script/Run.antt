-- ===== src/Script/Run.antt =====
-- Running scripts one after the other.
use bit_vm.Prelude.{
  ℕ, zero, suc, ◌≡◌, refl, ◌∙◌, sym, ap, Option, some, [], ◌∷◌, ◌++◌, ◌>>=◌, >>=_assoc,
}
use bit_vm.Hashing.{Bytes}
use bit_vm.Script.Defs.{Script, State, step, run}

-- One script after another.
infixr 20 ◌⨾◌
abbrev pub ◌⨾◌ : Script → Script → Script
a ⨾ b = a ++ b

-- A script that a loop repeats.
unfoldable pub repeat : ℕ → Script → Script
repeat zero s = []
repeat (suc n) s = s ⨾ repeat n s

module _ (hash160 : Bytes → Bytes) where
  pub run-append :
      (a b : Script) (st : State) → run hash160 (a ++ b) st ≡ (run hash160 a st >>= run hash160 b)
  unfolding run
  run-append [] b st = refl
  run-append (op ∷ a) b st =
      ap (λ (k : State → Option State). step hash160 op st >>= k) (λ i st'. run-append a b st' i)
      ∙ sym (>>=_assoc (step hash160 op st) (run hash160 a) (run hash160 b))

  -- The script takes the one state to the other.
  pub record Runs (script : Script) (st st' : State) : Type 0 where
    pub runs : run hash160 script st ≡ some st'

  pub run-then :
      {a b : Script} {st st' st'' : State} → Runs a st st' → Runs b st' st'' → Runs (a ⨾ b) st st''
  run-then {a} {b} {st} p q = record {
    runs = run-append a b st ∙ ap (λ r. r >>= run hash160 b) p.runs ∙ q.runs;
  }

  pub run-after :
      {a : Script} {st st' : State} (b : Script)
      → Runs a st st'
      → run hash160 (a ⨾ b) st ≡ run hash160 b st'
  run-after {a} {st} b p = run-append a b st ∙ ap (λ r. r >>= run hash160 b) p.runs
