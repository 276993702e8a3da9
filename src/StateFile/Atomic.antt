-- ===== src/StateFile/Atomic.antt =====
-- An update of the state file happens whole or not at all.
use sentrydns.Base.{
  ◌≡◌, refl, ◌⊎◌, inl, inr, true, false, Option, Text, if◌then◌else◌, arith, Option-cases, List, [],
  ◌∷◌,
}
use sentrydns.StateFile.{State, Json, ReadsBack, SaveCalls, load, save, update}

-- Where `json` reads back what it wrote, an update either reports success and the next load gives
-- the changed state, or it reports an error and the file is what it was.
pub update_atomic :
    (json : Json) (calls : SaveCalls) (fn : State → State) (file : Option Text)
    → ReadsBack json
    → (((update json calls fn file).1 ≡ true)
        × (load json (update json calls fn file).0 ≡ fn (load json file)))
      ⊎ (((update json calls fn file).1 ≡ false) × ((update json calls fn file).0 ≡ file))
unfolding update save load
update_atomic json calls fn file back = elim (Option-cases (json.marshal (fn (load json file)))) [
  | inl e ↦ rw (e, save) (inr (refl, refl))
  | inr (text, e) ↦ ground (arith, back (fn (load json file)) text e)
]

-- One call of `Update` with the outcome of its system calls.
pub record Change : Type 0 where
  pub calls : SaveCalls
  pub fn : State → State

unfoldable pub updates : Json → List Change → Option Text → Option Text
updates json [] file = file
updates json (c ∷ cs) file = updates json cs (update json c.calls c.fn file).0

-- The changes of the updates that reported success, in order.
unfoldable pub applied : Json → List Change → Option Text → State → State
applied json [] file s = s
applied json (c ∷ cs) file s =
    let (file', done) = update json c.calls c.fn file in
    applied json cs file' (if done then c.fn s else s)
