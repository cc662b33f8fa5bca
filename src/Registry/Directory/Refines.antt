-- ===== src/Registry/Directory/Refines.antt =====
-- Sequences of operations of src/server/client_registry.c against the directory.
use ai_chatbot.Base.{List, [], ◌∷◌}
use ai_chatbot.Registry.{Registry}
use ai_chatbot.Registry.Valid.{IsValid}
use ai_chatbot.Registry.Sequence.{
  Operation, run_operation, run_operations, AllAllowed, run_operation-IsValid,
}
use ai_chatbot.Registry.Directory.{Run, directory, status_of, calls, AllFitRoom, Answers}
use ai_chatbot.Registry.Directory.Lookup.{registry-Answers}
use ai_chatbot.Registry.Directory.Steps.{operation-Step}

-- The registry does what a directory of the users promises: in every sequence of insertions, removals and
-- changes of a room on a valid registry, whatever fails, with names of at most 30 bytes, rooms that fit and no
-- insertion of a listed descriptor, each call returns the status and has the effect that the directory allows.
-- At the end every look-up, by a descriptor or by a name, answers what the directory says.
pub run_operations-refines :
    (ops : List Operation) (reg : Registry)
    → AllAllowed ops reg
    → AllFitRoom ops
    → IsValid reg
    → Run (directory reg) (calls ops reg) (directory (run_operations ops reg))
      × Answers (run_operations ops reg)
run_operations-refines [] reg a h v = (Run.nothing, registry-Answers reg v)
run_operations-refines (op ∷ ops) reg a h v =
    let later = run_operation op reg in
    let (run, answers) =
      run_operations-refines ops later a.1 h.1 (run_operation-IsValid op reg a.0 v) in
    (
      Run.one_more op (status_of op reg) (calls ops later) (operation-Step op reg a.0 h.0 v) run,
      answers,
    )
