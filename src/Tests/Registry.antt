-- ===== src/Tests/Registry.antt =====
-- The registry of src/server/client_registry.c.
use ai_chatbot.Base.{List, [], ◌∷◌, ◌≡◌, refl, true, false, none, arith}
use ai_chatbot.Text.{Bytes, codes, str_eq}
use ai_chatbot.Status.{Status}
use ai_chatbot.Registry.{
  Spill, find_fd, find_name, registry_add, registry_username_exists, registry_build_user_list,
  user_list_loop,
}
use ai_chatbot.Registry.Valid.{IsValid}
use ai_chatbot.Registry.Sequence.{Operation, run_operations}
use ai_chatbot.Registry.Directory.{Run, directory, calls, Answers}
use ai_chatbot.Registry.Directory.Refines.{run_operations-refines}
use ai_chatbot.Registry.Names.{registry_add_unterminated}
use ai_chatbot.Tests.Data.{carol, lobby, den, two_clients, clean}

two_clients-IsValid : IsValid two_clients
unfolding find_fd find_name str_eq
two_clients-IsValid = record {
  counted = refl;
  bounded = omega arith;
  unique = (refl, refl, (refl, refl, tt));
}

no_9 : find_fd 9 two_clients.nodes ≡ none
unfolding find_fd
no_9 = refl

abbrev three_calls : List Operation
three_calls =
    Operation.add true clean 9 carol lobby true ∷ Operation.set_room 4 den ∷ Operation.remove 5 ∷ []

run_operations-refines_example :
    Run
      (directory two_clients)
      (calls three_calls two_clients)
      (directory (run_operations three_calls two_clients))
    × Answers (run_operations three_calls two_clients)
run_operations-refines_example =
    run_operations-refines three_calls two_clients ((omega arith, no_9), (tt, (tt, tt)))
      (omega arith, (omega arith, (tt, tt))) two_clients-IsValid

list_run : registry_build_user_list two_clients 512 ≡ (Status.ok, codes "bob,alice")
unfolding registry_build_user_list user_list_loop
list_run = refl

list_cut : (registry_build_user_list two_clients 9).0 ≡ Status.err
unfolding registry_build_user_list user_list_loop
list_cut = refl

-- A name of 31 bytes.
abbrev long_name : Bytes
long_name = codes "a_name_of_thirty_one_characters"

long_name_absent : registry_username_exists two_clients long_name ≡ false
unfolding registry_username_exists find_name str_eq
long_name_absent = refl

abbrev dirty : Spill
dirty = record { username = codes "x"; room = codes "y" }

registry_add_unterminated_example :
    ((registry_add true dirty two_clients 9 long_name lobby false).0 ≡ Status.ok)
    × (registry_username_exists
          (registry_add true dirty two_clients 9 long_name lobby false).1
          long_name
        ≡ false)
registry_add_unterminated_example =
    registry_add_unterminated dirty two_clients 9 long_name lobby false refl (λ e. cc) (omega arith)
      long_name_absent
