-- ===== src/Messages/Tests.antt =====
-- The theorems on passes with a listener that answers the messages with the id 1.
use samurai.Prelude.{ℕ, ◌≡◌, refl, List, [], ◌∷◌, ◌++◌, foldl, if◌then◌else◌, ◌==◌}
use samurai.Messages.{
  Message, post_message, back, pop_back, carry_over, handle_message, process_loop, process,
}
use samurai.Messages.Pass.{waiting, deliver_all, process-process}

abbrev message : ℕ → Message
message id = record { id = id; content = 0; arg1 = 0; arg2 = 0 }

-- The log of ids, and a message with the id 2 for each that has the id 1.
abbrev answers : ℕ → Message → List ℕ → List ℕ × List Message
answers listener m log = (log ++ m.id ∷ [], (if m.id == 1 then message 2 ∷ [] else []))

abbrev two_messages : List Message
two_messages = message 1 ∷ message 3 ∷ []

-- The answer comes after the message that was there before it.
test_order :
    (let first = process answers [] (foldl post_message (waiting (7 ∷ []) []) two_messages) in
      (process answers first.0 first.1).0)
    ≡ 1 ∷ 3 ∷ 2 ∷ []
unfolding process process_loop handle_message carry_over back pop_back post_message
test_order = refl

process_example :
    (let first = process answers [] (foldl post_message (waiting (7 ∷ []) []) two_messages) in
      process answers first.0 first.1)
    ≡ (let first = deliver_all answers (7 ∷ []) two_messages [] in
        let second = deliver_all answers (7 ∷ []) first.1 first.0 in
        (second.0, waiting (7 ∷ []) second.1))
process_example = process-process answers [] two_messages [] (7 ∷ [])
