-- ===== src/Messages.antt =====
-- src/messagehandler.cpp, include/samurai/messagehandler.h: the queue of messages and its listeners.
-- A deque is a list with its front first. What a listener does with a message is an argument: it
-- changes the state of the program and posts messages; that it leaves the set of listeners alone
-- while a message is handled is an assumption of the source too, whose loop walks that vector.
pub mod Pass
mod Tests
use samurai.Prelude.{
  ℕ, zero, suc, Bool, true, false, List, [], ◌∷◌, ◌++◌, foldl, Option, none, some, if◌then◌else◌,
  length, ◌==◌,
}

pub record Message : Type 0 where
  pub id : ℕ
  pub content : ℕ
  pub arg1 : ℕ
  pub arg2 : ℕ

-- A listener is the address of the object.
pub record MessageHandler : Type 0 where
  pub queue : List Message
  pub busy_queue : List Message
  pub listener : List ℕ
  pub busy : Bool

abbrev pub new_handler : MessageHandler
new_handler = record { queue = []; busy_queue = []; listener = []; busy = false }

unfoldable pub post_message : MessageHandler → Message → MessageHandler
post_message h msg =
    if h.busy
    then record h { busy_queue = msg ∷ h.busy_queue }
    else record h { queue = msg ∷ h.queue }

unfoldable pub add_message_listener : MessageHandler → ℕ → MessageHandler
add_message_listener h handler = record h { listener = h.listener ++ handler ∷ [] }

-- std::find and erase: the first match.
unfoldable pub erase_first : List ℕ → ℕ → List ℕ
erase_first [] handler = []
erase_first (l ∷ ls) handler = if l == handler then ls else l ∷ erase_first ls handler

unfoldable pub remove_message_listener : MessageHandler → ℕ → MessageHandler
remove_message_listener h handler = record h { listener = erase_first h.listener handler }

-- back() and pop_back() of a deque.
unfoldable pub back : List Message → Option Message
back [] = none
back (m ∷ []) = some m
back (m ∷ n ∷ ms) = back (n ∷ ms)

unfoldable pub pop_back : List Message → List Message
pop_back [] = []
pop_back (m ∷ []) = []
pop_back (m ∷ n ∷ ms) = m ∷ pop_back (n ∷ ms)

-- The second loop of `process`: for the oldest message of the busy queue first, one round each.
unfoldable pub carry_over : ℕ → MessageHandler → MessageHandler
carry_over zero h = h
carry_over (suc rounds) h = elim (back h.busy_queue) [
  | none ↦ h
  | some m ↦
      carry_over rounds (record h { queue = m ∷ h.queue; busy_queue = pop_back h.busy_queue })
]

module _ {ℓ} {S : Type ℓ} (event_message : ℕ → Message → S → S × List Message) where
  -- The loop of handleMessage, and what the listeners post.
  unfoldable pub handle_message : List ℕ → Message → S → MessageHandler → S × MessageHandler
  handle_message [] msg s h = (s, h)
  handle_message (handler ∷ handlers) msg s h =
      let (t, posted) = event_message handler msg s in
      handle_message handlers msg t (foldl post_message h posted)

  -- The first loop of `process`. While it is busy nothing joins the queue, so that one round for
  -- each message is enough.
  unfoldable pub process_loop : ℕ → S → MessageHandler → S × MessageHandler
  process_loop zero s h = (s, h)
  process_loop (suc rounds) s h = elim (back h.queue) [
    | none ↦ (s, h)
    | some m ↦
        let (t, g) = handle_message h.listener m s h in
        process_loop rounds t (record g { queue = pop_back g.queue })
  ]

  unfoldable pub process : S → MessageHandler → S × MessageHandler
  process s h =
      let (t, g) = process_loop (length h.queue) s (record h { busy = true }) in
      let carried = carry_over (length g.busy_queue) g in (t, record carried { busy = false })
