-- ===== src/Messages/Pass.antt =====
-- src/messagehandler.cpp: what one pass over the queue does.
use samurai.Prelude.{
  ℕ, suc, ◌≡◌, refl, sym, ap, ◌∙◌, Bool, true, false, List, [], ◌∷◌, ◌++◌, append-nil, append_assoc,
  foldl, some, arith, length, length-append,
}
use mathlib.Core.List.{reverse, reverse-cons, reverse-append}
use samurai.Messages.{
  Message, MessageHandler, post_message, back, pop_back, carry_over, handle_message, process_loop,
  process,
}

back-snoc : (ms : List Message) (m : Message) → back (ms ++ m ∷ []) ≡ some m
unfolding back
back-snoc [] m = refl
back-snoc (n ∷ []) m = refl
back-snoc (n ∷ o ∷ ms) m = back-snoc (o ∷ ms) m

pop_back-snoc : (ms : List Message) (m : Message) → pop_back (ms ++ m ∷ []) ≡ ms
unfolding pop_back
pop_back-snoc [] m = refl
pop_back-snoc (n ∷ []) m = refl
pop_back-snoc (n ∷ o ∷ ms) m = ap (◌∷◌ n) (pop_back-snoc (o ∷ ms) m)

length-reverse : (ms : List Message) → length (reverse ms) ≡ length ms
length-reverse [] = refl
length-reverse (m ∷ ms) =
    rw (reverse-cons m ms) (omega (arith, length-append (reverse ms) (m ∷ []), length-reverse ms))

-- A handler in a pass: the messages left, the oldest first, and those posted in it.
abbrev during : List ℕ → List Message → List Message → MessageHandler
during listeners left posted = record {
  queue = reverse left;
  busy_queue = reverse posted;
  listener = listeners;
  busy = true;
}

post-during :
    (ls : List ℕ) (left posted more : List Message)
    → foldl post_message (during ls left posted) more ≡ during ls left (posted ++ more)
unfolding post_message
post-during ls left posted [] = rw (append-nil posted) refl
post-during ls left posted (m ∷ ms) =
    ap
      (λ (q : List Message).
        foldl post_message
          (record { queue = reverse left; busy_queue = q; listener = ls; busy = true }) ms)
      (sym (reverse-append posted (m ∷ [])))
    ∙ post-during ls left (posted ++ m ∷ []) ms
    ∙ ap (λ (p : List Message). during ls left p) (append_assoc posted (m ∷ []) ms)

carry_step :
    (rounds : ℕ) (h : MessageHandler) (ms : List Message) (m : Message)
    → h.busy_queue ≡ ms ++ m ∷ []
    → carry_over (suc rounds) h
      ≡ carry_over rounds (record h { queue = m ∷ h.queue; busy_queue = ms })
unfolding carry_over
carry_step rounds h ms m e =
    let oldest : back h.busy_queue ≡ some m = ap back e ∙ back-snoc ms m in
    rw (oldest, carry_over)
      (ap
        (λ (q : List Message). carry_over rounds (record h { queue = m ∷ h.queue; busy_queue = q }))
        (ap pop_back e ∙ pop_back-snoc ms m))

carry_over-during :
    (posted queue : List Message) (ls : List ℕ) (b : Bool)
    → carry_over
        (length posted)
        (record { queue = queue; busy_queue = reverse posted; listener = ls; busy = b })
      ≡ record { queue = reverse posted ++ queue; busy_queue = []; listener = ls; busy = b }
unfolding carry_over
carry_over-during [] queue ls b = refl
carry_over-during (m ∷ ms) queue ls b =
    carry_step (length ms) _ (reverse ms) m (reverse-cons m ms)
    ∙ carry_over-during ms (m ∷ queue) ls b
    ∙ ap (λ (q : List Message). record { queue = q; busy_queue = []; listener = ls; busy = b })
        (sym (append_assoc (reverse ms) (m ∷ []) queue)
          ∙ ap (λ (r : List Message). r ++ queue) (sym (reverse-cons m ms)))

-- A handler outside a pass, with these messages to deliver, the oldest first.
abbrev pub waiting : List ℕ → List Message → MessageHandler
waiting listeners ms = record {
  queue = reverse ms;
  busy_queue = [];
  listener = listeners;
  busy = false;
}

-- Messages that are posted outside a pass join it at the end.
pub post-waiting :
    (ms more : List Message) (ls : List ℕ)
    → foldl post_message (waiting ls ms) more ≡ waiting ls (ms ++ more)
unfolding post_message
post-waiting ms [] ls = rw (append-nil ms) refl
post-waiting ms (n ∷ ns) ls =
    ap
      (λ (q : List Message).
        foldl post_message (record { queue = q; busy_queue = []; listener = ls; busy = false }) ns)
      (sym (reverse-append ms (n ∷ [])))
    ∙ post-waiting (ms ++ n ∷ []) ns ls
    ∙ ap (λ (p : List Message). waiting ls p) (append_assoc ms (n ∷ []) ns)

module _ {ℓ} {S : Type ℓ} (event_message : ℕ → Message → S → S × List Message) where
  -- One message to every listener in turn: the state, and all that they post, in order.
  abbrev pub deliver : List ℕ → Message → S → S × List Message
  deliver [] m s = (s, [])
  deliver (l ∷ ls) m s =
      let (t, posted) = event_message l m s in let (u, more) = deliver ls m t in (u, posted ++ more)

  -- Every message of a list in turn.
  abbrev pub deliver_all : List ℕ → List Message → S → S × List Message
  deliver_all ls [] s = (s, [])
  deliver_all ls (m ∷ ms) s =
      let (t, posted) = deliver ls m s in let (u, more) = deliver_all ls ms t in (u, posted ++ more)

  handle_message-during :
      (handlers ls : List ℕ) (m : Message) (s : S) (left posted : List Message)
      → handle_message event_message handlers m s (during ls left posted)
        ≡ ((deliver handlers m s).0, during ls left (posted ++ (deliver handlers m s).1))
  unfolding handle_message
  handle_message-during [] ls m s left posted = rw (append-nil posted) refl
  handle_message-during (l ∷ handlers) ls m s left posted =
      let (t, new) = event_message l m s in
      ap (handle_message event_message handlers m t) (post-during ls left posted new)
      ∙ handle_message-during handlers ls m t left (posted ++ new)
      ∙ ap (λ (p : List Message). ((deliver handlers m t).0, during ls left p))
          (append_assoc posted new (deliver handlers m t).1)

  process_step :
      (rounds : ℕ) (s : S) (ls : List ℕ) (m : Message) (left posted : List Message)
      → process_loop event_message (suc rounds) s (during ls (m ∷ left) posted)
        ≡ process_loop event_message rounds
            (deliver ls m s).0
            (during ls left (posted ++ (deliver ls m s).1))
  unfolding process_loop
  process_step rounds s ls m left posted =
      let oldest : back (reverse (m ∷ left)) ≡ some m =
        ap back (reverse-cons m left) ∙ back-snoc (reverse left) m in
      rw (oldest, process_loop)
        (ap
            (λ (r : S × MessageHandler).
              process_loop event_message rounds r.0 (record r.1 { queue = pop_back r.1.queue }))
            (handle_message-during ls ls m s (m ∷ left) posted)
          ∙ ap
              (λ (q : List Message).
                process_loop event_message rounds (deliver ls m s).0
                  (record (during ls left (posted ++ (deliver ls m s).1)) { queue = q }))
              (ap pop_back (reverse-cons m left) ∙ pop_back-snoc (reverse left) m))

  process_loop-during :
      (ms : List Message) (s : S) (ls : List ℕ) (posted : List Message)
      → process_loop event_message (length ms) s (during ls ms posted)
        ≡ ((deliver_all ls ms s).0, during ls [] (posted ++ (deliver_all ls ms s).1))
  unfolding process_loop
  process_loop-during [] s ls posted = rw (append-nil posted) refl
  process_loop-during (m ∷ ms) s ls posted =
      let (t, new) = deliver ls m s in
      process_step (length ms) s ls m ms posted
      ∙ process_loop-during ms t ls (posted ++ new)
      ∙ ap (λ (p : List Message). ((deliver_all ls ms t).0, during ls [] p))
          (append_assoc posted new (deliver_all ls ms t).1)

  pub process-waiting :
      (ms : List Message) (s : S) (ls : List ℕ)
      → process event_message s (waiting ls ms)
        ≡ ((deliver_all ls ms s).0, waiting ls (deliver_all ls ms s).1)
  unfolding process
  process-waiting ms s ls =
      let (t, posted) = deliver_all ls ms s in
      ap (λ (n : ℕ). finish_pass (process_loop event_message n s (during ls ms [])))
        (length-reverse ms)
      ∙ ap finish_pass (process_loop-during ms s ls [])
      ∙ ap (λ (n : ℕ). (t, record (carry_over n (during ls [] posted)) { busy = false }))
          (length-reverse posted)
      ∙ ap (λ (g : MessageHandler). (t, record g { busy = false }))
          (carry_over-during posted [] ls true)
      ∙ ap
          (λ (q : List Message).
            (t, record { queue = q; busy_queue = []; listener = ls; busy = false }))
          (append-nil (reverse posted))
    where
      finish_pass : S × MessageHandler → S × MessageHandler
      finish_pass r = (r.0, record (carry_over (length r.1.busy_queue) r.1) { busy = false })

  -- Whatever the listeners do with a message, two passes after messages were posted to a handler
  -- that is not busy deliver to every listener in turn first all the messages that were waiting, in
  -- the order in which they were posted, and then all that the listeners posted in the first pass,
  -- in their order; what they post in the second pass waits.
  pub process-process :
      (ms more : List Message) (s : S) (ls : List ℕ)
      → (let first = process event_message s (foldl post_message (waiting ls ms) more) in
          process event_message first.0 first.1)
        ≡ (let first = deliver_all ls (ms ++ more) s in
            let second = deliver_all ls first.1 first.0 in (second.0, waiting ls second.1))
  process-process ms more s ls =
      ap
        (λ (h : MessageHandler).
          let first = process event_message s h in process event_message first.0 first.1)
        (post-waiting ms more ls)
      ∙ ap (λ (r : S × MessageHandler). process event_message r.0 r.1)
          (process-waiting (ms ++ more) s ls)
      ∙ process-waiting (deliver_all ls (ms ++ more) s).1 (deliver_all ls (ms ++ more) s).0 ls
