-- ===== src/Timer/Endless.antt =====
-- src/timer.cpp: TimerManager::process with a repeating timer whose interval is zero.
use samurai.Prelude.{
  ℕ, zero, suc, ◌+◌, ◌≤◌, ◌≡◌, refl, sym, ap, ◌∙◌, subst, inl, inr, true, false, not, none, some,
  List, [], arith, Bool-cases, Option-cases, if_cases, some_cases, ◌==◌,
}
use samurai.Timer.{
  Timer, Entry, Manager, last_entry, without_last, is_current, remove, schedule, restart, rearm,
  internal_fire, process_entry, process_round, front_is_due, process_due,
}
use samurai.Timer.Count.{Heaps}
use samurai.Timer.Keep.{IsValid}
use samurai.Timer.Process.{Performs, process_due-IsSettled}

-- The timer at `a` is live, repeats, has no interval, and is due.
pub record Spins (now a : ℕ) (s : Manager) : Type 0 where
  pub live : s.live a ≡ true
  pub timer : Timer
  pub there : s.memory a ≡ some timer
  pub repeats : timer.single_shot ≡ false
  pub no_interval : timer.interval ≡ 0
  pub due : timer.due ≤ now

module _ (push_heap pop_heap : List Entry → List Entry) where
  restart-Spins :
      (now a b : ℕ) (t : Timer) (s : Manager)
      → s.memory b ≡ some t
      → Spins now a s
      → Spins now a (restart push_heap pop_heap now b t s)
  unfolding restart schedule
  restart-Spins now a b t s m v = elim (Bool-cases (a == b)) [
    | inl here ↦
        let same_place : a ≡ b = ground (arith, here) in
        let there : s.memory b ≡ some v.timer =
          subst (λ (c : ℕ). s.memory c ≡ some v.timer) same_place v.there in
        let same : t ≡ v.timer = cc in
        record {
          live = v.live;
          timer = record t { due = now + t.interval };
          there = rw here refl;
          repeats = ap (λ (u : Timer). u.single_shot) same ∙ v.repeats;
          no_interval = ap (λ (u : Timer). u.interval) same ∙ v.no_interval;
          due = omega (arith, ap (λ (u : Timer). u.interval) same, v.no_interval);
        }
    | inr other ↦ record {
      live = v.live;
      timer = v.timer;
      there = rw other v.there;
      repeats = v.repeats;
      no_interval = v.no_interval;
      due = v.due;
    }
  ]

  rearm-Spins :
      (now a b : ℕ) (t : Timer) (s : Manager)
      → s.memory b ≡ some t
      → Spins now a s
      → Spins now a (rearm push_heap pop_heap now b t s)
  unfolding rearm remove
  rearm-Spins now a b t s m v =
      if_cases (Spins now a) t.single_shot
        (λ once. elim (Bool-cases (a == b)) [
          | inl here ↦
              let same_place : a ≡ b = ground (arith, here) in
              let there : s.memory b ≡ some v.timer =
                subst (λ (c : ℕ). s.memory c ≡ some v.timer) same_place v.there in
              let same : t ≡ v.timer = cc in
              let both : true ≡ false =
                sym once ∙ (ap (λ (u : Timer). u.single_shot) same ∙ v.repeats) in
              cc
          | inr other ↦ record {
            live = rw other v.live;
            timer = v.timer;
            there = v.there;
            repeats = v.repeats;
            no_interval = v.no_interval;
            due = v.due;
          }
        ])
        (λ _. restart-Spins now a b t s m v)

  module _ (event_timeout : ℕ → Manager → Manager) (now a : ℕ)
      (spins : (b : ℕ) (s : Manager) → Spins now a s → Spins now a (event_timeout b s)) where
    process_entry-Spins :
        (e : Entry) (s : Manager)
        → Spins now a s
        → Spins now a (process_entry push_heap pop_heap event_timeout now e s)
    unfolding process_entry internal_fire
    process_entry-Spins e s v =
        if_cases (Spins now a) (not (is_current s e)) (λ _. v)
          (λ _. some_cases (Spins now a) (s.memory e.timer) v (λ t m.
            let armed = rearm-Spins now a e.timer t s m v in
            if_cases (Spins now a) t.callback (λ _. spins e.timer _ armed) (λ _. armed)))

    popped-Spins :
        (heap : List Entry) (s : Manager) → Spins now a s → Spins now a (record s { heap = heap })
    popped-Spins heap s v = record {
      live = v.live;
      timer = v.timer;
      there = v.there;
      repeats = v.repeats;
      no_interval = v.no_interval;
      due = v.due;
    }

    process_round-Spins :
        (s : Manager)
        → Spins now a s
        → Spins now a (process_round push_heap pop_heap event_timeout now s)
    unfolding process_round
    process_round-Spins s v =
        let rest = popped-Spins (without_last (pop_heap s.heap)) s v in
        some_cases (Spins now a) (last_entry (pop_heap s.heap)) rest
          (λ e _. process_entry-Spins e _ rest)

    process_due-Spins :
        (fuel : ℕ) (s t : Manager)
        → Spins now a s
        → process_due push_heap pop_heap event_timeout fuel now s ≡ some t
        → Spins now a t
    unfolding process_due
    process_due-Spins zero s t v e = cc
    process_due-Spins (suc fuel) s t v e = elim (Bool-cases (front_is_due now s.heap)) [
      | inl more ↦
          process_due-Spins fuel (process_round push_heap pop_heap event_timeout now s) t
            (process_round-Spins s v) (rw more at e)
      | inr done ↦
          let same : some s ≡ some t = rw done at e in
          let here : s ≡ t = cc in subst (Spins now a) here v
    ]

module _ {push_heap pop_heap : List Entry → List Entry} (h : Heaps push_heap pop_heap)
    (event_timeout : ℕ → Manager → Manager)
    (performs : (a : ℕ) (s : Manager) → Performs h s (event_timeout a s)) where
  -- While a live repeating timer with an interval of zero is due in a valid manager, and the
  -- listeners leave it so, no number of rounds is enough for the loop of `process` to return.
  pub process_due_endless :
      (now a : ℕ)
      → ((b : ℕ) (s : Manager) → Spins now a s → Spins now a (event_timeout b s))
      → (fuel : ℕ) (s : Manager) → IsValid h [] s
      → Spins now a s
      → process_due push_heap pop_heap event_timeout fuel now s ≡ none
  process_due_endless now a spins fuel s v w =
      elim (Option-cases (process_due push_heap pop_heap event_timeout fuel now s)) [
        | inl never ↦ never
        | inr (t, ends) ↦
            let settled = process_due-IsSettled h event_timeout performs fuel now s t v ends in
            let still =
              process_due-Spins push_heap pop_heap event_timeout now a spins fuel s t w ends in
            absurd (omega (arith, settled.later a still.timer still.live still.there, still.due))
      ]
