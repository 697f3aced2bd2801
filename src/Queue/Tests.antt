-- ===== src/Queue/Tests.antt =====
-- The queue of one place, run by three threads.
use native.Mathlib.Decide.{ℕ_discrete}
use mzntapp_cpp.Base.Count.{update}
use mzntapp_cpp.Base.{ℕ, ◌+◌, ◌<◌, refl, [], ◌∷◌, ◌++◌, arith}
use mzntapp_cpp.Queue.{
  Pc, Queue, System, Reach, init, here, next, moves, push_lock, push_test, push_put, push_signal,
  push_wait, pop_lock, pop_test, pop_take, pop_wait, pop_signal, push_call, push_locks, push_room,
  push_puts, push_full, pop_call, pop_locks, pop_empty, pop_some, pop_takes,
}
use mzntapp_cpp.Queue.Inv.{popping, push_signals, pushing, pop_signals}
use mzntapp_cpp.Queue.Atomic.{Steps, step_refines}
use mzntapp_cpp.Queue.Wakeups.{pop_wakeup, push_wakeup}

abbrev moved : System → ℕ → Queue → Pc → System
moved s i q p = record { queue = q; pc = update s.pc i p }

abbrev locked : System → Queue
locked s = record s.queue { locked = 1 }

abbrev freed : System → Queue
freed s = record s.queue { locked = 0 }

-- Thread 0 finds the queue empty and waits.
abbrev popper_locks : System
popper_locks = moved (moved (init 1) 0 (init 1).queue pop_lock) 0 (locked (init 1)) pop_test

abbrev popper_waits : System
popper_waits = moved popper_locks 0 (freed popper_locks) pop_wait

popper_locks-Reach : Reach 3 1 popper_locks
unfolding ℕ_discrete
popper_locks-Reach =
    next (next here (moves 0 (omega arith) pop_call)) (moves 0 (omega arith) (pop_locks refl))

-- A thread pushes a value into a free queue of free threads.
abbrev pushed : System → ℕ → ℕ → System
pushed s i v =
    let s1 = moved s i s.queue (push_lock v) in
    let s2 = moved s1 i (locked s1) (push_test v) in
    let s3 = moved s2 i s2.queue (push_put v) in
    moved s3 i
      (record s3.queue {
        items = s3.queue.items ++ v ∷ [];
        locked = 0;
        entered = s3.queue.entered ++ v ∷ [];
      })
      push_signal

-- Thread 1 pushes 7 meanwhile.
abbrev stocked : System
stocked = pushed popper_waits 1 7

stocked-Reach : Reach 3 1 stocked
unfolding ℕ_discrete
stocked-Reach =
    let r = next popper_locks-Reach (moves 0 (omega arith) (pop_empty refl)) in
    let r1 = next r (moves 1 (omega arith) (push_call 7)) in
    let r2 = next r1 (moves 1 (omega arith) (push_locks refl)) in
    let r3 = next r2 (moves 1 (omega arith) (push_room (omega arith))) in
    next r3 (moves 1 (omega arith) push_puts)

pop_wakeup_example : (i : ℕ) × (i < 3) × (0 < popping (stocked.pc i) + push_signals (stocked.pc i))
unfolding ℕ_discrete
pop_wakeup_example = pop_wakeup 0 stocked-Reach (omega arith) refl (λ e. absurd (cc e))

-- With 7 in the queue, thread 1 waits to push 8, and thread 2 pops.
abbrev first_pushed : System
first_pushed = pushed (init 1) 0 7

abbrev pusher_locks : System
pusher_locks =
    let s1 = moved first_pushed 1 first_pushed.queue (push_lock 8) in
    moved s1 1 (locked s1) (push_test 8)

abbrev pusher_waits : System
pusher_waits = moved pusher_locks 1 (freed pusher_locks) (push_wait 8)

abbrev popper_takes : System
popper_takes =
    let s1 = moved pusher_waits 2 pusher_waits.queue pop_lock in
    let s2 = moved s1 2 (locked s1) pop_test in moved s2 2 s2.queue pop_take

abbrev emptied : System
emptied =
    moved popper_takes 2 (record popper_takes.queue { items = []; locked = 0; left = 7 ∷ [] })
      pop_signal

pusher_waits-Reach : Reach 3 1 pusher_waits
unfolding ℕ_discrete
pusher_waits-Reach =
    let r1 = next here (moves 0 (omega arith) (push_call 7)) in
    let r2 = next r1 (moves 0 (omega arith) (push_locks refl)) in
    let r3 = next r2 (moves 0 (omega arith) (push_room (omega arith))) in
    let r4 = next r3 (moves 0 (omega arith) push_puts) in
    let r5 = next r4 (moves 1 (omega arith) (push_call 8)) in
    let r6 = next r5 (moves 1 (omega arith) (push_locks refl)) in
    next r6 (moves 1 (omega arith) (push_full refl))

emptied-Reach : Reach 3 1 emptied
unfolding ℕ_discrete
emptied-Reach =
    let r1 = next pusher_waits-Reach (moves 2 (omega arith) pop_call) in
    let r2 = next r1 (moves 2 (omega arith) (pop_locks refl)) in
    let r3 = next r2 (moves 2 (omega arith) (pop_some (λ e. absurd (cc e)))) in
    next r3 (moves 2 (omega arith) (pop_takes refl))

push_wakeup_example : (i : ℕ) × (i < 3) × (0 < pushing (emptied.pc i) + pop_signals (emptied.pc i))
unfolding ℕ_discrete
push_wakeup_example = push_wakeup 1 8 emptied-Reach (omega arith) refl (omega arith)

step_refines_example : Steps 3 1 popper_locks popper_waits
unfolding ℕ_discrete
step_refines_example = step_refines popper_locks-Reach (moves 0 (omega arith) (pop_empty refl))
