-- ===== src/Drivers/Uart/Bystander.antt =====
-- drivers/uart.c: a task that is in no queue, such as that of a call whose buffer the driver refuses.
use mlonmcu_sw.Base.{
  ℕ, ◌+◌, ◌≡◌, ◌≢◌, refl, arith, none, List, [], ◌∷◌, All, ◌==◌, Bool, Bool-cases, inl, inr, true,
  false, ap, sym, ◌∙◌, if◌then◌else◌, sub32, u32, not,
}
use mlonmcu_sw.Base.Partial.{Returns, returns}
use mlonmcu_sw.Drivers.Task.{
  Channel, rx, tx, Tasks, TaskId, none_id, callback_id, other_id, pi_task_release, pi_task_push,
}
use mlonmcu_sw.Drivers.Uart.{
  Driver, copy_exec, end_of_task, handle_end_of_task, set_task, max_size, task_fifo_pop, event_of,
  handler, transfer_end,
}
use mlonmcu_sw.Drivers.Uart.Fifo.{IsReady, IsReady-kept, put-next, pop-IsReady}
use mlonmcu_sw.Drivers.Uart.Handler.{
  copy_exec-kept, copy_exec-IsReady, after_pop, after_pop-IsReady, transfer_end_done,
  transfer_end_more,
}
use mlonmcu_sw.Drivers.Uart.Device.{Waited, returned, faulted, waiting}
use mlonmcu_sw.Drivers.Uart.Transfers.{handler-event_of, pop_kept}

copy_exec_other : (p x z : ℕ) (d : Driver) → z ≢ x → (copy_exec p x d).tasks z ≡ d.tasks z
unfolding copy_exec
copy_exec_other p x z d o = ground (arith, o)

end_of_task_other : (id : TaskId) (x z : ℕ) (m : Tasks) → z ≢ x → end_of_task id x m z ≡ m z
unfolding pi_task_release pi_task_push
end_of_task_other none_id x z m o = ground (arith, o)
end_of_task_other callback_id x z m o = refl
end_of_task_other other_id x z m o = refl

after_pop_other :
    (p : ℕ) (c : Channel) (x z : ℕ) (xs ys : List ℕ) (d : Driver)
    → All (λ u. z ≢ u) (x ∷ xs)
    → IsReady p c (x ∷ xs) ys d
    → (after_pop p c d).tasks z ≡ d.tasks z
unfolding handle_end_of_task
after_pop_other p c x z xs ys d o r =
    let (ended, same, rest) = pop-IsReady p c d x xs ys r in
    let popped = (task_fifo_pop p c d).1 in
    let d' = handle_end_of_task (task_fifo_pop p c d).0 popped in
    let kept : d'.tasks z ≡ d.tasks z =
      end_of_task_other (popped.tasks (task_fifo_pop p c d).0).id (task_fifo_pop p c d).0 z
        popped.tasks (λ e. o.0 (e ∙ ended))
      ∙ ap (λ (m : Tasks). m z) same in
    next xs o.1 rest d' refl kept
  where
    next :
        (us : List ℕ)
        → All (λ u. z ≢ u) us
        → IsReady p c us ys (task_fifo_pop p c d).1
        → (d' : Driver) → d'.itf ≡ (task_fifo_pop p c d).1.itf
        → d'.tasks z ≡ d.tasks z
        → (if not ((d'.itf p).head c == 0) then copy_exec p ((d'.itf p).head c) d' else d').tasks z
          ≡ d.tasks z
    next [] o r d' e kept =
        let none_left : (d'.itf p).head c ≡ 0 = ap (λ i. (i p).head c) e ∙ r.mine.linked in
        rw none_left kept
    next (y ∷ us) o r d' e kept =
        let head : (d'.itf p).head c ≡ y = ap (λ i. (i p).head c) e ∙ r.mine.linked.0 in
        let live : (y == 0) ≡ false = ground (arith, r.mine.linked.1) in
        rw (head, live) (copy_exec_other p y z d' o.0 ∙ kept)

after_pop-table : (p : ℕ) (c : Channel) (d : Driver) → (after_pop p c d).table ≡ d.table
unfolding handle_end_of_task
after_pop-table p c d = started (not ((d'.itf p).head c == 0))
  where
    d' : Driver
    d' = handle_end_of_task (task_fifo_pop p c d).0 (task_fifo_pop p c d).1

    started : (b : Bool) → (if b then copy_exec p ((d'.itf p).head c) d' else d').table ≡ d.table
    started true = (copy_exec-kept p ((d'.itf p).head c) d').2 ∙ (pop_kept p c d).1
    started false = (pop_kept p c d).1

-- An interrupt's work, seen from a task that is in no queue.
pub record Undisturbed (p : ℕ) (c : Channel) (z : ℕ) (ys : List ℕ) (d d' : Driver) : Type 0 where
  pub left : List ℕ
  pub ready : IsReady p c left ys d'
  pub out : All (λ u. z ≢ u) left
  pub kept : d'.tasks z ≡ d.tasks z
  pub table : d'.table ≡ d.table

pub undisturbed :
    (p : ℕ) (c : Channel) (z x : ℕ) (xs ys : List ℕ) (d : Driver)
    → All (λ u. z ≢ u) (x ∷ xs)
    → IsReady p c (x ∷ xs) ys d
    → Returns (Undisturbed p c z ys d) (transfer_end p c d)
undisturbed p c z x xs ys d o r = elim (Bool-cases ((d.tasks x).pending == 0)) [
  | inl done ↦
      rw (transfer_end_done p c d x r.mine.linked.1 r.mine.linked.0 (ground (arith, done))) (
        returns (record {
          left = xs;
          ready = after_pop-IsReady p c x xs ys d r;
          out = o.1;
          kept = after_pop_other p c x z xs ys d o r;
          table = after_pop-table p c d;
        }))
  | inr more ↦
      let t = record (d.tasks x) {
        buf = u32 ((d.tasks x).buf + max_size);
        size = sub32 (d.tasks x).size max_size;
      } in
      let d1 = set_task x t d in
      let other : d1.tasks z ≡ d.tasks z = ground (arith, o.0) in
      rw (transfer_end_more p c d x r.mine.linked.1 r.mine.linked.0 (λ e. ground (arith, more, e)))
        (returns (record {
          left = x ∷ xs;
          ready =
              copy_exec-IsReady p x c d1 (x ∷ xs) ys
                (IsReady-kept p c (x ∷ xs) ys d d1 (λ u. put-next x t d.tasks u refl) refl r);
          out = o;
          kept = copy_exec_other p x z d1 o.0 ∙ other;
          table = (copy_exec-kept p x d1).2;
        }))
]

-- The queues in the other order.
apart_swap :
    (xs ys : List ℕ) → All (λ x. All (λ y. x ≢ y) ys) xs → All (λ y. All (λ x. y ≢ x) xs) ys
apart_swap xs [] h = tt
apart_swap xs (y ∷ ys) h = (column xs h, apart_swap xs ys (rest xs h))
  where
    column : (zs : List ℕ) → All (λ x. All (λ v. x ≢ v) (y ∷ ys)) zs → All (λ x. y ≢ x) zs
    column [] h = tt
    column (z ∷ zs) h = ((λ e. h.0.0 (sym e)), column zs h.1)

    rest :
        (zs : List ℕ) → All (λ x. All (λ v. x ≢ v) (y ∷ ys)) zs → All (λ x. All (λ v. x ≢ v) ys) zs
    rest [] h = tt
    rest (z ∷ zs) h = (h.0.1, rest zs h.1)

pub IsReady-rx : (p : ℕ) (xs ys : List ℕ) (d : Driver) → IsReady p tx ys xs d → IsReady p rx xs ys d
IsReady-rx p xs ys d r = record {
  mine = r.theirs;
  theirs = r.mine;
  apart = apart_swap ys xs r.apart;
}

pub IsReady-tx : (p : ℕ) (xs ys : List ℕ) (d : Driver) → IsReady p rx xs ys d → IsReady p tx ys xs d
IsReady-tx p xs ys d r = record {
  mine = r.theirs;
  theirs = r.mine;
  apart = apart_swap xs ys r.apart;
}

abbrev pub DoesNotReturn : Waited → Type 0
DoesNotReturn (returned status d) = ⊥
DoesNotReturn faulted = Unit
DoesNotReturn (waiting d) = Unit

-- An interrupt of a channel with no transfer follows NULL.
pub handler_idle :
    (device_id p : ℕ) (c : Channel) (ys : List ℕ) (d : Driver)
    → d.table device_id ≡ p
    → p ≢ 0
    → IsReady p c [] ys d
    → handler (event_of device_id c) d ≡ none
unfolding transfer_end
handler_idle device_id p c ys d at live r =
    handler-event_of device_id p c d at live ∙ rw r.mine.linked refl
