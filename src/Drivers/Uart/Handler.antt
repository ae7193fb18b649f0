-- ===== src/Drivers/Uart/Handler.antt =====
-- drivers/uart.c: a new transfer and the end of one, on the queues of a device.
use mlonmcu_sw.Base.{
  ℕ, ◌+◌, ◌^◌, ◌/◌, ◌≡◌, ◌≢◌, refl, arith, some, List, [], ◌∷◌, ◌++◌, All, ◌==◌, ltb, Bool,
  Bool-cases, inl, inr, true, false, if◌then◌else◌, sub32, u8, u32, not,
}
use mlonmcu_sw.Base.Partial.{Returns, returns}
use mlonmcu_sw.Drivers.Task.{
  Channel, Tasks, TaskId, none_id, callback_id, other_id, pi_task_release, pi_task_push,
}
use mlonmcu_sw.Drivers.Task.Queue.{Queued-put_other}
use mlonmcu_sw.Drivers.Uart.{
  Driver, task_fifo_enqueue, task_fifo_pop, copy, copy_exec, end_of_task, handle_end_of_task,
  transfer_end, max_size, set_task,
}
use mlonmcu_sw.Drivers.Uart.Fifo.{IsReady, IsReady-kept, put-next, enqueue-IsReady, pop-IsReady}

pub copy_exec-kept :
    (p task : ℕ) (d : Driver)
    → ((x : ℕ) → ((copy_exec p task d).tasks x).next ≡ (d.tasks x).next)
      × ((copy_exec p task d).itf ≡ d.itf)
      × ((copy_exec p task d).table ≡ d.table)
unfolding copy_exec
copy_exec-kept p task d = elim (Bool-cases (ltb max_size (d.tasks task).size)) [
  | inl long ↦ rw long ((λ x. put-next task _ d.tasks x refl), refl, refl)
  | inr short ↦ rw short ((λ x. refl), refl, refl)
]

end_of_task-kept :
    (id : TaskId) (task : ℕ) (m : Tasks) (x : ℕ) → (end_of_task id task m x).next ≡ (m x).next
unfolding pi_task_release pi_task_push
end_of_task-kept none_id task m x = put-next task _ m x refl
end_of_task-kept callback_id task m x = refl
end_of_task-kept other_id task m x = refl

pub copy_exec-IsReady :
    (p task : ℕ) (c : Channel) (d : Driver) (xs ys : List ℕ)
    → IsReady p c xs ys d
    → IsReady p c xs ys (copy_exec p task d)
copy_exec-IsReady p task c d xs ys r =
    let (links, itf, _) = copy_exec-kept p task d in
    IsReady-kept p c xs ys d _ links (λ i. itf i p) r

copy_start-IsReady :
    (p task : ℕ) (c : Channel) (d : Driver) (xs ys : List ℕ) (b : Bool)
    → IsReady p c xs ys d
    → IsReady p c xs ys (if b then copy_exec p task d else d)
copy_start-IsReady p task c d xs ys true r = copy_exec-IsReady p task c d xs ys r
copy_start-IsReady p task c d xs ys false r = r

module _ (p l2_buf size : ℕ) (c : Channel) (task : ℕ) (d : Driver) where
  pub copy_inside :
      l2_buf / 2 ^ 20 ≡ 0x1c0
      → copy p l2_buf size c task d ≡ (
          let t = record (d.tasks task) {
            buf = l2_buf;
            size = size;
            channel = c;
            pending = 0;
            next = 0;
          } in
          let queued = task_fifo_enqueue p task c (set_task task t d) in
          (0, (if u8 queued.0 == 0 then copy_exec p task queued.1 else queued.1)))
  unfolding copy
  copy_inside inside = rw inside refl

-- `__pi_uart_copy` puts a task that is in no queue at the end of its channel's one.
pub copy-IsReady :
    (p l2_buf size task : ℕ) (c : Channel) (d : Driver) (xs ys : List ℕ)
    → IsReady p c xs ys d
    → task ≢ 0
    → All (λ x. task ≢ x) xs
    → All (λ y. task ≢ y) ys
    → l2_buf / 2 ^ 20 ≡ 0x1c0
    → ((copy p l2_buf size c task d).0 ≡ 0)
      × IsReady p c (xs ++ task ∷ []) ys (copy p l2_buf size c task d).1
copy-IsReady p l2_buf size task c d xs ys r live fresh other inside =
    let t = record (d.tasks task) {
      buf = l2_buf;
      size = size;
      channel = c;
      pending = 0;
      next = 0;
    } in
    let d1 = set_task task t d in
    let ready : IsReady p c xs ys d1 = record {
      mine = Queued-put_other d.tasks task t _ _ xs fresh r.mine;
      theirs = Queued-put_other d.tasks task t _ _ ys other r.theirs;
      apart = r.apart;
    } in
    let end : (d1.tasks task).next ≡ 0 = ground arith in
    let queued = enqueue-IsReady p task c d1 live end xs ys ready fresh other in
    rw (copy_inside p l2_buf size c task d inside)
      (refl, copy_start-IsReady p task c _ _ ys _ queued)

abbrev pub after_pop : (p : ℕ) → Channel → Driver → Driver
after_pop p c d =
    let d' = handle_end_of_task (task_fifo_pop p c d).0 (task_fifo_pop p c d).1 in
    let following = (d'.itf p).head c in
    if not (following == 0) then copy_exec p following d' else d'

module _ (p : ℕ) (c : Channel) (d : Driver) (x : ℕ) (live : x ≢ 0)
    (first : (d.itf p).head c ≡ x) where
  pub transfer_end_more :
      (d.tasks x).pending ≢ 0
      → transfer_end p c d
        ≡ some (
            copy_exec p x (
              set_task x
                (record (d.tasks x) {
                  buf = u32 ((d.tasks x).buf + max_size);
                  size = sub32 (d.tasks x).size max_size;
                })
                d))
  unfolding transfer_end
  transfer_end_more pending =
      let some_task : (x == 0) ≡ false = ground (arith, live) in
      let more : ((d.tasks x).pending == 0) ≡ false = ground (arith, pending) in
      rw (first, some_task, more) refl

  pub transfer_end_done : (d.tasks x).pending ≡ 0 → transfer_end p c d ≡ some (after_pop p c d)
  unfolding transfer_end
  transfer_end_done done =
      let some_task : (x == 0) ≡ false = ground (arith, live) in rw (first, some_task, done) refl

pub after_pop-IsReady :
    (p : ℕ) (c : Channel) (x : ℕ) (xs ys : List ℕ) (d : Driver)
    → IsReady p c (x ∷ xs) ys d
    → IsReady p c xs ys (after_pop p c d)
unfolding handle_end_of_task
after_pop-IsReady p c x xs ys d r =
    let (ended, popped) = task_fifo_pop p c d in
    let ready = (pop-IsReady p c d x xs ys r).2 in
    let d' = handle_end_of_task ended popped in
    let following = (d'.itf p).head c in
    copy_start-IsReady p following c d' xs ys (not (following == 0)) (
      IsReady-kept p c xs ys popped d' (end_of_task-kept (popped.tasks ended).id ended popped.tasks)
        refl ready)

-- The tasks that a channel has after its interrupt: an ended transfer is the first one to leave, and a
-- transfer with data pending stays.
pub transfer_end-IsReady :
    (p : ℕ) (c : Channel) (x : ℕ) (xs ys : List ℕ) (d : Driver)
    → IsReady p c (x ∷ xs) ys d
    → Returns
        (IsReady p c (if (d.tasks x).pending == 0 then xs else x ∷ xs) ys)
        (transfer_end p c d)
transfer_end-IsReady p c x xs ys d r = elim (Bool-cases ((d.tasks x).pending == 0)) [
  | inl done ↦
      rw (done, transfer_end_done p c d x r.mine.linked.1 r.mine.linked.0 (ground (arith, done)))
        (returns (after_pop-IsReady p c x xs ys d r))
  | inr more ↦
      rw
        (
          more,
          transfer_end_more p c d x r.mine.linked.1 r.mine.linked.0 (λ e. ground (arith, more, e)),
        )
        (returns (
          copy_exec-IsReady p x c _ (x ∷ xs) ys
            (IsReady-kept p c (x ∷ xs) ys d _ (λ z. put-next x _ d.tasks z refl) refl r)))
]
