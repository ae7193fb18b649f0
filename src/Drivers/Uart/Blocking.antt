-- ===== src/Drivers/Uart/Blocking.antt =====
-- drivers/uart.c: the calls that wait for their transfer.
use mlonmcu_sw.Base.{
  ℕ, zero, suc, ◌^◌, ◌/◌, ◌≡◌, ◌≢◌, ◌≤◌, ◌<◌, refl, arith, some, List, [], ◌∷◌, All, replicate,
  ◌==◌, false, ap, sym, subst, ◌∙◌,
}
use mlonmcu_sw.Base.Partial.{result}
use mlonmcu_sw.Drivers.Task.{
  Channel, Tasks, Task, none_id, put_task, zero_task, pi_task_block, pi_task_destroy,
  pi_task_release,
}
use mlonmcu_sw.Drivers.Task.Queue.{Queued, Queued-put_other}
use mlonmcu_sw.Drivers.Uart.{
  Driver, Command, copy, copy_exec, task_fifo_enqueue, max_size, set_task, set_tail, set_head,
  issue, event_of, handler,
}
use mlonmcu_sw.Drivers.Uart.Fifo.{IsReady, enqueue_empty, enqueue-IsReady, IsReady-kept}
use mlonmcu_sw.Drivers.Uart.Handler.{
  copy_inside, copy_exec-kept, copy_exec-IsReady, after_pop, after_pop-IsReady,
}
use mlonmcu_sw.Drivers.Uart.Device.{returned, waiting, wait_on, transfer, transfer_async}
use mlonmcu_sw.Drivers.Uart.Transfers.{Short, start, Stepped-pop, end_one, copy_exec-Short}
use mlonmcu_sw.Drivers.Uart.Endless.{pending_step, copy_exec_long}

-- The driver where `__pi_uart_copy` finds it, with the task of the call prepared.
abbrev pub prepared : (task sem_object : ℕ) → Driver → Driver
prepared task sem_object d = record d {
  tasks = pi_task_block task sem_object (put_task task zero_task d.tasks);
}

put_self : (x : ℕ) (t : Task) (m : Tasks) → put_task x t m x ≡ t
put_self x t m = ground arith

pub prepared_task :
    (task sem_object : ℕ) (d : Driver)
    → (prepared task sem_object d).tasks task
      ≡ record zero_task { sem_object = sem_object; destroy = 1 }
unfolding pi_task_block
prepared_task task sem_object d = ground arith

prepared_other :
    (task sem_object x : ℕ) (d : Driver)
    → task ≢ x
    → (prepared task sem_object d).tasks x ≡ d.tasks x
unfolding pi_task_block
prepared_other task sem_object x d o = ground (arith, o)

pub prepared-IsReady :
    (p task sem_object : ℕ) (c : Channel) (d : Driver) (xs ys : List ℕ)
    → All (λ x. task ≢ x) xs
    → All (λ y. task ≢ y) ys
    → IsReady p c xs ys d
    → IsReady p c xs ys (prepared task sem_object d)
unfolding pi_task_block
prepared-IsReady p task sem_object c d xs ys fresh other r = record {
  mine = twice xs fresh _ _ r.mine;
  theirs = twice ys other _ _ r.theirs;
  apart = r.apart;
}
  where
    twice :
        (zs : List ℕ)
        → All (λ z. task ≢ z) zs
        → (h t : ℕ) → Queued d.tasks h t zs
        → Queued (prepared task sem_object d).tasks h t zs
    twice zs o h t q =
        Queued-put_other _ task _ h t zs o (Queued-put_other d.tasks task zero_task h t zs o q)

-- The transfer of a call on a channel with no other one is started at once.
copy_alone :
    (p l2_buf size : ℕ) (c : Channel) (task : ℕ) (d : Driver)
    → l2_buf / 2 ^ 20 ≡ 0x1c0
    → (d.itf p).head c ≡ 0
    → copy p l2_buf size c task d ≡ (
      0,
      copy_exec p task (
          set_tail p c task (
            set_head p c task (
              set_task task
                (record (d.tasks task) {
                  buf = l2_buf;
                  size = size;
                  channel = c;
                  pending = 0;
                  next = 0;
                })
                d))),
    )
unfolding task_fifo_enqueue
copy_alone p l2_buf size c task d inside idle =
    copy_inside p l2_buf size c task d inside ∙ rw idle refl

-- A call's task at the head of its queue.
record QueuedCall (p : ℕ) (c : Channel) (task buf size : ℕ) (ys : List ℕ) (d d1 : Driver)
    : Type 0 where
  ready : IsReady p c (task ∷ []) ys d1
  blocking : (d1.tasks task).id ≡ none_id
  at_start : (d1.tasks task).done ≡ 0
  whole : (d1.tasks task).pending ≡ 0
  buffer : (d1.tasks task).buf ≡ buf
  sized : (d1.tasks task).size ≡ size
  towards : (d1.tasks task).channel ≡ c
  table : d1.table ≡ d.table
  log : d1.log ≡ d.log
  device_id : (d1.itf p).device_id ≡ (d.itf p).device_id

-- A task that is done makes the call return, whatever events are left.
wait_done :
    (task status : ℕ) (events : List ℕ) (d : Driver)
    → (d.tasks task).done ≢ 0
    → wait_on task status events d
      ≡ returned status (record d { tasks = pi_task_destroy task (pi_task_destroy task d.tasks) })
unfolding wait_on
wait_done task status [] d h =
    let done : ((d.tasks task).done == 0) ≡ false = ground (arith, h) in rw done refl
wait_done task status (e ∷ es) d h =
    let done : ((d.tasks task).done == 0) ≡ false = ground (arith, h) in rw done refl

pub wait_event :
    (task status event : ℕ) (events : List ℕ) (d d' : Driver)
    → (d.tasks task).done ≡ 0
    → handler event d ≡ some d'
    → wait_on task status (event ∷ events) d ≡ wait_on task status events d'
unfolding wait_on
wait_event task status event events d d' h e = rw (h, e) refl

pub wait_nothing :
    (task status : ℕ) (d : Driver) → (d.tasks task).done ≡ 0 → wait_on task status [] d ≡ waiting d
unfolding wait_on
wait_nothing task status d h = rw h refl

destroy-next : (task : ℕ) (m : Tasks) (x : ℕ) → (pi_task_destroy task m x).next ≡ (m x).next
unfolding pi_task_destroy
destroy-next task m x = ground arith

-- A transfer that is pending keeps its call waiting.
wait_pending :
    (n device_id p : ℕ) (c : Channel) (task status : ℕ) (xs ys : List ℕ) (d : Driver)
    → d.table device_id ≡ p
    → p ≢ 0
    → (d.tasks task).pending ≢ 0
    → (d.tasks task).done ≡ 0
    → IsReady p c (task ∷ xs) ys d
    → (d' : Driver) × (wait_on task status (replicate n (event_of device_id c)) d ≡ waiting d')
      × IsReady p c (task ∷ xs) ys d'
wait_pending zero device_id p c task status xs ys d at live more waits r =
    (d, wait_nothing task status d waits, r)
wait_pending (suc n) device_id p c task status xs ys d at live more waits r =
    let (d1, e, s) = result (pending_step device_id p c task xs ys d at live more r) in
    let (d', value, ready) =
      wait_pending n device_id p c task status xs ys d1
        (ap (λ (t : ℕ → ℕ). t device_id) s.table ∙ at) live s.more (s.done ∙ waits) s.ready in
    (
      d',
      wait_event task status (event_of device_id c) (replicate n (event_of device_id c)) d d1 waits
            e
          ∙ value,
      ready,
    )

release_done : (x : ℕ) (m : Tasks) → (pi_task_release x m x).done ≡ 1
unfolding pi_task_release
release_done x m = ground arith

-- The interrupt of a call's transfer in one piece.
returns_after :
    (device_id p : ℕ) (c : Channel) (task buf size : ℕ) (ys : List ℕ) (d d1 : Driver)
    → QueuedCall p c task buf size ys d d1
    → d.table device_id ≡ p
    → p ≢ 0
    → size ≤ max_size
    → (events : List ℕ)
    → (d' : Driver) × (wait_on task 0 (event_of device_id c ∷ events) (copy_exec p task d1)
        ≡ returned 0 d')
      × IsReady p c [] ys d'
      × (d'.log ≡ Command.uart_enqueue (d.itf p).device_id buf size c ∷ d.log)
      × (d'.table ≡ d.table)
returns_after device_id p c task buf size ys d d1 q at live fits events =
    let short : Short c (d1.tasks task) =
      (q.blocking, q.whole, subst (λ u. u ≤ max_size) (sym q.sized) fits, q.towards) in
    let e = issue (start (d1.itf p).device_id c (d1.tasks task)) d1 in
    let r : IsReady p c (task ∷ []) ys e =
      IsReady-kept p c (task ∷ []) ys d1 e (λ x. refl) refl q.ready in
    let d2 = after_pop p c e in
    let s = Stepped-pop p c task [] ys e (short, tt) r in
    let ended =
      end_one device_id p c task [] ys e (ap (λ (t : ℕ → ℕ). t device_id) q.table ∙ at) live q.whole
        r in
    let d' = record d2 { tasks = pi_task_destroy task (pi_task_destroy task d2.tasks) } in
    let done : (d2.tasks task).done ≢ 0 =
      let one : (d2.tasks task).done ≡ 1 =
        ap (λ (m : Tasks). (m task).done) s.tasks ∙ release_done task e.tasks in
      λ h. absurd (omega arith) in
    (
      d',
      ap (λ (u : Driver). wait_on task 0 (event_of device_id c ∷ events) u)
            (copy_exec-Short p task c d1 short)
          ∙ wait_event task 0 (event_of device_id c) events e d2 q.at_start ended
          ∙ wait_done task 0 events d2 done,
      IsReady-kept p c [] ys d2 d'
          (λ x. destroy-next task (pi_task_destroy task d2.tasks) x ∙ destroy-next task d2.tasks x)
          refl (after_pop-IsReady p c task [] ys e r),
      s.log ∙ (λ i. Command.uart_enqueue (q.device_id i) (q.buffer i) (q.sized i) c ∷ q.log i),
      s.table ∙ q.table,
    )

module _ (device_id p : ℕ) (c : Channel) (buf size task sem_object : ℕ) (ys : List ℕ) (d : Driver)
    (at : d.table device_id ≡ p) (live : p ≢ 0) (real : task ≢ 0) (apart : All (λ y. task ≢ y) ys)
    (inside : buf / 2 ^ 20 ≡ 0x1c0) (idle : IsReady p c [] ys d) where
  abbrev at_head : Driver
  at_head =
      let d0 = prepared task sem_object d in
      set_tail p c task (
        set_head p c task (
          set_task task
            (record (d0.tasks task) { buf = buf; size = size; channel = c; pending = 0; next = 0 })
            d0))

  begun : copy p buf size c task (prepared task sem_object d) ≡ (0, copy_exec p task at_head)
  begun = copy_alone p buf size c task (prepared task sem_object d) inside idle.mine.linked

  at_head_task : at_head.tasks task ≡ record zero_task {
    sem_object = sem_object;
    destroy = 1;
    buf = buf;
    size = size;
    channel = c;
  }
  at_head_task =
      let d0 = prepared task sem_object d in
      put_self task
        (record (d0.tasks task) { buf = buf; size = size; channel = c; pending = 0; next = 0 })
        d0.tasks
      ∙ ap (λ (t : Task). record t { buf = buf; size = size; channel = c; pending = 0; next = 0 })
          (prepared_task task sem_object d)

  queued_call : QueuedCall p c task buf size ys d at_head
  queued_call =
      let d0 = prepared task sem_object d in
      let t = record (d0.tasks task) {
        buf = buf;
        size = size;
        channel = c;
        pending = 0;
        next = 0;
      } in
      let value : at_head.tasks task ≡ record zero_task {
        sem_object = sem_object;
        destroy = 1;
        buf = buf;
        size = size;
        channel = c;
      } =
        at_head_task in
      let d1 = set_task task t d0 in
      let ready0 : IsReady p c [] ys d1 =
        let r = prepared-IsReady p task sem_object c d [] ys tt apart idle in
        record {
          mine = Queued-put_other d0.tasks task t _ _ [] tt r.mine;
          theirs = Queued-put_other d0.tasks task t _ _ ys apart r.theirs;
          apart = tt;
        } in
      record {
        ready =
            subst (IsReady p c (task ∷ []) ys) (enqueue_empty p task d1 c idle.mine.linked)
              (enqueue-IsReady p task c d1 real (ground arith) [] ys ready0 tt apart);
        blocking = ap (λ (t : Task). t.id) value;
        at_start = ap (λ (t : Task). t.done) value;
        whole = ap (λ (t : Task). t.pending) value;
        buffer = ap (λ (t : Task). t.buf) value;
        sized = ap (λ (t : Task). t.size) value;
        towards = ap (λ (t : Task). t.channel) value;
        table = refl;
        log = refl;
        device_id = ground arith;
      }

  call_begun :
      (events : List ℕ)
      → transfer c p buf size task sem_object events d
        ≡ wait_on task 0 events (copy_exec p task at_head)
  unfolding transfer transfer_async
  call_begun events = rw begun refl

  -- A call whose data go in one piece, on a channel that has no other transfer, starts the transfer and
  -- returns 0 after the channel's interrupt, whatever events come later; the queues are as they were.
  pub transfer_short :
      (events : List ℕ)
      → size ≤ max_size
      → (d' : Driver) × (transfer c p buf size task sem_object (event_of device_id c ∷ events) d
          ≡ returned 0 d')
        × IsReady p c [] ys d'
        × (d'.log ≡ Command.uart_enqueue (d.itf p).device_id buf size c ∷ d.log)
        × (d'.table ≡ d.table)
  transfer_short events short =
      let (d', value, ready, log, table) =
        returns_after device_id p c task buf size ys d at_head queued_call at live short events in
      (d', call_begun (event_of device_id c ∷ events) ∙ value, ready, log, table)

  -- A call whose data need more than one piece waits for ever, however often the channel's interrupt comes:
  -- its task stays at the head of the queue.
  pub transfer_long :
      (n : ℕ)
      → max_size < size
      → (d' : Driver) × (transfer c p buf size task sem_object
            (replicate n (event_of device_id c))
            d
          ≡ waiting d')
        × IsReady p c (task ∷ []) ys d'
  transfer_long n long =
      let q = queued_call in
      let (more, waits) =
        copy_exec_long p task at_head (subst (λ u. max_size < u) (sym q.sized) long) in
      let (links, itf, table) = copy_exec-kept p task at_head in
      let (d', value, ready) =
        wait_pending n device_id p c task 0 [] ys (copy_exec p task at_head)
          (ap (λ (t : ℕ → ℕ). t device_id) table ∙ at) live more (waits ∙ q.at_start)
          (copy_exec-IsReady p task c at_head _ ys q.ready) in
      (d', call_begun (replicate n (event_of device_id c)) ∙ value, ready)
