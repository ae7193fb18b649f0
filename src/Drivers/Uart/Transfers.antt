-- ===== src/Drivers/Uart/Transfers.antt =====
-- drivers/uart.c: interrupts end the transfers of a channel one by one, in the order of the queue.
use mlonmcu_sw.Base.{
  ℕ, ◌+◌, ◌*◌, ◌%◌, ◌/◌, ◌≡◌, ◌≢◌, ◌≤◌, refl, arith, some, List, [], ◌∷◌, All, length, replicate,
  ◌==◌, ltb, false, ap, sym, subst, ◌∙◌,
}
use mlonmcu_sw.Base.Partial.{Returns, returns, mono}
use mlonmcu_sw.Drivers.Task.{Channel, rx, tx, Tasks, Task, none_id, pi_task_release}
use mlonmcu_sw.Drivers.Uart.{
  Driver, Command, task_fifo_pop, copy_exec, end_of_task, handle_end_of_task, transfer_end,
  max_size, issue, event_of, handler, interrupts,
}
use mlonmcu_sw.Drivers.Uart.Fifo.{IsReady, pop-IsReady}
use mlonmcu_sw.Drivers.Uart.Handler.{after_pop, after_pop-IsReady, transfer_end_done}

-- A task of a blocking call, whose data go in one piece.
abbrev pub Short : Channel → Task → Type 0
Short c t = (t.id ≡ none_id) × (t.pending ≡ 0) × (t.size ≤ max_size) × (t.channel ≡ c)

-- The command that starts a transfer in one piece.
abbrev pub start : (device_id : ℕ) → Channel → Task → Command
start device_id c t = Command.uart_enqueue device_id t.buf t.size c

-- The commands that start a list of transfers, put on a log.
abbrev pub starts : (device_id : ℕ) → Channel → Tasks → List ℕ → List Command → List Command
starts device_id c m [] log = log
starts device_id c m (x ∷ xs) log = starts device_id c m xs (start device_id c (m x) ∷ log)

-- The tasks after the end of those on a list.
abbrev pub release_all : List ℕ → Tasks → Tasks
release_all [] m = m
release_all (x ∷ xs) m = release_all xs (pi_task_release x m)

pub copy_exec-Short :
    (p task : ℕ) (c : Channel) (d : Driver)
    → Short c (d.tasks task)
    → copy_exec p task d ≡ issue (start (d.itf p).device_id c (d.tasks task)) d
unfolding copy_exec
copy_exec-Short p task c d (_, _, short, e) =
    let one_piece : ltb max_size (d.tasks task).size ≡ false = ground (arith, short) in
    rw (one_piece, e) refl

pub pop_kept :
    (p : ℕ) (c : Channel) (d : Driver)
    → ((task_fifo_pop p c d).1.log ≡ d.log)
      × ((task_fifo_pop p c d).1.table ≡ d.table)
      × (((task_fifo_pop p c d).1.itf p).device_id ≡ (d.itf p).device_id)
unfolding task_fifo_pop
pop_kept p c d = (ground arith, ground arith, ground arith)

abbrev pub first : List ℕ → List ℕ
first [] = []
first (x ∷ xs) = x ∷ []

-- What one interrupt does to a queue whose first transfer is at its end.
pub record Stepped (p : ℕ) (c : Channel) (x : ℕ) (xs : List ℕ) (d d' : Driver) : Type 0 where
  pub tasks : d'.tasks ≡ pi_task_release x d.tasks
  pub log : d'.log ≡ starts (d.itf p).device_id c d.tasks (first xs) d.log
  pub table : d'.table ≡ d.table
  pub device_id : (d'.itf p).device_id ≡ (d.itf p).device_id

module _ (p : ℕ) (c : Channel) (x : ℕ) (ys : List ℕ) (d : Driver)
    (short : Short c (d.tasks x)) where
  handled :
      (xs : List ℕ)
      → IsReady p c (x ∷ xs) ys d
      → Stepped p c x [] d (handle_end_of_task (task_fifo_pop p c d).0 (task_fifo_pop p c d).1)
  unfolding handle_end_of_task
  handled xs r =
      let (ended, tasks, _) = pop-IsReady p c d x xs ys r in
      let (log, table, device_id) = pop_kept p c d in
      record {
        tasks = rw (ended, tasks) (ap (λ id. end_of_task id x d.tasks) short.0);
        log = log;
        table = table;
        device_id = device_id;
      }

  handled_head :
      (xs : List ℕ)
      → ((handle_end_of_task (task_fifo_pop p c d).0 (task_fifo_pop p c d).1).itf p).head c
        ≡ ((task_fifo_pop p c d).1.itf p).head c
  unfolding handle_end_of_task
  handled_head xs = refl

pub release_other : (x y : ℕ) (m : Tasks) → x ≢ y → pi_task_release x m y ≡ m y
unfolding pi_task_release
release_other x y m o = ground (arith, o)

-- The last transfer of a queue.
Stepped-last :
    (p : ℕ) (c : Channel) (x : ℕ) (ys : List ℕ) (d : Driver)
    → Short c (d.tasks x)
    → IsReady p c (x ∷ []) ys d
    → Stepped p c x [] d (after_pop p c d)
unfolding handle_end_of_task
Stepped-last p c x ys d short r =
    let (_, _, rest) = pop-IsReady p c d x [] ys r in
    rw (rest.mine.linked) (handled p c x ys d short [] r)

-- Another one starts the next transfer.
Stepped-next :
    (p : ℕ) (c : Channel) (x y : ℕ) (xs ys : List ℕ) (d : Driver)
    → Short c (d.tasks x)
    → Short c (d.tasks y)
    → IsReady p c (x ∷ y ∷ xs) ys d
    → Stepped p c x (y ∷ xs) d (after_pop p c d)
Stepped-next p c x y xs ys d short short' r =
    let (_, _, rest) = pop-IsReady p c d x (y ∷ xs) ys r in
    let d' = handle_end_of_task (task_fifo_pop p c d).0 (task_fifo_pop p c d).1 in
    let s : Stepped p c x [] d d' = handled p c x ys d short (y ∷ xs) r in
    let kept : d'.tasks y ≡ d.tasks y =
      ap (λ (m : Tasks). m y) s.tasks ∙ release_other x y d.tasks r.mine.distinct.0.0 in
    let following : (d'.itf p).head c ≡ y = handled_head p c x ys d short xs ∙ rest.mine.linked.0 in
    let some_task : (y == 0) ≡ false = ground (arith, rest.mine.linked.1) in
    let value : after_pop p c d ≡ issue (start (d.itf p).device_id c (d.tasks y)) d' =
      rw (following, some_task)
        (copy_exec-Short p y c d' (rw kept short')
          ∙ ap (λ (id : ℕ). issue (start id c (d'.tasks y)) d') s.device_id
          ∙ ap (λ (t : Task). issue (start (d.itf p).device_id c t) d') kept) in
    record {
      tasks = ap (λ (e : Driver). e.tasks) value ∙ s.tasks;
      log =
          ap (λ (e : Driver). e.log) value
          ∙ ap (λ l. start (d.itf p).device_id c (d.tasks y) ∷ l) s.log;
      table = ap (λ (e : Driver). e.table) value ∙ s.table;
      device_id = ap (λ (e : Driver). (e.itf p).device_id) value ∙ s.device_id;
    }

pub Stepped-pop :
    (p : ℕ) (c : Channel) (x : ℕ) (xs ys : List ℕ) (d : Driver)
    → All (λ z. Short c (d.tasks z)) (x ∷ xs)
    → IsReady p c (x ∷ xs) ys d
    → Stepped p c x xs d (after_pop p c d)
Stepped-pop p c x [] ys d short r = Stepped-last p c x ys d short.0 r
Stepped-pop p c x (y ∷ xs) ys d short r = Stepped-next p c x y xs ys d short.0 short.1.0 r

-- The tasks of a list that `x` is not on.
module _ (x : ℕ) (m : Tasks) where
  Short-release :
      (c : Channel) (xs : List ℕ)
      → All (λ z. x ≢ z) xs
      → All (λ z. Short c (m z)) xs
      → All (λ z. Short c (pi_task_release x m z)) xs
  Short-release c [] o h = tt
  Short-release c (z ∷ xs) o h = (rw (release_other x z m o.0) h.0, Short-release c xs o.1 h.1)

  starts-release :
      (device_id : ℕ) (c : Channel) (xs : List ℕ) (log : List Command)
      → All (λ z. x ≢ z) xs
      → starts device_id c (pi_task_release x m) xs log ≡ starts device_id c m xs log
  starts-release device_id c [] log o = refl
  starts-release device_id c (z ∷ xs) log o =
      rw (release_other x z m o.0)
        (starts-release device_id c xs (start device_id c (m z) ∷ log) o.1)

-- The handler's event is that of the device and the channel.
pub handler-event_of :
    (device_id p : ℕ) (c : Channel) (d : Driver)
    → d.table device_id ≡ p
    → p ≢ 0
    → handler (event_of device_id c) d ≡ transfer_end p c d
unfolding handler
handler-event_of device_id p rx d at live =
    let q : (device_id * 4 + 0) / 4 ≡ device_id = omega arith in
    let m : (device_id * 4 + 0) % 2 ≡ 0 = omega arith in
    let n : (p == 0) ≡ false = ground (arith, live) in rw (q, m, at, n) refl
handler-event_of device_id p tx d at live =
    let q : (device_id * 4 + 1) / 4 ≡ device_id = omega arith in
    let m : (device_id * 4 + 1) % 2 ≡ 1 = omega arith in
    let n : (p == 0) ≡ false = ground (arith, live) in rw (q, m, at, n) refl

-- What the interrupts of a queue of short transfers come to.
pub record Drained (p : ℕ) (c : Channel) (x : ℕ) (xs ys : List ℕ) (d d' : Driver) : Type 0 where
  pub ready : IsReady p c [] ys d'
  pub tasks : d'.tasks ≡ release_all (x ∷ xs) d.tasks
  pub log : d'.log ≡ starts (d.itf p).device_id c d.tasks xs d.log
  pub table : d'.table ≡ d.table

pub end_one :
    (device_id p : ℕ) (c : Channel) (x : ℕ) (xs ys : List ℕ) (d : Driver)
    → d.table device_id ≡ p
    → p ≢ 0
    → (d.tasks x).pending ≡ 0
    → IsReady p c (x ∷ xs) ys d
    → handler (event_of device_id c) d ≡ some (after_pop p c d)
end_one device_id p c x xs ys d at live done r =
    handler-event_of device_id p c d at live
    ∙ transfer_end_done p c d x r.mine.linked.1 r.mine.linked.0 done

-- The last transfers, after the first one.
Drained-step :
    (p : ℕ) (c : Channel) (x y : ℕ) (xs ys : List ℕ) (d d1 d' : Driver)
    → All (λ z. x ≢ z) (y ∷ xs)
    → Stepped p c x (y ∷ xs) d d1
    → Drained p c y xs ys d1 d'
    → Drained p c x (y ∷ xs) ys d d'
Drained-step p c x y xs ys d d1 d' o s q = record {
  ready = q.ready;
  tasks = q.tasks ∙ ap (λ m. release_all (y ∷ xs) m) s.tasks;
  log =
      q.log
      ∙ ap (λ (id : ℕ). starts id c d1.tasks xs d1.log) s.device_id
      ∙ ap (λ (m : Tasks). starts (d.itf p).device_id c m xs d1.log) s.tasks
      ∙ starts-release x d.tasks (d.itf p).device_id c xs d1.log o.1
      ∙ ap (λ l. starts (d.itf p).device_id c d.tasks xs l) s.log;
  table = q.table ∙ s.table;
}

-- As many interrupts as a channel has short transfers end them all, in their order: each task is released
-- when the next transfer is started, and the queue is empty at the end.
pub drain :
    (device_id p : ℕ) (c : Channel) (x : ℕ) (xs ys : List ℕ) (d : Driver)
    → d.table device_id ≡ p
    → p ≢ 0
    → All (λ z. Short c (d.tasks z)) (x ∷ xs)
    → IsReady p c (x ∷ xs) ys d
    → Returns
        (Drained p c x xs ys d)
        (interrupts (replicate (length (x ∷ xs)) (event_of device_id c)) d)
unfolding interrupts
drain device_id p c x [] ys d at live short r =
    let s = Stepped-pop p c x [] ys d short r in
    rw (end_one device_id p c x [] ys d at live short.0.1 r) (
      returns (record {
        ready = after_pop-IsReady p c x [] ys d r;
        tasks = s.tasks;
        log = s.log;
        table = s.table;
      }))
drain device_id p c x (y ∷ xs) ys d at live short r =
    let d1 = after_pop p c d in
    let s = Stepped-pop p c x (y ∷ xs) ys d short r in
    let short' : All (λ z. Short c (d1.tasks z)) (y ∷ xs) =
      subst (λ (m : Tasks). All (λ z. Short c (m z)) (y ∷ xs)) (sym s.tasks)
        (Short-release x d.tasks c (y ∷ xs) r.mine.distinct.0 short.1) in
    let rest =
      drain device_id p c y xs ys d1 (ap (λ (t : ℕ → ℕ). t device_id) s.table ∙ at) live short'
        (after_pop-IsReady p c x (y ∷ xs) ys d r) in
    rw (end_one device_id p c x (y ∷ xs) ys d at live short.0.1 r)
      (mono rest (λ d' q. Drained-step p c x y xs ys d d1 d' r.mine.distinct.0 s q))
