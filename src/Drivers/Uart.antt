-- ===== src/Drivers/Uart.antt =====
-- drivers/uart.c. `__disable_irq` makes each function one step, so interrupts come between calls only. The
-- functions of udma_uart.h, of the event unit and of the clock gates that write registers are entries of a
-- log, the newest first; traces are left out. `none` is a NULL that the code follows.
pub mod Device
pub mod Fifo
pub mod Handler
pub mod Transfers
pub mod Endless
pub mod Blocking
pub mod Bystander
pub mod Refused
pub mod Devices
pub mod Examples
use mlonmcu_sw.Base.{
  ℕ, ◌+◌, ◌-◌, ◌*◌, ◌/◌, ◌%◌, ◌^◌, Bool, true, false, Option, some, none, List, [], ◌∷◌, ◌==◌, ltb,
  not, if◌then◌else◌,
}
use mlonmcu_sw.Base.{u8, u16, u32, sub32}
use mlonmcu_sw.Base.Partial.{◌>>=◌}
use mlonmcu_sw.Drivers.Task.{
  Channel, rx, tx, same, TaskId, none_id, callback_id, other_id, Task, Tasks, put_task,
  pi_task_release, pi_task_push, pi_task_block,
}

-- `uart_itf_data_s`.
pub record ItfData : Type 0 where
  pub head : Channel → ℕ
  pub tail : Channel → ℕ
  pub nb_open : ℕ
  pub device_id : ℕ

-- The calls that reach the hardware and the event tables.
pub data Command : Type 0 where
  uart_enqueue : (device_id l2_buf size : ℕ) → Channel → Command
  channel_enable channel_disable channel_clear : (device_id : ℕ) → Channel → Command
  setup_set :
      (device_id clk_div enable_rx enable_tx stop_bit_count word_size parity_mode : ℕ) → Command
  handler_set handler_clear mask_set mask_clear : (event : ℕ) → Command
  gate_disable : (device_id : ℕ) → Command
  l2_free : (p : ℕ) → Command

-- What the driver works on: `g_uart_itf_data`, the interface data and the tasks in the memory, and the log.
pub record Driver : Type 0 where
  pub table : ℕ → ℕ
  pub itf : ℕ → ItfData
  pub tasks : Tasks
  pub log : List Command

abbrev pub issue : Command → Driver → Driver
issue c d = record d { log = c ∷ d.log }

abbrev pub put_itf : (p : ℕ) → ItfData → Driver → Driver
put_itf p v d = record d { itf = λ x. if x == p then v else d.itf x }

abbrev pub put_channel : Channel → ℕ → (Channel → ℕ) → Channel → ℕ
put_channel c v f = λ e. if same e c then v else f e

abbrev pub set_head : (p : ℕ) → Channel → ℕ → Driver → Driver
set_head p c v d = put_itf p (record (d.itf p) { head = put_channel c v (d.itf p).head }) d

abbrev pub set_tail : (p : ℕ) → Channel → ℕ → Driver → Driver
set_tail p c v d = put_itf p (record (d.itf p) { tail = put_channel c v (d.itf p).tail }) d

abbrev pub set_task : ℕ → Task → Driver → Driver
set_task p t d = record d { tasks = put_task p t d.tasks }

-- `__pi_uart_task_fifo_enqueue`: the result is 0 where the queue was empty.
unfoldable pub task_fifo_enqueue : (p task : ℕ) → Channel → Driver → ℕ × Driver
task_fifo_enqueue p task c d =
    let itf = d.itf p in
    if itf.head c == 0
    then (0, set_tail p c task (set_head p c task d))
    else let last = itf.tail c in
      (1, set_tail p c task (set_task last (record (d.tasks last) { next = task }) d))

-- `__pi_uart_task_fifo_pop`.
unfoldable pub task_fifo_pop : (p : ℕ) → Channel → Driver → ℕ × Driver
task_fifo_pop p c d =
    let first = (d.itf p).head c in
    if first == 0
    then (0, d)
    else let next = (d.tasks first).next in
      let d = set_head p c next d in (first, (if next == 0 then set_tail p c 0 d else d))

-- `UDMA_MAX_SIZE - 4`.
abbrev pub max_size : ℕ
max_size = 2 ^ 17 - 4

-- `__pi_uart_copy_exec`.
unfoldable pub copy_exec : (p task : ℕ) → Driver → Driver
copy_exec p task d =
    let t = d.tasks task in
    let device_id = (d.itf p).device_id in
    if ltb max_size t.size
    then issue (uart_enqueue device_id t.buf max_size t.channel)
        (set_task task (record t { pending = t.size - max_size }) d)
    else issue (uart_enqueue device_id t.buf t.size t.channel) d

-- `__pi_uart_copy`: the status, -11 by its pattern, and the driver.
unfoldable pub copy : (p l2_buf size : ℕ) → Channel → (task : ℕ) → Driver → ℕ × Driver
unfolding task_fifo_enqueue copy_exec
copy p l2_buf size c task d =
    if not (l2_buf / 2 ^ 20 == 0x1c0)
    then (sub32 0 11, d)
    else let t = record (d.tasks task) {
      buf = l2_buf;
      size = size;
      channel = c;
      pending = 0;
      next = 0;
    } in
      let (head, d) = task_fifo_enqueue p task c (set_task task t d) in
      (0, (if u8 head == 0 then copy_exec p task d else d))

abbrev pub end_of_task : TaskId → ℕ → Tasks → Tasks
end_of_task none_id task tasks = pi_task_release task tasks
end_of_task callback_id task tasks = pi_task_push task tasks
end_of_task other_id task tasks = tasks

-- `__pi_uart_handle_end_of_task`.
unfoldable pub handle_end_of_task : ℕ → Driver → Driver
unfolding pi_task_release pi_task_push
handle_end_of_task task d = record d { tasks = end_of_task (d.tasks task).id task d.tasks }

-- `__pi_uart_handler` from the read of the queue's head on.
unfoldable pub transfer_end : (p : ℕ) → Channel → Driver → Option Driver
unfolding copy_exec task_fifo_pop handle_end_of_task
transfer_end p c d =
    let task = (d.itf p).head c in
    let t = d.tasks task in
    let more = record t { buf = u32 (t.buf + max_size); size = sub32 t.size max_size } in
    let (ended, popped) = task_fifo_pop p c d in
    let d' = handle_end_of_task ended popped in
    let following = (d'.itf p).head c in
    if task == 0
    then none
    else if not (t.pending == 0)
    then some (copy_exec p task (set_task task more d))
    else some (if not (following == 0) then copy_exec p following d' else d')

-- `SOC_EVENT_UDMA_UART_RX` and `SOC_EVENT_UDMA_UART_TX`, with `UDMA_UART_ID(id)` the `id`.
abbrev pub event_of : (device_id : ℕ) → Channel → ℕ
event_of device_id rx = device_id * 4 + 0
event_of device_id tx = device_id * 4 + 1

-- `__pi_uart_handler`: bit 0 of the event is the channel, and the bits from 2 on are the peripheral.
unfoldable pub handler : (event : ℕ) → Driver → Option Driver
unfolding transfer_end
handler event d =
    let p = d.table (event / 4) in
    if p == 0 then none else transfer_end p (if event % 2 == 0 then rx else tx) d

-- A sequence of interrupts.
unfoldable pub interrupts : List ℕ → Driver → Option Driver
interrupts [] d = some d
interrupts (event ∷ events) d = handler event d >>= interrupts events
