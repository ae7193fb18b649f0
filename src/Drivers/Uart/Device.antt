-- ===== src/Drivers/Uart/Device.antt =====
-- drivers/uart.c: the functions that a program calls on a device. A device is the address of its interface
-- data; what `pi_l2_malloc` gives, the clock's frequency, the address of a task on the stack and its
-- semaphore are arguments, and the events that arrive while a call waits are a list.
use mlonmcu_sw.Base.{ℕ, ◌+◌, ◌/◌, Option, some, none, List, [], ◌∷◌, ◌==◌, not, if◌then◌else◌}
use mlonmcu_sw.Base.{u16, u32, sub32}
use mlonmcu_sw.Base.Partial.{◌>>=◌}
use mlonmcu_sw.Drivers.Task.{Channel, rx, tx, pi_task_block, pi_task_destroy, put_task, zero_task}
use mlonmcu_sw.Drivers.Uart.{
  Driver, ItfData, Command, put_itf, set_head, set_tail, issue, copy, event_of, handler, interrupts,
}

-- `pi_uart_conf`, without the two fields that the driver does not read.
pub record Conf : Type 0 where
  pub baudrate_bps : ℕ
  pub stop_bit_count : ℕ
  pub parity_mode : ℕ
  pub word_size : ℕ
  pub enable_rx : ℕ
  pub enable_tx : ℕ
  pub uart_id : ℕ

-- `pi_uart_conf_init`, which leaves the other fields of the structure as they are, with `PI_UART_PARITY_DISABLE` and `PI_UART_STOP_BITS_ONE` 0, and
-- `PI_UART_WORD_SIZE_8_BITS` 3.
unfoldable pub pi_uart_conf_init : Conf
pi_uart_conf_init = record {
  baudrate_bps = 115200;
  stop_bit_count = 0;
  parity_mode = 0;
  word_size = 3;
  enable_rx = 0;
  enable_tx = 0;
  uart_id = 0;
}

-- `__pi_uart_conf_set`: `none` is a division by 0.
unfoldable pub conf_set : (p : ℕ) → (periph_freq : ℕ) → Conf → Driver → Option Driver
conf_set p periph_freq conf d =
    let clk_div = u16 (periph_freq / conf.baudrate_bps) in
    if conf.baudrate_bps == 0
    then none
    else some (
        issue
          (Command.setup_set (d.itf p).device_id clk_div conf.enable_rx conf.enable_tx
            conf.stop_bit_count conf.word_size conf.parity_mode)
          d)

-- What `memset` and the two assignments after it make.
abbrev pub fresh : (uart_id : ℕ) → ItfData
fresh uart_id = record { head = λ c. 0; tail = λ c. 0; nb_open = 1; device_id = uart_id }

-- The status, the device's data and the driver.
pub record Opened : Type 0 where
  pub status : ℕ
  pub device_data : ℕ
  pub driver : Driver

-- `pi_uart_open`: `old` is what the device's data was, and `chunk` what `pi_l2_malloc` gives.
unfoldable pub pi_uart_open : (old chunk periph_freq : ℕ) → Conf → Driver → Option Opened
unfolding conf_set
pi_uart_open old chunk periph_freq conf d =
    let id = conf.uart_id in
    let p = d.table id in
    let itf = d.itf p in
    let d1 = put_itf chunk (fresh id) d in
    let d2 =
      issue (Command.handler_set (event_of id tx))
        (issue (Command.handler_set (event_of id rx)) d1) in
    let d3 =
      issue (Command.mask_set (event_of id tx)) (issue (Command.mask_set (event_of id rx)) d2) in
    let d4 = issue (Command.gate_disable id) d3 in
    if p == 0
    then if chunk == 0
      then some (record { status = sub32 0 11; device_data = old; driver = d })
      else (do
        d5 ← conf_set chunk periph_freq conf d4
        let d6 = record d5 { table = λ i. if i == id then chunk else d5.table i }
        some (record { status = 0; device_data = d6.table id; driver = d6 }))
    else let d1 = put_itf p (record itf { nb_open = u32 (itf.nb_open + 1) }) d in
      some (record { status = 0; device_data = d1.table itf.device_id; driver = d1 })

-- `__pi_uart_rx_abort` and `__pi_uart_tx_abort`.
unfoldable pub abort : (p : ℕ) → Channel → Driver → Driver
abort p c d =
    let id = (d.itf p).device_id in
    let d = issue (Command.channel_clear id c) (issue (Command.channel_disable id c) d) in
    set_tail p c 0 (set_head p c 0 d)

-- The end of `pi_uart_close`, where no device is left. `pi_l2_free` keeps the device's number, which does not
-- lie where it puts its header.
unfoldable pub close_down : (p : ℕ) → Driver → Driver
close_down p d =
    let id = (d.itf p).device_id in
    let d = abort p tx (abort p rx d) in
    let d =
      issue (Command.handler_clear (event_of id tx))
        (issue (Command.handler_clear (event_of id rx)) d) in
    let d =
      issue (Command.mask_clear (event_of id tx)) (issue (Command.mask_clear (event_of id rx)) d) in
    let d = issue (Command.l2_free p) d in
    record d { table = λ i. if i == (d.itf p).device_id then 0 else d.table i }

-- What a call of `pi_uart_close` leaves: the device's data, and the driver.
pub record Closed : Type 0 where
  pub device_data : ℕ
  pub driver : Driver

-- `pi_uart_close` of a device whose data is `p`, with the events that arrive while it waits for the
-- transmitter.
unfoldable pub pi_uart_close : (p : ℕ) → List ℕ → Driver → Option Closed
unfolding close_down interrupts
pi_uart_close p events d =
    let itf = d.itf p in
    let d1 = put_itf p (record itf { nb_open = sub32 itf.nb_open 1 }) d in
    let closed =
      if sub32 itf.nb_open 1 == 0
      then (interrupts events d1 >>= λ d2. some (close_down p d2))
      else some d1 in
    if p == 0
    then some (record { device_data = p; driver = d })
    else (closed >>= λ d. some (record { device_data = 0; driver = d }))

-- `__pi_uart_channel_enable`.
unfoldable pub channel_enable : (p : ℕ) → Channel → Driver → Driver
channel_enable p c d = issue (Command.channel_enable (d.itf p).device_id c) d

-- `pi_uart_ioctl`: the status, -1 by its pattern, and the driver. `conf` is what `arg` points to.
unfoldable pub pi_uart_ioctl :
    (p cmd periph_freq : ℕ) → (conf : Conf) → Driver → Option (ℕ × Driver)
unfolding conf_set abort channel_enable
pi_uart_ioctl p cmd periph_freq conf d =
    if cmd == 0
    then (conf_set p periph_freq conf d >>= λ d. some (0, d))
    else if cmd == 1
    then some (0, abort p rx d)
    else if cmd == 2
    then some (0, abort p tx d)
    else if cmd == 3
    then some (0, channel_enable p rx d)
    else if cmd == 4
    then some (0, channel_enable p tx d)
    else some (sub32 0 1, d)

-- What `pi_uart_write_async` and `pi_uart_read_async` share.
unfoldable pub transfer_async : Channel → (p buffer size task : ℕ) → Driver → ℕ × Driver
unfolding copy
transfer_async c p buffer size task d = copy p buffer size c task d

-- What a call that waits comes to: it returns, an interrupt faults, or the events are used up.
pub data Waited : Type 0 where
  returned : ℕ → Driver → Waited
  faulted : Waited
  waiting : Driver → Waited

-- `pi_task_wait_on` and the `return` after it.
unfoldable pub wait_on : (task status : ℕ) → List ℕ → Driver → Waited
unfolding pi_task_destroy
wait_on task status [] d =
    if not ((d.tasks task).done == 0)
    then returned status (record d { tasks = pi_task_destroy task (pi_task_destroy task d.tasks) })
    else waiting d
wait_on task status (event ∷ events) d =
    if not ((d.tasks task).done == 0)
    then returned status (record d { tasks = pi_task_destroy task (pi_task_destroy task d.tasks) })
    else elim (handler event d) [ none ↦ faulted | some d' ↦ wait_on task status events d' ]

-- What the calls that wait share.
unfoldable pub transfer :
    Channel → (p buffer size : ℕ) → (task sem_object : ℕ) → List ℕ → Driver → Waited
unfolding transfer_async pi_task_block wait_on
transfer c p buffer size task sem_object events d =
    let blocked = pi_task_block task sem_object (put_task task zero_task d.tasks) in
    let (status, d) = transfer_async c p buffer size task (record d { tasks = blocked }) in
    wait_on task status events d

-- Each of the functions that a program calls.
abbrev pub pi_uart_write : (p buffer size : ℕ) → (task sem_object : ℕ) → List ℕ → Driver → Waited
pi_uart_write p buffer size task sem_object events d =
    transfer tx p buffer size task sem_object events d

abbrev pub pi_uart_write_byte : (p byte : ℕ) → (task sem_object : ℕ) → List ℕ → Driver → Waited
pi_uart_write_byte p byte task sem_object events d = transfer tx p byte 1 task sem_object events d

abbrev pub pi_uart_write_async : (p buffer size task : ℕ) → Driver → ℕ × Driver
pi_uart_write_async p buffer size task d = transfer_async tx p buffer size task d

abbrev pub pi_uart_write_byte_async : (p byte task : ℕ) → Driver → ℕ × Driver
pi_uart_write_byte_async p byte task d = transfer_async tx p byte 1 task d

abbrev pub pi_uart_read : (p buffer size : ℕ) → (task sem_object : ℕ) → List ℕ → Driver → Waited
pi_uart_read p buffer size task sem_object events d =
    transfer rx p buffer size task sem_object events d

abbrev pub pi_uart_read_byte : (p byte : ℕ) → (task sem_object : ℕ) → List ℕ → Driver → Waited
pi_uart_read_byte p byte task sem_object events d = transfer rx p byte 1 task sem_object events d

abbrev pub pi_uart_read_async : (p buffer size task : ℕ) → Driver → ℕ × Driver
pi_uart_read_async p buffer size task d = transfer_async rx p buffer size task d
