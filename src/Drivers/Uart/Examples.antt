-- ===== src/Drivers/Uart/Examples.antt =====
-- Runs of drivers/uart.c at concrete devices and tasks.
use mlonmcu_sw.Base.{ℕ, ◌≡◌, refl, arith, some, none, [], ◌∷◌, map, replicate, ◌==◌, if◌then◌else◌}
use mlonmcu_sw.Base.Partial.{Returns}
use mlonmcu_sw.Drivers.Task.{Channel, rx, tx, Task, zero_task, pi_task_callback, callback_id}
use mlonmcu_sw.Drivers.Task.Queue.{Queued}
use mlonmcu_sw.Drivers.Uart.{Driver, Command, event_of, handler, interrupts, transfer_end, copy}
use mlonmcu_sw.Drivers.Uart.Fifo.{IsReady}
use mlonmcu_sw.Drivers.Uart.Handler.{copy-IsReady, transfer_end-IsReady}
use mlonmcu_sw.Drivers.Uart.Transfers.{drain, Drained}
use mlonmcu_sw.Drivers.Uart.Blocking.{transfer_short, transfer_long}
use mlonmcu_sw.Drivers.Uart.Refused.{transfer_refused}
use mlonmcu_sw.Drivers.Uart.Bystander.{DoesNotReturn}
use mlonmcu_sw.Drivers.Uart.Devices.{
  abort_strands, close-open, close-open_first, opening, closing, pi_uart_ioctl-IsReady,
}
use mlonmcu_sw.Drivers.Uart.Device.{
  Conf, Opened, returned, waiting, wait_on, pi_uart_write, abort, pi_uart_conf_init, pi_uart_open,
  pi_uart_close, pi_uart_ioctl,
}

-- Device 0, with its interface data at 100, and no transfer.
abbrev idle_driver : Driver
idle_driver = record {
  table = λ i. if i == 0 then 100 else 0;
  itf = λ p. record { head = λ c. 0; tail = λ c. 0; nb_open = 1; device_id = 0 };
  tasks = λ x. zero_task;
  log = [];
}

abbrev tx_ends : (first last : ℕ) → Channel → ℕ
tx_ends first last rx = 0
tx_ends first last tx = last

abbrev buffer : ℕ
buffer = 0x1c000100

-- Tasks 5 and 6 wait on the transmitter.
abbrev busy_task : (next : ℕ) → Task
busy_task next = record zero_task { buf = buffer; size = 10; channel = tx; next = next }

abbrev busy_driver : Driver
busy_driver = record idle_driver {
  itf = λ p. record { head = tx_ends 0 5; tail = tx_ends 0 6; nb_open = 1; device_id = 0 };
  tasks = λ x. if x == 5 then busy_task 6 else busy_task 0;
}

idle-IsReady : (c : Channel) → IsReady 100 c [] [] idle_driver
idle-IsReady rx = record {
  mine = record { linked = refl; at_end = refl; distinct = tt };
  theirs = record { linked = refl; at_end = refl; distinct = tt };
  apart = tt;
}
idle-IsReady tx = record {
  mine = record { linked = refl; at_end = refl; distinct = tt };
  theirs = record { linked = refl; at_end = refl; distinct = tt };
  apart = tt;
}

busy_queue : Queued busy_driver.tasks 5 6 (5 ∷ 6 ∷ [])
busy_queue = record {
  linked = (refl, omega arith, (refl, omega arith, refl));
  at_end = refl;
  distinct = ((omega arith, tt), (tt, tt));
}

busy_tx : IsReady 100 tx (5 ∷ 6 ∷ []) [] busy_driver
busy_tx = record {
  mine = busy_queue;
  theirs = record { linked = refl; at_end = refl; distinct = tt };
  apart = (tt, (tt, tt));
}

busy_rx : IsReady 100 rx [] (5 ∷ 6 ∷ []) busy_driver
busy_rx = record {
  mine = record { linked = refl; at_end = refl; distinct = tt };
  theirs = busy_queue;
  apart = tt;
}

drain_example :
    Returns
      (Drained 100 tx 5 (6 ∷ []) [] busy_driver)
      (interrupts (replicate 2 (event_of 0 tx)) busy_driver)
drain_example =
    drain 0 100 tx 5 (6 ∷ []) [] busy_driver refl (omega arith)
      ((refl, refl, omega arith, refl), ((refl, refl, omega arith, refl), tt)) busy_tx

transfer_short_example :
    (d' : Driver) × (pi_uart_write 100 buffer 10 7 1 (event_of 0 tx ∷ []) idle_driver
      ≡ returned 0 d')
    × IsReady 100 tx [] [] d'
    × (d'.log ≡ Command.uart_enqueue 0 buffer 10 tx ∷ [])
    × (d'.table ≡ idle_driver.table)
transfer_short_example =
    transfer_short 0 100 tx buffer 10 7 1 [] idle_driver refl (omega arith) (omega arith) tt refl
      (idle-IsReady tx) [] (omega arith)

transfer_long_example :
    (d' : Driver) × (pi_uart_write 100 buffer 200000 7 1 (replicate 3 (event_of 0 tx)) idle_driver
      ≡ waiting d')
    × IsReady 100 tx (7 ∷ []) [] d'
transfer_long_example =
    transfer_long 0 100 tx buffer 200000 7 1 [] idle_driver refl (omega arith) (omega arith) tt refl
      (idle-IsReady tx) 3 (omega arith)

transfer_refused_example :
    DoesNotReturn
      (pi_uart_write 100 0x10000100 10 7 1 (map (event_of 0) (tx ∷ tx ∷ [])) busy_driver)
transfer_refused_example =
    transfer_refused 0 100 tx 0x10000100 10 7 1 (tx ∷ tx ∷ []) [] (5 ∷ 6 ∷ []) busy_driver refl
      (omega arith) (λ e. absurd (omega arith)) tt (omega arith, (omega arith, tt)) busy_rx

copy-IsReady_example :
    ((copy 100 buffer 10 tx 7 busy_driver).0 ≡ 0)
    × IsReady 100 tx (5 ∷ 6 ∷ 7 ∷ []) [] (copy 100 buffer 10 tx 7 busy_driver).1
copy-IsReady_example =
    copy-IsReady 100 buffer 10 7 tx busy_driver (5 ∷ 6 ∷ []) [] busy_tx (omega arith)
      (omega arith, (omega arith, tt)) tt refl

transfer_end-IsReady_example :
    Returns (IsReady 100 tx (6 ∷ []) []) (transfer_end 100 tx busy_driver)
transfer_end-IsReady_example = transfer_end-IsReady 100 tx 5 (6 ∷ []) [] busy_driver busy_tx

abort_strands_example :
    DoesNotReturn (wait_on 5 0 (map (event_of 0) (rx ∷ [])) (abort 100 tx busy_driver))
abort_strands_example =
    abort_strands 0 100 tx 5 (6 ∷ []) [] busy_driver 0 (rx ∷ []) refl (omega arith) refl busy_tx

abbrev conf : Conf
conf = record {
  baudrate_bps = 115200;
  stop_bit_count = 0;
  parity_mode = 0;
  word_size = 3;
  enable_rx = 1;
  enable_tx = 1;
  uart_id = 0;
}

pi_uart_ioctl-IsReady_example :
    Returns
      (λ r. (r.0 ≡ 0) × IsReady 100 rx [] [] r.1)
      (pi_uart_ioctl 100 2 50000000 conf busy_driver)
pi_uart_ioctl-IsReady_example =
    pi_uart_ioctl-IsReady 100 2 50000000 conf [] (5 ∷ 6 ∷ []) busy_driver (omega arith) busy_rx

close-open_example :
    (o : Opened) × (pi_uart_open 0 200 50000000 conf busy_driver ≡ some o)
    × (o.status ≡ 0)
    × (o.device_data ≡ 100)
    × ((d' : Driver) × (pi_uart_close 100 [] o.driver
          ≡ some (record { device_data = 0; driver = d' }))
        × ((q : ℕ) → d'.itf q ≡ busy_driver.itf q)
        × (d'.tasks ≡ busy_driver.tasks)
        × (d'.table ≡ busy_driver.table)
        × (d'.log ≡ []))
close-open_example =
    close-open 0 200 50000000 conf [] 100 busy_driver refl (omega arith) refl (omega arith)
      (omega arith)

abbrev closed_driver : Driver
closed_driver = record idle_driver { table = λ i. 0 }

close-open_first_example :
    (o : Opened) × (pi_uart_open 0 200 50000000 conf closed_driver ≡ some o)
    × (o.status ≡ 0)
    × (o.device_data ≡ 200)
    × (o.driver.table 0 ≡ 200)
    × ((d' : Driver) × (pi_uart_close 200 [] o.driver
          ≡ some (record { device_data = 0; driver = d' }))
        × ((i : ℕ) → d'.table i ≡ 0)
        × (d'.tasks ≡ closed_driver.tasks)
        × (d'.log ≡ closing 0 200 (opening 0 0 434 conf [])))
close-open_first_example =
    close-open_first 0 200 50000000 conf closed_driver refl (omega arith) (omega arith)

-- A device of the default configuration does neither receive nor transmit.
default_conf : pi_uart_conf_init.baudrate_bps ≡ 115200
unfolding pi_uart_conf_init
default_conf = refl

-- Two interrupts of the receiver's and the transmitter's events, the first with no transfer.
fault_example : interrupts (event_of 0 rx ∷ event_of 0 tx ∷ []) busy_driver ≡ none
unfolding interrupts handler
fault_example = refl

callback_example : (pi_task_callback 5 1000 7 busy_driver.tasks 5).id ≡ callback_id
unfolding pi_task_callback
callback_example = refl
