-- ===== src/Drivers/Uart/Devices.antt =====
-- drivers/uart.c: how devices are opened, controlled and closed.
use mlonmcu_sw.Base.{
  ℕ, zero, suc, ◌+◌, ◌^◌, ◌%◌, ◌/◌, ◌≡◌, ◌≢◌, ◌<◌, refl, arith, some, List, [], ◌∷◌, map, ◌==◌, ltb,
  Bool-cases, inl, inr, false, ap, sym, ◌∙◌, if◌then◌else◌, sub32, u32,
}
use mlonmcu_sw.Base.Partial.{Returns, returns}
use mlonmcu_sw.Drivers.Task.{Channel, rx, tx, Tasks}
use mlonmcu_sw.Drivers.Uart.{Driver, Command, issue, put_itf, event_of, interrupts}
use mlonmcu_sw.Drivers.Uart.Fifo.{IsReady, IsReady-of_ends, both_ends, both_theirs}
use mlonmcu_sw.Drivers.Uart.Device.{
  Conf, Opened, pi_uart_open, pi_uart_close, pi_uart_ioctl, abort, channel_enable, conf_set,
  close_down, fresh, wait_on,
}
use mlonmcu_sw.Drivers.Uart.Bystander.{DoesNotReturn, IsReady-rx, IsReady-tx}
use mlonmcu_sw.Drivers.Uart.Refused.{never_returns}

-- An abort empties the queue of its channel and keeps the other one. The tasks stay as they are.
pub abort-IsReady :
    (p : ℕ) (c : Channel) (xs ys : List ℕ) (d : Driver)
    → IsReady p c xs ys d
    → IsReady p c [] ys (abort p c d)
      × ((abort p c d).tasks ≡ d.tasks)
      × ((abort p c d).table ≡ d.table)
unfolding abort
abort-IsReady p c xs ys d r =
    let id = (d.itf p).device_id in
    let d1 = issue (Command.channel_clear id c) (issue (Command.channel_disable id c) d) in
    (
      IsReady-of_ends p c [] ys _ d.tasks 0 0 _ _ refl (both_ends p d1 c 0 0)
          (both_theirs p d1 c 0 0) (record { linked = refl; at_end = refl; distinct = tt }) r.theirs
          tt,
      refl,
      refl,
    )

channel_enable-IsReady :
    (p : ℕ) (c c' : Channel) (xs ys : List ℕ) (d : Driver)
    → IsReady p c xs ys d
    → IsReady p c xs ys (channel_enable p c' d)
unfolding channel_enable
channel_enable-IsReady p c c' xs ys d r = record {
  mine = r.mine;
  theirs = r.theirs;
  apart = r.apart;
}

-- What a control command leaves queued: an abort empties its channel's queue, and all other commands, the
-- unknown ones included, keep both. The status is -1 for the unknown ones and 0 for the others.
pub pi_uart_ioctl-IsReady :
    (p cmd periph_freq : ℕ) (conf : Conf) (xs ys : List ℕ) (d : Driver)
    → conf.baudrate_bps ≢ 0
    → IsReady p rx xs ys d
    → Returns
        (λ r.
          (r.0 ≡ (if ltb cmd 5 then 0 else sub32 0 1))
          × IsReady p rx (if cmd == 1 then [] else xs) (if cmd == 2 then [] else ys) r.1)
        (pi_uart_ioctl p cmd periph_freq conf d)
unfolding pi_uart_ioctl conf_set
pi_uart_ioctl-IsReady p zero periph_freq conf xs ys d baud r =
    let real : (conf.baudrate_bps == 0) ≡ false = ground (arith, baud) in
    rw real (returns (refl, record { mine = r.mine; theirs = r.theirs; apart = r.apart }))
pi_uart_ioctl-IsReady p (suc zero) periph_freq conf xs ys d baud r =
    returns (refl, (abort-IsReady p rx xs ys d r).0)
pi_uart_ioctl-IsReady p (suc (suc zero)) periph_freq conf xs ys d baud r =
    returns (refl, IsReady-rx p xs [] _ (abort-IsReady p tx ys xs d (IsReady-tx p xs ys d r)).0)
pi_uart_ioctl-IsReady p (suc (suc (suc zero))) periph_freq conf xs ys d baud r =
    returns (refl, channel_enable-IsReady p rx rx xs ys d r)
pi_uart_ioctl-IsReady p (suc (suc (suc (suc zero)))) periph_freq conf xs ys d baud r =
    returns (refl, channel_enable-IsReady p rx tx xs ys d r)
pi_uart_ioctl-IsReady p (suc (suc (suc (suc (suc n))))) periph_freq conf xs ys d baud r =
    let other : (k : ℕ) → k < 5 → (suc (suc (suc (suc (suc n)))) == k) ≡ false =
      λ k h. ground arith in
    let large : ltb (suc (suc (suc (suc (suc n))))) 5 ≡ false = ground arith in
    rw
      (
        other 0 (omega arith),
        other 1 (omega arith),
        other 2 (omega arith),
        other 3 (omega arith),
        other 4 (omega arith),
        large,
      )
      (returns (refl, r))

-- A call whose transfer is aborted never returns: the abort takes its task out of the queue and leaves it
-- undone, however the later interrupts of the device come.
pub abort_strands :
    (device_id p : ℕ) (c : Channel) (x : ℕ) (xs ys : List ℕ) (d : Driver) (status : ℕ)
    (cs : List Channel)
    → d.table device_id ≡ p
    → p ≢ 0
    → (d.tasks x).done ≡ 0
    → IsReady p c (x ∷ xs) ys d
    → DoesNotReturn (wait_on x status (map (event_of device_id) cs) (abort p c d))
abort_strands device_id p rx x xs ys d status cs at live waits r =
    let (ready, tasks, table) = abort-IsReady p rx (x ∷ xs) ys d r in
    never_returns device_id p x status live cs [] ys (abort p rx d)
      (ap (λ (t : ℕ → ℕ). t device_id) table ∙ at) (ap (λ (m : Tasks). (m x).done) tasks ∙ waits) tt
      r.apart.0 ready
abort_strands device_id p tx x xs ys d status cs at live waits r =
    let (ready, tasks, table) = abort-IsReady p tx (x ∷ xs) ys d r in
    never_returns device_id p x status live cs ys [] (abort p tx d)
      (ap (λ (t : ℕ → ℕ). t device_id) table ∙ at) (ap (λ (m : Tasks). (m x).done) tasks ∙ waits)
      r.apart.0 tt (IsReady-rx p ys [] (abort p tx d) ready)

-- A device whose count of users is another one.
abbrev counted : (p n : ℕ) → Driver → Driver
counted p n d = put_itf p (record (d.itf p) { nb_open = n }) d

open_again :
    (old chunk periph_freq : ℕ) (conf : Conf) (p : ℕ) (d : Driver)
    → d.table conf.uart_id ≡ p
    → p ≢ 0
    → (d.itf p).device_id ≡ conf.uart_id
    → pi_uart_open old chunk periph_freq conf d
      ≡ some (record {
        status = 0;
        device_data = p;
        driver = counted p (u32 ((d.itf p).nb_open + 1)) d;
      })
unfolding pi_uart_open
open_again old chunk periph_freq conf p d at live own =
    let real : (p == 0) ≡ false = ground (arith, live) in rw (at, real, own, at) refl

close_shared :
    (p n : ℕ) (events : List ℕ) (d : Driver)
    → p ≢ 0
    → (d.itf p).nb_open ≡ n + 1
    → 0 < n
    → n + 1 < 2 ^ 32
    → pi_uart_close p events d ≡ some (record { device_data = 0; driver = counted p n d })
unfolding pi_uart_close
close_shared p n events d live count used room =
    let real : (p == 0) ≡ false = ground (arith, live) in
    let less : sub32 (n + 1) 1 ≡ n = omega arith in
    let shared : (n == 0) ≡ false = ground (arith, used) in rw (real, count, less, shared) refl

counted_twice :
    (p m : ℕ) (d : Driver) (q : ℕ) → (counted p (d.itf p).nb_open (counted p m d)).itf q ≡ d.itf q
counted_twice p m d q = ground arith

-- Where the device of a configuration is open with a count of users from 1 to 2 ^ 32 - 2, `pi_uart_open` gives
-- 0 and the data that the others have. `pi_uart_close` of it, whatever the events, then takes the data away
-- from this user and leaves the interface data, the tasks, the table and the log of the hardware as they
-- were before the open.
pub close-open :
    (old chunk periph_freq : ℕ) (conf : Conf) (events : List ℕ) (p : ℕ) (d : Driver)
    → d.table conf.uart_id ≡ p
    → p ≢ 0
    → (d.itf p).device_id ≡ conf.uart_id
    → 0 < (d.itf p).nb_open
    → (d.itf p).nb_open + 1 < 2 ^ 32
    → (o : Opened) × (pi_uart_open old chunk periph_freq conf d ≡ some o)
      × (o.status ≡ 0)
      × (o.device_data ≡ p)
      × ((d' : Driver) × (pi_uart_close p events o.driver
            ≡ some (record { device_data = 0; driver = d' }))
          × ((q : ℕ) → d'.itf q ≡ d.itf q)
          × (d'.tasks ≡ d.tasks)
          × (d'.table ≡ d.table)
          × (d'.log ≡ d.log))
close-open old chunk periph_freq conf events p d at live own used room =
    let n = (d.itf p).nb_open in
    let d1 = counted p (u32 (n + 1)) d in
    let fits : (n + 1) % 2 ^ 32 ≡ n + 1 = omega arith in
    let count : (d1.itf p).nb_open ≡ n + 1 = ground (arith, fits) in
    (
      record { status = 0; device_data = p; driver = d1 },
      open_again old chunk periph_freq conf p d at live own,
      refl,
      refl,
      (
        counted p n d1,
        close_shared p n events d1 live count used room,
        counted_twice p (u32 (n + 1)) d,
        refl,
        refl,
        refl,
      ),
    )

-- What opening a device for the first time makes the hardware do, and what closing it for the last time does.
abbrev pub opening : (uart_id setup_id clk_div : ℕ) → Conf → List Command → List Command
opening id setup_id clk_div conf log =
    Command.setup_set setup_id clk_div conf.enable_rx conf.enable_tx conf.stop_bit_count
      conf.word_size conf.parity_mode
    ∷ Command.gate_disable id
    ∷ Command.mask_set (event_of id tx)
    ∷ Command.mask_set (event_of id rx)
    ∷ Command.handler_set (event_of id tx)
    ∷ Command.handler_set (event_of id rx)
    ∷ log

abbrev pub closing : (uart_id chunk : ℕ) → List Command → List Command
closing id chunk log =
    Command.l2_free chunk
    ∷ Command.mask_clear (event_of id tx)
    ∷ Command.mask_clear (event_of id rx)
    ∷ Command.handler_clear (event_of id tx)
    ∷ Command.handler_clear (event_of id rx)
    ∷ Command.channel_clear id tx
    ∷ Command.channel_disable id tx
    ∷ Command.channel_clear id rx
    ∷ Command.channel_disable id rx
    ∷ log

open_first :
    (old chunk periph_freq : ℕ) (conf : Conf) (d : Driver)
    → d.table conf.uart_id ≡ 0
    → chunk ≢ 0
    → conf.baudrate_bps ≢ 0
    → pi_uart_open old chunk periph_freq conf d
      ≡ some (record {
        status = 0;
        device_data = chunk;
        driver = record (put_itf chunk (fresh conf.uart_id) d) {
          table = λ i. if i == conf.uart_id then chunk else d.table i;
          log =
              opening conf.uart_id conf.uart_id
                (periph_freq / conf.baudrate_bps % 2 ^ 16)
                conf
                d.log;
        };
      })
unfolding pi_uart_open conf_set
open_first old chunk periph_freq conf d free real baud =
    let a : (chunk == 0) ≡ false = ground (arith, real) in
    let b : (conf.baudrate_bps == 0) ≡ false = ground (arith, baud) in
    let id = conf.uart_id in
    let found : (if id == id then chunk else d.table id) ≡ chunk = ground arith in
    let itf_id : ((put_itf chunk (fresh id) d).itf chunk).device_id ≡ id = ground arith in
    let clk_div = periph_freq / conf.baudrate_bps % 2 ^ 16 in
    rw (free, a, b)
      λ i. some (record {
        status = 0;
        device_data = found i;
        driver = record (put_itf chunk (fresh id) d) {
          table = λ j. if j == id then chunk else d.table j;
          log = opening id (itf_id i) clk_div conf d.log;
        };
      })

abort_lem :
    (p : ℕ) (c : Channel) (d : Driver)
    → (((abort p c d).itf p).device_id ≡ (d.itf p).device_id)
      × ((abort p c d).log
          ≡ Command.channel_clear (d.itf p).device_id c
            ∷ Command.channel_disable (d.itf p).device_id c
            ∷ d.log)
      × ((abort p c d).tasks ≡ d.tasks)
      × ((abort p c d).table ≡ d.table)
unfolding abort
abort_lem p c d = (ground arith, refl, refl, refl)

close_down_lem :
    (p : ℕ) (d : Driver)
    → ((close_down p d).log ≡ closing (d.itf p).device_id p d.log)
      × ((close_down p d).tasks ≡ d.tasks)
      × ((i : ℕ) → (close_down p d).table i ≡ (if i == (d.itf p).device_id then 0 else d.table i))
unfolding close_down
close_down_lem p d =
    let (id, log, tasks, table) = abort_lem p rx d in
    let (id', log', tasks', table') = abort_lem p tx (abort p rx d) in
    (rw (log', id, log) refl, tasks' ∙ tasks, λ i. rw (id', id, table', table) refl)

close_last :
    (p : ℕ) (d : Driver)
    → p ≢ 0
    → (d.itf p).nb_open ≡ 1
    → pi_uart_close p [] d
      ≡ some (record { device_data = 0; driver = close_down p (counted p 0 d) })
unfolding pi_uart_close interrupts
close_last p d live one = let real : (p == 0) ≡ false = ground (arith, live) in rw (real, one) refl

-- For a device that is not open, memory for its data and a baud rate other than 0, `pi_uart_open` gives 0 and
-- the device's data, and enters them in the table. `pi_uart_close` of these, with no events on the way, then
-- takes the data away from the user and brings the table and the tasks back as they were. The hardware
-- sees exactly the commands of `opening` and then those of `closing`: the clock gate and the setup stay as
-- the open left them.
pub close-open_first :
    (old chunk periph_freq : ℕ) (conf : Conf) (d : Driver)
    → d.table conf.uart_id ≡ 0
    → chunk ≢ 0
    → conf.baudrate_bps ≢ 0
    → (o : Opened) × (pi_uart_open old chunk periph_freq conf d ≡ some o)
      × (o.status ≡ 0)
      × (o.device_data ≡ chunk)
      × (o.driver.table conf.uart_id ≡ chunk)
      × ((d' : Driver) × (pi_uart_close chunk [] o.driver
            ≡ some (record { device_data = 0; driver = d' }))
          × ((i : ℕ) → d'.table i ≡ d.table i)
          × (d'.tasks ≡ d.tasks)
          × (d'.log
              ≡ closing conf.uart_id chunk (
                  opening conf.uart_id conf.uart_id
                    (periph_freq / conf.baudrate_bps % 2 ^ 16)
                    conf
                    d.log)))
close-open_first old chunk periph_freq conf d free real baud =
    let id = conf.uart_id in
    let log = opening id id (periph_freq / conf.baudrate_bps % 2 ^ 16) conf d.log in
    let d1 = record (put_itf chunk (fresh id) d) {
      table = λ i. if i == id then chunk else d.table i;
      log = log;
    } in
    let d2 = counted chunk 0 d1 in
    let own : (d2.itf chunk).device_id ≡ id = ground arith in
    let (log', tasks', table') = close_down_lem chunk d2 in
    (
      record { status = 0; device_data = chunk; driver = d1 },
      open_first old chunk periph_freq conf d free real baud,
      refl,
      refl,
      ground arith,
      (
        close_down chunk d2,
        close_last chunk d1 real (ground arith),
        λ i. table' i ∙ ap (λ (k : ℕ). if i == k then 0 else d1.table i) own ∙ back i,
        tasks',
        log' ∙ ap (λ (k : ℕ). closing k chunk log) own,
      ),
    )
  where
    back :
        (i : ℕ)
        → (if i == conf.uart_id then 0 else if i == conf.uart_id then chunk else d.table i)
          ≡ d.table i
    back i = elim (Bool-cases (i == conf.uart_id)) [
      | inl e ↦ let q : i ≡ conf.uart_id = ground (arith, e) in rw e (sym (ap d.table q ∙ free))
      | inr e ↦ rw e refl
    ]

-- Without memory for the interface data, opening a device fails with -11 and changes nothing.
pub open_no_memory :
    (old periph_freq : ℕ) (conf : Conf) (d : Driver)
    → d.table conf.uart_id ≡ 0
    → pi_uart_open old 0 periph_freq conf d
      ≡ some (record { status = sub32 0 11; device_data = old; driver = d })
unfolding pi_uart_open
open_no_memory old periph_freq conf d free = rw free refl
