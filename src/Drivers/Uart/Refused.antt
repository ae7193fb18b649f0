-- ===== src/Drivers/Uart/Refused.antt =====
-- drivers/uart.c: a buffer that does not lie in the L2 memory.
use mlonmcu_sw.Base.{
  ℕ, ◌^◌, ◌/◌, ◌≡◌, ◌≢◌, refl, arith, none, List, [], ◌∷◌, All, map, ◌==◌, false, ap, ◌∙◌, sub32,
}
use mlonmcu_sw.Base.Partial.{result}
use mlonmcu_sw.Drivers.Task.{Channel, rx, tx, Task}
use mlonmcu_sw.Drivers.Uart.{Driver, copy, event_of, handler}
use mlonmcu_sw.Drivers.Uart.Fifo.{IsReady}
use mlonmcu_sw.Drivers.Uart.Device.{faulted, wait_on, transfer, transfer_async}
use mlonmcu_sw.Drivers.Uart.Transfers.{handler-event_of}
use mlonmcu_sw.Drivers.Uart.Blocking.{
  prepared, prepared-IsReady, prepared_task, wait_event, wait_nothing,
}
use mlonmcu_sw.Drivers.Uart.Bystander.{
  undisturbed, Undisturbed, IsReady-rx, IsReady-tx, DoesNotReturn, handler_idle,
}

-- `__pi_uart_copy` refuses a buffer outside the 1 MB from 0x1c000000 on with -11, and changes nothing.
pub copy_outside :
    (p l2_buf size : ℕ) (c : Channel) (task : ℕ) (d : Driver)
    → l2_buf / 2 ^ 20 ≢ 0x1c0
    → copy p l2_buf size c task d ≡ (sub32 0 11, d)
unfolding copy
copy_outside p l2_buf size c task d out =
    let test : (l2_buf / 2 ^ 20 == 0x1c0) ≡ false = ground (arith, out) in rw test refl

wait_fault :
    (task status event : ℕ) (events : List ℕ) (d : Driver)
    → (d.tasks task).done ≡ 0
    → handler event d ≡ none
    → wait_on task status (event ∷ events) d ≡ faulted
unfolding wait_on
wait_fault task status event events d h e = rw (h, e) refl

module _ (device_id p task status : ℕ) (live : p ≢ 0) where
  -- The same device, at a later time.
  abbrev Goal : List Channel → Driver → Type 0
  Goal cs d = DoesNotReturn (wait_on task status (map (event_of device_id) cs) d)

  after_event :
      (c : Channel) (cs : List Channel) (xs ys : List ℕ) (d : Driver)
      → d.table device_id ≡ p
      → (d.tasks task).done ≡ 0
      → All (λ x. task ≢ x) xs
      → IsReady p c xs ys d
      → ((d' : Driver) → Undisturbed p c task ys d d' → Goal cs d')
      → Goal (c ∷ cs) d
  after_event c cs [] ys d at waits o r later =
      rw
        (wait_fault task status (event_of device_id c) (map (event_of device_id) cs) d waits
          (handler_idle device_id p c ys d at live r))
        tt
  after_event c cs (x ∷ xs) ys d at waits o r later =
      let (d', e, u) = result (undisturbed p c task x xs ys d o r) in
      rw
        (wait_event task status (event_of device_id c) (map (event_of device_id) cs) d d' waits
          (handler-event_of device_id p c d at live ∙ e))
        (later d' u)

  pub never_returns :
      (cs : List Channel) (xs ys : List ℕ) (d : Driver)
      → d.table device_id ≡ p
      → (d.tasks task).done ≡ 0
      → All (λ x. task ≢ x) xs
      → All (λ y. task ≢ y) ys
      → IsReady p rx xs ys d
      → Goal cs d
  never_returns [] xs ys d at waits o o' r = rw (wait_nothing task status d waits) tt
  never_returns (rx ∷ cs) xs ys d at waits o o' r = after_event rx cs xs ys d at waits o r λ d' u.
      never_returns cs u.left ys d' (ap (λ (t : ℕ → ℕ). t device_id) u.table ∙ at)
        (ap (λ (t : Task). t.done) u.kept ∙ waits) u.out o' u.ready
  never_returns (tx ∷ cs) xs ys d at waits o o' r =
      after_event tx cs ys xs d at waits o' (IsReady-tx p xs ys d r) λ d' u.
        never_returns cs xs u.left d' (ap (λ (t : ℕ → ℕ). t device_id) u.table ∙ at)
          (ap (λ (t : Task). t.done) u.kept ∙ waits) o u.out (IsReady-rx p xs u.left d' u.ready)

-- A blocking call with a buffer outside the L2 memory never returns, although the status is -11 at once:
-- whatever transfers are queued and however the interrupts of the device come, it waits or a fault ends it.
pub transfer_refused :
    (device_id p : ℕ) (c : Channel) (buf size task sem_object : ℕ) (cs : List Channel)
    (xs ys : List ℕ) (d : Driver)
    → d.table device_id ≡ p
    → p ≢ 0
    → buf / 2 ^ 20 ≢ 0x1c0
    → All (λ x. task ≢ x) xs
    → All (λ y. task ≢ y) ys
    → IsReady p rx xs ys d
    → DoesNotReturn (transfer c p buf size task sem_object (map (event_of device_id) cs) d)
unfolding transfer transfer_async
transfer_refused device_id p c buf size task sem_object cs xs ys d at live out o o' r =
    let d0 = prepared task sem_object d in
    rw (copy_outside p buf size c task d0 out) (
      never_returns device_id p task (sub32 0 11) live cs xs ys d0 at
        (ap (λ (t : Task). t.done) (prepared_task task sem_object d)) o o'
        (prepared-IsReady p task sem_object rx d xs ys o o' r))
