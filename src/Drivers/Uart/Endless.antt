-- ===== src/Drivers/Uart/Endless.antt =====
-- drivers/uart.c: a transfer in several pieces. `__pi_uart_copy_exec` notes the size that is pending and
-- nothing resets it, so the handler finds data pending after the last piece, too.
use mlonmcu_sw.Base.{
  ℕ, zero, suc, ◌+◌, ◌≡◌, ◌≢◌, ◌<◌, refl, arith, List, ◌∷◌, replicate, ltb, Bool-cases, inl, inr,
  true, ap, ◌∙◌, sub32, u32,
}
use mlonmcu_sw.Base.Partial.{Returns, returns, bind, mono}
use mlonmcu_sw.Drivers.Task.{Channel}
use mlonmcu_sw.Drivers.Uart.{Driver, copy_exec, max_size, set_task, event_of, handler, interrupts}
use mlonmcu_sw.Drivers.Uart.Fifo.{IsReady, IsReady-kept, put-next}
use mlonmcu_sw.Drivers.Uart.Handler.{transfer_end_more, copy_exec-IsReady, copy_exec-kept}
use mlonmcu_sw.Drivers.Uart.Transfers.{handler-event_of}

pub copy_exec_pending :
    (p x : ℕ) (d : Driver)
    → (d.tasks x).pending ≢ 0
    → (((copy_exec p x d).tasks x).pending ≢ 0)
      × (((copy_exec p x d).tasks x).done ≡ (d.tasks x).done)
unfolding copy_exec
copy_exec_pending p x d more = elim (Bool-cases (ltb max_size (d.tasks x).size)) [
  | inl long ↦ rw long ((λ e. ground (arith, long, e)), ground arith)
  | inr short ↦ rw short (more, refl)
]

-- A transfer that was found to be too long for one piece.
pub record Pending (p : ℕ) (c : Channel) (x : ℕ) (xs ys : List ℕ) (d d' : Driver) : Type 0 where
  pub ready : IsReady p c (x ∷ xs) ys d'
  pub table : d'.table ≡ d.table
  pub more : (d'.tasks x).pending ≢ 0
  pub done : (d'.tasks x).done ≡ (d.tasks x).done

pub pending_step :
    (device_id p : ℕ) (c : Channel) (x : ℕ) (xs ys : List ℕ) (d : Driver)
    → d.table device_id ≡ p
    → p ≢ 0
    → (d.tasks x).pending ≢ 0
    → IsReady p c (x ∷ xs) ys d
    → Returns (Pending p c x xs ys d) (handler (event_of device_id c) d)
pending_step device_id p c x xs ys d at live more r =
    let t = record (d.tasks x) {
      buf = u32 ((d.tasks x).buf + max_size);
      size = sub32 (d.tasks x).size max_size;
    } in
    let d1 = set_task x t d in
    let on : (d1.tasks x).pending ≢ 0 = ground (arith, more) in
    let same : (d1.tasks x).done ≡ (d.tasks x).done = ground arith in
    let (on', same') = copy_exec_pending p x d1 on in
    let (_, _, table) = copy_exec-kept p x d1 in
    rw
      (handler-event_of device_id p c d at live
        ∙ transfer_end_more p c d x r.mine.linked.1 r.mine.linked.0 more)
      (returns (record {
        ready =
            copy_exec-IsReady p x c d1 (x ∷ xs) ys
              (IsReady-kept p c (x ∷ xs) ys d d1 (λ z. put-next x t d.tasks z refl) refl r);
        table = table;
        more = on';
        done = same' ∙ same;
      }))

-- However many interrupts a channel gets, a transfer with a pending size stays at the head of its queue,
-- and its task is not done.
pub pending_forever :
    (n device_id p : ℕ) (c : Channel) (x : ℕ) (xs ys : List ℕ) (d : Driver)
    → d.table device_id ≡ p
    → p ≢ 0
    → (d.tasks x).pending ≢ 0
    → IsReady p c (x ∷ xs) ys d
    → Returns (Pending p c x xs ys d) (interrupts (replicate n (event_of device_id c)) d)
unfolding interrupts
pending_forever zero device_id p c x xs ys d at live more r =
    returns (record { ready = r; table = refl; more = more; done = refl })
pending_forever (suc n) device_id p c x xs ys d at live more r =
    bind (pending_step device_id p c x xs ys d at live more r) λ d1 s.
      mono
        (pending_forever n device_id p c x xs ys d1 (ap (λ (t : ℕ → ℕ). t device_id) s.table ∙ at)
          live s.more s.ready)
        (λ d' q. record {
          ready = q.ready;
          table = q.table ∙ s.table;
          more = q.more;
          done = q.done ∙ s.done;
        })

-- A transfer with data left over notes them as pending.
pub copy_exec_long :
    (p x : ℕ) (d : Driver)
    → max_size < (d.tasks x).size
    → (((copy_exec p x d).tasks x).pending ≢ 0)
      × (((copy_exec p x d).tasks x).done ≡ (d.tasks x).done)
unfolding copy_exec
copy_exec_long p x d long =
    let test : ltb max_size (d.tasks x).size ≡ true = ground (arith, long) in
    rw test ((λ e. ground (arith, long, e)), ground arith)
