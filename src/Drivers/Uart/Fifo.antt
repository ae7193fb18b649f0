-- ===== src/Drivers/Uart/Fifo.antt =====
-- drivers/uart.c: the two queues of a device, one for each channel.
use mlonmcu_sw.Base.{
  ℕ, ◌≡◌, ◌≢◌, refl, arith, List, [], ◌∷◌, ◌++◌, All, ◌==◌, false, sym, subst, ◌∙◌, if◌then◌else◌,
}
use mlonmcu_sw.Drivers.Task.{Channel, rx, tx, Tasks, Task, put_task}
use mlonmcu_sw.Drivers.Task.Queue.{Queued, last_of, Queued-append, Queued-put_other, Queued-same}
use mlonmcu_sw.Drivers.Uart.{Driver, task_fifo_enqueue, set_head, set_tail, set_task, task_fifo_pop}

abbrev pub opposite : Channel → Channel
opposite rx = tx
opposite tx = rx

-- The queue of a channel and that of the opposite one, with no task in common.
pub record IsReady (p : ℕ) (c : Channel) (xs ys : List ℕ) (d : Driver) : Type 0 where
  pub mine : Queued d.tasks ((d.itf p).head c) ((d.itf p).tail c) xs
  pub theirs : Queued d.tasks ((d.itf p).head (opposite c)) ((d.itf p).tail (opposite c)) ys
  pub apart : All (λ x. All (λ y. x ≢ y) ys) xs

pub All-last : (P : ℕ → Type 0) (x : ℕ) (xs : List ℕ) → All P (x ∷ xs) → P (last_of (x ∷ xs))
All-last P x [] h = h.0
All-last P x (y ∷ xs) h = All-last P y xs h.1

pub All-snoc : (P : ℕ → Type 0) (xs : List ℕ) (x : ℕ) → All P xs → P x → All P (xs ++ x ∷ [])
All-snoc P [] x h k = (k, tt)
All-snoc P (y ∷ xs) x h k = (h.0, All-snoc P xs x h.1 k)

-- What a driver's tasks and the ends of its queues are makes its queues.
pub IsReady-of_ends :
    (p : ℕ) (c : Channel) (xs ys : List ℕ) (d : Driver) (m : Tasks) (h t h' t' : ℕ)
    → d.tasks ≡ m
    → ((d.itf p).head c ≡ h) × ((d.itf p).tail c ≡ t)
    → ((d.itf p).head (opposite c) ≡ h') × ((d.itf p).tail (opposite c) ≡ t')
    → Queued m h t xs
    → Queued m h' t' ys
    → All (λ x. All (λ y. x ≢ y) ys) xs
    → IsReady p c xs ys d
IsReady-of_ends p c xs ys d m h t h' t' em (eh, et) (eh', et') q q' apart = record {
  mine = rw (em, eh, et) q;
  theirs = rw (em, eh', et') q';
  apart = apart;
}

module _ (p task : ℕ) (d : Driver) where
  pub enqueue_empty :
      (c : Channel)
      → (d.itf p).head c ≡ 0
      → (task_fifo_enqueue p task c d).1 ≡ set_tail p c task (set_head p c task d)
  unfolding task_fifo_enqueue
  enqueue_empty c e = rw e refl

  enqueue_busy :
      (c : Channel)
      → (d.itf p).head c ≢ 0
      → (task_fifo_enqueue p task c d).1
        ≡ set_tail p c task
            (set_task ((d.itf p).tail c) (record (d.tasks ((d.itf p).tail c)) { next = task }) d)
  unfolding task_fifo_enqueue
  enqueue_busy c e = let busy : ((d.itf p).head c == 0) ≡ false = ground (arith, e) in rw busy refl

module _ (p : ℕ) (d : Driver) where
  tail_ends :
      (c : Channel) (v : ℕ)
      → (((set_tail p c v d).itf p).head c ≡ (d.itf p).head c)
        × (((set_tail p c v d).itf p).tail c ≡ v)
        × (((set_tail p c v d).itf p).head (opposite c) ≡ (d.itf p).head (opposite c))
        × (((set_tail p c v d).itf p).tail (opposite c) ≡ (d.itf p).tail (opposite c))
  tail_ends rx v = (ground arith, ground arith, ground arith, ground arith)
  tail_ends tx v = (ground arith, ground arith, ground arith, ground arith)

  head_ends :
      (c : Channel) (v : ℕ)
      → (((set_head p c v d).itf p).head c ≡ v)
        × (((set_head p c v d).itf p).tail c ≡ (d.itf p).tail c)
        × (((set_head p c v d).itf p).head (opposite c) ≡ (d.itf p).head (opposite c))
        × (((set_head p c v d).itf p).tail (opposite c) ≡ (d.itf p).tail (opposite c))
  head_ends rx v = (ground arith, ground arith, ground arith, ground arith)
  head_ends tx v = (ground arith, ground arith, ground arith, ground arith)

-- Heads and tails together.
module _ (p : ℕ) (d : Driver) (c : Channel) (h t : ℕ) where
  pub both_ends :
      (((set_tail p c t (set_head p c h d)).itf p).head c ≡ h)
      × (((set_tail p c t (set_head p c h d)).itf p).tail c ≡ t)
  both_ends =
      let (a, b, _, _) = tail_ends p (set_head p c h d) c t in (a ∙ (head_ends p d c h).0, b)

  pub both_theirs :
      (((set_tail p c t (set_head p c h d)).itf p).head (opposite c) ≡ (d.itf p).head (opposite c))
      × (((set_tail p c t (set_head p c h d)).itf p).tail (opposite c)
          ≡ (d.itf p).tail (opposite c))
  both_theirs =
      let (_, _, a, b) = tail_ends p (set_head p c h d) c t in
      let (_, _, a', b') = head_ends p d c h in (a ∙ a', b ∙ b')

-- A task that is in neither queue goes to the end of one.
module _ (p task : ℕ) (c : Channel) (d : Driver) (live : task ≢ 0)
    (open_end : (d.tasks task).next ≡ 0) where
  pub enqueue-IsReady :
      (xs ys : List ℕ)
      → IsReady p c xs ys d
      → All (λ x. task ≢ x) xs
      → All (λ y. task ≢ y) ys
      → IsReady p c (xs ++ task ∷ []) ys (task_fifo_enqueue p task c d).1
  enqueue-IsReady [] ys r fresh other = rw (enqueue_empty p task d c r.mine.linked) (
      IsReady-of_ends p c _ ys _ d.tasks task task _ _ refl (both_ends p d c task task)
        (both_theirs p d c task task)
        (record { linked = (refl, live, open_end); at_end = refl; distinct = (tt, tt) }) r.theirs
        (other, tt))
  enqueue-IsReady (x ∷ xs) ys r fresh other =
      let last = (d.itf p).tail c in
      let linked = record (d.tasks last) { next = task } in
      let d1 = set_task last linked d in
      let out : All (λ y. last ≢ y) ys =
        subst (λ u. All (λ y. u ≢ y) ys) (sym r.mine.at_end)
          (All-last (λ u. All (λ y. u ≢ y) ys) x xs r.apart) in
      let (h, t, h', t') = tail_ends p d1 c task in
      rw (enqueue_busy p task d c (λ e. r.mine.linked.1 (sym r.mine.linked.0 ∙ e))) (
        IsReady-of_ends p c _ ys _ d1.tasks _ task _ _ refl (h, t) (h', t')
          (Queued-append d.tasks task linked _ _ x xs r.mine live open_end refl fresh)
          (Queued-put_other d.tasks last linked _ _ ys out r.theirs)
          (All-snoc _ (x ∷ xs) task r.apart other))

-- The first task leaves its queue.
module _ (p : ℕ) (c : Channel) (d : Driver) where
  pop_lem :
      (d.itf p).head c ≢ 0
      → task_fifo_pop p c d ≡ (
        (d.itf p).head c,
        (if (d.tasks ((d.itf p).head c)).next == 0
            then set_tail p c 0 (set_head p c (d.tasks ((d.itf p).head c)).next d)
            else set_head p c (d.tasks ((d.itf p).head c)).next d),
      )
  unfolding task_fifo_pop
  pop_lem live =
      let some_task : ((d.itf p).head c == 0) ≡ false = ground (arith, live) in rw some_task refl

  pub pop-IsReady :
      (x : ℕ) (xs ys : List ℕ)
      → IsReady p c (x ∷ xs) ys d
      → ((task_fifo_pop p c d).0 ≡ x)
        × ((task_fifo_pop p c d).1.tasks ≡ d.tasks)
        × IsReady p c xs ys (task_fifo_pop p c d).1
  pop-IsReady x [] ys r =
      let first = r.mine.linked.0 in
      let last : (d.tasks ((d.itf p).head c)).next ≡ 0 = rw first r.mine.linked.2 in
      rw (pop_lem (λ e. r.mine.linked.1 (sym first ∙ e)), last)
        (
          first,
          refl,
          IsReady-of_ends p c [] ys _ d.tasks 0 0 _ _ refl (both_ends p d c 0 0)
              (both_theirs p d c 0 0) (record { linked = refl; at_end = refl; distinct = tt })
              r.theirs tt,
        )
  pop-IsReady x (y ∷ xs) ys r =
      let first = r.mine.linked.0 in
      let next : (d.tasks ((d.itf p).head c)).next ≡ y = rw first r.mine.linked.2.0 in
      let more : (y == 0) ≡ false = ground (arith, r.mine.linked.2.1) in
      let (h, t, h', t') = head_ends p d c y in
      rw (pop_lem (λ e. r.mine.linked.1 (sym first ∙ e)), next, more)
        (
          first,
          refl,
          IsReady-of_ends p c (y ∷ xs) ys _ d.tasks y _ _ _ refl (h, t) (h', t')
              (record {
                linked = (refl, r.mine.linked.2.1, r.mine.linked.2.2);
                at_end = r.mine.at_end;
                distinct = r.mine.distinct.1;
              })
              r.theirs r.apart.1,
        )

  pub pop_none : (ys : List ℕ) → IsReady p c [] ys d → task_fifo_pop p c d ≡ (0, d)
  unfolding task_fifo_pop
  pop_none ys r = rw r.mine.linked refl

-- Changes that keep the links and the interface data.
pub IsReady-kept :
    (p : ℕ) (c : Channel) (xs ys : List ℕ) (d d' : Driver)
    → ((x : ℕ) → (d'.tasks x).next ≡ (d.tasks x).next)
    → d'.itf p ≡ d.itf p
    → IsReady p c xs ys d
    → IsReady p c xs ys d'
IsReady-kept p c xs ys d d' same e r = record {
  mine = rw e (Queued-same d.tasks d'.tasks _ _ xs same r.mine);
  theirs = rw e (Queued-same d.tasks d'.tasks _ _ ys same r.theirs);
  apart = r.apart;
}

pub put-next :
    (task : ℕ) (t : Task) (m : Tasks) (x : ℕ)
    → t.next ≡ (m task).next
    → (put_task task t m x).next ≡ (m x).next
put-next task t m x e = ground (arith, e)
