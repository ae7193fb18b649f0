-- ===== src/Drivers/Task.antt =====
-- pmsis_types.h and pmsis_task.c: the tasks that drivers queue and end. Pointers are numbers, NULL is 0.
pub mod Queue
use mlonmcu_sw.Base.{ℕ, ◌+◌, ◌==◌, if◌then◌else◌, Bool, true, false}

pub data Channel : Type 0 where
  rx tx : Channel

abbrev pub same : Channel → Channel → Bool
same rx rx = true
same tx tx = true
same _ _ = false

-- `PI_TASK_NONE_ID`, `PI_TASK_CALLBACK_ID` and any other value of the field.
pub data TaskId : Type 0 where
  none_id callback_id other_id : TaskId

-- The fields of `pi_task_t` that the drivers use. `buf`, `size`, `channel` and `pending` are the entries of
-- `data`, `func` and `arg` those of `arg`, and `given` counts the calls of `pi_sem_give` on the task's
-- semaphore, `sem_object`. `core_id` is set and never read.
pub record Task : Type 0 where
  pub id : TaskId
  pub func : ℕ
  pub arg : ℕ
  pub buf : ℕ
  pub size : ℕ
  pub channel : Channel
  pub pending : ℕ
  pub next : ℕ
  pub done : ℕ
  pub destroy : ℕ
  pub sem_object : ℕ
  pub given : ℕ

-- The tasks in the memory.
abbrev pub Tasks : Type 0
Tasks = ℕ → Task

abbrev pub put_task : ℕ → Task → Tasks → Tasks
put_task p t tasks = λ x. if x == p then t else tasks x

-- `pi_task_release`.
unfoldable pub pi_task_release : ℕ → Tasks → Tasks
pi_task_release p tasks =
    let t = tasks p in
    let given = if t.sem_object == 0 then t.given else t.given + 1 in
    put_task p (record t { given = given; done = 1 }) tasks

-- `__pi_task_push`: the body of `pi_task_push_delayed_us` is not implemented, and nothing happens.
unfoldable pub pi_task_push : ℕ → Tasks → Tasks
pi_task_push p tasks = tasks

-- `__pi_task_block`, with the semaphore that `pi_sem_init` gives.
unfoldable pub pi_task_block : (p sem_object : ℕ) → Tasks → Tasks
pi_task_block p sem_object tasks =
    put_task p
      (record (tasks p) { id = none_id; done = 0; sem_object = sem_object; given = 0; destroy = 1 })
      tasks

-- `__pi_task_callback`.
unfoldable pub pi_task_callback : (p func arg : ℕ) → Tasks → Tasks
pi_task_callback p func arg tasks =
    put_task p
      (record (tasks p) {
        id = callback_id;
        func = func;
        arg = arg;
        done = 0;
        sem_object = 0;
        destroy = 0;
      })
      tasks

-- `__pi_task_destroy`.
unfoldable pub pi_task_destroy : ℕ → Tasks → Tasks
pi_task_destroy p tasks =
    let t = tasks p in
    if t.destroy == 0 then tasks else put_task p (record t { destroy = 0; sem_object = 0 }) tasks

-- What `pi_task_t task_block = {0}` makes.
abbrev pub zero_task : Task
zero_task = record {
  id = none_id;
  func = 0;
  arg = 0;
  buf = 0;
  size = 0;
  channel = rx;
  pending = 0;
  next = 0;
  done = 0;
  destroy = 0;
  sem_object = 0;
  given = 0;
}
