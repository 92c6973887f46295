-- ===== src/Crawler/Scheduler.antt =====
-- scheduler.go: the lifecycle of the scheduler. Its critical sections, its goroutines' beginnings and
-- ends and the cancellation of its context are the steps, in any order that the mutex and the wait
-- group allow.
use beckn_onix.Base.{
  ℕ, zero, suc, ◌-◌, ◌≤◌, Bool, true, false, if◌then◌else◌, ◌≡◌, ◌≢◌, refl, sym, ap, subst, ◌∙◌,
  arith,
}

-- the intervals in seconds; 0 or less is `0`
pub record SchedulerConfig : Type 0 where
  pub index_interval : ℕ
  pub catalog_interval : ℕ
  pub park_sweep_interval : ℕ
  pub park_older_than : ℕ

abbrev or_default : ℕ → ℕ → ℕ
or_default zero fallback = fallback
or_default (suc n) fallback = suc n

-- `indexInterval`, `catalogInterval` and `parkSweepInterval`
unfoldable pub index_interval : SchedulerConfig → ℕ
index_interval c = or_default c.index_interval 300

unfoldable pub catalog_interval : SchedulerConfig → ℕ
catalog_interval c = or_default c.catalog_interval 30

unfoldable pub park_sweep_interval : SchedulerConfig → ℕ
park_sweep_interval c = or_default c.park_sweep_interval 900

-- the field `ctx`, with the state of its context
pub data Context : Type 0 where
  unset live cancelled : Context

-- What the calls of the scheduler share: the context, whether `Stop` holds the mutex, the goroutines of
-- `loop` and of `RunOnce` that the wait group counts, and the loops that `Start` has still to launch.
pub record Scheduler : Type 0 where
  pub ctx : Context
  pub is_stopping : Bool
  pub loops : ℕ
  pub tasks : ℕ
  pub starting : ℕ

-- `NewScheduler`
unfoldable pub new_scheduler : Scheduler
new_scheduler = record { ctx = unset; is_stopping = false; loops = 0; tasks = 0; starting = 0 }

-- the critical section of `Start`, after which it launches three loops
unfoldable pub start : Scheduler → Scheduler
start s = record s { ctx = live; starting = 3 }

-- `loop`, up to its `go` statement
unfoldable pub launch : Scheduler → Scheduler
launch s = record s { loops = suc s.loops; starting = s.starting - 1 }

unfoldable pub is_live : Context → Bool
is_live unset = false
is_live live = true
is_live cancelled = false

-- `RunOnce`: its answer, and the task that it counts
unfoldable pub run_once : Scheduler → Bool × Scheduler
run_once s = if is_live s.ctx then (true, record s { tasks = suc s.tasks }) else (false, s)

-- `s.cancel()`, if there is a context
unfoldable pub cancel : Context → Context
cancel unset = unset
cancel live = cancelled
cancel cancelled = cancelled

-- `Stop`, up to its `Wait`
unfoldable pub stop_begin : Scheduler → Scheduler
stop_begin s = record s { ctx = cancel s.ctx; is_stopping = true }

-- The `Wait` of `Stop` returns when the counter is zero.
unfoldable pub stop_end : Scheduler → Scheduler
stop_end s = record s { is_stopping = false }

-- One step. A scheduler is started once; a critical section waits for the mutex; the body of a loop
-- ends after the context is cancelled, that of a task at any time.
pub data Step (s : Scheduler) : Scheduler → Type 0 where
  started : s.is_stopping ≡ false → s.ctx ≡ unset → Step s (start s)
  launched : 1 ≤ s.starting → Step s (launch s)
  asked : s.is_stopping ≡ false → Step s (run_once s).1
  task_ended : {n : ℕ} → s.tasks ≡ suc n → Step s (record s { tasks = n })
  loop_ended : {n : ℕ} → s.loops ≡ suc n → s.ctx ≡ cancelled → Step s (record s { loops = n })
  parent_cancelled : Step s (record s { ctx = cancel s.ctx })
  stopping : s.is_stopping ≡ false → Step s (stop_begin s)
  stopped : s.is_stopping ≡ true → s.loops ≡ 0 → s.tasks ≡ 0 → Step s (stop_end s)

-- Any number of steps, one after the other.
pub data Run (s : Scheduler) : Scheduler → Type 0 where
  here : Run s s
  after : {mid last : Scheduler} → Run s mid → Step mid last → Run s last

-- The context is cancelled for good: no loop is about to be launched.
record IsEnding (s : Scheduler) : Type 0 where
  ctx_done : s.ctx ≡ cancelled
  all_launched : s.starting ≡ 0

refused : (s : Scheduler) → s.ctx ≡ cancelled → run_once s ≡ (false, s)
unfolding run_once is_live
refused s e =
    ap (λ (c : Context). if is_live c then (true, record s { tasks = suc s.tasks }) else (false, s))
      e

Step-IsEnding : (s t : Scheduler) → Step s t → IsEnding s → IsEnding t
unfolding start launch cancel stop_begin stop_end
Step-IsEnding s t (started free unset_ctx) i =
    let differs : unset ≡ cancelled = sym unset_ctx ∙ i.ctx_done in cc
Step-IsEnding s t (launched some) i = absurd (none_left i.all_launched some)
  where
    none_left : {n : ℕ} → n ≡ 0 → 1 ≤ n → ⊥
    none_left e h = omega arith
Step-IsEnding s t (asked free) i =
    subst IsEnding (sym (ap (λ (p : Bool × Scheduler). p.1) (refused s i.ctx_done))) i
Step-IsEnding s t (task_ended {n} some) i = record {
  ctx_done = i.ctx_done;
  all_launched = i.all_launched;
}
Step-IsEnding s t (loop_ended {n} some done) i = record {
  ctx_done = i.ctx_done;
  all_launched = i.all_launched;
}
Step-IsEnding s t parent_cancelled i = record {
  ctx_done = ap cancel i.ctx_done;
  all_launched = i.all_launched;
}
Step-IsEnding s t (stopping free) i = record {
  ctx_done = ap cancel i.ctx_done;
  all_launched = i.all_launched;
}
Step-IsEnding s t (stopped held no_loops no_tasks) i = record {
  ctx_done = i.ctx_done;
  all_launched = i.all_launched;
}

Run-IsEnding : (s t : Scheduler) → Run s t → IsEnding s → IsEnding t
Run-IsEnding s t here i = i
Run-IsEnding s t (after {mid} r st) i = Step-IsEnding mid t st (Run-IsEnding s mid r i)

-- Nothing runs, and nothing will.
record IsQuiet (s : Scheduler) : Type 0 where
  ending : IsEnding s
  no_loops : s.loops ≡ 0
  no_tasks : s.tasks ≡ 0

Step-IsQuiet : (s t : Scheduler) → Step s t → IsQuiet s → IsQuiet t
unfolding start launch cancel stop_begin stop_end
Step-IsQuiet s t (started free unset_ctx) q =
    let differs : unset ≡ cancelled = sym unset_ctx ∙ q.ending.ctx_done in cc
Step-IsQuiet s t (launched some) q = absurd (none_left q.ending.all_launched some)
  where
    none_left : {n : ℕ} → n ≡ 0 → 1 ≤ n → ⊥
    none_left e h = omega arith
Step-IsQuiet s t (asked free) q =
    subst IsQuiet (sym (ap (λ (p : Bool × Scheduler). p.1) (refused s q.ending.ctx_done))) q
Step-IsQuiet s t (task_ended {n} some) q = absurd (no_more (sym q.no_tasks ∙ some))
  where
    no_more : {n : ℕ} → 0 ≡ suc n → ⊥
    no_more e = omega arith
Step-IsQuiet s t (loop_ended {n} some done) q = absurd (no_more (sym q.no_loops ∙ some))
  where
    no_more : {n : ℕ} → 0 ≡ suc n → ⊥
    no_more e = omega arith
Step-IsQuiet s t parent_cancelled q = record {
  ending = Step-IsEnding s t parent_cancelled q.ending;
  no_loops = q.no_loops;
  no_tasks = q.no_tasks;
}
Step-IsQuiet s t (stopping free) q = record {
  ending = Step-IsEnding s t (stopping free) q.ending;
  no_loops = q.no_loops;
  no_tasks = q.no_tasks;
}
Step-IsQuiet s t (stopped held no_loops no_tasks) q = record {
  ending = Step-IsEnding s t (stopped held no_loops no_tasks) q.ending;
  no_loops = q.no_loops;
  no_tasks = q.no_tasks;
}

Run-IsQuiet : (s t : Scheduler) → Run s t → IsQuiet s → IsQuiet t
Run-IsQuiet s t here q = q
Run-IsQuiet s t (after {mid} r st) q = Step-IsQuiet mid t st (Run-IsQuiet s mid r q)

cancel_set : (c : Context) → c ≢ unset → cancel c ≡ cancelled
unfolding cancel
cancel_set unset h = absurd (h refl)
cancel_set live h = refl
cancel_set cancelled h = refl

stop_begin-IsEnding : (s : Scheduler) → s.ctx ≢ unset → s.starting ≡ 0 → IsEnding (stop_begin s)
unfolding stop_begin
stop_begin-IsEnding s h e = record { ctx_done = cancel_set s.ctx h; all_launched = e }

-- In a scheduler that is started once: if `Stop` begins after `Start` has returned, whatever other calls run meanwhile, and its wait ends,
-- then from the moment that it returns no loop and no task of `RunOnce` runs, and every later
-- `RunOnce` answers false and launches nothing.
pub stop-IsQuiet :
    (s t u : Scheduler)
    → s.ctx ≢ unset
    → s.starting ≡ 0
    → Run (stop_begin s) t
    → t.loops ≡ 0
    → t.tasks ≡ 0
    → Run (stop_end t) u
    → (u.loops ≡ 0) × (u.tasks ≡ 0) × (run_once u ≡ (false, u))
unfolding stop_end
stop-IsQuiet s t u set launched_all waiting no_loops no_tasks later =
    let i = Run-IsEnding (stop_begin s) t waiting (stop_begin-IsEnding s set launched_all) in
    let q = Run-IsQuiet (stop_end t) u later (record {
      ending = record { ctx_done = i.ctx_done; all_launched = i.all_launched };
      no_loops = no_loops;
      no_tasks = no_tasks;
    }) in
    (q.no_loops, q.no_tasks, refused u q.ending.ctx_done)
