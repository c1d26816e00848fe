-- ===== src/Pio/Fibers.antt =====
-- pio.ml, fibers that fork and yield: `run_fiber` and `scheduler` of one switch, while no fiber
-- waits for the network.
use pico_ocaml.Prelude.{
  ℕ, zero, suc, ◌+◌, ◌-◌, ◌≤◌, ◌<◌, ◌≡◌, refl, Option, none, some, List, [], ◌∷◌, ◌++◌, length,
  length-append, ltb, arith, if◌then◌else◌,
}

-- What is left of a fiber: `yield k` and `fork f k` go on with `k`; `stop` stands for a return
-- and an exception.
pub data Fiber : Type 0 where
  stop : Fiber
  yield : (k : Fiber) → Fiber
  fork : (f k : Fiber) → Fiber

-- `fibers` of the switch and the run queue, with the number of calls of `scheduler` by tasks that
-- have not come back, now and at the most.
pub record Switch : Type 0 where
  pub fibers : ℕ
  pub run_queue : List Fiber
  pub depth : ℕ
  pub deepest : ℕ

abbrev greater : ℕ → ℕ → ℕ
greater a b = if ltb a b then b else a

-- A fiber until its handler calls `scheduler`.
run_fiber : Fiber → Switch → Switch
run_fiber stop s = record s { fibers = s.fibers - 1 }
run_fiber (yield k) s = record s { run_queue = s.run_queue ++ k ∷ [] }
run_fiber (fork f k) s =
    run_fiber k (record s { fibers = s.fibers + 1; run_queue = s.run_queue ++ f ∷ [] })

abbrev enter : Switch → Switch
enter s = record s { depth = s.depth + 1; deepest = greater s.deepest (s.depth + 1) }

abbrev leave : Switch → Switch
leave s = record s { depth = s.depth - 1 }

-- `scheduler`: a task ends with a call of `scheduler`, which comes back before the task does.
-- `none` is a run that has not ended after `fuel` calls and rounds, one within the other.
pub scheduler : (fuel : ℕ) → Switch → Option Switch
unfolding run_fiber
scheduler zero s = none
scheduler (suc fuel) s = elim s.run_queue [
  | [] ↦ if ltb 0 s.fibers then scheduler fuel s else some s
  | task ∷ rest ↦ elim (scheduler fuel (enter (run_fiber task (record s { run_queue = rest })))) [
    | none ↦ none
    | some s' ↦ scheduler fuel (leave s')
  ]
]

-- How many tasks a fiber makes, and those in a queue.
pub tasks_of : Fiber → ℕ
tasks_of stop = 1
tasks_of (yield k) = 1 + tasks_of k
tasks_of (fork f k) = tasks_of f + tasks_of k

unfoldable pub tasks_in : List Fiber → ℕ
unfolding tasks_of
tasks_in [] = 0
tasks_in (f ∷ fs) = tasks_of f + tasks_in fs

tasks_in-append : (fs gs : List Fiber) → tasks_in (fs ++ gs) ≡ tasks_in fs + tasks_in gs
unfolding tasks_in
tasks_in-append [] gs = omega arith
tasks_in-append (f ∷ fs) gs = omega (arith, tasks_in-append fs gs)

tasks_of_pos : (f : Fiber) → 0 < tasks_of f
unfolding tasks_of
tasks_of_pos stop = omega arith
tasks_of_pos (yield k) = omega arith
tasks_of_pos (fork f k) = omega (arith, tasks_of_pos f)

-- A fiber that runs, counted, leaves a task less and every fiber that has not ended in the queue.
record Ran (f : Fiber) (s s' : Switch) : Type 0 where
  counted : s'.fibers ≡ length s'.run_queue
  tasks : tasks_in s'.run_queue + 1 ≡ tasks_of f + tasks_in s.run_queue
  depth : s'.depth ≡ s.depth
  deepest : s'.deepest ≡ s.deepest

run_fiber-Ran :
    (f : Fiber) (s : Switch) → s.fibers ≡ length s.run_queue + 1 → Ran f s (run_fiber f s)
unfolding run_fiber tasks_of tasks_in
run_fiber-Ran stop s c = record {
  counted = omega (arith, c);
  tasks = omega arith;
  depth = refl;
  deepest = refl;
}
run_fiber-Ran (yield k) s c = record {
  counted = omega (arith, c, length-append s.run_queue (k ∷ []));
  tasks = omega (arith, tasks_in-append s.run_queue (k ∷ []));
  depth = refl;
  deepest = refl;
}
run_fiber-Ran (fork f k) s c =
    let r =
      run_fiber-Ran k (record s { fibers = s.fibers + 1; run_queue = s.run_queue ++ f ∷ [] })
        (omega (arith, c, length-append s.run_queue (f ∷ []))) in
    record {
      counted = r.counted;
      tasks = omega (arith, r.tasks, tasks_in-append s.run_queue (f ∷ []));
      depth = r.depth;
      deepest = r.deepest;
    }

-- The switch when all its fibers have ended.
abbrev pub all_ended : Switch → Switch
all_ended s = record s {
  fibers = 0;
  run_queue = [];
  deepest = greater s.deepest (s.depth + tasks_in s.run_queue);
}

nests :
    (fuel fibers : ℕ) (queue : List Fiber) (depth deepest : ℕ)
    → fibers ≡ length queue
    → depth ≤ deepest
    → tasks_in queue < fuel
    → let s : Switch = record {
      fibers = fibers;
      run_queue = queue;
      depth = depth;
      deepest = deepest;
    } in
      scheduler fuel s ≡ some (all_ended s)
unfolding scheduler tasks_in
nests zero fibers queue depth deepest c d enough = absurd (omega arith)
nests (suc fuel) fibers [] depth deepest c d enough = ground (arith, c, d)
nests (suc fuel) fibers (task ∷ rest) depth deepest c d enough =
    let s : Switch = record {
      fibers = fibers;
      run_queue = rest;
      depth = depth;
      deepest = deepest;
    } in
    let r = run_fiber-Ran task s (omega (arith, c)) in
    let s1 = enter (run_fiber task s) in
    let inner =
      nests fuel s1.fibers s1.run_queue s1.depth s1.deepest r.counted
        (ground (arith, r.depth, r.deepest)) (omega (arith, r.tasks, enough)) in
    let s2 = leave (all_ended s1) in
    let outer =
      nests fuel s2.fibers s2.run_queue s2.depth s2.deepest refl
        (ground (arith, r.depth, r.deepest, d)) (omega (arith, enough, tasks_of_pos task)) in
    ground (arith, inner, outer, r.depth, r.deepest, r.tasks, d, tasks_of_pos task)

-- Every fiber of the switch is in the run queue, none waits for the network. With fuel for more
-- than the tasks, which are one for each fiber, those to be forked included, and one for each
-- time that one yields, `scheduler` comes back with all fibers ended; and meanwhile as many calls
-- of it by tasks lay within each other as there are tasks.
pub scheduler_nests :
    (fuel : ℕ) (s : Switch)
    → s.fibers ≡ length s.run_queue
    → s.depth ≤ s.deepest
    → tasks_in s.run_queue < fuel
    → scheduler fuel s ≡ some (all_ended s)
scheduler_nests fuel s c d enough = nests fuel s.fibers s.run_queue s.depth s.deepest c d enough
