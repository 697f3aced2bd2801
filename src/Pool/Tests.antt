-- ===== src/Pool/Tests.antt =====
-- A pool of one worker that runs one task and is destroyed.
use native.Mathlib.Decide.{ℕ_discrete}
use mathlib.Core.Quot
use mzntapp_cpp.Base.Count.{update}
use mzntapp_cpp.Base.{◌<◌, ◌≡◌, refl, arith, [], ◌∷◌, none, some, ◌⊎◌}
use mzntapp_cpp.Pool.{
  waiting, working, ended, Pool, new_pool, Step, adds, takes, runs, ends, closes, Reach, here, next,
}
use mzntapp_cpp.Pool.Ends.{Tasks, AllEnded, left_to_do, all_run, destructor_ends}

abbrev queued_pool : Pool
queued_pool = record new_pool { queue = some 7 ∷ none ∷ []; added = 7 ∷ []; closing = 1 }

abbrev taken : Pool
taken = record queued_pool { queue = none ∷ []; workers = update queued_pool.workers 0 (working 7) }

abbrev ran : Pool
ran = record taken { workers = update taken.workers 0 waiting; ran = 7 ∷ [] }

abbrev over : Pool
over = record ran { queue = []; workers = update ran.workers 0 ended }

queued_pool-Reach : Reach 1 queued_pool
queued_pool-Reach =
    next (next here (adds 7 refl (omega arith))) (closes (omega arith) (omega arith))

over-Reach : Reach 1 over
unfolding ℕ_discrete
over-Reach =
    let r1 = next queued_pool-Reach (takes 0 (omega arith) refl refl) in
    let r2 = next r1 (runs 0 (omega arith) refl) in next r2 (ends 0 (omega arith) refl refl)

over-AllEnded : AllEnded 1 over
over-AllEnded i l = ground arith

all_run_example : (over.queue ≡ []) × (◌≡◌ {A = Tasks} (Quot.mk (7 ∷ [])) (Quot.mk (7 ∷ [])))
all_run_example = all_run over-Reach (omega arith) over-AllEnded

destructor_ends_example :
    ((t : Pool) → Step 1 queued_pool t → left_to_do 1 t < left_to_do 1 queued_pool)
    × (AllEnded 1 queued_pool ⊎ ((t : Pool) × Step 1 queued_pool t))
destructor_ends_example = destructor_ends queued_pool-Reach (omega arith)
