-- ===== src/Pool/Thread.antt =====
-- src/ThreadPool.h: ThreadInstance, and the calls that ThreadPool makes of its threads and its queue.
use mzntapp_cpp.Base.{
  ℕ, zero, suc, ◌≡◌, refl, ap, ap₂, ◌∙◌, true, ◌==◌, if◌then◌else◌, List, [], ◌∷◌,
}
use mzntapp_cpp.Io.{
  Io, Env, Log, Returns, Returns-bind, Returns-mono, pure, exit, fault, ask, tell, ◌>>=◌, ◌>>◌,
}

pub data State : Type 0 where
  state_none : State
  state_joined : State
  state_started : State

pub data ThreadCall : Type 0 where
  -- `pthread_create`: 0 for a thread that runs
  creates : ThreadCall
  -- `pthread_join`
  joins : ThreadCall
  -- `m_taskQueue.push(NULL)`
  pushes_null : ThreadCall

abbrev pub new_thread : State
new_thread = state_none

-- ThreadInstance::Start: a failure leaves the state as it is.
unfoldable pub start_thread : State → Io ThreadCall State
start_thread s = ask creates >>= λ result. if result == 0 then pure state_started else pure s

-- ThreadInstance::Join. Where no thread was created the handle is 0, which `pthread_join` must not be
-- given. The code never joins twice.
abbrev pub join_thread : State → Io ThreadCall State
join_thread state_none = fault
join_thread state_started = tell joins >> pure state_joined
join_thread state_joined = fault

-- ~ThreadInstance: `assert(m_state == state_joined)`, which aborts the program.
abbrev pub delete_thread : State → Io ThreadCall (Unit {0})
delete_thread state_joined = pure tt
delete_thread state_none = exit
delete_thread state_started = exit

-- The loop of the constructor of ThreadPool.
unfoldable pub start_all : ℕ → Io ThreadCall (List State)
start_all zero = pure []
start_all (suc n) = do s ← start_thread new_thread; more ← start_all n; pure (s ∷ more)

-- The loops of ~ThreadPool.
unfoldable pub push_nulls : List State → Io ThreadCall (Unit {0})
push_nulls [] = pure tt
push_nulls (s ∷ ss) = tell pushes_null >> push_nulls ss

unfoldable pub join_all : List State → Io ThreadCall (Unit {0})
join_all [] = pure tt
join_all (s ∷ ss) = join_thread s >>= λ s'. delete_thread s' >> join_all ss

unfoldable pub delete_pool : List State → Io ThreadCall (Unit {0})
delete_pool ss = push_nulls ss >> join_all ss

-- The calls of a log, the newest first, and `n` calls of a kind before others.
abbrev pub calls_of : Log ThreadCall → List ThreadCall
calls_of [] = []
calls_of ((c, _) ∷ l) = c ∷ calls_of l

abbrev pub many : ℕ → ThreadCall → List ThreadCall → List ThreadCall
many zero c cs = cs
many (suc n) c cs = many n c (c ∷ cs)

-- The threads can be created.
abbrev pub IsCreating : Env ThreadCall → Type 0
IsCreating env = (log : Log ThreadCall) → env log creates ≡ 0

abbrev all_started : ℕ → List State
all_started zero = []
all_started (suc n) = state_started ∷ all_started n

module _ (env : Env ThreadCall) where
  start_thread-Returns :
      (log : Log ThreadCall)
      → IsCreating env
      → Returns
          (start_thread new_thread env log)
          (λ s l. (s ≡ state_started) × (calls_of l ≡ creates ∷ calls_of log))
  unfolding start_thread
  start_thread-Returns log h =
      let is_created : (env log creates == 0) ≡ true = ap (λ n. n == 0) (h log) in
      rw is_created (refl, refl)

  start_all-Returns :
      (n : ℕ) (log : Log ThreadCall)
      → IsCreating env
      → Returns
          (start_all n env log)
          (λ ss l. (ss ≡ all_started n) × (calls_of l ≡ many n creates (calls_of log)))
  unfolding start_all
  start_all-Returns zero log h = (refl, refl)
  start_all-Returns (suc n) log h =
      Returns-bind (λ s l. (s ≡ state_started) × (calls_of l ≡ creates ∷ calls_of log))
        (λ ss l. (ss ≡ all_started (suc n)) × (calls_of l ≡ many (suc n) creates (calls_of log)))
        (start_thread new_thread) (λ s. start_all n >>= λ more. pure (s ∷ more)) env log
        (start_thread-Returns log h)
        (λ s l (e, first).
          Returns-bind (λ ss l'. (ss ≡ all_started n) × (calls_of l' ≡ many n creates (calls_of l)))
            (λ ss l'.
              (ss ≡ all_started (suc n)) × (calls_of l' ≡ many (suc n) creates (calls_of log)))
            (start_all n) (λ more. pure (s ∷ more)) env l (start_all-Returns n l h)
            (λ more l' (e', rest). (ap₂ (λ x xs. x ∷ xs) e e', rest ∙ ap (many n creates) first)))

  push_nulls-Returns :
      (n : ℕ) (log : Log ThreadCall)
      → Returns
          (push_nulls (all_started n) env log)
          (λ _ l. calls_of l ≡ many n pushes_null (calls_of log))
  unfolding push_nulls
  push_nulls-Returns zero log = refl
  push_nulls-Returns (suc n) log = push_nulls-Returns n ((pushes_null, env log pushes_null) ∷ log)

  join_all-Returns :
      (n : ℕ) (log : Log ThreadCall)
      → Returns (join_all (all_started n) env log) (λ _ l. calls_of l ≡ many n joins (calls_of log))
  unfolding join_all
  join_all-Returns zero log = refl
  join_all-Returns (suc n) log = join_all-Returns n ((joins, env log joins) ∷ log)

  -- A pool of `n` threads that can be created comes to its end with no assertion broken: each thread is
  -- created, a null pointer is pushed for each, and each is joined, in this order.
  pub delete_pool-Returns :
      (n : ℕ)
      → IsCreating env
      → Returns
          ((start_all n >>= delete_pool) env [])
          (λ _ l. calls_of l ≡ many n joins (many n pushes_null (many n creates [])))
  unfolding delete_pool
  delete_pool-Returns n h =
      Returns-bind (λ ss l. (ss ≡ all_started n) × (calls_of l ≡ many n creates [])) _ (start_all n)
        delete_pool env [] (start_all-Returns n [] h)
        (λ ss l (e, created). rw e (
          Returns-bind (λ _ l'. calls_of l' ≡ many n pushes_null (many n creates [])) _
            (push_nulls (all_started n)) (λ _. join_all (all_started n)) env l
            (Returns-mono _ _ (push_nulls (all_started n) env l)
              (λ _ l' pushed. pushed ∙ ap (many n pushes_null) created) (push_nulls-Returns n l))
            (λ _ l' pushed.
              Returns-mono _ _ (join_all (all_started n) env l')
                (λ _ l'' joined. joined ∙ ap (many n joins) pushed) (join_all-Returns n l'))))
