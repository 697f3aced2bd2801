-- ===== src/Mqtt/Life.antt =====
-- The connection from Start to the destructor.
use mzntapp_cpp.Base.{ℕ, ◌≡◌, Bool, not, ◌&&◌, arith, ◌==◌, if◌then◌else◌, [], ◌∷◌, map, Text}
use mzntapp_cpp.Io.{Io, Env, Log, Returns, pure, ◌>>=◌}
use mzntapp_cpp.Mqtt.{
  Call, creates, sets_callbacks, connects, disconnects, destroys, new_controller, connect, start,
  close,
}

-- Start on a new controller and then its destructor.
abbrev start_close : Text → Text → Text → Text → Io Call Bool
start_close host client user passwd =
    start host client user passwd new_controller >>= λ r. close r.1 >>= λ _. pure r.0

-- The calls, the newest first: each is made only after the ones before it succeeded, Start returns
-- true when all three did, and the destructor disconnects in just that case.
start_close_lem :
    (host client user passwd : Text) (env : Env Call)
    → let created = env [] (creates host client) in
      let l1 : Log Call = (creates host client, created) ∷ [] in
      let set = env l1 sets_callbacks in
      let l2 : Log Call = (sets_callbacks, set) ∷ l1 in
      let opened = env l2 (connects user passwd 20 1) in
      Returns (start_close host client user passwd env []) λ ok l.
        (ok ≡ ((created == 0) && ((set == 0) && (opened == 0))))
        × (map (λ (c : Call × ℕ). c.0) l ≡ (
            if not (created == 0)
            then destroys ∷ creates host client ∷ []
            else if not (set == 0)
            then destroys ∷ sets_callbacks ∷ creates host client ∷ []
            else if not (opened == 0)
            then destroys ∷ connects user passwd 20 1 ∷ sets_callbacks ∷ creates host client ∷ []
            else destroys
              ∷ disconnects 1000
              ∷ connects user passwd 20 1
              ∷ sets_callbacks
              ∷ creates host client
              ∷ []))
unfolding start connect close
start_close_lem host client user passwd env = ground arith
