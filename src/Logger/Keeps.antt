-- ===== src/Logger/Keeps.antt =====
-- Programs of the callback that upload no part of a recorded file beyond its end.
use Prim.Native.String.{String}
use mzntapp_cpp.Base.{
  ℕ, zero, suc, ◌+◌, ◌^◌, ◌≤◌, ◌<◌, Bool, true, false, arith, tests, ltb, ◌==◌, if◌then◌else◌, List,
  ◌∷◌, ◌++◌, Option, none, some, Text, codes, Bool-cases, inl, inr, get_elem?, All, subst,
}
use mzntapp_cpp.Io.{Io, Env, Log, Ensures, Ensures-bind, pure, ask, tell, ◌>>=◌}
use mzntapp_cpp.Hardware.Writer.{max_single_file_size}
use mzntapp_cpp.Logger.{
  Call, file_offset, file_breaks, uploads, agc_bytes, Logger, token, or_fault, stoi,
}
use mzntapp_cpp.Logger.Plan.{Plan, add_32}
use mzntapp_cpp.Logger.Callback.{
  wait_for, upload_second, upload_event, upload_or_tell, update_size, if_upload, agc_upload,
  finish_update, send_update, remote_directory,
}

-- An upload of a recorded file, for which the code sets `cancelCurr`, is of bytes below the size at
-- which the writer starts a new file.
abbrev pub IsUploadInside : Call → Type 0
IsUploadInside (uploads remote file port offset size true) = offset + size ≤ max_single_file_size
IsUploadInside file_offset = Unit
IsUploadInside _ = Unit

abbrev pub Inside : Log Call → Type 0
Inside l = All (λ e. IsUploadInside e.0) l

-- The writer's position is within a file.
abbrev pub IsWithinFile : Env Call → Type 0
IsWithinFile env = (log : Log Call) → env log file_offset ≤ max_single_file_size

unfoldable pub Keeps : {A : Type 0} → Io Call A → Type 0
Keeps m =
    (env : Env Call)
    → IsWithinFile env
    → (log : Log Call) → Inside log
    → Ensures Inside (λ _. Inside) (m env log)

pub bind-Keeps :
    {A B : Type 0} (m : Io Call A) (f : A → Io Call B)
    → Keeps m
    → ((a : A) → Keeps (f a))
    → Keeps (m >>= f)
unfolding Keeps
bind-Keeps m f hm hf env w log h =
    Ensures-bind Inside (λ _. Inside) (λ _. Inside) m f env log (hm env w log h)
      (λ a l k. hf a env w l k)

pub if-Keeps :
    {A : Type 0} (b : Bool) (m k : Io Call A) → Keeps m → Keeps k → Keeps (if b then m else k)
unfolding Keeps
if-Keeps true m k hm hk = hm
if-Keeps false m k hm hk = hk

pub pure-Keeps : {A : Type 0} (a : A) → Keeps (pure a)
unfolding Keeps
pure-Keeps a env w log h = h

pub or_fault-Keeps : {A : Type 0} (o : Option A) → Keeps (or_fault o)
unfolding Keeps
or_fault-Keeps none env w log h = h
or_fault-Keeps (some a) env w log h = h

pub token-Keeps : (ts : List Text) (i : ℕ) → Keeps (token ts i)
unfolding token
token-Keeps ts i = or_fault-Keeps (get_elem? ts i)

pub stoi-Keeps : (t : Text) → Keeps (stoi t)
unfolding stoi
stoi-Keeps t = or_fault-Keeps _

-- The wait ends without a break only when the position has reached the target.
pub wait_for-Ensures :
    (fuel start target : ℕ) (env : Env Call) (log : Log Call)
    → IsWithinFile env
    → Inside log
    → Ensures Inside
        (λ broke l. Inside l × ((if broke then 0 else target) ≤ max_single_file_size))
        (wait_for fuel start target env log)
unfolding wait_for
wait_for-Ensures zero start target env log w h = h
wait_for-Ensures (suc fuel) start target env log w h =
    let l = (file_offset, env log file_offset) ∷ log in
    elim (Bool-cases (ltb (env log file_offset) target)) [
      | inl e ↦ rw e (elim (Bool-cases (ltb (env l file_offset) start)) [
        | inl e' ↦ rw e' ((tt, (tt, h)), omega arith)
        | inr e' ↦ rw e' (
            wait_for-Ensures fuel start target env ((file_offset, env l file_offset) ∷ l) w
              (tt, (tt, h)))
      ])
      | inr e ↦ rw e ((tt, h), omega (tests, w log))
    ]

pub upload_or_tell-Keeps :
    (g : Logger) (c : Call) (what : String) → IsUploadInside c → Keeps (upload_or_tell g c what)
unfolding Keeps
upload_or_tell-Keeps g c what i env w log h = elim (Bool-cases (env log c == 0)) [
  | inl e ↦ rw e (tt, (i, h))
  | inr e ↦ rw e (i, h)
]

pub finish_update-Keeps :
    (g : Logger) (channel remote : Text) (n curr size : ℕ)
    → curr + size ≤ max_single_file_size
    → Keeps (finish_update g channel remote n curr size)
unfolding Keeps
finish_update-Keeps g channel remote n curr size fits env w log h =
    bind-Keeps (upload_or_tell g (if_upload g channel remote n curr size) "-uploadfail_if")
      (λ _. ask agc_bytes >>= λ bytes. agc_upload g remote bytes)
      (upload_or_tell-Keeps g (if_upload g channel remote n curr size) "-uploadfail_if" fits)
      (λ _ env w log h.
        upload_or_tell-Keeps g _ "-uploadfail_agc" tt env w ((agc_bytes, env log agc_bytes) ∷ log)
          (tt, h))
      env w _ (tt, h)

pub send_update-Keeps :
    (fuel : ℕ) (g : Logger) (channel : Text) (size : ℕ) (remote : Text) (curr : ℕ)
    → size < 2 ^ 29
    → curr ≤ max_single_file_size
    → Keeps (send_update fuel g channel size remote curr)
unfolding Keeps send_update
send_update-Keeps fuel g channel size remote curr small fits env w log h =
    let n = env log file_breaks in
    Ensures-bind Inside
      (λ broke l. Inside l × ((if broke then 0 else add_32 curr size) ≤ max_single_file_size))
      (λ _. Inside) (wait_for fuel curr (add_32 curr size))
      (λ broke. finish_update g channel remote n curr (update_size curr size broke)) env _
      (wait_for-Ensures fuel curr (add_32 curr size) env _ w (tt, (tt, h)))
      (λ broke l (k, reached).
        finish_update-Keeps g channel remote n curr (update_size curr size broke)
          (inside broke reached) env w l k)
  where
    inside :
        (broke : Bool)
        → (if broke then 0 else add_32 curr size) ≤ max_single_file_size
        → curr + update_size curr size broke ≤ max_single_file_size
    inside true r = omega arith
    inside false r = omega arith

pub upload_second-Keeps :
    (g : Logger) (p : Plan) (remote channel name : Text)
    → (if p.two then p.offset2 + p.size2 else 0) ≤ max_single_file_size
    → Keeps (upload_second g p remote channel name)
unfolding Keeps
upload_second-Keeps g p remote channel name fits env w log h = elim (Bool-cases p.two) [
  | inl e ↦
      let inside =
        subst (λ b. (if b then p.offset2 + p.size2 else 0) ≤ max_single_file_size) e fits in
      simp e (inside, h)
  | inr e ↦ simp e h
]

pub upload_event-Keeps :
    (g : Logger) (p : Plan) (channel event name1 name2 : Text)
    → (p.offset1 + p.size1 ≤ max_single_file_size)
      × ((if p.two then p.offset2 + p.size2 else 0) ≤ max_single_file_size)
    → Keeps (upload_event g p channel event name1 name2)
unfolding Keeps upload_event
upload_event-Keeps g p channel event name1 name2 (fits1, fits2) env w log h =
    let remote = remote_directory g ++ codes "event" ++ event in
    Ensures-bind Inside (λ _. Inside) (λ _. Inside) (upload_second g p remote channel name2)
      (λ _. ask agc_bytes >>= λ n.
        tell (uploads (remote ++ codes ".AGC") g.agc_filename g.http_port 0 n false))
      env _ (upload_second-Keeps g p remote channel name2 fits2 env w _ (fits1, h))
      (λ _ l k. (tt, (tt, k)))

pub ask-Keeps : (c : Call) → IsUploadInside c → Keeps (ask c)
unfolding Keeps
ask-Keeps c i env w log h = (i, h)

pub tell-Keeps : (c : Call) → IsUploadInside c → Keeps (tell c)
unfolding Keeps
tell-Keeps c i env w log h = (i, h)
