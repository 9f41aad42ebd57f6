-- ===== src/Daemon/Keeps.antt =====
-- What no frame of any connection does to a running guest, and what stopping leaves.
use corvus_node.Prelude.{
  ℕ, String, ◌≡◌, refl, sym, ap, ◌∙◌, Bool, true, false, not, Option, none, some, List, [], ◌∷◌,
  ◌++◌, arith, ◌==◌, if◌then◌else◌,
}
use corvus_node.Json.{Fields}
use corvus_node.Json.Text.{text_at}
use corvus_node.Session.Serve.{is_some}
use corvus_node.Control.{Frame}
use corvus_node.Daemon.{
  Task, no_task, running, finished, Rules, ServeState, is_running, vm_up, stop_vm, request_stop,
  begin_boot, Boot, booted, boot_error, boot_crash, Mode, listening, chatting, awaiting, closed,
  Input, end_of_stream, bad_frame, frame, reply, Reaction, end_boot, on_start, on_attach, on_frame,
  on_chat_frame, on_reply, handle, config_from_payload, boot_with, put_text,
}

stop_vm-config : (s : ServeState) → (stop_vm s).config ≡ s.config
unfolding stop_vm request_stop
stop_vm-config s = ground arith

module _ (pid : ℕ) where
  on_start_busy :
      (payload : Fields) (boot : Boot) (instance_id : String) (s : ServeState)
      → vm_up s ≡ true
      → (on_start pid payload boot instance_id s).state ≡ s
  unfolding on_start vm_up
  on_start_busy payload boot instance_id s up = rw up refl

  on_attach-config : (s : ServeState) → (on_attach pid s).state.config ≡ s.config
  unfolding on_attach
  on_attach-config s = ground arith

  on_frame-config :
      (f : Frame) (boot : Boot) (instance_id : String) (s : ServeState)
      → vm_up s ≡ true
      → (on_frame pid f boot instance_id s).state.config ≡ s.config
  unfolding on_frame
  on_frame-config f boot instance_id s up = ground (
    arith,
    stop_vm-config s,
    ap (λ (t : ServeState). t.config) (on_start_busy f.payload boot instance_id s up),
    on_attach-config s,
  )

  on_chat_frame-config :
      (f : Frame) (s : ServeState) → (on_chat_frame pid f s).state.config ≡ s.config
  unfolding on_chat_frame
  on_chat_frame-config f s = ground (arith, stop_vm-config s)

  -- While a guest runs, no input of any connection changes its launch rules.
  pub handle-config :
      (mode : Mode) (i : Input) (s : ServeState)
      → vm_up s ≡ true
      → (handle pid mode i s).state.config ≡ s.config
  unfolding handle on_reply
  handle-config listening (frame f boot instance_id) s up = on_frame-config f boot instance_id s up
  handle-config chatting (frame f boot instance_id) s up = on_chat_frame-config f s
  handle-config awaiting (reply none) s up = refl
  handle-config awaiting (reply (some t)) s up = refl
  handle-config listening end_of_stream s up = refl
  handle-config listening bad_frame s up = refl
  handle-config listening (reply r) s up = refl
  handle-config chatting end_of_stream s up = refl
  handle-config chatting bad_frame s up = refl
  handle-config chatting (reply r) s up = refl
  handle-config awaiting end_of_stream s up = refl
  handle-config awaiting bad_frame s up = refl
  handle-config awaiting (frame f boot instance_id) s up = refl
  handle-config closed i s up = refl

-- Without a task there are no queues and no chat; with one there are both queues.
abbrev pub SoundAs :
    Task → Option (List (Option String)) → Option (List (Option String)) → Bool → Type 0
SoundAs no_task prompts responses chat_attached =
    (prompts ≡ none) × (responses ≡ none) × (chat_attached ≡ false)
SoundAs _ prompts responses chat_attached = (is_some prompts ≡ true) × (is_some responses ≡ true)

abbrev pub IsSound : ServeState → Type 0
IsSound s = SoundAs s.boot_task s.prompts s.responses s.chat_attached

stop_vm-IsSound : (s : ServeState) → IsSound s → IsSound (stop_vm s)
unfolding stop_vm request_stop
stop_vm-IsSound s w = by_task s.boot_task refl
  where
    by_task : (t : Task) → s.boot_task ≡ t → IsSound (stop_vm s)
    by_task no_task e = rw (e, stop_vm) w
    by_task running e = rw (e, stop_vm) (refl, refl, refl)
    by_task finished e = rw (e, stop_vm) (refl, refl, refl)

leave-IsSound : (s : ServeState) → IsSound s → IsSound (record s { chat_attached = false })
leave-IsSound s w = by_task s.boot_task w
  where
    by_task :
        (t : Task)
        → SoundAs t s.prompts s.responses s.chat_attached
        → SoundAs t s.prompts s.responses false
    by_task no_task v = (v.0, v.1, refl)
    by_task running v = v
    by_task finished v = v

either-IsSound :
    (b : Bool) (x y : Reaction)
    → IsSound x.state
    → IsSound y.state
    → IsSound (if b then x else y).state
either-IsSound true x y v w = v
either-IsSound false x y v w = w

-- After a stop of a sound state no guest runs, and nothing of the last one is left: no queue and
-- no chat.
pub stop_vm-idle :
    (s : ServeState)
    → IsSound s
    → (vm_up (stop_vm s) ≡ false)
      × ((stop_vm s).prompts ≡ none)
      × ((stop_vm s).responses ≡ none)
      × ((stop_vm s).chat_attached ≡ false)
unfolding stop_vm vm_up request_stop
stop_vm-idle s w = by_task s.boot_task refl
  where
    by_task :
        (t : Task)
        → s.boot_task ≡ t
        → (vm_up (stop_vm s) ≡ false)
          × ((stop_vm s).prompts ≡ none)
          × ((stop_vm s).responses ≡ none)
          × ((stop_vm s).chat_attached ≡ false)
    by_task no_task e =
        let v : SoundAs no_task s.prompts s.responses s.chat_attached = rw e at w in
        rw (vm_up, e, stop_vm) (rw e refl, v.0, v.1, v.2)
    by_task running e = rw (vm_up, e, stop_vm) (refl, refl, refl, refl)
    by_task finished e = rw (vm_up, e, stop_vm) (refl, refl, refl, refl)

module _ (pid : ℕ) where
  end_boot-IsSound :
      (boot : Boot) (config : Rules) (s : ServeState)
      → IsSound (end_boot pid boot (begin_boot config s)).state
  unfolding end_boot begin_boot stop_vm request_stop
  end_boot-IsSound booted config s = (refl, refl)
  end_boot-IsSound (boot_error why) config s = (refl, refl, refl)
  end_boot-IsSound boot_crash config s = (refl, refl)

  boot_with-IsSound :
      (boot : Boot) (c : Option Rules) (s : ServeState)
      → IsSound s
      → IsSound (boot_with pid boot c s).state
  unfolding boot_with
  boot_with-IsSound boot none s w = w
  boot_with-IsSound boot (some config) s w = end_boot-IsSound boot config s

  on_start-IsSound :
      (payload : Fields) (boot : Boot) (instance_id : String) (s : ServeState)
      → IsSound s
      → IsSound (on_start pid payload boot instance_id s).state
  unfolding on_start
  on_start-IsSound payload boot instance_id s w =
      either-IsSound (is_running s.boot_task) _ _ w
        (boot_with-IsSound boot (config_from_payload instance_id payload) s w)

  on_attach-IsSound : (s : ServeState) → IsSound s → IsSound (on_attach pid s).state
  unfolding on_attach
  on_attach-IsSound s w = by_task s.boot_task refl
    where
      by_task : (t : Task) → s.boot_task ≡ t → IsSound (on_attach pid s).state
      by_task no_task e = rw (on_attach, e) (rw e at w)
      by_task finished e = rw (on_attach, e) (rw e at w)
      by_task running e =
          let v : SoundAs running s.prompts s.responses s.chat_attached = rw e at w in
          rw (on_attach, e) (either-IsSound s.chat_attached _ _ v v)

  on_frame-IsSound :
      (f : Frame) (boot : Boot) (instance_id : String) (s : ServeState)
      → IsSound s
      → IsSound (on_frame pid f boot instance_id s).state
  unfolding on_frame
  on_frame-IsSound f boot instance_id s w = either-IsSound (f.type == "status") _ _ w (
      either-IsSound (f.type == "settings_get") _ _ w (
        either-IsSound (f.type == "start") _ _ (on_start-IsSound f.payload boot instance_id s w) (
          either-IsSound (f.type == "stop") _ _ (stop_vm-IsSound s w) (
            either-IsSound (f.type == "shutdown") _ _ (stop_vm-IsSound s w)
              (either-IsSound (f.type == "chat_attach") _ _ (on_attach-IsSound s w) w)))))

  put_text-IsSound :
      (t : String) (p r : Option (List (Option String))) (s : ServeState)
      → s.prompts ≡ p
      → IsSound s
      → IsSound (put_text pid t p r s).state
  put_text-IsSound t none r s e w = leave-IsSound s w
  put_text-IsSound t (some q) none s e w = leave-IsSound s w
  put_text-IsSound t (some q) (some _) s e w = by_task s.boot_task w
    where
      by_task :
          (b : Task)
          → SoundAs b s.prompts s.responses s.chat_attached
          → SoundAs b (some (q ++ (some t ∷ []))) s.responses s.chat_attached
      by_task no_task v = cc (sym e ∙ v.0)
      by_task running v = (refl, v.1)
      by_task finished v = (refl, v.1)

  on_chat_frame-IsSound :
      (f : Frame) (s : ServeState) → IsSound s → IsSound (on_chat_frame pid f s).state
  unfolding on_chat_frame
  on_chat_frame-IsSound f s w =
      either-IsSound (f.type == "stop") _ _ (leave-IsSound (stop_vm s) (stop_vm-IsSound s w)) (
        either-IsSound (not (f.type == "user")) _ _ w
          (put_text-IsSound (text_at "text" f.payload) s.prompts s.responses s refl w))

  -- Every input of every connection keeps the daemon's state sound: without a task there are no
  -- queues and no chat, with one there are both queues.
  pub handle-IsSound :
      (mode : Mode) (i : Input) (s : ServeState) → IsSound s → IsSound (handle pid mode i s).state
  unfolding handle on_reply
  handle-IsSound listening (frame f boot instance_id) s w = on_frame-IsSound f boot instance_id s w
  handle-IsSound chatting (frame f boot instance_id) s w = on_chat_frame-IsSound f s w
  handle-IsSound awaiting (reply none) s w = leave-IsSound s w
  handle-IsSound awaiting (reply (some t)) s w = w
  handle-IsSound listening end_of_stream s w = w
  handle-IsSound listening bad_frame s w = w
  handle-IsSound listening (reply r) s w = w
  handle-IsSound chatting end_of_stream s w = leave-IsSound s w
  handle-IsSound chatting bad_frame s w = leave-IsSound s w
  handle-IsSound chatting (reply r) s w = w
  handle-IsSound awaiting end_of_stream s w = w
  handle-IsSound awaiting bad_frame s w = w
  handle-IsSound awaiting (frame f boot instance_id) s w = w
  handle-IsSound closed i s w = w
