-- ===== src/Session/Confined.antt =====
-- When a session touches the host's disk.
use corvus_node.Prelude.{
  String, ◌≡◌, refl, ap, sym, ◌∙◌, true, Option, none, some, List, [], ◌∷◌, arith, Bool-cases, inl,
  inr, ◌⊎◌, ◌==◌, eq_iff, if◌then◌else◌,
}
use corvus_node.Json.{Fields, dict_or_empty, get}
use corvus_node.Json.Text.{text_at}
use corvus_node.Protocol.{Envelope}
use corvus_node.Policy.{
  Decision, PolicyDecision, allow, deny, elevate, flag, evaluate, is_allow, is_file_tool, or_null,
}
use corvus_node.Workspace.{Resolved, folder, unusable, resolve_host_workspace}
use corvus_node.Workspace.Confined.{Confined, write_cases}
use corvus_node.Session.{SessionEnv, LaunchConfig, NodeSession, hop_of, log_flag}
use corvus_node.Session.Frame.{
  Quiet, Quiet-refl, Quiet-trans, log_hop-Quiet, log_flag-Quiet, log_elevate-Quiet,
  note_decision-Quiet,
}
use corvus_node.Session.Answers.{handled_state, on_llm_request-frame}
use corvus_node.Session.Handlers.{
  flag_call, is_deny, answered, workspace_tool, approve_call, decided_call, log_call, on_tool_call,
  on_tool_result, on_agent_response, on_handshake, on_memory, dispatch,
}

-- The arguments of a tool call, and the path in them.
abbrev pub call_arguments : Envelope → Fields
call_arguments m = dict_or_empty (or_null (get "arguments" m.payload))

module _ (env : SessionEnv) where
  -- The folder that was allowed at the launch resolves to `root`, and the path of the call is confined
  -- to it.
  abbrev pub InFolder : LaunchConfig → env.fs.Disk → Fields → Type 0
  InFolder config disk arguments =
      (first : String) × (rest : List String) × (root : String) × (path : String)
      × (config.workspace_paths ≡ first ∷ rest)
      × (resolve_host_workspace env.fs disk first ≡ folder root)
      × Confined env.fs disk root (text_at "path" arguments) path

  workspace_tool-disk :
      (name : String) (arguments : Fields) (s : NodeSession env)
      → ((workspace_tool env name arguments s).1.disk ≡ s.disk) ⊎ InFolder s.config s.disk arguments
  unfolding workspace_tool
  workspace_tool-disk name arguments s = by_paths s.config.workspace_paths refl
    where
      by_root :
          (first : String) (rest : List String)
          → s.config.workspace_paths ≡ first ∷ rest
          → (r : Resolved) → resolve_host_workspace env.fs s.disk first ≡ r
          → ((workspace_tool env name arguments s).1.disk ≡ s.disk)
            ⊎ InFolder s.config s.disk arguments
      by_root first rest e (unusable reason) f = inl (rw (e, f, workspace_tool) refl)
      by_root first rest e (folder root) f =
          elim (write_cases env.fs s.disk root (text_at "path" arguments)
            (text_at "content" arguments)) [
              | inl same ↦ inl (rw (e, f, workspace_tool) (ground (arith, same)))
              | inr (path, confined) ↦ inr (first, rest, root, path, e, f, confined)
            ]

      by_paths :
          (paths : List String)
          → s.config.workspace_paths ≡ paths
          → ((workspace_tool env name arguments s).1.disk ≡ s.disk)
            ⊎ InFolder s.config s.disk arguments
      by_paths [] e = inl (rw (e, workspace_tool) refl)
      by_paths (first ∷ rest) e =
          by_root first rest e (resolve_host_workspace env.fs s.disk first) refl

  approve_call-disk :
      (m : Envelope) (reason : String) (s : NodeSession env)
      → ((approve_call env m reason s).state.disk ≡ s.disk)
        ⊎ InFolder s.config s.disk (call_arguments m)
  unfolding approve_call
  approve_call-disk m reason s =
      let call_id = text_at "id" m.payload in
      let name = text_at "name" m.payload in
      let s' : NodeSession env =
        if call_id == ""
        then s
        else record s { outstanding_calls = call_id ∷ s.outstanding_calls } in
      elim (Bool-cases (is_file_tool name)) [
        | inr h ↦
            inl (rw h (elim (Bool-cases (call_id == "")) [ inl e ↦ rw e refl | inr e ↦ rw e refl ]))
        | inl h ↦ rw h (elim (Bool-cases (call_id == "")) [
          | inl e ↦ rw e (workspace_tool-disk name (call_arguments m) s)
          | inr e ↦ rw e (
              workspace_tool-disk name (call_arguments m)
                (record s { outstanding_calls = call_id ∷ s.outstanding_calls }))
        ])
      ]

  -- The disk is as it was, or the message is a call that the policy allows, of a path in the folder.
  abbrev pub Touched : Envelope → NodeSession env → env.fs.Disk → Type 0
  Touched m s disk =
      (disk ≡ s.disk)
      ⊎ ((m.type ≡ "tool_call")
          × (is_allow (evaluate s.policy m).decision ≡ true)
          × InFolder s.config s.disk (call_arguments m))

  decided_call-disk :
      (m : Envelope) (d : Decision) (reason : String) (s : NodeSession env)
      → ((decided_call env m d reason s).state.disk ≡ s.disk)
        ⊎ ((is_allow d ≡ true) × InFolder s.config s.disk (call_arguments m))
  unfolding decided_call
  decided_call-disk m allow reason s = elim (approve_call-disk m reason s) [
    | inl e ↦ inl e
    | inr p ↦ inr (refl, p)
  ]
  decided_call-disk m elevate reason s = inl (log_elevate-Quiet env _ _ s).disk
  decided_call-disk m deny reason s = inl refl
  decided_call-disk m flag reason s = inl refl

  flag_call-Quiet :
      (m : Envelope) (code : Option String) (s : NodeSession env) → Quiet s (flag_call env m code s)
  unfolding flag_call
  flag_call-Quiet m none s = Quiet-refl s
  flag_call-Quiet m (some code) s = log_flag-Quiet env code (hop_of env m "tool_call") _ s

  pub log_call-Quiet :
      (m : Envelope) (d : PolicyDecision) (s : NodeSession env) → Quiet s (log_call env m d s)
  unfolding log_call
  log_call-Quiet m d s =
      Quiet-trans (log_hop-Quiet env _ _ _ s)
        (Quiet-trans (flag_call-Quiet m d.flag_code _) (note_decision-Quiet env _ _))

  pub InFolder-transport :
      {c c' : LaunchConfig} {d d' : env.fs.Disk} (a : Fields)
      → c ≡ c'
      → d ≡ d'
      → InFolder c d a
      → InFolder c' d' a
  InFolder-transport a e f p = rw (sym e, sym f) p

  on_tool_call-disk :
      (m : Envelope) (s : NodeSession env)
      → ((on_tool_call env m s).state.disk ≡ s.disk)
        ⊎ ((is_allow (evaluate s.policy m).decision ≡ true)
            × InFolder s.config s.disk (call_arguments m))
  unfolding on_tool_call
  on_tool_call-disk m s =
      let d = evaluate s.policy m in
      let quiet = log_call-Quiet m d s in
      elim (decided_call-disk m d.decision d.reason (log_call env m d s)) [
        | inl e ↦ inl (e ∙ quiet.disk)
        | inr (h, p) ↦ inr (h, InFolder-transport (call_arguments m) quiet.config quiet.disk p)
      ]

  on_tool_result-disk :
      (m : Envelope) (s : NodeSession env) → (on_tool_result env m s).state.disk ≡ s.disk
  unfolding on_tool_result log_flag
  on_tool_result-disk m s = ground arith

  on_memory-disk : (m : Envelope) (s : NodeSession env) → (on_memory env m s).state.disk ≡ s.disk
  unfolding on_memory
  on_memory-disk m s =
      ground (arith, note_decision-Quiet env (is_deny (evaluate s.policy m).decision) s)

  pub dispatch-tool_call :
      (m : Envelope) (s : NodeSession env)
      → m.type ≡ "tool_call"
      → dispatch env m s ≡ answered (on_tool_call env m s)
  unfolding dispatch
  dispatch-tool_call m s e = rw e refl

  on_agent_response-disk :
      (m : Envelope) (s : NodeSession env) → (on_agent_response env m s).state.disk ≡ s.disk
  unfolding on_agent_response
  on_agent_response-disk m s = refl

  on_handshake-disk :
      (m : Envelope) (s : NodeSession env) → (on_handshake env m s).state.disk ≡ s.disk
  unfolding on_handshake
  on_handshake-disk m s = refl

  -- A branch touches the disk only for an allowed call of a path in the folder of the launch.
  pub dispatch-disk :
      (m : Envelope) (s : NodeSession env) → Touched m s (handled_state (dispatch env m s)).disk
  unfolding dispatch
  dispatch-disk m s = elim (Bool-cases (m.type == "tool_call")) [
    | inl h ↦
        let e : m.type ≡ "tool_call" = (eq_iff m.type "tool_call").0 h in
        elim (on_tool_call-disk m s) [
          | inl same ↦ inl (ap (λ h'. (handled_state h').disk) (dispatch-tool_call m s e) ∙ same)
          | inr (a, p) ↦ inr (e, a, p)
        ]
    | inr h ↦ inl (
        ground (
          arith,
          h,
          (on_llm_request-frame env m s).0.disk,
          on_tool_result-disk m s,
          on_memory-disk m s,
          on_agent_response-disk m s,
          on_handshake-disk m s,
        ))
  ]
