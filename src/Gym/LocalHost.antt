-- ===== src/Gym/LocalHost.antt =====
-- `LocalReferenceHost` of gym/host_boundary.py. `_sessions` is an association list; a key stands in
-- it once. The state behind the environments is `S`.
use Prim.Native.String.{◌++◌ as append}
use artifact_proof_lab.Base.{
  ℕ, zero, suc, ◌+◌, String, Bool, ◌&&◌, ◌||◌, Option, none, some, List, [], ◌∷◌, ◌++◌, mem, ◌==◌,
  if◌then◌else◌,
}
use artifact_proof_lab.Base.Int.{pos}
use artifact_proof_lab.Base.Text.{has_prefix, chars, of_chars}
use artifact_proof_lab.Base.Outcome.{Result, ok, raise, crash, action_rejected}
use artifact_proof_lab.Base.Exec.{Exec, pure, lift, ◌>>=◌, ◌>>◌}
use artifact_proof_lab.Json.{Json, Number, get}
use artifact_proof_lab.Json.Dump.{codes, dump_int}
use artifact_proof_lab.Platform.{Platform}
use artifact_proof_lab.Gym.Canonical.{encode}
use artifact_proof_lab.Gym.Core.{PublicTask, agent_view, StepOutcome}
use artifact_proof_lab.Gym.Gateway.{Environment, HostSessionStart, HostGateway}

prefix : {A : Type 0} → ℕ → List A → List A
prefix zero xs = []
prefix (suc n) [] = []
prefix (suc n) (x ∷ xs) = x ∷ prefix n xs

-- text[:n]
unfoldable pub take_text : ℕ → String → String
unfolding prefix
take_text n s = of_chars (prefix n (chars s))

-- _action_allowed
unfoldable pub action_allowed : PublicTask → String → Bool
unfolding has_prefix
action_allowed task action =
    mem action task.allowed_actions
    || (has_prefix "DEFER_" action && mem "DEFER" task.allowed_actions)

-- _HostSession
pub record HostSession (S : Type 0) : Type 0 where
  pub task : PublicTask
  pub environment : Environment S

abbrev pub Sessions : Type 0 → Type 0
Sessions S = List (String × HostSession S)

pub record LocalReferenceHost (S : Type 0) : Type 0 where
  pub sessions : Sessions S
  pub counter : ℕ
  pub world : S

module _ {S : Type 0} where
  unfoldable pub find : String → Sessions S → Option (HostSession S)
  find id [] = none
  find id ((j, session) ∷ sessions) = if j == id then some session else find id sessions

  -- self._sessions.pop(session_id, None), as far as the dictionary goes
  unfoldable pub pop : String → Sessions S → Sessions S
  pop id [] = []
  pop id ((j, session) ∷ sessions) =
      let rest = pop id sessions in if j == id then sessions else (j, session) ∷ rest

  -- A method of an environment acts on the state behind it.
  abbrev pub put_world :
      {A : Type 0} → LocalReferenceHost S → Result A × S → Result A × LocalReferenceHost S
  put_world h (result, s) = (result, record h { world = s })

  unfoldable pub on_world : {A : Type 0} → Exec S A → Exec (LocalReferenceHost S) A
  on_world method h = put_world h (method h.world)

  -- self._session(session_id)
  abbrev pub known : Option (HostSession S) → Result (HostSession S)
  known none = raise (crash "KeyError: unknown or closed host session")
  known (some session) = ok session

  unfoldable pub session_of : String → Exec (LocalReferenceHost S) (HostSession S)
  unfolding find
  session_of id h = (known (find id h.sessions), h)

  unfoldable pub step : String → String → Option String → Exec (LocalReferenceHost S) StepOutcome
  unfolding session_of action_allowed on_world ◌>>=◌
  step id action candidate = do
    session ← session_of id
    (if action_allowed session.task action
        then on_world (session.environment.step action candidate)
        else lift (raise (action_rejected "action is outside host contract")))

  unfoldable pub semantic_verdict : String → Exec (LocalReferenceHost S) Bool
  unfolding session_of on_world ◌>>=◌
  semantic_verdict id = do session ← session_of id; on_world session.environment.semantic_verdict

  unfoldable pub close_environment :
      Option (Exec S (Unit {0})) → Exec (LocalReferenceHost S) (Unit {0})
  unfolding on_world
  close_environment none = pure tt
  close_environment (some method) = on_world method

  unfoldable pub close_found :
      String → Option (HostSession S) → Exec (LocalReferenceHost S) (Unit {0})
  unfolding pop close_environment
  close_found id none h = (ok tt, h)
  close_found id (some session) h =
      close_environment session.environment.close (record h { sessions = pop id h.sessions })

  unfoldable pub close : String → Exec (LocalReferenceHost S) (Unit {0})
  unfolding find close_found
  close id h = close_found id (find id h.sessions) h

  -- self._counter += 1
  abbrev pub count : Exec (LocalReferenceHost S) ℕ
  count h = (ok (h.counter + 1), record h { counter = h.counter + 1 })

  -- The session is filed, unless its identifier is taken.
  abbrev pub file_found :
      String → HostSession S → Option (HostSession S) → Exec (LocalReferenceHost S) (Unit {0})
  file_found id session (some other) h = (raise (crash "host session id collision"), h)
  file_found id session none h = (ok tt, record h { sessions = h.sessions ++ (id, session) ∷ [] })

  unfoldable pub file_session : String → HostSession S → Exec (LocalReferenceHost S) (Unit {0})
  unfolding find
  file_session id session h = file_found id session (find id h.sessions) h

module _ (platform : Platform)
    -- str(value), None included
    (text_of : Option (Json Number) → String) {S : Type 0}
    (environment_factory : PublicTask → Exec S (Environment S)) where
  -- _session_id
  unfoldable pub session_id : PublicTask → ℕ → String
  unfolding encode get take_text dump_int
  session_id task counter =
      let snapshot = codes (text_of (get "snapshot_id" task.environment)) in
      let material =
        codes task.task_id ++ (codes "|" ++ (snapshot ++ (codes "|" ++ dump_int (pos counter)))) in
      append "session-" (take_text 20 (platform.sha256 (encode material)))

  unfoldable pub start : PublicTask → Exec (LocalReferenceHost S) HostSessionStart
  unfolding session_id file_session on_world agent_view ◌>>=◌
  start task = do
    counter ← count
    environment ← on_world (environment_factory task)
    file_session (session_id task counter) (record { task = task; environment = environment })
    view ← lift (agent_view task)
    observations ← on_world environment.reset
    pure (record {
      session_id = session_id task counter;
      agent_task = view;
      observations = observations;
    })

  abbrev pub local_host : HostGateway (LocalReferenceHost S)
  local_host = record {
    start = start;
    step = step;
    semantic_verdict = semantic_verdict;
    close = close;
  }
