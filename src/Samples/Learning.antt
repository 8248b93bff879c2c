-- ===== src/Samples/Learning.antt =====
-- A run of gym/core.py that tells its `MemoryLearningSink` of a result.
use artifact_proof_lab.Base.{ℕ, ◌≡◌, refl, none, some, [], ◌∷◌}
use artifact_proof_lab.Base.Sort.{same_int, at_most}
use artifact_proof_lab.Base.Outcome
use artifact_proof_lab.Base.Outcome.{Result, ok}
use artifact_proof_lab.Base.Exec
use artifact_proof_lab.Json.{elements}
use artifact_proof_lab.Json.Dump.{dump_string}
use artifact_proof_lab.Gym.Core.{EpisodeResult, tuple_of}
use artifact_proof_lab.Gym.Finish.{run}
use artifact_proof_lab.Gym.LocalHost.{
  LocalReferenceHost, find, step, semantic_verdict, close, start,
}
use artifact_proof_lab.Gym.Sessions.{world_policy}
use artifact_proof_lab.Gym.Memory.{
  Remembering, memory_update, memory_sink, other_host, other_policy, other_generator,
}
use artifact_proof_lab.Gym.MemoryLaws.{IsRemembered, run-IsRemembered}
use artifact_proof_lab.Samples.{platform}
use artifact_proof_lab.Samples.Runs.{
  arithmetic, task, opener, host, empty_host, trusting, result_or, no_result,
}

-- The run with a sink in memory that has been told of one other task.
abbrev remembered : Result EpisodeResult × Remembering (LocalReferenceHost ℕ)
remembered =
    run platform arithmetic trusting (other_host host) task (other_policy (world_policy opener))
      (other_generator none) (some memory_sink)
      (record { updates = "window" ∷ []; other = empty_host })

abbrev remembered_result : EpisodeResult
remembered_result = result_or no_result remembered.0

remembered_ok : remembered.0 ≡ ok remembered_result
unfolding run Outcome.◌>>=◌ Exec.◌>>=◌ dump_string world_policy start close find tuple_of step
    semantic_verdict same_int at_most elements other_host other_policy other_generator memory_update
remembered_ok = refl

run-IsRemembered_example : IsRemembered task ("window" ∷ []) remembered_result remembered.1
run-IsRemembered_example =
    run-IsRemembered platform arithmetic trusting host (world_policy opener) none task
      ("window" ∷ []) empty_host remembered_result remembered_ok

remembered_both : remembered.1.updates ≡ "window" ∷ "door" ∷ []
unfolding run Outcome.◌>>=◌ Exec.◌>>=◌ dump_string world_policy start close find tuple_of step
    semantic_verdict same_int at_most elements other_host other_policy other_generator memory_update
remembered_both = refl
