-- ===== src/Sessions/Manager/Exit/Tests.antt =====
-- `__aexit__` on the fixture.
use sight_stalker.Prelude.{
  ◌≡◌, refl, Bool, true, false, List, [], ◌∷◌, none, some, ok, raised, arith, codes,
}
use sight_stalker.Models.Identifiers.{failed, storage_state_final}
use sight_stalker.Sessions.Manager.State.{
  Call, release, close_runtime, close_context, new_context, launch, acquire, storage_state,
  write_final,
}
use sight_stalker.Sessions.Manager.Trace.{IsHeld, IsReleased, calls}
use sight_stalker.Sessions.Manager.Fixture.{toy, some_ref, some_run, launch_error, running_state}
use sight_stalker.Sessions.Manager.Exit.{aexit}
use sight_stalker.Sessions.Manager.Exit.Answers.{IsOpen}
use sight_stalker.Sessions.Manager.Exit.Closing.{aexit-IsReleased}
use sight_stalker.Sessions.Manager.Exit.Order.{aexit-calls}
use sight_stalker.Sessions.Manager.Exit.Verdict.{
  aexit-Advances, Advances, aexit_caller_exception, aexit-first_failure, Reports,
}

running_state-IsHeld : (can_close : Bool) → IsHeld (running_state can_close)
running_state-IsHeld can_close = ground arith

aexit-IsReleased_example :
    IsReleased (aexit (toy true false) some_run (some launch_error) (running_state false)).1
    × ((aexit (toy true false) some_run (some launch_error) (running_state false)).1.exited ≡ true)
aexit-IsReleased_example =
    aexit-IsReleased (toy true false) some_run (some launch_error) (running_state false)
      (running_state-IsHeld false)

-- The calls before `__aexit__`.
abbrev before : List Call
before = new_context ∷ launch ∷ acquire ∷ []

abbrev after_failure : List Call
after_failure = calls (aexit (toy true false) some_run none (running_state false)).1.trace

running_state-IsOpen :
    (can_close : Bool) → IsOpen (toy true can_close) some_run 0 0 0 (running_state can_close)
running_state-IsOpen can_close = record {
  context = refl;
  runtime = refl;
  lock = refl;
  final_ref = refl;
  result = refl;
}

aexit-calls_example :
    after_failure ≡ release ∷ close_runtime ∷ close_context ∷ write_final ∷ storage_state ∷ before
aexit-calls_example =
    aexit-calls (toy true false) some_run none 0 0 0 (running_state false)
      (running_state-IsOpen false)

aexit_caller_exception_example :
    ((aexit (toy true false) some_run (some launch_error) (running_state false)).0 ≡ ok tt)
    × Reports
        (toy true false)
        some_run
        failed
        (some launch_error)
        (aexit (toy true false) some_run (some launch_error) (running_state false)).1.result
aexit_caller_exception_example =
    aexit_caller_exception (toy true false) some_run launch_error (running_state false)
      (record { absolute = false; parts = codes "runs" ∷ [] }) (λ w. refl)

aexit-first_failure_example :
    ((aexit (toy true false) some_run none (running_state false)).0 ≡ raised launch_error)
    × Reports
        (toy true false)
        some_run
        failed
        (some launch_error)
        (aexit (toy true false) some_run none (running_state false)).1.result
aexit-first_failure_example =
    aexit-first_failure (toy true false) some_run 0 0 0 (running_state false)
      (record { absolute = false; parts = codes "runs" ∷ [] }) (running_state-IsOpen false)
      (λ w. refl)

aexit-Advances_example :
    Advances
      (toy true true)
      some_run
      (some (some_ref storage_state_final))
      (aexit (toy true true) some_run none (running_state true)).1.result
aexit-Advances_example =
    aexit-Advances (toy true true) some_run none 0 0 0 (running_state true)
      (running_state-IsOpen true)
