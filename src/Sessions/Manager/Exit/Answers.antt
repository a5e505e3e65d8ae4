-- ===== src/Sessions/Manager/Exit/Answers.antt =====
-- What the collaborators answer to the calls of cleanup, each made in the world that the call before it left.
use sight_stalker.Prelude.{
  ◌≡◌, refl, sym, ap, ◌∙◌, if◌then◌else◌, Bool, true, false, ◌&&◌, List, [], ◌∷◌, Option, none,
  some, Outcome, ok, raised, arith,
}
use mathlib.Core.Path.{subst}
use sight_stalker.Errors.{Exc}
use sight_stalker.Models.Artifacts.{ArtifactRef}
use sight_stalker.Models.Browser.{BrowserState}
use sight_stalker.Models.Records.{BrowserContextRecord}
use sight_stalker.Sessions.Collaborators.{Collaborators}
use sight_stalker.Sessions.Manager.State.{
  Call, storage_state, write_final, Opened, Managed, perform, now,
}
use sight_stalker.Sessions.Manager.Exit.{
  with_final, capture_on, capture_and_record_final_state, close_context_on, close_runtime_on,
  release_on, note_error, run_cleanup,
}

-- The exception of an answer, before those of later ones.
abbrev pub noted {ℓ} : {A : Type ℓ} → Outcome Exc A → List Exc → List Exc
noted (ok a) later = later
noted (raised e) later = e ∷ later

-- The record says that the context is not closed yet.
abbrev pub is_unstamped : Option BrowserContextRecord → Bool
is_unstamped none = false
is_unstamped (some r) = elim r.closed_at [ none ↦ true | some t ↦ false ]

-- The calls of the capture, the newest first: the state is read if the session asks for it, and
-- written if it could be read.
abbrev pub capture_calls : Bool → Bool → List Call → List Call
capture_calls false readable earlier = earlier
capture_calls true false earlier = storage_state ∷ earlier
capture_calls true true earlier = write_final ∷ storage_state ∷ earlier

-- The reference that a capture gave.
abbrev pub ref_of : Outcome Exc (Option ArtifactRef) → Option ArtifactRef
ref_of (ok ref) = ref
ref_of (raised e) = none

module _ (c : Collaborators) (o : Opened) where
  -- The session keeps storage states, and the final one too.
  abbrev pub is_capturing : Bool
  is_capturing =
      o.session.config.persist_storage_state && o.session.config.capture_final_storage_state

  abbrev pub written :
      Outcome Exc BrowserState × c.World → Outcome Exc (Option ArtifactRef) × c.World
  written (raised e, w) = (raised e, w)
  written (ok state, w) =
      let (r, w') =
        c.write_final_state o.profile.profile_id o.run_id o.session.session_id state w in
      (elim r [ ok ref ↦ ok (some ref) | raised e ↦ raised e ], w')

  -- The final state, read and written, if the session captures it.
  abbrev pub captured : Bool → c.Context → c.World → Outcome Exc (Option ArtifactRef) × c.World
  captured false context w = (ok none, w)
  captured true context w = written (c.storage_state context w)

  -- The clock is read for the record of the closed context.
  abbrev pub after_stamp : Bool → c.World → c.World
  after_stamp false w = w
  after_stamp true w = (c.utc_now w).1

  -- The exceptions of the capture, of the closing of context and runtime, and of the release.
  abbrev pub cleanup_failures : c.Context → c.Runtime → c.Lock → Managed c → List Exc
  cleanup_failures context runtime lock s =
      let (r₁, w₁) = captured is_capturing context s.world in
      let (r₂, w₂) = c.close_context context w₁ in
      let (r₃, w₃) = c.close_runtime runtime (after_stamp (is_unstamped s.context_record) w₂) in
      noted r₁ (noted r₂ (noted r₃ (noted (c.release lock w₃).0 [])))

  -- A lock, a runtime and a context are in place, and the run has neither a final state nor a result.
  pub record IsOpen (ctx : c.Context) (rt : c.Runtime) (lk : c.Lock) (s : Managed c) : Type 0 where
    pub context : s.context ≡ some ctx
    pub runtime : s.runtime ≡ some rt
    pub lock : s.lock ≡ some lk
    pub final_ref : s.final_ref ≡ none
    pub result : s.result ≡ none

  abbrev failure_of {ℓ} : {A : Type ℓ} → Outcome Exc A → Option Exc
  failure_of (ok a) = none
  failure_of (raised e) = some e

  -- The capture answers as `captured` says, and touches nothing that the later steps use.
  record Captures (ctx : c.Context) (s : Managed c) (r : Option Exc × Managed c) : Type 0 where
    error : r.0 ≡ failure_of (captured is_capturing ctx s.world).0
    world : r.1.world ≡ (captured is_capturing ctx s.world).1
    final_ref : r.1.final_ref ≡ ref_of (captured is_capturing ctx s.world).0
    stamp : is_unstamped r.1.context_record ≡ is_unstamped s.context_record
    context_kept : r.1.context ≡ s.context
    runtime_kept : r.1.runtime ≡ s.runtime
    lock_kept : r.1.lock ≡ s.lock

  capture_on-Captures :
      (b : Bool) (ctx : c.Context) (s : Managed c)
      → b ≡ is_capturing
      → s.final_ref ≡ none
      → Captures ctx s (if b then capture_on c o (some ctx) s else (none, s))
  unfolding capture_on perform with_final
  capture_on-Captures b ctx s e f = ground arith

  capture-Captures :
      (ctx : c.Context) (s : Managed c)
      → s.context ≡ some ctx
      → s.final_ref ≡ none
      → Captures ctx s (capture_and_record_final_state c o s)
  unfolding capture_and_record_final_state
  capture-Captures ctx s h f =
      subst (λ x. Captures ctx s (if is_capturing then capture_on c o x s else (none, s))) (sym h)
        (capture_on-Captures is_capturing ctx s refl f)

  close_context-answers_at :
      (ctx : c.Context) (s : Managed c)
      → ((close_context_on c o (some ctx) s).0 ≡ failure_of (c.close_context ctx s.world).0)
        × ((close_context_on c o (some ctx) s).1.world
            ≡ after_stamp (is_unstamped s.context_record) (c.close_context ctx s.world).1)
        × ((close_context_on c o (some ctx) s).1.runtime ≡ s.runtime)
        × ((close_context_on c o (some ctx) s).1.lock ≡ s.lock)
        × ((close_context_on c o (some ctx) s).1.final_ref ≡ s.final_ref)
  unfolding close_context_on perform now
  close_context-answers_at ctx s = ground arith

  close_context-answers :
      (ctx : c.Context) (x : Option c.Context) (s : Managed c)
      → x ≡ some ctx
      → ((close_context_on c o x s).0 ≡ failure_of (c.close_context ctx s.world).0)
        × ((close_context_on c o x s).1.world
            ≡ after_stamp (is_unstamped s.context_record) (c.close_context ctx s.world).1)
        × ((close_context_on c o x s).1.runtime ≡ s.runtime)
        × ((close_context_on c o x s).1.lock ≡ s.lock)
        × ((close_context_on c o x s).1.final_ref ≡ s.final_ref)
  close_context-answers ctx x s h =
      subst
        (λ (x : Option c.Context).
          ((close_context_on c o x s).0 ≡ failure_of (c.close_context ctx s.world).0)
          × ((close_context_on c o x s).1.world
              ≡ after_stamp (is_unstamped s.context_record) (c.close_context ctx s.world).1)
          × ((close_context_on c o x s).1.runtime ≡ s.runtime)
          × ((close_context_on c o x s).1.lock ≡ s.lock)
          × ((close_context_on c o x s).1.final_ref ≡ s.final_ref))
        (sym h) (close_context-answers_at ctx s)

  close_runtime-answers_at :
      (rt : c.Runtime) (s : Managed c)
      → ((close_runtime_on c o (some rt) s).0 ≡ failure_of (c.close_runtime rt s.world).0)
        × ((close_runtime_on c o (some rt) s).1.world ≡ (c.close_runtime rt s.world).1)
        × ((close_runtime_on c o (some rt) s).1.lock ≡ s.lock)
        × ((close_runtime_on c o (some rt) s).1.final_ref ≡ s.final_ref)
  unfolding close_runtime_on perform
  close_runtime-answers_at rt s = ground arith

  close_runtime-answers :
      (rt : c.Runtime) (x : Option c.Runtime) (s : Managed c)
      → x ≡ some rt
      → ((close_runtime_on c o x s).0 ≡ failure_of (c.close_runtime rt s.world).0)
        × ((close_runtime_on c o x s).1.world ≡ (c.close_runtime rt s.world).1)
        × ((close_runtime_on c o x s).1.lock ≡ s.lock)
        × ((close_runtime_on c o x s).1.final_ref ≡ s.final_ref)
  close_runtime-answers rt x s h =
      subst
        (λ (x : Option c.Runtime).
          ((close_runtime_on c o x s).0 ≡ failure_of (c.close_runtime rt s.world).0)
          × ((close_runtime_on c o x s).1.world ≡ (c.close_runtime rt s.world).1)
          × ((close_runtime_on c o x s).1.lock ≡ s.lock)
          × ((close_runtime_on c o x s).1.final_ref ≡ s.final_ref))
        (sym h) (close_runtime-answers_at rt s)

  release-answers_at :
      (lk : c.Lock) (s : Managed c)
      → ((release_on c o (some lk) s).0 ≡ failure_of (c.release lk s.world).0)
        × ((release_on c o (some lk) s).1.final_ref ≡ s.final_ref)
  unfolding release_on perform
  release-answers_at lk s = ground arith

  release-answers :
      (lk : c.Lock) (x : Option c.Lock) (s : Managed c)
      → x ≡ some lk
      → ((release_on c o x s).0 ≡ failure_of (c.release lk s.world).0)
        × ((release_on c o x s).1.final_ref ≡ s.final_ref)
  release-answers lk x s h =
      subst
        (λ (x : Option c.Lock).
          ((release_on c o x s).0 ≡ failure_of (c.release lk s.world).0)
          × ((release_on c o x s).1.final_ref ≡ s.final_ref))
        (sym h) (release-answers_at lk s)

  note_error-noted {ℓ} :
      {A : Type ℓ} (r : Outcome Exc A) (e : Option Exc) (later later' : List Exc)
      → e ≡ failure_of r
      → later ≡ later'
      → note_error c o e later ≡ noted r later'
  note_error-noted (ok a) e later later' h k = rw (h, k) refl
  note_error-noted (raised x) e later later' h k = rw (h, k) refl

  stamped_after :
      (ctx : c.Context) {b b' : Bool} {w w' : c.World}
      → b ≡ b'
      → w ≡ w'
      → after_stamp b (c.close_context ctx w).1 ≡ after_stamp b' (c.close_context ctx w').1
  stamped_after ctx h k = λ i. after_stamp (h i) (c.close_context ctx (k i)).1

  -- The list of the cleanup failures, and the final state that is kept.
  pub run_cleanup-answers :
      (ctx : c.Context) (rt : c.Runtime) (lk : c.Lock) (s : Managed c)
      → IsOpen ctx rt lk s
      → ((run_cleanup c o s).0 ≡ cleanup_failures ctx rt lk s)
        × ((run_cleanup c o s).1.final_ref ≡ ref_of (captured is_capturing ctx s.world).0)
  unfolding run_cleanup
  run_cleanup-answers ctx rt lk s h =
      let s₁ = (capture_and_record_final_state c o s).1 in
      let s₂ = (close_context_on c o s₁.context s₁).1 in
      let s₃ = (close_runtime_on c o s₂.runtime s₂).1 in
      let k = capture-Captures ctx s h.context h.final_ref in
      let (e₂, w₂, rt₂, lk₂, f₂) =
        close_context-answers ctx s₁.context s₁ (k.context_kept ∙ h.context) in
      let (e₃, w₃, lk₃, f₃) =
        close_runtime-answers rt s₂.runtime s₂ (rt₂ ∙ k.runtime_kept ∙ h.runtime) in
      let (e₄, f₄) = release-answers lk s₃.lock s₃ (lk₃ ∙ lk₂ ∙ k.lock_kept ∙ h.lock) in
      let v₂ = w₂ ∙ stamped_after ctx k.stamp k.world in
      let v₃ = w₃ ∙ ap (λ w. (c.close_runtime rt w).1) v₂ in
      (
        note_error-noted _ _ _ _ k.error (
            note_error-noted _ _ _ _ (e₂ ∙ ap (λ w. failure_of (c.close_context ctx w).0) k.world) (
              note_error-noted _ _ _ _ (e₃ ∙ ap (λ w. failure_of (c.close_runtime rt w).0) v₂)
                (note_error-noted _ _ _ _ (e₄ ∙ ap (λ w. failure_of (c.release lk w).0) v₃) refl))),
        f₄ ∙ f₃ ∙ f₂ ∙ k.final_ref,
      )
