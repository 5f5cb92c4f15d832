-- ===== src/Worker/Conversation.antt =====
-- `_serve_conversation`: a Worker that holds the lease of a Conversation executes its Runs until it
-- is told to stop, the Conversation is not active, a Run waits, or nothing was executed for long.
use dsh_base_agent.Prelude.{
  ℕ, zero, suc, ◌+◌, ◌≤◌, ◌<◌, ◌≡◌, refl, subst, Bool, true, false, Option, none, some, List,
  Result, ok, err, ◌>>=◌, ◌==◌, ◌!=◌, arith, if◌then◌else◌, leb, ltb, Bool-cases, inl, inr,
}
use dsh_base_agent.Prelude.Lists.{any}
use dsh_base_agent.Models.{
  ConversationRecord, ConversationStatus, conversation_status_eq, RunRecord, RunStatus,
  run_status_eq,
}

-- what each pass of the loop meets, by its number: the calls of the store and of the control
-- plane, with the exceptions of these and of the timeout, and the time of the event loop
pub record Passes (E : Type 0) : Type 0 where
  pub stopping : ℕ → Bool
  pub get_conversation : ℕ → Result E ConversationRecord
  pub execute_with_timeout : ℕ → Result E Bool
  pub list_conversation_runs : ℕ → Result E (List RunRecord)
  pub time : ℕ → ℕ

module _ {E : Type 0} (passes : Passes E) (conversation_idle_seconds : ℕ) where
  -- after an execution: `return` is `none`, and otherwise the new `idle_since` goes on
  abbrev pub after_execution : ℕ → ℕ → Bool → Result E (Option ℕ)
  after_execution n idle_since true = passes.list_conversation_runs n >>= λ runs.
      ok (if any (λ run. run.status == RunStatus.waiting) runs then none else some (passes.time n))
  after_execution n idle_since false = ok (
      if leb (idle_since + conversation_idle_seconds) (passes.time n)
      then none
      else some idle_since)

  -- one pass of the loop
  unfoldable pub serve_pass : ℕ → ℕ → Result E (Option ℕ)
  serve_pass n idle_since = passes.get_conversation n >>= λ conversation.
      if conversation.status != ConversationStatus.active
      then ok none
      else (passes.execute_with_timeout n >>= after_execution n idle_since)

  abbrev pub after_pass :
      Result E (Option ℕ) → (ℕ → Option (Result E (Unit {0}))) → Option (Result E (Unit {0}))
  after_pass (err e) loop = some (err e)
  after_pass (ok none) loop = some (ok tt)
  after_pass (ok (some idle_since)) loop = loop idle_since

  -- The loop from the pass `n` on, on fuel; `none` is that the fuel ran out.
  unfoldable pub serve_conversation : ℕ → ℕ → ℕ → Option (Result E (Unit {0}))
  unfolding serve_pass
  serve_conversation zero n idle_since = none
  serve_conversation (suc fuel) n idle_since =
      if passes.stopping n
      then some (ok tt)
      else after_pass (serve_pass n idle_since) (serve_conversation fuel (suc n))

  -- a pass that goes on, with the time since which the Conversation is idle
  abbrev IsIdle : ℕ → ℕ → Result E (Option ℕ) → Type 0
  IsIdle n idle_since (err e) = Unit
  IsIdle n idle_since (ok none) = Unit
  IsIdle n idle_since (ok (some since)) =
      (since ≡ idle_since) × (passes.time n < idle_since + conversation_idle_seconds)

  after_execution-IsIdle :
      (n idle_since : ℕ) → IsIdle n idle_since (after_execution n idle_since false)
  after_execution-IsIdle n idle_since =
      elim (Bool-cases (leb (idle_since + conversation_idle_seconds) (passes.time n))) [
        | inl late ↦ rw late tt
        | inr early ↦ rw early (refl, ground (arith, early))
      ]

  found-IsIdle :
      (n idle_since : ℕ) (found : Result E ConversationRecord)
      → passes.execute_with_timeout n ≡ ok false
      → IsIdle n idle_since (
          found >>= λ conversation.
          if conversation.status != ConversationStatus.active
          then ok none
          else (passes.execute_with_timeout n >>= after_execution n idle_since))
  found-IsIdle n idle_since (err e) nothing = tt
  found-IsIdle n idle_since (ok conversation) nothing =
      elim (Bool-cases (conversation.status != ConversationStatus.active)) [
        | inl closed ↦ rw closed tt
        | inr active ↦ rw active (rw nothing (after_execution-IsIdle n idle_since))
      ]

  after_pass-ends :
      (n idle_since : ℕ) (pass : Result E (Option ℕ)) (loop : ℕ → Option (Result E (Unit {0})))
      → IsIdle n idle_since pass
      → (passes.time n < idle_since + conversation_idle_seconds
          → (r : Result E (Unit {0})) × (loop idle_since ≡ some r))
      → (r : Result E (Unit {0})) × (after_pass pass loop ≡ some r)
  after_pass-ends n idle_since (err e) loop idle rest = (_, refl)
  after_pass-ends n idle_since (ok none) loop idle rest = (_, refl)
  after_pass-ends n idle_since (ok (some since)) loop (same, early) rest = rw same (rest early)

  before_last :
      (n last bound : ℕ) → n ≤ last → bound ≤ passes.time last → passes.time n < bound → n < last
  before_last n last bound before late early = elim (Bool-cases (ltb n last)) [
    | inl less ↦ ground (arith, less)
    | inr other ↦
        let same : n ≡ last = ground (arith, other, before) in
        absurd (omega (arith, late, subst (λ k. passes.time k < bound) same early))
  ]

  serve_from :
      (last fuel n idle_since : ℕ)
      → n ≤ last
      → last < fuel + n
      → ((i : ℕ) → n ≤ i → i ≤ last → passes.execute_with_timeout i ≡ ok false)
      → idle_since + conversation_idle_seconds ≤ passes.time last
      → (r : Result E (Unit {0})) × (serve_conversation fuel n idle_since ≡ some r)
  unfolding serve_conversation
  serve_from last zero n idle_since before enough nothing late =
      absurd (omega (arith, before, enough))
  serve_from last (suc fuel) n idle_since before enough nothing late =
      elim (Bool-cases (passes.stopping n)) [
        | inl stop ↦ rw stop (_, refl)
        | inr on ↦ rw on (
            after_pass-ends n idle_since (serve_pass n idle_since) (serve_conversation fuel (suc n))
              (found-IsIdle n idle_since (passes.get_conversation n)
                (nothing n (omega arith) before))
              (λ early.
                let next =
                  before_last n last (idle_since + conversation_idle_seconds) before late early in
                serve_from last fuel (suc n) idle_since (omega (arith, next))
                  (omega (arith, enough)) (λ i at. nothing i (omega (arith, at))) late))
      ]

  -- _serve_conversation gives up an idle Conversation: if none of the passes up to `last` executes
  -- anything, and at `last` conversation_idle_seconds have passed since the start, then it returns
  -- or raises in one of these passes.
  pub serve_conversation-idle :
      (last start : ℕ)
      → ((i : ℕ) → i ≤ last → passes.execute_with_timeout i ≡ ok false)
      → start + conversation_idle_seconds ≤ passes.time last
      → (r : Result E (Unit {0})) × (serve_conversation (suc last) 0 start ≡ some r)
  serve_conversation-idle last start nothing late =
      serve_from last (suc last) 0 start (omega arith) (omega arith) (λ i at. nothing i) late
