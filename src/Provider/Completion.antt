-- ===== src/Provider/Completion.antt =====
-- Completions of operations: crates/uf-core/src/provider.rs.
use uflow.Prelude.{
  is_some, ℕ, Bool, true, false, ◌&&◌, ◌||◌, not, Option, Result, ok, err, if◌then◌else◌,
}
use uflow.Prelude.Text.{Str, text}
use uflow.Provider.Types.{
  ResourceRef, Descriptor, AccessRef, ProviderError, provider_error, provider_protocol_error,
}

pub data CompletionState : Type 0 where
  submitted running complete failed canceled : CompletionState

-- `ProviderCompletionState::is_terminal`
unfoldable pub is_terminal : CompletionState → Bool
is_terminal submitted = false
is_terminal running = false
is_terminal complete = true
is_terminal failed = true
is_terminal canceled = true

pub data CompletionResult : Type 0 where
  unit : CompletionResult
  resource : ResourceRef → CompletionResult
  descriptor : Descriptor → CompletionResult
  access : AccessRef → CompletionResult
  checksum : (algorithm : Str) (value : ℕ) → CompletionResult
  bytes : (completed_bytes : ℕ) → CompletionResult

pub record Submission : Type 0 where
  pub provider_completion_id : Str
  pub initial_state : CompletionState

pub record Snapshot : Type 0 where
  pub provider_completion_id : Str
  pub state : CompletionState
  pub result : Option CompletionResult
  pub error : Option ProviderError

unfoldable pub terminal_rule :
    CompletionState
    → Option CompletionResult
    → Option ProviderError
    → Result ProviderError (Unit {0})
terminal_rule complete result error =
    if not (is_some result) || is_some error
    then err (
        provider_error provider_protocol_error
          (text "complete completion must carry exactly one result"))
    else ok tt
terminal_rule failed result error =
    if not (is_some error) || is_some result
    then err (
        provider_error provider_protocol_error
          (text "failed completion must carry exactly one error"))
    else ok tt
terminal_rule canceled result error =
    if is_some result
    then err
        (provider_error provider_protocol_error (text "canceled completion cannot carry a result"))
    else ok tt
terminal_rule _ result error = ok tt

-- `ProviderCompletionSnapshot::validate`
unfoldable pub validate : Snapshot → Result ProviderError (Unit {0})
unfolding is_terminal terminal_rule
validate s =
    if not (is_terminal s.state) && (is_some s.result || is_some s.error)
    then err (
        provider_error provider_protocol_error
          (text "non-terminal completion carries a terminal result"))
    else terminal_rule s.state s.result s.error
