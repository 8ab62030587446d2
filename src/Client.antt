-- ===== src/Client.antt =====
-- pkg/client/shared/shared.go, pkg/server/server_control_plane.go: requests to a control plane of
-- several servers, of which one leads. A connection is the address that it leads to. `W` is what the
-- requests act on; `request address` is a remote call, and `dials address` says whether
-- `grpc.NewClient` accepts an address. An error that is wrapped (`%w`) keeps its code; its text is
-- left out.
pub mod Leader
pub mod Retry
pub mod Connect
use razpravljalnica.Base.{
  Bool, List, Option, String, [], false, if◌then◌else◌, inl, inr, none, not, some, true, ◌∷◌, ◌⊎◌,
}
use razpravljalnica.Outcome.{Outcome, returns, panics}
use razpravljalnica.Status.{
  CallError, status, plain, failed_precondition, unavailable, unknown, deadline_exceeded, internal,
}

-- `isRetryableControlPlaneError` of an error
unfoldable pub is_retryable : CallError → Bool
is_retryable plain = true
is_retryable (status unavailable) = true
is_retryable (status failed_precondition) = true
is_retryable (status unknown) = true
is_retryable (status deadline_exceeded) = true
is_retryable (status _) = false

-- `isServerUnavailableError`; an error that is no status has the code `Unknown`.
unfoldable pub is_server_unavailable : CallError → Bool
is_server_unavailable (status unavailable) = true
is_server_unavailable (status failed_precondition) = true
is_server_unavailable (status internal) = true
is_server_unavailable _ = false

-- How the loop over the addresses ends.
pub data Tried (A : Type 0) : Type 0 where
  served : (address : String) → A → Tried A
  stopped : CallError → Tried A
  exhausted : Option CallError → Tried A

module _ {W : Type 0} {A : Type 0} (dials : String → Bool)
    (request : String → W → W × (CallError ⊎ A)) where
  unfoldable pub try_each : List String → Option CallError → W → W × Tried A
  try_each [] last_err w = (w, exhausted last_err)
  try_each (addr ∷ addrs) last_err w =
      let (w', answer) = request addr w in
      if not (dials addr) then try_each addrs (some plain) w else elim answer [
        | inr a ↦ (w', served addr a)
        | inl e ↦ if not (is_retryable e) then (w', stopped e) else try_each addrs (some e) w'
      ]

  -- The loop, from the connection that is there; the pair has the connection afterwards.
  abbrev server_result : Option String → W × Tried A → W × (Option String × (CallError ⊎ A))
  server_result conn (w, served addr a) = (w, (some addr, inr a))
  server_result conn (w, stopped e) = (w, (conn, inl e))
  server_result conn (w, exhausted (some e)) = (w, (conn, inl e))
  server_result conn (w, exhausted none) = (w, (conn, inl plain))

  -- `Node.tryControlPlaneRequest`
  unfoldable pub try_control_plane_request :
      Option String → List String → W → W × (Option String × (CallError ⊎ A))
  try_control_plane_request none addrs w = server_result none (try_each addrs none w)
  try_control_plane_request (some current) addrs w =
      let (w', answer) = request current w in
      elim answer [
        | inr a ↦ (w', (some current, inr a))
        | inl e ↦
            if not (is_retryable e)
            then (w', (some current, inl e))
            else server_result (some current) (try_each addrs none w')
      ]

  -- `ClientSet.TryControlPlaneRequest`, which panics if no server could handle the request
  abbrev client_result :
      Option String → W × Tried A → Outcome (W × (Option String × (CallError ⊎ A)))
  client_result conn (w, served addr a) = returns (w, (some addr, inr a))
  client_result conn (w, stopped e) = returns (w, (conn, inl e))
  client_result conn (w, exhausted _) = panics

  unfoldable pub try_client_request :
      Option String → List String → W → Outcome (W × (Option String × (CallError ⊎ A)))
  try_client_request none addrs w = client_result none (try_each addrs none w)
  try_client_request (some current) addrs w =
      let (w', answer) = request current w in
      elim answer [
        | inr a ↦ returns (w', (some current, inr a))
        | inl e ↦
            if not (is_retryable e)
            then returns (w', (some current, inl e))
            else client_result (some current) (try_each addrs none w')
      ]
