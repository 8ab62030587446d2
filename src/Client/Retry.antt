-- ===== src/Client/Retry.antt =====
-- pkg/client/shared/shared.go, `resetClients` and `RetryFetch`: a client whose HEAD or TAIL is gone
-- asks the control plane for the new ones and tries once more. `get_cluster address` is the call
-- `GetClusterState`, with an error if there are no nodes.
use razpravljalnica.Base.{
  Bool, List, Option, String, false, if◌then◌else◌, inl, inr, not, some, true, ◌&&◌, ◌⊎◌,
}
use razpravljalnica.Outcome.{Outcome, returns, ◌>>=◌}
use razpravljalnica.Status.{CallError}
use razpravljalnica.Client.{is_server_unavailable, try_client_request}

pub record ClientSet : Type 0 where
  pub control_conn : Option String
  pub head_conn : Option String
  pub tail_conn : Option String
  pub control_plane_addrs : List String

-- The connections to a new HEAD and a new TAIL, by way of a leader.
abbrev pub moved : ClientSet → String → String → String → ClientSet
moved c leader head tail = record c {
  control_conn = some leader;
  head_conn = some head;
  tail_conn = some tail;
}

module _ {W : Type 0} {A : Type 0} (dials : String → Bool)
    (get_cluster : String → W → W × (CallError ⊎ (String × String)))
    (fetch : ClientSet → W → W × (CallError ⊎ A)) where
  -- The connections after a reset that has an answer, and whether it worked.
  abbrev connect : ClientSet → CallError ⊎ (String × String) → ClientSet × Bool
  connect c (inl e) = (c, false)
  connect c (inr (head, tail)) =
      if dials head && dials tail
      then (record c { head_conn = some head; tail_conn = some tail }, true)
      else (c, false)

  unfoldable pub reset_clients : ClientSet → W → Outcome (W × (ClientSet × Bool))
  reset_clients c w =
      try_client_request dials get_cluster c.control_conn c.control_plane_addrs w >>= λ r.
      returns (r.0, connect (record c { control_conn = r.1.0 }) r.1.1)

  unfoldable pub retry_fetch : ClientSet → W → Outcome (W × (ClientSet × (CallError ⊎ A)))
  unfolding reset_clients
  retry_fetch c w =
      let (w', answer) = fetch c w in
      elim answer [
        | inr a ↦ returns (w', (c, inr a))
        | inl e ↦
            if not (is_server_unavailable e)
            then returns (w', (c, inl e))
            else reset_clients c w' >>= λ r.
                let again = fetch r.1.0 r.0 in
                if not r.1.1
                then returns (r.0, (r.1.0, inl e))
                else returns (again.0, (r.1.0, again.1))
      ]
