-- ===== src/Client/Connect.antt =====
-- pkg/client/client.go, pkg/client/shared/shared.go: the first connection of a client, and the end
-- of its connections.
use razpravljalnica.Base.{
  Bool, List, Option, String, [], if◌then◌else◌, inl, inr, none, not, some, true, ◌++◌, ◌∷◌, ◌≡◌,
  ◌⊎◌, refl,
}
use razpravljalnica.Outcome.{Outcome, returns, ◌>>=◌}
use razpravljalnica.Status.{CallError, plain}
use razpravljalnica.Client.{try_client_request}
use razpravljalnica.Client.Leader.{Passes, try_request-finds_leader}
use razpravljalnica.Client.Retry.{ClientSet}

-- The connections that `Close` closes, in its order.
unfoldable pub close : ClientSet → List String
close c = of_conn c.control_conn ++ of_conn c.head_conn ++ of_conn c.tail_conn
  where
    of_conn : Option String → List String
    of_conn none = []
    of_conn (some address) = address ∷ []

module _ {W : Type 0} (dials : String → Bool)
    (get_cluster : String → W → W × (CallError ⊎ (String × String))) where
  -- The connections as they are made one after the other, with the error of the first that fails.
  abbrev connect : ClientSet → CallError ⊎ (String × String) → ClientSet × Option CallError
  connect c (inl e) = (c, some e)
  connect c (inr (head, tail)) =
      let with_head : ClientSet = record c { head_conn = some head } in
      if not (dials head)
      then (c, some plain)
      else if not (dials tail)
      then (with_head, some plain)
      else (record with_head { tail_conn = some tail }, none)

  unfoldable pub new_client_set : List String → W → Outcome (W × (ClientSet × Option CallError))
  new_client_set addrs w =
      let clients : ClientSet = record {
        control_conn = none;
        head_conn = none;
        tail_conn = none;
        control_plane_addrs = addrs;
      } in
      try_client_request dials get_cluster clients.control_conn addrs w >>= λ r.
      returns (r.0, connect (record clients { control_conn = r.1.0 }) r.1.1)

  -- Where a leader is reached after servers that pass, and the HEAD and the TAIL that it names can
  -- be dialled, a client starts connected to all three.
  pub new_client_set_lem :
      (before after : List String) (leader head tail : String) {w v w' : W}
      → Passes dials get_cluster before w v
      → dials leader ≡ true
      → get_cluster leader v ≡ (w', inr (head, tail))
      → dials head ≡ true
      → dials tail ≡ true
      → new_client_set (before ++ leader ∷ after) w
        ≡ returns (
          w',
          (
            record {
              control_conn = some leader;
              head_conn = some head;
              tail_conn = some tail;
              control_plane_addrs = before ++ leader ∷ after;
            },
            none,
          ),
        )
  unfolding new_client_set
  new_client_set_lem before after leader head tail passes dial answers dial_head dial_tail =
      rw
        (
          (try_request-finds_leader dials get_cluster before after leader (head, tail) passes dial
              answers).1,
          dial_head,
          dial_tail,
        )
        refl
