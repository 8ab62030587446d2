-- ===== src/Tests/Clients.antt =====
-- pkg/client/shared, pkg/server/server_control_plane.go: two servers, of which the second leads.
use razpravljalnica.Base.{
  nat_eq, string_eq, ℕ, Bool, String, [], if◌then◌else◌, inl, inr, none, refl, some, true, suc,
  ◌==◌, ◌∷◌, ◌≡◌, ◌⊎◌,
}
use razpravljalnica.Outcome.{returns}
use razpravljalnica.Status.{CallError, status, failed_precondition, unavailable}
use razpravljalnica.Client.{is_retryable, try_control_plane_request, try_client_request}
use razpravljalnica.Client.Leader.{all_passed, fails, try_request-changes_leader}
use razpravljalnica.Client.Retry.{ClientSet}

abbrev dials : String → Bool
dials address = true

-- The HEAD and the TAIL, from the leader; the world counts the calls.
abbrev get_cluster : String → ℕ → ℕ × (CallError ⊎ (String × String))
get_cluster address n =
    (suc n, if address == "b" then inr (":1", ":2") else inl (status failed_precondition))

-- A read that only the new TAIL answers.
abbrev fetch : ClientSet → ℕ → ℕ × (CallError ⊎ String)
fetch c n = elim c.tail_conn [
  | none ↦ (suc n, inl (status unavailable))
  | some address ↦ (suc n, if address == ":2" then inr "read" else inl (status unavailable))
]

abbrev clients : ClientSet
clients = record {
  control_conn = none;
  head_conn = some ":0";
  tail_conn = some ":0";
  control_plane_addrs = "a" ∷ "b" ∷ "c" ∷ [];
}

try_request-changes_leader_example :
    (try_control_plane_request dials get_cluster (some "a") ("a" ∷ "b" ∷ "c" ∷ []) 0
      ≡ (3, (some "b", inr (":1", ":2"))))
    × (try_client_request dials get_cluster (some "a") ("a" ∷ "b" ∷ "c" ∷ []) 0
        ≡ returns (3, (some "b", inr (":1", ":2"))))
unfolding is_retryable
try_request-changes_leader_example =
    try_request-changes_leader dials get_cluster ("a" ∷ []) ("c" ∷ []) "a" "b"
      (status failed_precondition) (":1", ":2") refl refl (fails refl refl refl all_passed) refl
      refl
