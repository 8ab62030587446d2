-- ===== src/Client/Leader.antt =====
-- pkg/client/shared/shared.go, pkg/server/server_control_plane.go: a leader among the servers is
-- found.
use razpravljalnica.Base.{
  Bool, List, Option, String, [], false, inl, inr, none, some, true, ◌++◌, ◌∷◌, ◌≡◌, ◌⊎◌, refl, ap,
}
use razpravljalnica.Outcome.{returns}
use razpravljalnica.Status.{CallError, plain}
use razpravljalnica.Client.{
  is_retryable, served, try_each, try_control_plane_request, try_client_request,
}

module _ {W : Type 0} {A : Type 0} (dials : String → Bool)
    (request : String → W → W × (CallError ⊎ A)) where
  -- Servers that cannot be dialled, or answer with an error that another server may not give.
  pub data Passes : List String → W → W → Type 0 where
    all_passed : {w : W} → Passes [] w w
    no_dial :
        {addr : String} {addrs : List String} {w w' : W}
        → dials addr ≡ false
        → Passes addrs w w'
        → Passes (addr ∷ addrs) w w'
    fails :
        {addr : String} {addrs : List String} {w v w' : W} {e : CallError}
        → dials addr ≡ true
        → request addr w ≡ (v, inl e)
        → is_retryable e ≡ true
        → Passes addrs v w'
        → Passes (addr ∷ addrs) w w'

  try_each-served :
      (before after : List String) (leader : String) (last_err : Option CallError) {w v w' : W}
      (a : A)
      → Passes before w v
      → dials leader ≡ true
      → request leader v ≡ (w', inr a)
      → try_each dials request (before ++ leader ∷ after) last_err w ≡ (w', served leader a)
  unfolding try_each
  try_each-served [] after leader last_err a all_passed dial answers =
      rw (try_each, dial, ap (λ r. r.1) answers, ap (λ r. r.0) answers) refl
  try_each-served (addr ∷ before) after leader last_err a (no_dial none_there rest) dial answers =
      rw (try_each, none_there)
        (try_each-served before after leader (some plain) a rest dial answers)
  try_each-served (addr ∷ before) after leader last_err a (fails {e = e} there failed retry rest)
        dial answers =
      rw (try_each, there, ap (λ r. r.1) failed, ap (λ r. r.0) failed, retry)
        (try_each-served before after leader (some e) a rest dial answers)

  -- A client with no leader finds the one behind servers that are passed over.
  pub try_request-finds_leader :
      (before after : List String) (leader : String) {w v w' : W} (a : A)
      → Passes before w v
      → dials leader ≡ true
      → request leader v ≡ (w', inr a)
      → (try_control_plane_request dials request none (before ++ leader ∷ after) w
          ≡ (w', (some leader, inr a)))
        × (try_client_request dials request none (before ++ leader ∷ after) w
            ≡ returns (w', (some leader, inr a)))
  unfolding try_control_plane_request try_client_request
  try_request-finds_leader before after leader a passes dial answers =
      let found = try_each-served before after leader none a passes dial answers in
      (rw found refl, rw found refl)

  -- Where the server that is connected answers with an error that another server may not give,
  -- and each server before the leader in the list cannot be dialled or does the same, the request
  -- is answered by the leader and the connection is to the leader from then on, at a data server
  -- and at a client alike.
  pub try_request-changes_leader :
      (before after : List String) (old leader : String) {u w v w' : W} (e : CallError) (a : A)
      → request old u ≡ (w, inl e)
      → is_retryable e ≡ true
      → Passes before w v
      → dials leader ≡ true
      → request leader v ≡ (w', inr a)
      → (try_control_plane_request dials request (some old) (before ++ leader ∷ after) u
          ≡ (w', (some leader, inr a)))
        × (try_client_request dials request (some old) (before ++ leader ∷ after) u
            ≡ returns (w', (some leader, inr a)))
  unfolding try_control_plane_request try_client_request
  try_request-changes_leader before after old leader e a failed retry passes dial answers =
      let found = try_each-served before after leader none a passes dial answers in
      (
        rw (try_control_plane_request, ap (λ r. r.1) failed, ap (λ r. r.0) failed, retry, found)
            refl,
        rw (try_client_request, ap (λ r. r.1) failed, ap (λ r. r.0) failed, retry, found) refl,
      )
