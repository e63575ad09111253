-- ===== src/Clients/Cli/Transports.antt =====
-- The commands over HTTP against the commands over gRPC.
use dknet.Base.{
  ℕ, String, true, false, Result, ok, err, ◌≡◌, ◌↔◌, refl, pos, sym, arith, continue, M, lift,
  ◌>>=◌, [],
}
use dknet.Tss.Env.{Env}
use dknet.Tss.Service.{Service}
use dknet.Api.Replies.{
  StartKeygenRequest, StartSigningRequest, StartResharingRequest, StartResponse, Reply, Rpc,
  internal,
}
use dknet.Api.Agreement.{SameAnswer, both_answer, both_fail, both_panic, starts-Agree}
use dknet.Clients.Cli.{
  KeygenFlags, SignFlags, ReshareFlags, Texts, Bodies, keygen_request, sign_request,
  reshare_request, http_result, rpc_result, send_keygen, send_sign, send_reshare, keygen_command,
  sign_command, reshare_command,
}

-- The node binds the request that was marshalled.
pub record BodiesLaws (bodies : Bodies) : Type 0 where
  pub keygen_binds : (r : StartKeygenRequest) → bodies.keygen_bound r ≡ ok r
  pub sign_binds : (r : StartSigningRequest) → bodies.sign_bound r ≡ ok r
  pub reshare_binds : (r : StartResharingRequest) → bodies.reshare_bound r ≡ ok r

-- The two leave the same state, and print the same response or both fail.
abbrev pub Alike : {S : Type 0} → Result StartResponse × S → Result StartResponse × S → Type 0
Alike x y = (x.1 ≡ y.1) × ((a : StartResponse) → (x.0 ≡ ok a) ↔ (y.0 ≡ ok a))

module _ (bodies : Bodies) {S : Type 0} where
  results-Alike :
      (text : String) (x : Result (Reply StartResponse)) (y : Result (Rpc StartResponse))
      → SameAnswer 202 500 internal x y
      → (s t : S) → s ≡ t
      → Alike
          (continue y (λ a. lift (rpc_result bodies text a)) t)
          (continue x (λ a. lift (http_result bodies a)) s)
  unfolding rpc_result http_result
  results-Alike text x y (both_answer a) s t same = (sym same, λ b. (λ h. h, λ h. h))
  results-Alike text x y (both_fail body format args) s t same =
      (sym same, λ b. (λ h. absurd (ground arith), λ h. absurd (ground arith)))
  results-Alike text x y both_panic s t same = (sym same, λ b. (λ h. h, λ h. h))

-- a request of each kind, for theorems that take all three
abbrev some_keygen : StartKeygenRequest
some_keygen = record { operation_id = ""; threshold = pos 0; participants = [] }

abbrev some_signing : StartSigningRequest
some_signing = record { operation_id = ""; message = []; key_id = ""; participants = [] }

abbrev some_resharing : StartResharingRequest
some_resharing = record {
  operation_id = "";
  key_id = "";
  new_threshold = pos 0;
  new_participants = [];
}

module _ (bodies : Bodies) (laws : BodiesLaws bodies) {D : Type 0} (env : Env D)
    (timestamp : ℕ → ℕ) where
  send_keygen-Alike :
      (r : StartKeygenRequest) (s : Service D)
      → Alike
          (send_keygen bodies env timestamp true r s)
          (send_keygen bodies env timestamp false r s)
  unfolding send_keygen
  send_keygen-Alike r s =
      let (same, answers) = (starts-Agree env timestamp r some_signing some_resharing s).0 in
      rw (laws.keygen_binds r) (results-Alike bodies "failed to start keygen" _ _ answers _ _ same)

  send_sign-Alike :
      (r : StartSigningRequest) (s : Service D)
      → Alike (send_sign bodies env timestamp true r s) (send_sign bodies env timestamp false r s)
  unfolding send_sign
  send_sign-Alike r s =
      let (same, answers) = (starts-Agree env timestamp some_keygen r some_resharing s).1 in
      rw (laws.sign_binds r) (results-Alike bodies "failed to start signing" _ _ answers _ _ same)

  send_reshare-Alike :
      (r : StartResharingRequest) (s : Service D)
      → Alike
          (send_reshare bodies env timestamp true r s)
          (send_reshare bodies env timestamp false r s)
  unfolding send_reshare
  send_reshare-Alike r s =
      let (same, answers) = (starts-Agree env timestamp some_keygen some_signing r s).2 in
      rw (laws.reshare_binds r)
        (results-Alike bodies "failed to start resharing" _ _ answers _ _ same)

  checked-Alike :
      {A : Type 0} (r : Result A) (f g : A → M (Service D) StartResponse) (s : Service D)
      → ((a : A) → Alike (f a s) (g a s))
      → Alike ((lift r >>= f) s) ((lift r >>= g) s)
  checked-Alike (ok a) f g s h = h a
  checked-Alike (err e) f g s h = (refl, λ a. (λ k. k, λ k. k))
  checked-Alike Result.panics f g s h = (refl, λ a. (λ k. k, λ k. k))

  -- Each of the commands that start an operation does the same at a node over gRPC and over HTTP, if
  -- the command's deadline does not pass before it is answered and the node binds the request that
  -- was marshalled: the node's handlers leave the same state, and the same response is printed or
  -- neither prints one.
  pub commands-Alike :
      (texts : Texts) (k : KeygenFlags) (g : SignFlags) (r : ReshareFlags) (s : Service D)
      → Alike
          (keygen_command bodies env timestamp true k s)
          (keygen_command bodies env timestamp false k s)
        × Alike
            (sign_command bodies env timestamp texts true g s)
            (sign_command bodies env timestamp texts false g s)
        × Alike
            (reshare_command bodies env timestamp true r s)
            (reshare_command bodies env timestamp false r s)
  unfolding keygen_command sign_command reshare_command
  commands-Alike texts k g r s = (
    checked-Alike (keygen_request k) _ _ s (λ a. send_keygen-Alike a s),
    checked-Alike (sign_request texts g) _ _ s (λ a. send_sign-Alike a s),
    checked-Alike (reshare_request r) _ _ s (λ a. send_reshare-Alike a s),
  )
