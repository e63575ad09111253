-- ===== src/Cmd/Cluster/Ports.antt =====
-- The ports of the nodes of a cluster on one machine.
use dknet.Base.{ℕ, ◌≤◌, ◌<◌, false, ◌≢◌, ◌↔◌, refl, arith, leb, Bool-cases, inl, inr}
use dknet.Cmd.Cluster.{http_port, grpc_port, node_p2p_port}

abbrev Between : ℕ → ℕ → Type 0
Between n i = (1 ≤ i) × (i ≤ n)

-- Two nodes of a cluster of `n` share no port, one node uses three, and all are numbers of ports.
pub record PortsApart (n : ℕ) : Type 0 where
  pub across :
      (i j : ℕ)
      → Between n i
      → Between n j
      → (http_port false i ≢ grpc_port false j)
        × (http_port false i ≢ node_p2p_port j false)
        × (grpc_port false i ≢ node_p2p_port j false)
  pub alike :
      (i j : ℕ)
      → i ≢ j
      → (http_port false i ≢ http_port false j)
        × (grpc_port false i ≢ grpc_port false j)
        × (node_p2p_port i false ≢ node_p2p_port j false)
  pub within :
      (i : ℕ)
      → Between n i
      → (http_port false i < 65536) × (grpc_port false i < 65536) × (node_p2p_port i false < 65536)

module _ (n : ℕ) where
  few-PortsApart : n ≤ 1014 → PortsApart n
  unfolding http_port grpc_port node_p2p_port
  few-PortsApart few = record {
    across = λ i j (a, b) (c, d). (λ h. omega arith, λ h. omega arith, λ h. omega arith);
    alike =
        λ i j other. (λ h. other (omega arith), λ h. other (omega arith), λ h. other (omega arith));
    within = λ i (a, b). (omega arith, omega arith, omega arith);
  }

  PortsApart-few : PortsApart n → n ≤ 1014
  unfolding http_port grpc_port node_p2p_port
  PortsApart-few p = elim (Bool-cases (leb n 1014)) [
    | inl few ↦ ground arith
    | inr many ↦
        let beyond : 1014 < n = ground arith in
        absurd ((p.across 1015 1 (omega arith, omega arith) (omega arith, omega arith)).0 refl)
  ]

  -- The nodes of a cluster that init-cluster makes for one machine share no port exactly when there are
  -- at most 1014 of them; with one more, an HTTP port is a gRPC port.
  pub PortsApart-iff : PortsApart n ↔ (n ≤ 1014)
  PortsApart-iff = (PortsApart-few, few-PortsApart)
