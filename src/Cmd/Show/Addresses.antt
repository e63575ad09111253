-- ===== src/Cmd/Show/Addresses.antt =====
-- The address that show-node shows against the one that init-cluster gives to the other nodes.
use Prim.Native.Nat.{◌/◌}
use Prim.Native.Char.{Char, code}
use Prim.Native.String.{◌∷◌ as ◌∷ˢ◌, ◌++◌ as ◌++ˢ◌, [] as empty}
use Prim.Native.String.append
use text.Mathlib.Text.{starts_with}
use dknet.Base.{
  ℕ, zero, suc, ◌+◌, ◌%◌, String, Bool, true, false, List, [], ◌∷◌, some, ◌≡◌, refl, sym, ap, ◌∙◌,
  ◌==ℕ◌, inl, inr, Bool-cases, ltb, if◌then◌else◌, ◌&&◌, not, length,
}
use dknet.Base.Texts.{format_int, digit, digits_from}
use dknet.Cmd.Cluster.{NodeInfo, cluster_config, node_config, node_multiaddr}
use dknet.Cmd.Show.{
  Scan, split_slash, push, listen_of, host_of, port_of, infer_ip_from_peer_id,
  infer_ip_from_bootstrap_peers, address_text, build_display_multiaddr, shown_multiaddr,
}

-- no character is a slash
abbrev Plain : String → Type 0
Plain empty = Unit
Plain (c ∷ˢ s) = ((code c ==ℕ b'/') ≡ false) × Plain s

module _ (t : String) where
  nil-append : empty ++ˢ t ≡ t
  nil-append = λ i. append.nil t i

  cons-append : (c : Char) (s : String) → (c ∷ˢ s) ++ˢ t ≡ c ∷ˢ (s ++ˢ t)
  cons-append c s = λ i. append.cons c s t i

pub append_assoc : (s t u : String) → (s ++ˢ t) ++ˢ u ≡ s ++ˢ (t ++ˢ u)
append_assoc empty t u = rw (nil-append t, nil-append (t ++ˢ u)) refl
append_assoc (c ∷ˢ s) t u =
    rw (cons-append t c s, cons-append u c (s ++ˢ t), cons-append (t ++ˢ u) c s)
      (ap (λ r. c ∷ˢ r) (append_assoc s t u))

Plain-append : (s t : String) → Plain s → Plain t → Plain (s ++ˢ t)
Plain-append empty t p q = rw (nil-append t) q
Plain-append (c ∷ˢ s) t (here, p) q = rw (cons-append t c s) (here, Plain-append s t p q)

Plain-if : (b : Bool) (s t : String) → Plain s → Plain t → Plain (if b then s else t)
Plain-if true s t p q = p
Plain-if false s t p q = q

digit-Plain : (d : ℕ) → Plain (digit d)
unfolding digit
digit-Plain d =
    Plain-if (d ==ℕ 0) "0" _ (refl, tt)
      (Plain-if (d ==ℕ 1) "1" _ (refl, tt)
        (Plain-if (d ==ℕ 2) "2" _ (refl, tt)
          (Plain-if (d ==ℕ 3) "3" _ (refl, tt)
            (Plain-if (d ==ℕ 4) "4" _ (refl, tt)
              (Plain-if (d ==ℕ 5) "5" _ (refl, tt)
                (Plain-if (d ==ℕ 6) "6" _ (refl, tt)
                  (Plain-if (d ==ℕ 7) "7" _ (refl, tt)
                    (Plain-if (d ==ℕ 8) "8" "9" (refl, tt) (refl, tt)))))))))

digits_from-Plain : (fuel n : ℕ) (acc : String) → Plain acc → Plain (digits_from fuel n acc)
unfolding digits_from
digits_from-Plain zero n acc p = p
digits_from-Plain (suc fuel) n acc p =
    let here = Plain-append (digit (n % 10)) acc (digit-Plain (n % 10)) p in
    Plain-if (ltb n 10) _ _ here (digits_from-Plain fuel (n / 10) (digit (n % 10) ++ˢ acc) here)

format_int-Plain : (n : ℕ) → Plain (format_int n)
unfolding format_int
format_int-Plain n = digits_from-Plain (suc n) n empty tt

-- a text without slashes in front of the first part
abbrev prepend : String → List String → List String
prepend p [] = p ∷ []
prepend p (part ∷ parts) = (p ++ˢ part) ∷ parts

abbrev NonEmpty : List String → Type 0
NonEmpty [] = ⊥
NonEmpty (x ∷ xs) = Unit

push-NonEmpty : (c : Char) (l : List String) → NonEmpty (push c l)
push-NonEmpty c [] = tt
push-NonEmpty c (x ∷ l) = tt

split_slash-NonEmpty : (s : String) → NonEmpty (split_slash s)
unfolding split_slash
split_slash-NonEmpty empty = tt
split_slash-NonEmpty (c ∷ˢ s) = elim (Bool-cases (code c ==ℕ b'/')) [
  | inl e ↦ rw e tt
  | inr e ↦ rw e (push-NonEmpty c (split_slash s))
]

prepend-nil : (l : List String) → NonEmpty l → l ≡ prepend empty l
prepend-nil [] h = absurd h
prepend-nil (x ∷ l) h = ap (λ y. y ∷ l) (sym (nil-append x))

push-prepend :
    (c : Char) (p : String) (l : List String)
    → NonEmpty l
    → push c (prepend p l) ≡ prepend (c ∷ˢ p) l
push-prepend c p [] h = absurd h
push-prepend c p (x ∷ l) h = ap (λ y. y ∷ l) (sym (cons-append x c p))

split_slash-append : (p t : String) → Plain p → split_slash (p ++ˢ t) ≡ prepend p (split_slash t)
unfolding split_slash
split_slash-append empty t h =
    rw (nil-append t) (prepend-nil (split_slash t) (split_slash-NonEmpty t))
split_slash-append (c ∷ˢ p) t (here, h) = rw (cons-append t c p) (
    rw here (
      ap (push c) (split_slash-append p t h)
      ∙ push-prepend c p (split_slash t) (split_slash-NonEmpty t)))

split_slash-slash : (t : String) → split_slash ("/" ++ˢ t) ≡ "" ∷ split_slash t
unfolding split_slash
split_slash-slash t =
    ap split_slash (cons-append t "/" empty ∙ ap (λ r. "/" ∷ˢ r) (nil-append t)) ∙ refl

split_slash-Plain : (p : String) → Plain p → split_slash p ≡ p ∷ []
unfolding split_slash
split_slash-Plain empty h = refl
split_slash-Plain (c ∷ˢ p) (here, h) = rw here (rw (split_slash-Plain p h) refl)

-- a part between two slashes
next_part : (p t : String) → Plain p → split_slash (p ++ˢ ("/" ++ˢ t)) ≡ (p ++ˢ "") ∷ split_slash t
next_part p t h = split_slash-append p ("/" ++ˢ t) h ∙ ap (prepend p) (split_slash-slash t)

listen_parts :
    (port : String)
    → Plain port
    → split_slash ("/ip4/" ++ˢ ("127.0.0.1" ++ˢ ("/tcp/" ++ˢ port)))
      ≡ "" ∷ "ip4" ∷ "127.0.0.1" ∷ "tcp" ∷ port ∷ []
listen_parts port plain =
    let host : String = "127.0.0.1" ++ˢ ("/tcp/" ++ˢ port) in
    let first : "/ip4/" ++ˢ host ≡ "/" ++ˢ ("ip4" ++ˢ ("/" ++ˢ host)) =
      append_assoc "/" "ip4/" host ∙ ap (λ t. "/" ++ˢ t) (append_assoc "ip4" "/" host) in
    let second : "/tcp/" ++ˢ port ≡ "/" ++ˢ ("tcp" ++ˢ ("/" ++ˢ port)) =
      append_assoc "/" "tcp/" port ∙ ap (λ t. "/" ++ˢ t) (append_assoc "tcp" "/" port) in
    ap split_slash first
    ∙ split_slash-slash ("ip4" ++ˢ ("/" ++ˢ host))
    ∙ ap (λ l. "" ∷ l) (next_part "ip4" host (refl, (refl, (refl, tt))))
    ∙ ap (λ t. "" ∷ "ip4" ∷ split_slash ("127.0.0.1" ++ˢ t)) second
    ∙ ap (λ l. "" ∷ "ip4" ∷ l)
        (next_part "127.0.0.1" ("tcp" ++ˢ ("/" ++ˢ port))
          (refl, (refl, (refl, (refl, (refl, (refl, (refl, (refl, (refl, tt))))))))))
    ∙ ap (λ l. "" ∷ "ip4" ∷ "127.0.0.1" ∷ l) (next_part "tcp" port (refl, (refl, (refl, tt))))
    ∙ ap (λ l. "" ∷ "ip4" ∷ "127.0.0.1" ∷ "tcp" ∷ l) (split_slash-Plain port plain)

module _ (scan : Scan) where
  -- In a cluster on one machine, show-node shows the address of a node that init-cluster gives to the
  -- other nodes, if `Sscanf` reads the node's port back.
  pub shown-local :
      (infos : List NodeInfo) (info : NodeInfo) (peer_id : String)
      → scan (format_int (4000 + info.index)) ≡ some (4000 + info.index)
      → shown_multiaddr scan (cluster_config false infos info) peer_id
        ≡ node_multiaddr false info.index peer_id
  unfolding shown_multiaddr cluster_config node_multiaddr
  shown-local infos info peer_id reads =
      let port : ℕ = 4000 + info.index in
      rw (listen_parts (format_int port) (format_int-Plain port)) (rw reads refl)

  if_nothing : (b : Bool) (x y : String) → (if b && false then x else y) ≡ y
  if_nothing true x y = refl
  if_nothing false x y = refl

  unnamed_peer :
      (peer_id : String)
      → starts_with peer_id "node" ≡ false
      → infer_ip_from_peer_id scan peer_id ≡ ""
  unfolding infer_ip_from_peer_id
  unnamed_peer peer_id unnamed = rw unnamed refl

  unnamed_among :
      (peers : List String) (peer_id : String)
      → starts_with peer_id "node" ≡ false
      → infer_ip_from_bootstrap_peers scan peers peer_id ≡ ""
  unfolding infer_ip_from_bootstrap_peers
  unnamed_among peers peer_id unnamed = rw unnamed refl

  displayed :
      (peers : List String) (port : ℕ) (peer_id : String)
      → starts_with peer_id "node" ≡ false
      → build_display_multiaddr scan peers "0.0.0.0" port peer_id
        ≡ address_text scan "172.20.0.2" port peer_id
  unfolding build_display_multiaddr
  displayed peers port peer_id unnamed =
      rw (unnamed_peer peer_id unnamed, unnamed_among peers peer_id unnamed)
        (if_nothing (not (length peers ==ℕ 0)) _ _)

  listening_docker :
      scan "4001" ≡ some 4001 → listen_of scan ("/ip4/0.0.0.0/tcp/4001" ∷ []) ≡ ("0.0.0.0", 4001)
  unfolding listen_of host_of port_of split_slash format_int digits_from digit
  listening_docker reads = ap (λ o. ("0.0.0.0", port_of scan o)) reads

  first_node :
      (peer_id : String)
      → address_text scan "172.20.0.2" 4001 peer_id ≡ node_multiaddr true 1 peer_id
  unfolding node_multiaddr address_text format_int digits_from digit
  first_node peer_id =
      let id : String = "/p2p/" ++ˢ peer_id in
      let tail : String = "/tcp/4001/p2p/" ++ˢ peer_id in
      sym (append_assoc "/ip4/" "172.20.0.2" ("/tcp/" ++ˢ ("4001" ++ˢ id)))
      ∙ ap (λ t. "/ip4/172.20.0.2" ++ˢ t)
          (sym (append_assoc "/tcp/" "4001" id) ∙ sym (append_assoc "/tcp/4001" "/p2p/" peer_id))
      ∙ append_assoc "/ip4/172.20.0." "2" tail

  -- In a Docker cluster, show-node shows the address of node 1 whatever the node, with the node's own
  -- peer ID, unless that begins with "node", if `Sscanf` reads "4001" as a number.
  pub shown-docker :
      (infos : List NodeInfo) (info : NodeInfo) (peer_id : String)
      → scan "4001" ≡ some 4001
      → starts_with peer_id "node" ≡ false
      → shown_multiaddr scan (cluster_config true infos info) peer_id
        ≡ node_multiaddr true 1 peer_id
  unfolding shown_multiaddr cluster_config node_multiaddr address_text format_int digits_from
      node_config
  shown-docker infos info peer_id reads unnamed =
      let peers : List String = (cluster_config true infos info).p2p.bootstrap_peers in
      ap (λ l. build_display_multiaddr scan peers l.0 l.1 peer_id) (listening_docker reads)
      ∙ displayed peers 4001 peer_id unnamed
      ∙ first_node peer_id
