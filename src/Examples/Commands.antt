-- ===== src/Examples/Commands.antt =====
-- The commands at one token and a cluster of two nodes.
use Prim.Native.Char.{code}
use Prim.Native.String.{◌∷◌ as ◌∷ˢ◌, [] as empty, ◌++◌ as ◌++ˢ◌}
use dknet.Base.Texts.{format_int, digits_from, digit}
use dknet.Base.{
  ℕ, zero, suc, ◌+◌, ◌*◌, ◌-◌, ◌≤◌, String, Bool, true, false, List, [], ◌∷◌, Option, none, some,
  Result, ok, err, Error, external, ◌≡◌, ◌≢◌, ◌⊎◌, refl, inl, inr, ◌↔◌, arith, ℤ, pos, negsuc, ◌==◌,
  ◌==ℕ◌, ◌&&◌, if◌then◌else◌, eq_iff, ne_of_==, ◌∙◌, lookup, leb,
}
use dknet.P2p.Network.{then_do}
use dknet.Config.{NodeConfig}
use dknet.Api.Auth.{
  Jwt, AuthConfig, AuthContext, Token, Claims, authenticate, text_claim, number_claim, list_claim,
  text_element, key_func,
}
use dknet.Cmd.Token.{TokenClaims, TokenFlags, Sign, generate_token, or_user, or_roles}
use dknet.Cmd.Token.RoundTrip.{SignLaws, Carried, InTime, authenticate-generate_token}
use dknet.Cmd.Cluster.{ClusterLibs, NodeInfo, node_config, cluster_config, node_multiaddr}
use dknet.Cmd.Show.{Scan, shown_multiaddr}

abbrev only_operator : List String → Bool
only_operator (role ∷ []) = role == "operator"
only_operator _ = false

abbrev in_an_hour : Option ℤ → Bool
in_an_hour (some (pos t)) = t ==ℕ 1700003600
in_an_hour _ = false

-- the one token that can be signed
abbrev signable : TokenClaims → Bool
signable c =
    (c.sub == "alice") && ((c.iss == "dknet-test") && (only_operator c.roles && in_an_hour c.exp))

abbrev sign : Sign
sign c key = if signable c && (key == "secret") then inr "signed" else inl (external "other")

abbrev token_claims : Claims
token_claims =
    ("sub", text_claim "alice")
    ∷ ("iss", text_claim "dknet-test")
    ∷ ("roles", list_claim (text_element "operator" ∷ []))
    ∷ ("exp", number_claim 1700003600)
    ∷ []

abbrev token : Token
token = record { hmac = true; alg = "HS256"; valid = true; claims = some token_claims }

abbrev jwt : Jwt
jwt = record {
  parse = λ text key_of. then_do (key_of token) (λ key.
      if (text == "signed") && (key == "secret") then ok token else err (external "signature"));
  int64_of = pos;
}

operator_only : (roles : List String) → only_operator roles ≡ true → roles ≡ "operator" ∷ []
operator_only [] h = absurd (ground arith)
operator_only (role ∷ []) h = ground (arith, eq_iff role "operator")
operator_only (role ∷ other ∷ roles) h = absurd (ground arith)

hour_only : (exp : Option ℤ) → in_an_hour exp ≡ true → exp ≡ some (pos 1700003600)
hour_only none h = absurd (ground arith)
hour_only (some (pos t)) h = ground arith
hour_only (some (negsuc t)) h = absurd (ground arith)

-- what is signed
record Signed (c : TokenClaims) (key text : String) : Type 0 where
  text_same : text ≡ "signed"
  key_same : key ≡ "secret"
  sub_same : c.sub ≡ "alice"
  iss_same : c.iss ≡ "dknet-test"
  roles_same : c.roles ≡ "operator" ∷ []
  exp_same : c.exp ≡ some (pos 1700003600)

sign-Signed : (c : TokenClaims) (key text : String) → sign c key ≡ inr text → Signed c key text
sign-Signed c key text h = record {
  text_same = ground arith;
  key_same = ground (arith, eq_iff key "secret");
  sub_same = ground (arith, eq_iff c.sub "alice");
  iss_same = ground (arith, eq_iff c.iss "dknet-test");
  roles_same = operator_only c.roles (ground arith);
  exp_same = hour_only c.exp (ground arith);
}

token_carries :
    (c : TokenClaims) (key text : String) → Signed c key text → Carried jwt c token_claims
unfolding lookup
token_carries c key text s = record {
  sub = rw s.sub_same refl;
  iss = rw s.iss_same refl;
  roles = rw s.roles_same refl;
  no_exp = λ h. absurd (ground (arith, s.exp_same));
  exp = λ t h. (1700003600, refl, ground (arith, s.exp_same));
}

parsed :
    (c : TokenClaims) (key text : String) (config : AuthConfig)
    → config.jwt_secret ≡ key
    → Signed c key text
    → (t : Token) × (claims : Claims) × (jwt.parse text (key_func config) ≡ ok t)
      × (t.valid ≡ true)
      × (t.claims ≡ some claims)
      × Carried jwt c claims
unfolding key_func
parsed c key text config same s =
    let secret : config.jwt_secret ≡ "secret" = same ∙ s.key_same in
    (token, token_claims, rw (s.text_same, secret) refl, refl, refl, token_carries c key text s)

sign-SignLaws : (later : ℕ) → SignLaws jwt sign later
sign-SignLaws later = record {
  nonempty = λ c key text h. rw (sign-Signed c key text h).text_same (ne_of_== refl);
  no_prefix = λ c key text h. rw (sign-Signed c key text h).text_same refl;
  parse-sign =
      λ c key text config h same lasting. parsed c key text config same (sign-Signed c key text h);
}

abbrev libs : ClusterLibs
libs = record {
  make_dir = λ dir. none;
  generate_key = λ dir. inr "16Uiu2";
  write_config = λ path cfg. none;
  write_info = λ info. none;
  write_compose = λ dir nodes. none;
  join = λ dir name. dir ++ˢ "/" ++ˢ name;
}

abbrev node_flags : TokenFlags
node_flags = record {
  user_id = "alice";
  roles = "operator" ∷ [];
  expiry_hours = pos 1;
  now = 1700000000000000000;
}

-- a node's configuration with its own issuer and secret
abbrev cfg : NodeConfig
cfg =
    let made : NodeConfig = node_config "node1" [] "127.0.0.1" 4001 8081 9095 false in
    record made {
      security = record made.security {
        api_auth = record { enabled = true; jwt_secret = "secret"; jwt_issuer = "dknet-test" };
      };
    }

generated : generate_token sign (ok cfg) node_flags ≡ ok "signed"
unfolding generate_token dknet.Cmd.Token.token_claims dknet.Cmd.Token.expiry dknet.Cmd.Token.hours
    dknet.Cmd.Token.unix_after
generated = refl

in_time : InTime 1700003599 node_flags.now node_flags.expiry_hours
in_time = (omega arith, omega arith)

authenticate-generate_token_example :
    (context : AuthContext) × (authenticate jwt cfg.security.api_auth 1700003599 "signed"
      ≡ ok context)
    × (context.authenticated ≡ true)
    × (context.user_id ≡ "alice")
    × (context.roles ≡ "operator" ∷ [])
authenticate-generate_token_example =
    authenticate-generate_token jwt sign 1700003599 (sign-SignLaws 1700003599) cfg node_flags
      "signed" generated in_time

abbrev infos : List NodeInfo
infos =
    record {
      index = 1;
      node_dir = "cluster/node1";
      peer_id = "16Uiu2";
      multiaddr = node_multiaddr false 1 "16Uiu2";
    }
    ∷ record {
      index = 2;
      node_dir = "cluster/node2";
      peer_id = "16Uiu2";
      multiaddr = node_multiaddr false 2 "16Uiu2";
    }
    ∷ []

abbrev configs : List (String × NodeConfig)
configs =
    (
      "cluster/node1/config.yaml",
      cluster_config false infos (record {
        index = 1;
        node_dir = "cluster/node1";
        peer_id = "16Uiu2";
        multiaddr = node_multiaddr false 1 "16Uiu2";
      }),
    )
    ∷ (
      "cluster/node2/config.yaml",
      cluster_config false infos (record {
        index = 2;
        node_dir = "cluster/node2";
        peer_id = "16Uiu2";
        multiaddr = node_multiaddr false 2 "16Uiu2";
      }),
    )
    ∷ []

-- `Sscanf` on digits
abbrev digits_value : ℕ → String → Option ℕ
digits_value n empty = some n
digits_value n (c ∷ˢ s) =
    let rest = digits_value (n * 10 + (code c - 48)) s in
    if leb 48 (code c) && leb (code c) 57 then rest else some n

abbrev scanned : Scan
scanned text = digits_value 0 text

abbrev second : NodeInfo
second = record { index = 2; node_dir = "n2"; peer_id = "16Uiu2"; multiaddr = "" }

shown :
    shown_multiaddr scanned (cluster_config false infos second) "16Uiu2"
    ≡ "/ip4/127.0.0.1/tcp/4002/p2p/16Uiu2"
unfolding shown_multiaddr cluster_config node_config format_int digits_from digit
    dknet.Cmd.Show.listen_of dknet.Cmd.Show.build_display_multiaddr dknet.Cmd.Show.address_text
    dknet.Cmd.Show.split_slash dknet.Cmd.Cluster.node_p2p_port dknet.Cmd.Cluster.node_listen_addr
    dknet.Cmd.Cluster.other_multiaddrs
shown = refl
