-- ===== src/Examples/Interfaces.antt =====
-- Requests over HTTP and gRPC in the sample world.
use dknet.Base
use dknet.Base.{
  ℕ, String, true, false, List, [], ◌∷◌, Option, none, some, Result, ok, err, Error, ◌≡◌, ◌≢◌, refl,
  pos, ne_of_==, ◌==◌, lookup, if◌then◌else◌, eq_iff, Bool-cases, ap, sym, ◌∙◌, ◌↔◌, inl, inr,
  arith,
}
use dknet.Tss.Types.{PartyId}
use dknet.Tss.Env.{Env}
use dknet.Tss.Service.{find_party, create_participant_list, new_party_id}
use dknet.Api.Auth.{
  Jwt, AuthConfig, AuthContext, Token, Claims, text_claim, list_claim, text_element, authenticate,
  check_token, check_claims, key_func, trim_prefix, context_of,
}
use dknet.Api.Auth.Claims.{Describes}
use dknet.Api.Auth.Credentials.{Accepted, authenticate_iff}
use dknet.Api.Replies.{
  StartKeygenRequest, StartSigningRequest, StartResharingRequest, Rpc, rpc_ok, internal, not_found,
}
use dknet.Api.Http.{
  keygen_handler, sign_handler, reshare_handler, get_operation_handler, get_key_metadata_handler,
}
use dknet.Api.Http.Visible.{move_invisible}
use dknet.Api.Http.Started.{keygen_then_get, accepted, shown, requested, IsInt32, natural}
use dknet.Api.Grpc.{
  rpc_start_keygen, rpc_start_signing, rpc_start_resharing, rpc_get_operation, rpc_get_key_metadata,
}
use dknet.Api.Agreement.{Agree, interfaces-Agree}
use dknet.Api.Middleware.{unauthorized, grpc_auth_interceptor, grpc_auth_stream_interceptor}
use dknet.Api.Routes.{operation_path, api, handler, serve}
use dknet.Api.Routes.Guarded.{
  JwtLaws, Guarded, CallGuarded, IsCredential, serve-Guarded, calls_guarded,
}
use dknet.Samples.{Db, world, idle, names, storage-StorageLaws, tree}
use dknet.Examples.Endings.{
  busy, done_signing, moved, signing-OperationJson, filed, signing-IsStorable, saved_signing,
}

abbrev alice : Env Db
alice = world "alice"

abbrev seconds : ℕ → ℕ
seconds t = t

texts : (e : Error) → alice.error_text e ≢ ""
texts e = ne_of_== refl

move_invisible_example :
    ((get_operation_handler alice seconds "sign-1" moved).0
      ≡ (get_operation_handler alice seconds "sign-1" (busy done_signing)).0)
    × ((rpc_get_operation alice seconds "sign-1" moved).0
        ≡ (rpc_get_operation alice seconds "sign-1" (busy done_signing)).0)
move_invisible_example =
    move_invisible alice seconds texts tree storage-StorageLaws done_signing signing-OperationJson 0
      (busy done_signing) (filed done_signing) refl signing-IsStorable
      (saved_signing (busy done_signing))

abbrev keygen_body : StartKeygenRequest
keygen_body = record { operation_id = ""; threshold = pos 1; participants = names }

abbrev sign_body : StartSigningRequest
sign_body = record {
  operation_id = "";
  message = 104 ∷ [];
  key_id = "0x0102";
  participants = names;
}

abbrev reshare_body : StartResharingRequest
reshare_body = record {
  operation_id = "";
  key_id = "0x0102";
  new_threshold = pos 1;
  new_participants = names;
}

interfaces-Agree_example :
    Agree 202 500 internal
      (keygen_handler alice seconds (ok keygen_body))
      (rpc_start_keygen alice seconds keygen_body)
      (busy done_signing)
    × Agree 202 500 internal
        (sign_handler alice seconds (ok sign_body))
        (rpc_start_signing alice seconds none sign_body)
        (busy done_signing)
    × Agree 202 500 internal
        (reshare_handler alice seconds (ok reshare_body))
        (rpc_start_resharing alice seconds reshare_body)
        (busy done_signing)
    × Agree 200 404 not_found
        (get_operation_handler alice seconds "sign-1")
        (rpc_get_operation alice seconds "sign-1")
        (busy done_signing)
    × Agree 200 500 internal
        (get_key_metadata_handler alice seconds "0x0102")
        (rpc_get_key_metadata alice seconds "0x0102")
        (busy done_signing)
interfaces-Agree_example =
    interfaces-Agree alice seconds keygen_body sign_body reshare_body "sign-1" "0x0102"
      (busy done_signing)

abbrev self : PartyId
self = new_party_id alice "alice"

takes_part : find_party "alice" (create_participant_list alice names) ≡ some self
unfolding find_party create_participant_list new_party_id
takes_part = refl

small : IsInt32 (pos 1)
small = natural 1 (omega arith)

keygen_then_get_example :
    ((keygen_handler alice seconds (ok keygen_body) idle).0
      ≡ ok (accepted alice seconds (pos 1) names self idle))
    × (get_operation_handler alice seconds "id-0" (requested alice seconds (pos 1) names self idle)
        ≡ (
          ok (shown alice seconds (pos 1) names self idle (pos 1)),
          requested alice seconds (pos 1) names self idle,
        ))
keygen_then_get_example = keygen_then_get alice seconds (pos 1) names self idle small takes_part

-- a token of the issuer "dknet" for the user "ann", which never expires
abbrev claims : Claims
claims =
    ("iss", text_claim "dknet")
    ∷ ("sub", text_claim "ann")
    ∷ ("roles", list_claim (text_element "admin" ∷ []))
    ∷ []

abbrev token : Token
token = record { hmac = true; alg = "HS256"; valid = true; claims = some claims }

-- only the text "t.s" is a token, and its key is "secret"
abbrev verified : Result String → Result Token
verified (ok key) = if key == "secret" then ok token else err (Error.external "signature")
verified (err e) = err e
verified Result.panics = Result.panics

abbrev jwt : Jwt
jwt = record {
  parse = λ t f. if t == "t.s" then verified (f token) else err (Error.external "malformed");
  int64_of = λ f. pos f;
}

abbrev IsSigned : String → String → Type 0
IsSigned t key = (t ≡ "t.s") × (key ≡ "secret")

verified_signed :
    (r : Result String) (t : Token)
    → verified r ≡ ok t
    → (key : String) × (r ≡ ok key) × (key ≡ "secret") × (token ≡ t)
verified_signed (ok key) t h =
    (key, refl, ground (arith, eq_iff key "secret"), ground (arith, eq_iff key "secret"))
verified_signed (err e) t h = ground arith
verified_signed Result.panics t h = ground arith

parse_signed :
    (text : String) (key_of : Token → Result String) (t : Token)
    → jwt.parse text key_of ≡ ok t
    → (key : String) × (key_of t ≡ ok key) × IsSigned text key
parse_signed text key_of t h = elim (Bool-cases (text == "t.s")) [
  | inl e ↦
      let same : verified (key_of token) ≡ ok t = ground arith in
      let (key, given, secret, returned) = verified_signed (key_of token) t same in
      (key, ap key_of (sym returned) ∙ given, ((eq_iff text "t.s").0 e, secret))
  | inr e ↦ ground arith
]

jwt-JwtLaws : JwtLaws jwt IsSigned
jwt-JwtLaws = record { parse_signed = parse_signed }

abbrev config : AuthConfig
config = record { enabled = true; jwt_secret = "secret"; jwt_issuer = "dknet" }

abbrev ann : AuthContext
ann = context_of jwt config 12 claims

ann_accepted : authenticate jwt config 12 "Bearer t.s" ≡ ok ann
unfolding authenticate check_token check_claims key_func trim_prefix lookup
ann_accepted = refl

authenticate_iff_example :
    (authenticate jwt config 12 "Bearer t.s" ≡ ok ann)
    ↔ ((t : Token) × (c : Claims) × Accepted jwt config 12 "Bearer t.s" t c × Describes c ann)
authenticate_iff_example = authenticate_iff jwt config 12 "Bearer t.s" ann refl

serve-Guarded_example :
    Guarded
      (IsCredential jwt IsSigned jwt-JwtLaws config 12 refl "Bearer t.s")
      (λ (context : AuthContext).
        handler alice seconds (operation_path "sign-1") (busy done_signing))
      unauthorized
      (busy done_signing)
      (serve alice seconds jwt config 12
        (api (operation_path "sign-1"))
        "Bearer t.s"
        (busy done_signing))
serve-Guarded_example =
    serve-Guarded jwt IsSigned jwt-JwtLaws config 12 refl alice seconds (operation_path "sign-1")
      "Bearer t.s" (busy done_signing)

-- a handler that answers the user's name
abbrev who : Option AuthContext → Base.M ℕ (Rpc String)
who none s = (ok (rpc_ok ""), s)
who (some context) s = (ok (rpc_ok context.user_id), s)

calls_guarded_example :
    CallGuarded jwt IsSigned jwt-JwtLaws config 12 refl alice.error_text who 0
      (some ("t.s" ∷ []))
      (grpc_auth_interceptor jwt config 12 alice.error_text who (some ("t.s" ∷ [])) 0)
    × CallGuarded jwt IsSigned jwt-JwtLaws config 12 refl alice.error_text who 0
        (some ("t.s" ∷ []))
        (grpc_auth_stream_interceptor jwt config 12 alice.error_text who (some ("t.s" ∷ [])) 0)
calls_guarded_example =
    calls_guarded jwt IsSigned jwt-JwtLaws config 12 refl alice.error_text who 0 (some ("t.s" ∷ []))
