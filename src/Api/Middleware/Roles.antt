-- ===== src/Api/Middleware/Roles.antt =====
-- What `RequireRole` decides.
use dknet.Base.{
  String, true, List, [], ◌∷◌, Option, some, ok, M, ◌≡◌, ◌↔◌, inl, inr, refl, arith, eq_iff, ◌==◌,
  contains, Bool-cases,
}
use dknet.Api.Auth.{AuthContext}
use dknet.Api.Middleware.{is_required, has_role, require_role, refusal}
use dknet.Api.Replies.{Reply, error_reply}

-- a role of the one list is in the other
pub Shared : List String → List String → Type 0
Shared roles required =
    (role : String) × (contains roles role ≡ true) × (contains required role ≡ true)

is_required-contains :
    (role : String) (required : List String) → is_required role required ≡ contains required role
unfolding is_required contains
is_required-contains role [] = refl
is_required-contains role (r ∷ l) =
    ground (arith, is_required-contains role l, eq_iff role r, eq_iff r role)

has_role_iff :
    (roles required : List String) → (has_role roles required ≡ true) ↔ Shared roles required
unfolding has_role contains Shared
has_role_iff [] required = (λ h. ground arith, λ (role, h, _). ground arith)
has_role_iff (r ∷ roles) required = (
  λ h. elim (Bool-cases (contains required r)) [
    | inl e ↦ (r, ground (arith, eq_iff r r), e)
    | inr e ↦
        let rest : has_role roles required ≡ true =
          ground (arith, is_required-contains r required) in
        let (role, mine, theirs) = (has_role_iff roles required).0 rest in
        (role, ground arith, theirs)
  ],
  λ (role, mine, theirs). elim (Bool-cases (r == role)) [
    | inl e ↦ ground (arith, is_required-contains r required, eq_iff r role)
    | inr e ↦
        let rest : contains roles role ≡ true = ground arith in
        let later : has_role roles required ≡ true =
          (has_role_iff roles required).1 (role, rest, theirs) in
        ground arith
  ],
)

module _ {S A : Type 0} (required : List String) (next : Option AuthContext → M S (Reply A))
    (context : AuthContext) (s : S) where
  -- An authenticated user with one of the required roles reaches the handler; without one, the
  -- request is refused with 403 and nothing changes.
  pub require_role_lem :
      context.authenticated ≡ true
      → (Shared context.roles required
          → require_role required next (some context) s ≡ next (some context) s)
        × (¬ Shared context.roles required
            → require_role required next (some context) s
              ≡ (ok (error_reply 403 (refusal "Insufficient permissions" "FORBIDDEN")), s))
  unfolding require_role
  require_role_lem authenticated = (
    λ shared. rw authenticated (rw ((has_role_iff context.roles required).1 shared) refl),
    λ alone. elim (Bool-cases (has_role context.roles required)) [
      | inl e ↦ absurd (alone ((has_role_iff context.roles required).0 e))
      | inr e ↦ rw authenticated (rw e refl)
    ],
  )
