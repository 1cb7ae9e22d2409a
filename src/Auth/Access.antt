-- ===== src/Auth/Access.antt =====
-- Who may see what: src/voiceobs/auth/deps.py. The cookie's claims, the users, the memberships, the
-- grants and the calls are arguments; an HTTPException is a reply with its status and text.
use actioneer_pulse.Common.{
  Bool, true, false, not, String, Option, none, some, List, [], ◌∷◌, ◌≡◌, refl, subst, arith, ◌||◌,
  find, filter, map, elem, nonempty, truthy?, str_eq, if◌then◌else◌, ℕ, ◌⊎◌, inl, inr, Option-cases,
  Bool-cases,
}

pub data Reply (A : Type 0) : Type 0 where
  reply : A → Reply A
  http : ℕ → String → Reply A

pub record AppUser : Type 0 where
  pub id : String
  pub is_active : Bool

pub record Membership : Type 0 where
  pub id : String
  pub user_id : String
  pub role : String

-- A row of `agent_access`: a membership and an agent.
pub record AgentAccess : Type 0 where
  pub membership_id : String
  pub agent_id : String

pub record Call : Type 0 where
  pub external_call_id : String
  pub agent_id : Option String

-- `current_user`, for the user id of the cookie and the users of its organisation's schema.
unfoldable pub current_user : Option String → List AppUser → Reply AppUser
current_user claim users = elim (truthy? claim) [
  | none ↦ http 401 "not authenticated"
  | some uid ↦ elim (find (λ u. str_eq u.id uid) users) [
    | none ↦ http 401 "not authenticated"
    | some user ↦ if user.is_active then reply user else http 401 "not authenticated"
  ]
]

unfoldable pub current_membership : AppUser → List Membership → Reply Membership
current_membership user memberships = elim (find (λ m. str_eq m.user_id user.id) memberships) [
  | none ↦ http 403 "no access to this organization"
  | some mem ↦ reply mem
]

unfoldable pub require_role : List String → Membership → Reply Membership
require_role roles mem = if elem mem.role roles then reply mem else http 403 "insufficient role"

abbrev pub is_admin : Membership → Bool
is_admin mem = elem mem.role ("owner" ∷ "admin" ∷ [])

abbrev pub grants_of : Membership → List AgentAccess → List String
grants_of mem grants = map (λ g. g.agent_id) (filter (λ g. str_eq g.membership_id mem.id) grants)

-- `visible_agent_ids`: none is all agents.
unfoldable pub visible_agent_ids : Membership → List AgentAccess → Option (List String)
visible_agent_ids mem grants =
    if is_admin mem
    then none
    else let ids = grants_of mem grants in if nonempty ids then some ids else none

-- `call.agent_id not in ids`
abbrev pub outside : Option (List String) → Call → Bool
outside none call = false
outside (some ids) call = elim call.agent_id [ none ↦ true | some a ↦ not (elem a ids) ]

unfoldable pub get_scoped_call : String → Membership → List AgentAccess → List Call → Reply Call
unfolding visible_agent_ids
get_scoped_call call_id mem grants calls =
    elim (find (λ c. str_eq c.external_call_id call_id) calls) [
      | none ↦ http 404 "call not found"
      | some call ↦
          if outside (visible_agent_ids mem grants) call
          then http 404 "call not found"
          else reply call
    ]

-- The member is an administrator, or has no grant at all, or has one for the agent.
abbrev pub permitted : Membership → List AgentAccess → Option String → Bool
permitted mem grants agent =
    is_admin mem
    || not (nonempty (grants_of mem grants))
    || elim agent [ none ↦ false | some a ↦ elem a (grants_of mem grants) ]

outside-permitted :
    (mem : Membership) (grants : List AgentAccess) (call : Call)
    → outside (visible_agent_ids mem grants) call ≡ not (permitted mem grants call.agent_id)
unfolding visible_agent_ids
outside-permitted mem grants call = ground arith

-- A call is shown exactly where one has this id and the member is permitted to see its agent's calls.
-- In every other case the answer is the same 404, so that it does not tell whether the call exists.
pub get_scoped_call-permitted :
    (call_id : String) (mem : Membership) (grants : List AgentAccess) (calls : List Call)
    → ((get_scoped_call call_id mem grants calls ≡ http 404 "call not found")
        × ((call : Call)
            → find (λ c. str_eq c.external_call_id call_id) calls ≡ some call
            → permitted mem grants call.agent_id ≡ false))
      ⊎ ((call : Call) × (get_scoped_call call_id mem grants calls ≡ reply call)
          × (find (λ c. str_eq c.external_call_id call_id) calls ≡ some call)
          × (permitted mem grants call.agent_id ≡ true))
unfolding get_scoped_call
get_scoped_call-permitted call_id mem grants calls =
    elim (Option-cases (find (λ c. str_eq c.external_call_id call_id) calls)) [
      | inl e ↦ inl (rw (get_scoped_call, e) refl, λ call f. absurd (ground (arith, e, f)))
      | inr (call, e) ↦ elim (Bool-cases (permitted mem grants call.agent_id)) [
        | inl y ↦
            inr (call, rw (get_scoped_call, e, outside-permitted mem grants call, y) refl, e, y)
        | inr n ↦ inl (
          rw (get_scoped_call, e, outside-permitted mem grants call, n) refl,
          λ other f.
              let same : call ≡ other = ground (arith, e, f) in
              subst (λ c. permitted mem grants c.agent_id ≡ false) same n,
        )
      ]
    ]
