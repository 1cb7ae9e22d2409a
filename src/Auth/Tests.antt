-- ===== src/Auth/Tests.antt =====
-- The theorems on refresh tokens at concrete inputs.
use actioneer_pulse.Common.{
  true, false, not, ◌&&◌, String, [], ◌∷◌, Option, none, some, ◌≡◌, refl, ℕ, ◌≤◌, is_some, str_eq,
  str_eq_refl, all, arith, find, ◌⊎◌,
}
use actioneer_pulse.Auth.Refresh.{
  Hasher, RefreshToken, Fresh, plaintext_of, minted, mint_refresh, find_token, find_row, prefix_of,
  after, before_underscore, rotate_refresh,
}
use actioneer_pulse.Auth.Refresh.Family.{live_in, Reachable, Reachable-live_in}
use actioneer_pulse.Auth.Refresh.Replay.{rotate_refresh-replayed}
use actioneer_pulse.Auth.Refresh.Mint.{mint_refresh-find_token}
use actioneer_pulse.Auth.Tokens.{
  IngestToken, token_prefix_of, resolve_rows, resolve_ingest_token, resolve_ingest_token-dead,
}
use actioneer_pulse.Auth.Access.{
  reply, http, Membership, AgentAccess, Call, get_scoped_call, permitted, get_scoped_call-permitted,
}
use actioneer_pulse.Common.Strings.{drop_prefix}

-- A hasher that keeps the plaintext.
abbrev open_hasher : Hasher
open_hasher = record { hash = λ salt p. p; verify = λ h p. str_eq h p }

abbrev draw : String → String → Fresh
draw family prefix = record {
  id = prefix;
  family = family;
  prefix = prefix;
  secret = "secret";
  salt = "salt";
}

abbrev token : Option ℕ → RefreshToken
token revoked = record {
  id = "a1";
  user_id = "ann";
  family_id = "home";
  token_prefix = "a1";
  token_hash = "vor_a1_secret";
  expires_at = 100;
  revoked_at = revoked;
  last_used_at = none;
  user_agent = none;
}

found :
    (r : Option ℕ)
    → find_token ⦃h = open_hasher⦄ (some "vor_a1_secret") (token r ∷ []) ≡ some (token r)
unfolding find_token find_row prefix_of after before_underscore str_eq
found r = refl

history :
    Reachable ⦃h = open_hasher⦄ 50
      (rotate_refresh ⦃h = open_hasher⦄ 50 7
        (draw "work" "b2")
        (some "vor_a1_secret")
        none
        (mint_refresh ⦃h = open_hasher⦄ 50 1 (draw "home" "a1") "ann" none none []).1).1
unfolding mint_refresh str_eq
history =
    Reachable.refreshed 7 (draw "work" "b2") (some "vor_a1_secret") none
      (Reachable.login 1 (draw "home" "a1") "ann" none Reachable.empty refl) refl

Reachable-live_in_example :
    live_in "home"
      (rotate_refresh ⦃h = open_hasher⦄ 50 7
        (draw "work" "b2")
        (some "vor_a1_secret")
        none
        (mint_refresh ⦃h = open_hasher⦄ 50 1 (draw "home" "a1") "ann" none none []).1).1
    ≤ 1
Reachable-live_in_example = Reachable-live_in ⦃h = open_hasher⦄ "home" history

rotate_refresh-replayed_example :
    let first =
      rotate_refresh ⦃h = open_hasher⦄ 50 7
        (draw "work" "b2")
        (some "vor_a1_secret")
        none
        (token none ∷ []) in
    let second =
      rotate_refresh ⦃h = open_hasher⦄ 50 9
        (draw "else" "c3")
        (some "vor_a1_secret")
        none
        first.1 in
    (is_some first.0 ≡ true) × (second.0 ≡ none) × (live_in "home" second.1 ≡ 0)
rotate_refresh-replayed_example =
    rotate_refresh-replayed ⦃h = open_hasher⦄ 50 7 9 (draw "work" "b2") (draw "else" "c3")
      (some "vor_a1_secret") none none (token none) (token none ∷ []) (found none) refl
      (omega arith)

unmatched :
    all
      (λ s. not (
        str_eq s.token_prefix "b2"
        && open_hasher.verify s.token_hash (plaintext_of (draw "work" "b2"))))
      (token none ∷ [])
    ≡ true
unfolding str_eq plaintext_of
unmatched = refl

mint_refresh-find_token_example :
    let m =
      mint_refresh ⦃h = open_hasher⦄ 50 7 (draw "work" "b2") "ann" none none (token none ∷ []) in
    find_token ⦃h = open_hasher⦄ (some m.0) m.1
    ≡ some (minted ⦃h = open_hasher⦄ 50 7 (draw "work" "b2") "ann" none none)
mint_refresh-find_token_example =
    mint_refresh-find_token ⦃h = open_hasher⦄ (λ salt p. str_eq_refl p) 50 7 (draw "work" "b2")
      "ann" none none (token none ∷ []) refl unmatched

abbrev ingest_token : IngestToken
ingest_token = record {
  org_id = "acme";
  agent_id = "agent";
  token_prefix = "p1";
  token_hash = "vo_p1_secret";
  name = none;
  revoked_at = some 5;
  last_used_at = none;
}

resolve_ingest_token-dead_example :
    resolve_ingest_token ⦃h = open_hasher⦄ 9 (some "vo_p1_secret") (ingest_token ∷ [])
    ≡ (none, ingest_token ∷ [])
resolve_ingest_token-dead_example =
    resolve_ingest_token-dead ⦃h = open_hasher⦄ 9 "vo_p1_secret" (ingest_token ∷ []) (refl, tt)

-- The same token resolves while it is not revoked.
resolved :
    (resolve_ingest_token ⦃h = open_hasher⦄ 9
      (some "vo_p1_secret")
      (record ingest_token { revoked_at = none } ∷ [])).0
    ≡ some ("acme", "agent")
unfolding resolve_ingest_token resolve_rows token_prefix_of drop_prefix before_underscore str_eq
resolved = refl

abbrev viewer : Membership
viewer = record { id = "m1"; user_id = "ann"; role = "viewer" }

abbrev grant : AgentAccess
grant = record { membership_id = "m1"; agent_id = "a1" }

abbrev foreign : Call
foreign = record { external_call_id = "c1"; agent_id = some "a2" }

get_scoped_call-permitted_example :
    ((get_scoped_call "c1" viewer (grant ∷ []) (foreign ∷ []) ≡ http 404 "call not found")
      × ((call : Call)
          → find (λ c. str_eq c.external_call_id "c1") (foreign ∷ []) ≡ some call
          → permitted viewer (grant ∷ []) call.agent_id ≡ false))
    ⊎ ((call : Call) × (get_scoped_call "c1" viewer (grant ∷ []) (foreign ∷ []) ≡ reply call)
        × (find (λ c. str_eq c.external_call_id "c1") (foreign ∷ []) ≡ some call)
        × (permitted viewer (grant ∷ []) call.agent_id ≡ true))
get_scoped_call-permitted_example =
    get_scoped_call-permitted "c1" viewer (grant ∷ []) (foreign ∷ [])
