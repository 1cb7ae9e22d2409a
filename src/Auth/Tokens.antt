-- ===== src/Auth/Tokens.antt =====
-- Ingest tokens: src/voiceobs/auth/tokens.py and the table `ingest_token`, the list of its rows.
use Prim.Native.String.{◌++◌ as append}
use actioneer_pulse.Common.{
  Bool, false, not, String, Option, none, some, List, [], ◌∷◌, ◌++◌, ◌≡◌, refl, arith, ◌&&◌, All,
  is_some, str_eq, truthy?, if◌then◌else◌, ℕ, Option-cases, inl, inr,
}
use actioneer_pulse.Common.Strings.{drop_prefix}
use actioneer_pulse.Auth.Refresh.{Hasher, before_underscore}

pub record IngestToken : Type 0 where
  pub org_id : String
  pub agent_id : String
  pub token_prefix : String
  pub token_hash : String
  pub name : Option String
  pub revoked_at : Option ℕ
  pub last_used_at : Option ℕ

-- What one mint draws: the two parts of the token and a salt.
pub record Drawn : Type 0 where
  pub prefix : String
  pub secret : String
  pub salt : String

-- f"vo_{prefix}_{secret}"
abbrev plaintext_of : Drawn → String
plaintext_of new = append "vo_" (append new.prefix (append "_" new.secret))

-- `parts[1]` of a token, where it begins with "vo_" and `split("_", 2)` has three parts.
unfoldable pub token_prefix_of : Option String → Option String
unfolding drop_prefix before_underscore
token_prefix_of plaintext = elim (truthy? plaintext) [
  | none ↦ none
  | some token ↦ elim (drop_prefix "vo_" token) [ none ↦ none | some rest ↦ before_underscore rest ]
]

module _ ⦃h : Hasher⦄ where
  unfoldable pub mint_ingest_token :
      Drawn → String → String → Option String → List IngestToken → String × List IngestToken
  mint_ingest_token new org agent name rows = (
    plaintext_of new,
    rows
        ++ record {
          org_id = org;
          agent_id = agent;
          token_prefix = new.prefix;
          token_hash = h.hash new.salt (plaintext_of new);
          name = name;
          revoked_at = none;
          last_used_at = none;
        }
          ∷ [],
  )

  -- The row is queried and its hash fits.
  abbrev pub opens : String → String → IngestToken → Bool
  opens prefix token r =
      str_eq r.token_prefix prefix && not (is_some r.revoked_at) && h.verify r.token_hash token

  -- The loop over the rows, with the stamp of the row that opens.
  unfoldable pub resolve_rows :
      ℕ → String → String → List IngestToken → Option (String × String) × List IngestToken
  resolve_rows now prefix token [] = (none, [])
  resolve_rows now prefix token (r ∷ rows) =
      let (found, rest) = resolve_rows now prefix token rows in
      if opens prefix token r
      then (some (r.org_id, r.agent_id), record r { last_used_at = some now } ∷ rows)
      else (found, r ∷ rest)

  unfoldable pub resolve_ingest_token :
      ℕ → Option String → List IngestToken → Option (String × String) × List IngestToken
  unfolding resolve_rows token_prefix_of
  resolve_ingest_token now none rows = (none, rows)
  resolve_ingest_token now (some token) rows = elim (token_prefix_of (some token)) [
    | none ↦ (none, rows)
    | some prefix ↦ resolve_rows now prefix token rows
  ]

  -- Every row that the token fits is revoked.
  abbrev pub IsDead : String → List IngestToken → Type 0
  IsDead token rows =
      All (λ r. not (is_some r.revoked_at) && h.verify r.token_hash token ≡ false) rows

  resolve_rows-dead :
      (now : ℕ) (prefix token : String) (rows : List IngestToken)
      → IsDead token rows
      → resolve_rows now prefix token rows ≡ (none, rows)
  unfolding resolve_rows
  resolve_rows-dead now prefix token [] d = refl
  resolve_rows-dead now prefix token (r ∷ rows) d =
      ground (arith, resolve_rows-dead now prefix token rows)

  -- A token whose rows are all revoked resolves to nothing and stamps no row, whatever other tokens
  -- the table holds.
  pub resolve_ingest_token-dead :
      (now : ℕ) (token : String) (rows : List IngestToken)
      → IsDead token rows
      → resolve_ingest_token now (some token) rows ≡ (none, rows)
  unfolding resolve_ingest_token
  resolve_ingest_token-dead now token rows d = elim (Option-cases (token_prefix_of (some token))) [
    | inl e ↦ rw (resolve_ingest_token, e) refl
    | inr (p, e) ↦ rw (resolve_ingest_token, e) (resolve_rows-dead now p token rows d)
  ]
