-- ===== src/Auth/Refresh.antt =====
-- Refresh tokens: src/voiceobs/auth/refresh.py and the table `refresh_token` of
-- src/voiceobs/db/models.py. The table is the list of its rows in the order of insertion. A request
-- reads the clock once. What `secrets`, `uuid4` and the hasher's salt draw comes as an argument.
pub mod Family
pub mod Replay
pub mod Mint
use Prim.Native.Char.{code}
use Prim.Native.String.{◌++◌ as append}
use actioneer_pulse.Common.{
  Bool, true, false, not, String, Option, none, some, List, [], ◌∷◌, ◌++◌, ◌&&◌, map, count,
  is_some, get_or, truthy?, str_eq, if◌then◌else◌, leb, ◌==◌, ℕ, ◌+◌,
}

-- argon2's `hash` with a salt, and `verify`, where false stands for VerifyMismatchError and
-- InvalidHashError.
pub record Hasher : Type 0 where
  pub hash : String → String → String
  pub verify : String → String → Bool

-- Moments are microseconds.
pub record RefreshToken : Type 0 where
  pub id : String
  pub user_id : String
  pub family_id : String
  pub token_prefix : String
  pub token_hash : String
  pub expires_at : ℕ
  pub revoked_at : Option ℕ
  pub last_used_at : Option ℕ
  pub user_agent : Option String

-- What one `mint_refresh` draws: the row's key, a family, the two parts of the token, a salt.
pub record Fresh : Type 0 where
  pub id : String
  pub family : String
  pub prefix : String
  pub secret : String
  pub salt : String

abbrev pub live : RefreshToken → Bool
live r = not (is_some r.revoked_at)

-- f"vor_{prefix}_{secret}"
unfoldable pub plaintext_of : Fresh → String
plaintext_of new = append "vor_" (append new.prefix (append "_" new.secret))

-- The text before the first "_", where there is one.
unfoldable pub before_underscore : String → Option String
before_underscore String.[] = none
before_underscore (String.◌∷◌ ch s) =
    if code ch == 95
    then some ""
    else elim (before_underscore s) [ none ↦ none | some p ↦ some (String.◌∷◌ ch p) ]

-- `s.startswith(p)`, and then the rest of s.
unfoldable pub after : String → String → Option String
after String.[] s = some s
after (String.◌∷◌ a p) String.[] = none
after (String.◌∷◌ a p) (String.◌∷◌ b s) = if code a == code b then after p s else none

-- `parts[1]`, where `plaintext.split("_", 2)` has three parts and begins with "vor".
unfoldable pub prefix_of : String → Option String
unfolding after before_underscore
prefix_of plaintext = elim (after "vor_" plaintext) [
  | none ↦ none
  | some rest ↦ before_underscore rest
]

module _ ⦃h : Hasher⦄ where
  -- The row that `mint_refresh` adds.
  abbrev pub minted : ℕ → ℕ → Fresh → String → Option String → Option String → RefreshToken
  minted ttl now new user family agent = record {
    id = new.id;
    user_id = user;
    family_id = get_or (truthy? family) new.family;
    token_prefix = new.prefix;
    token_hash = h.hash new.salt (plaintext_of new);
    expires_at = now + ttl;
    revoked_at = none;
    last_used_at = none;
    user_agent = agent;
  }

  unfoldable pub mint_refresh :
      ℕ
      → ℕ
      → Fresh
      → String
      → Option String
      → Option String
      → List RefreshToken
      → String × List RefreshToken
  mint_refresh ttl now new user family agent rows =
      (plaintext_of new, rows ++ minted ttl now new user family agent ∷ [])

  -- The loop of `_find`, over the rows with this prefix.
  unfoldable pub find_row : String → String → List RefreshToken → Option RefreshToken
  find_row prefix plaintext [] = none
  find_row prefix plaintext (r ∷ rows) =
      if str_eq r.token_prefix prefix && h.verify r.token_hash plaintext
      then some r
      else find_row prefix plaintext rows

  -- `_find`: an empty text has no prefix.
  unfoldable pub find_token : Option String → List RefreshToken → Option RefreshToken
  find_token none rows = none
  find_token (some plaintext) rows = elim (prefix_of plaintext) [
    | none ↦ none
    | some prefix ↦ find_row prefix plaintext rows
  ]

-- An UPDATE … SET revoked_at = now of the live rows under a condition.
unfoldable pub revoke_where : (RefreshToken → Bool) → ℕ → List RefreshToken → List RefreshToken
revoke_where p now [] = []
revoke_where p now (r ∷ rows) =
    (if p r && live r then record r { revoked_at = some now } else r) ∷ revoke_where p now rows

abbrev pub of_family : String → RefreshToken → Bool
of_family family r = str_eq r.family_id family

abbrev pub of_user : String → RefreshToken → Bool
of_user user r = str_eq r.user_id user

-- `_revoke_family`
unfoldable pub revoke_family : String → ℕ → List RefreshToken → List RefreshToken
revoke_family family now rows = revoke_where (of_family family) now rows

-- The assignments to one row, found by its key.
unfoldable pub retire : String → ℕ → Bool → List RefreshToken → List RefreshToken
retire id now used [] = []
retire id now used (r ∷ rows) =
    (if str_eq r.id id
      then record r {
        revoked_at = some now;
        last_used_at = if used then some now else r.last_used_at;
      }
      else r)
    ∷ retire id now used rows

module _ ⦃h : Hasher⦄ where
  unfoldable pub rotate_refresh :
      ℕ
      → ℕ
      → Fresh
      → Option String
      → Option String
      → List RefreshToken
      → Option (String × String) × List RefreshToken
  unfolding mint_refresh
  rotate_refresh ttl now new plaintext agent rows = elim (find_token plaintext rows) [
    | none ↦ (none, rows)
    | some row ↦
        if is_some row.revoked_at
        then (none, revoke_family row.family_id now rows)
        else if leb row.expires_at now
        then (none, rows)
        else let m =
            mint_refresh ttl now new row.user_id (some row.family_id) agent
              (retire row.id now true rows) in
          (some (m.0, row.user_id), m.1)
  ]

  unfoldable pub revoke_refresh : ℕ → Option String → List RefreshToken → List RefreshToken
  revoke_refresh now plaintext rows = elim (find_token plaintext rows) [
    | none ↦ rows
    | some row ↦ if live row then retire row.id now false rows else rows
  ]

-- `revoke_all`, with the count of the rows that the UPDATE touches.
unfoldable pub revoke_all : ℕ → String → List RefreshToken → ℕ × List RefreshToken
revoke_all now user rows =
    (count (λ r. of_user user r && live r) rows, revoke_where (of_user user) now rows)
