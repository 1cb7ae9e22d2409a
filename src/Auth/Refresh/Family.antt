-- ===== src/Auth/Refresh/Family.antt =====
-- A family of refresh tokens has at most one that is live.
use actioneer_pulse.Common.{
  Bool, true, false, String, Option, none, some, List, [], ◌∷◌, ◌&&◌, count, count-append, get_or,
  truthy?, str_eq, str_eq_iff, str_eq_refl, if◌then◌else◌, ◌≡◌, refl, ℕ, ◌+◌, ◌≤◌, arith,
  Bool-cases, Option-cases, inl, inr,
}
use actioneer_pulse.Auth.Refresh.{
  Hasher, RefreshToken, Fresh, live, find_row, find_token, mint_refresh, minted, revoke_where,
  revoke_family, retire, rotate_refresh, revoke_refresh, revoke_all, of_family, of_user, prefix_of,
}

-- The live tokens of a family.
abbrev pub live_in : String → List RefreshToken → ℕ
live_in family rows = count (λ r. of_family family r && live r) rows

pub revoke_where-count_le :
    (p q : RefreshToken → Bool) (now : ℕ) (rows : List RefreshToken)
    → ((r : RefreshToken) (at : Option ℕ) → q (record r { revoked_at = at }) ≡ q r)
    → count (λ r. q r && live r) (revoke_where p now rows) ≤ count (λ r. q r && live r) rows
unfolding revoke_where
revoke_where-count_le p q now [] keeps = omega arith
revoke_where-count_le p q now (r ∷ rows) keeps =
    ground (arith, revoke_where-count_le p q now rows keeps, keeps r (some now))

pub revoke_where-count :
    (p : RefreshToken → Bool) (now : ℕ) (rows : List RefreshToken)
    → ((r : RefreshToken) (at : Option ℕ) → p (record r { revoked_at = at }) ≡ p r)
    → count (λ r. p r && live r) (revoke_where p now rows) ≡ 0
unfolding revoke_where
revoke_where-count p now [] keeps = refl
revoke_where-count p now (r ∷ rows) keeps =
    ground (arith, revoke_where-count p now rows keeps, keeps r (some now))

revoke_where-count_other :
    (user other : String) (now : ℕ) (rows : List RefreshToken)
    → str_eq user other ≡ false
    → count (λ r. of_user other r && live r) (revoke_where (of_user user) now rows)
      ≡ count (λ r. of_user other r && live r) rows
unfolding revoke_where
revoke_where-count_other user other now [] apart = refl
revoke_where-count_other user other now (r ∷ rows) apart = ground (
  arith,
  revoke_where-count_other user other now rows apart,
  str_eq_iff r.user_id user,
  str_eq_iff r.user_id other,
  str_eq_iff user other,
)

retire-count_le :
    (id family : String) (now : ℕ) (used : Bool) (rows : List RefreshToken)
    → live_in family (retire id now used rows) ≤ live_in family rows
unfolding retire
retire-count_le id family now used [] = omega arith
retire-count_le id family now used (r ∷ rows) =
    ground (arith, retire-count_le id family now used rows)

retire-count :
    (r : RefreshToken) (now : ℕ) (used : Bool) (prefix plaintext : String)
    (rows : List RefreshToken) ⦃h : Hasher⦄
    → find_row prefix plaintext rows ≡ some r
    → live r ≡ true
    → live_in r.family_id (retire r.id now used rows) + 1 ≤ live_in r.family_id rows
unfolding find_row retire
retire-count r now used prefix plaintext [] found alive = ground arith
retire-count r now used prefix plaintext (s ∷ rows) ⦃h⦄ found alive =
    elim (Bool-cases (str_eq s.token_prefix prefix && h.verify s.token_hash plaintext)) [
      | inl hit ↦ ground (
        arith,
        found,
        hit,
        alive,
        str_eq_refl r.id,
        str_eq_refl r.family_id,
        retire-count_le r.id r.family_id now used rows,
      )
      | inr miss ↦ ground (
        arith,
        miss,
        alive,
        str_eq_iff s.id r.id,
        retire-count r now used prefix plaintext rows (ground (arith, found, miss)) alive,
      )
    ]

module _ ⦃h : Hasher⦄ where
  -- A row of a user's login or of a rotation, put into a table without a live token of its family.
  mint_refresh-live_in :
      (ttl now : ℕ) (new : Fresh) (user : String) (family agent : Option String) (f : String)
      (rows : List RefreshToken)
      → live_in f (mint_refresh ttl now new user family agent rows).1
        ≡ live_in f rows + (if str_eq (get_or (truthy? family) new.family) f then 1 else 0)
  unfolding mint_refresh
  mint_refresh-live_in ttl now new user family agent f rows = ground (
    arith,
    count-append (λ r. of_family f r && live r) rows (minted ttl now new user family agent ∷ []),
  )

  find_token-retire :
      (r : RefreshToken) (now : ℕ) (used : Bool) (plaintext : Option String)
      (rows : List RefreshToken)
      → find_token plaintext rows ≡ some r
      → live r ≡ true
      → live_in r.family_id (retire r.id now used rows) + 1 ≤ live_in r.family_id rows
  unfolding find_token
  find_token-retire r now used none rows found alive = ground arith
  find_token-retire r now used (some p) rows found alive = elim (Option-cases (prefix_of p)) [
    | inl e ↦ ground (arith, found, e)
    | inr (prefix, e) ↦ retire-count r now used prefix p rows (ground (arith, found, e)) alive
  ]

-- What happens to the table: logins, refreshes and logouts, in any order. A login and a refresh
-- draw a family without a live token.
pub data Reachable ⦃h : Hasher⦄ (ttl : ℕ) : List RefreshToken → Type 0 where
  empty : Reachable ttl []
  login :
      {rows : List RefreshToken} (now : ℕ) (new : Fresh) (user : String) (agent : Option String)
      → Reachable ttl rows
      → live_in new.family rows ≡ 0
      → Reachable ttl (mint_refresh ttl now new user none agent rows).1
  refreshed :
      {rows : List RefreshToken} (now : ℕ) (new : Fresh) (plaintext agent : Option String)
      → Reachable ttl rows
      → live_in new.family rows ≡ 0
      → Reachable ttl (rotate_refresh ttl now new plaintext agent rows).1
  logged_out :
      {rows : List RefreshToken} (now : ℕ) (plaintext : Option String)
      → Reachable ttl rows
      → Reachable ttl (revoke_refresh now plaintext rows)
  logged_out_all :
      {rows : List RefreshToken} (now : ℕ) (user : String)
      → Reachable ttl rows
      → Reachable ttl (revoke_all now user rows).1

revoke_all-live_in :
    (now : ℕ) (user f : String) (rows : List RefreshToken)
    → live_in f (revoke_all now user rows).1 ≤ live_in f rows
unfolding revoke_all
revoke_all-live_in now user f rows =
    revoke_where-count_le (of_user user) (of_family f) now rows (λ r at. refl)

revoke_family-live_in :
    (now : ℕ) (g f : String) (rows : List RefreshToken)
    → live_in f (revoke_family g now rows) ≤ live_in f rows
unfolding revoke_family
revoke_family-live_in now g f rows =
    revoke_where-count_le (of_family g) (of_family f) now rows (λ r at. refl)

module _ ⦃h : Hasher⦄ where
  revoke_refresh-live_in :
      (now : ℕ) (plaintext : Option String) (f : String) (rows : List RefreshToken)
      → live_in f (revoke_refresh now plaintext rows) ≤ live_in f rows
  unfolding revoke_refresh
  revoke_refresh-live_in now plaintext f rows = elim (Option-cases (find_token plaintext rows)) [
    | inl e ↦ ground (arith, e)
    | inr (r, e) ↦ ground (arith, e, retire-count_le r.id f now false rows)
  ]

  rotated-live_in :
      (ttl now : ℕ) (new : Fresh) (plaintext agent : Option String) (r : RefreshToken) (f : String)
      (rows : List RefreshToken)
      → find_token plaintext rows ≡ some r
      → live r ≡ true
      → live_in f rows ≤ 1
      → live_in new.family rows ≡ 0
      → live_in f
          (mint_refresh ttl now new r.user_id
            (some r.family_id)
            agent
            (retire r.id now true rows)).1
        ≤ 1
  rotated-live_in ttl now new plaintext agent r f rows found alive one fresh = ground (
    arith,
    mint_refresh-live_in ttl now new r.user_id (some r.family_id) agent f
        (retire r.id now true rows),
    find_token-retire r now true plaintext rows found alive,
    retire-count_le r.id f now true rows,
    str_eq_iff r.family_id f,
    str_eq_iff new.family f,
  )

  rotate_refresh-live_in :
      (ttl now : ℕ) (new : Fresh) (plaintext agent : Option String) (f : String)
      (rows : List RefreshToken)
      → live_in f rows ≤ 1
      → live_in new.family rows ≡ 0
      → live_in f (rotate_refresh ttl now new plaintext agent rows).1 ≤ 1
  unfolding rotate_refresh
  rotate_refresh-live_in ttl now new plaintext agent f rows one fresh =
      elim (Option-cases (find_token plaintext rows)) [
        | inl e ↦ ground (arith, e, one)
        | inr (r, e) ↦ ground (
          arith,
          e,
          revoke_family-live_in now r.family_id f rows,
          rotated-live_in ttl now new plaintext agent r f rows e,
        )
      ]

  -- Whatever logins, refreshes and logouts have happened, in any order and at any times, with
  -- families drawn that have no live token yet: every family has at most one live token.
  pub Reachable-live_in :
      {ttl : ℕ} {rows : List RefreshToken} (f : String) → Reachable ttl rows → live_in f rows ≤ 1
  Reachable-live_in f Reachable.empty = omega arith
  Reachable-live_in {ttl} f (Reachable.login {rows} now new user agent before fresh) = ground (
    arith,
    mint_refresh-live_in ttl now new user none agent f rows,
    Reachable-live_in f before,
    str_eq_iff new.family f,
  )
  Reachable-live_in {ttl} f (Reachable.refreshed {rows} now new plaintext agent before fresh) =
      rotate_refresh-live_in ttl now new plaintext agent f rows (Reachable-live_in f before) fresh
  Reachable-live_in f (Reachable.logged_out {rows} now plaintext before) =
      omega (arith, revoke_refresh-live_in now plaintext f rows, Reachable-live_in f before)
  Reachable-live_in f (Reachable.logged_out_all {rows} now user before) =
      omega (arith, revoke_all-live_in now user f rows, Reachable-live_in f before)

-- A logout everywhere returns the number of the user's live tokens, leaves the user none, and
-- leaves the number of live tokens of every other user as it was.
pub revoke_all-count :
    (now : ℕ) (user other : String) (rows : List RefreshToken)
    → ((revoke_all now user rows).0 ≡ count (λ r. of_user user r && live r) rows)
      × (count (λ r. of_user user r && live r) (revoke_all now user rows).1 ≡ 0)
      × (str_eq user other ≡ false
          → count (λ r. of_user other r && live r) (revoke_all now user rows).1
            ≡ count (λ r. of_user other r && live r) rows)
unfolding revoke_all
revoke_all-count now user other rows = (
  refl,
  revoke_where-count (of_user user) now rows (λ r at. refl),
  λ apart. revoke_where-count_other user other now rows apart,
)
