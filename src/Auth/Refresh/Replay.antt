-- ===== src/Auth/Refresh/Replay.antt =====
-- What a token that is no longer live does when it is presented.
use actioneer_pulse.Common.{
  true, false, String, Option, none, some, List, [], ◌∷◌, ◌++◌, ◌&&◌, is_some, str_eq, str_eq_iff,
  str_eq_refl, ◌≡◌, refl, ℕ, ◌<◌, arith, Bool-cases, Option-cases, inl, inr,
}
use actioneer_pulse.Auth.Refresh.{
  Hasher, RefreshToken, Fresh, live, find_row, find_token, mint_refresh, minted, revoke_family,
  retire, rotate_refresh, of_family, prefix_of, plaintext_of,
}
use actioneer_pulse.Auth.Refresh.Family.{live_in, revoke_where-count}

module _ ⦃h : Hasher⦄ where
  -- A token that is found and revoked already is refused, and kills its family.
  pub rotate_refresh-revoked :
      (ttl now : ℕ) (new : Fresh) (plaintext agent : Option String) (r : RefreshToken)
      (rows : List RefreshToken)
      → find_token plaintext rows ≡ some r
      → live r ≡ false
      → ((rotate_refresh ttl now new plaintext agent rows).0 ≡ none)
        × (live_in r.family_id (rotate_refresh ttl now new plaintext agent rows).1 ≡ 0)
  unfolding rotate_refresh revoke_family
  rotate_refresh-revoked ttl now new plaintext agent r rows found dead =
      ground
        (arith, found, dead, revoke_where-count (of_family r.family_id) now rows (λ r at. refl))

  find_row-retire :
      (r : RefreshToken) (now : ℕ) (prefix plaintext : String) (rows more : List RefreshToken)
      → find_row prefix plaintext rows ≡ some r
      → find_row prefix plaintext (retire r.id now true rows ++ more)
        ≡ some (record r { revoked_at = some now; last_used_at = some now })
  unfolding find_row retire
  find_row-retire r now prefix plaintext [] more found = ground arith
  find_row-retire r now prefix plaintext (s ∷ rows) more found =
      elim (Bool-cases (str_eq s.token_prefix prefix && h.verify s.token_hash plaintext)) [
        | inl hit ↦ ground (arith, found, hit, str_eq_refl r.id)
        | inr miss ↦ ground (
          arith,
          miss,
          str_eq_iff s.id r.id,
          find_row-retire r now prefix plaintext rows more (ground (arith, found, miss)),
        )
      ]

  find_token-retire_append :
      (r : RefreshToken) (now : ℕ) (plaintext : Option String) (rows more : List RefreshToken)
      → find_token plaintext rows ≡ some r
      → find_token plaintext (retire r.id now true rows ++ more)
        ≡ some (record r { revoked_at = some now; last_used_at = some now })
  unfolding find_token
  find_token-retire_append r now none rows more found = ground arith
  find_token-retire_append r now (some p) rows more found = elim (Option-cases (prefix_of p)) [
    | inl e ↦ ground (arith, found, e)
    | inr (prefix, e) ↦
        ground (arith, e, find_row-retire r now prefix p rows more (ground (arith, found, e)))
  ]

  rotate_refresh-exchanged :
      (ttl now : ℕ) (new : Fresh) (plaintext agent : Option String) (r : RefreshToken)
      (rows : List RefreshToken)
      → find_token plaintext rows ≡ some r
      → live r ≡ true
      → now < r.expires_at
      → rotate_refresh ttl now new plaintext agent rows ≡ (
        some (plaintext_of new, r.user_id),
        retire r.id now true rows ++ minted ttl now new r.user_id (some r.family_id) agent ∷ [],
      )
  unfolding rotate_refresh mint_refresh
  rotate_refresh-exchanged ttl now new plaintext agent r rows found alive early =
      ground (arith, found, alive, early)

  -- A live token that has not expired is exchanged for a new one. When the same token is presented
  -- again, at any time, the answer is None, and no token of the family is live any more, the new
  -- one included.
  pub rotate_refresh-replayed :
      (ttl now later : ℕ) (new next : Fresh) (plaintext agent again : Option String)
      (r : RefreshToken) (rows : List RefreshToken)
      → find_token plaintext rows ≡ some r
      → live r ≡ true
      → now < r.expires_at
      → let first = rotate_refresh ttl now new plaintext agent rows in
        let second = rotate_refresh ttl later next plaintext again first.1 in
        (is_some first.0 ≡ true) × (second.0 ≡ none) × (live_in r.family_id second.1 ≡ 0)
  rotate_refresh-replayed ttl now later new next plaintext agent again r rows found alive early =
      let rest = minted ttl now new r.user_id (some r.family_id) agent ∷ [] in
      rw (rotate_refresh-exchanged ttl now new plaintext agent r rows found alive early) (
        let refused =
          rotate_refresh-revoked ttl later next plaintext again
            (record r { revoked_at = some now; last_used_at = some now })
            (retire r.id now true rows ++ rest)
            (find_token-retire_append r now plaintext rows rest found) refl in
        (refl, refused.0, refused.1))
