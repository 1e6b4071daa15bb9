-- ===== src/Host/Verdicts.antt =====
-- host/coherence_engine.py: what the loop gathers, and the verdict by what there is among the
-- attestations.
use keyhole_sdk.Base.{
  ◌≡◌, refl, String, Bool, false, not, ◌&&◌, ◌||◌, Option, some, List, [], ◌∷◌, arith, is_empty,
  filter, truthy, if◌then◌else◌,
}
use keyhole_sdk.Host.Coherence.{
  HostIdentityAttestation, IdentityPolicyOverride, CoherenceVerdict, accept_match,
  warning_no_host_attestation, warning_stale_host_attestation, warning_unknown_host_identity,
  reject_host_conflict, accept_intentional_split, is_confirmed, principals_match, is_fresh,
  sort_attestations, in_force, decide, classify_coherence, is_expired,
}

-- Whether some attestation passes the test.
abbrev pub any : (HostIdentityAttestation → Bool) → List HostIdentityAttestation → Bool
any p [] = false
any p (a ∷ rest) = p a || any p rest

is_empty-filter :
    (p : HostIdentityAttestation → Bool) (xs : List HostIdentityAttestation)
    → is_empty (filter p xs) ≡ not (any p xs)
is_empty-filter p [] = refl
is_empty-filter p (a ∷ xs) = ground (arith, is_empty-filter p xs)

module _ (lower : String → String) (not_after : String → Option Bool) (cli : String) where
  -- The four kinds of attestation: fresh and confirmed ones agree or conflict with the principal.
  unfoldable pub agrees : HostIdentityAttestation → Bool
  agrees a =
      is_fresh lower not_after a
      && is_confirmed (a.confidence)
      && principals_match lower not_after (a.effective_principal) cli

  unfoldable pub conflicts : HostIdentityAttestation → Bool
  conflicts a =
      is_fresh lower not_after a
      && is_confirmed (a.confidence)
      && not (principals_match lower not_after (a.effective_principal) cli)

  unfoldable pub outdated : HostIdentityAttestation → Bool
  outdated a = not (is_fresh lower not_after a)

  unfoldable pub unproven : HostIdentityAttestation → Bool
  unproven a = is_fresh lower not_after a && not (is_confirmed (a.confidence))

  -- The loop puts every attestation into the list of its kind, and keeps the order.
  sort_attestations-filters :
      (xs : List HostIdentityAttestation)
      → ((sort_attestations lower not_after cli xs).matching ≡ filter agrees xs)
        × ((sort_attestations lower not_after cli xs).conflicting ≡ filter conflicts xs)
        × ((sort_attestations lower not_after cli xs).stale ≡ filter outdated xs)
        × ((sort_attestations lower not_after cli xs).unknown ≡ filter unproven xs)
  unfolding sort_attestations agrees conflicts outdated unproven
  sort_attestations-filters [] = (refl, refl, refl, refl)
  sort_attestations-filters (a ∷ xs) =
      let (m, c, s, u) = sort_attestations-filters xs in
      (ground (arith, m), ground (arith, c), ground (arith, s), ground (arith, u))

  -- The verdict by what there is, as the module's header lists the cases.
  abbrev pub expected :
      List HostIdentityAttestation → Option IdentityPolicyOverride → CoherenceVerdict
  expected xs override =
      if not (truthy cli)
      then warning_no_host_attestation
      else if is_empty xs
      then warning_no_host_attestation
      else if any conflicts xs
      then (if in_force lower not_after override
          then accept_intentional_split
          else reject_host_conflict)
      else if any agrees xs
      then accept_match
      else if any outdated xs
      then warning_stale_host_attestation
      else warning_unknown_host_identity

  -- The verdict depends only on what kinds of attestation there are and on the override: without a
  -- principal or an attestation it warns; a fresh confirmed conflict is rejected unless an override
  -- is in force; without one a fresh confirmed match is accepted; else a stale or an unconfirmed
  -- attestation is warned of, in that order.
  pub classify_coherence-verdict :
      (xs : List HostIdentityAttestation) (override : Option IdentityPolicyOverride)
      → (classify_coherence lower not_after cli xs override).verdict ≡ expected xs override
  unfolding classify_coherence decide
  classify_coherence-verdict xs override =
      let (m, c, s, u) = sort_attestations-filters xs in
      ground (
        arith,
        m,
        c,
        s,
        is_empty-filter agrees xs,
        is_empty-filter conflicts xs,
        is_empty-filter outdated xs,
      )

  -- An override decides by nothing but whether it is in force: the principals that it was recorded
  -- for do not matter.
  classify_coherence-override :
      (xs : List HostIdentityAttestation) (o o' : IdentityPolicyOverride)
      → is_expired lower not_after o ≡ false
      → is_expired lower not_after o' ≡ false
      → (classify_coherence lower not_after cli xs (some o)).verdict
        ≡ (classify_coherence lower not_after cli xs (some o')).verdict
  unfolding in_force
  classify_coherence-override xs o o' h h' = ground (
    arith,
    classify_coherence-verdict xs (some o),
    classify_coherence-verdict xs (some o'),
    h,
    h',
  )
