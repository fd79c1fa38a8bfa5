-- ===== src/Controller/Fencing/Election.antt =====
-- ag_fencing.go, the choice of the legitimate primary.
use mssql_k8s_operator.Prelude.{
  ◌≤ℤ◌, String, List, [], ◌∷◌, string_eq, nat_eq, int_eq, bool_eq, ℤ, pos, ◌≡◌, refl, ◌∙◌, ◌⊎◌, inl,
  inr, arith, eq_iff, In, lookup_or,
}
use mssql_k8s_operator.Controller.Fencing.{elect, raise, pick, elect_from}
use mssql_k8s_operator.Api.AvailabilityGroup.{AgReplicaSpec}

-- the LSN that was read for a replica, 0 if none was
abbrev pub lsn_of : List (String × ℤ) → AgReplicaSpec → ℤ
lsn_of lsns p = lookup_or (pos 0) p.server_name lsns

module _ (known : String) (lsns : List (String × ℤ)) where
  pick-best :
      (best : AgReplicaSpec) (highest : ℤ) (p : AgReplicaSpec)
      → highest ≡ lsn_of lsns best
      → (raise highest (lsn_of lsns p) ≡ lsn_of lsns (pick known best highest p (lsn_of lsns p)))
        × (lsn_of lsns best ≤ℤ lsn_of lsns (pick known best highest p (lsn_of lsns p)))
        × (lsn_of lsns p ≤ℤ lsn_of lsns (pick known best highest p (lsn_of lsns p)))
  unfolding pick raise
  pick-best best highest p e = ground arith

  elect_from-maximal :
      (best : AgReplicaSpec) (highest : ℤ) (ps : List AgReplicaSpec)
      → highest ≡ lsn_of lsns best
      → (q : AgReplicaSpec) → In q (best ∷ ps)
      → lsn_of lsns q ≤ℤ lsn_of lsns (elect_from known lsns best highest ps)
  unfolding elect_from
  elect_from-maximal best highest [] e q (inl is) = rw is (omega arith)
  elect_from-maximal best highest [] e q (inr h) = absurd h
  elect_from-maximal best highest (p ∷ ps) e q h =
      let best' = pick known best highest p (lsn_of lsns p) in
      let (same, above_best, above_p) = pick-best best highest p e in
      let rest = elect_from-maximal best' (raise highest (lsn_of lsns p)) ps same in
      elim h [
        | inl is ↦ rw is (omega (arith, above_best, rest best' (inl refl)))
        | inr (inl is) ↦ rw is (omega (arith, above_p, rest best' (inl refl)))
        | inr (inr later) ↦ rest q (inr later)
      ]

  pick-In :
      (best : AgReplicaSpec) (highest : ℤ) (p : AgReplicaSpec) (lsn : ℤ)
      → (pick known best highest p lsn ≡ best) ⊎ (pick known best highest p lsn ≡ p)
  unfolding pick
  pick-In best highest p lsn = ground arith

  elect_from-In :
      (best : AgReplicaSpec) (highest : ℤ) (ps : List AgReplicaSpec)
      → In (elect_from known lsns best highest ps) (best ∷ ps)
  unfolding elect_from
  elect_from-In best highest [] = inl refl
  elect_from-In best highest (p ∷ ps) = ground (
    arith,
    pick-In best highest p (lsn_of lsns p),
    elect_from-In (pick known best highest p (lsn_of lsns p)) (raise highest (lsn_of lsns p)) ps,
  )

  pick-known :
      (best : AgReplicaSpec) (highest : ℤ) (p q : AgReplicaSpec)
      → highest ≡ lsn_of lsns best
      → q.server_name ≡ known
      → (q ≡ best) ⊎ (q ≡ p)
      → lsn_of lsns best ≤ℤ lsn_of lsns q
      → lsn_of lsns p ≤ℤ lsn_of lsns q
      → (pick known best highest p (lsn_of lsns p)).server_name ≡ known
  unfolding pick
  pick-known best highest p q e is which b₁ b₂ = ground (arith, eq_iff p.server_name known)

  above_picked :
      (best : AgReplicaSpec) (highest : ℤ) (p q : AgReplicaSpec) (ps : List AgReplicaSpec)
      → (q ≡ best) ⊎ (q ≡ p)
      → highest ≡ lsn_of lsns best
      → ((x : AgReplicaSpec) → In x (best ∷ p ∷ ps) → lsn_of lsns x ≤ℤ lsn_of lsns q)
      → (x : AgReplicaSpec) → In x (pick known best highest p (lsn_of lsns p) ∷ ps)
      → lsn_of lsns x ≤ℤ lsn_of lsns (pick known best highest p (lsn_of lsns p))
  above_picked best highest p q ps which e max x (inl is) = rw is (omega arith)
  above_picked best highest p q ps (inl is) e max x (inr later) =
      let (_, above_best, _) = pick-best best highest p e in
      omega (arith, above_best, rw is at (max x (inr (inr later))))
  above_picked best highest p q ps (inr is) e max x (inr later) =
      let (_, _, above_p) = pick-best best highest p e in
      omega (arith, above_p, rw is at (max x (inr (inr later))))

  below_known :
      (best : AgReplicaSpec) (highest : ℤ) (p q : AgReplicaSpec) (ps : List AgReplicaSpec)
      → ((x : AgReplicaSpec) → In x (best ∷ p ∷ ps) → lsn_of lsns x ≤ℤ lsn_of lsns q)
      → (x : AgReplicaSpec) → In x (pick known best highest p (lsn_of lsns p) ∷ ps)
      → lsn_of lsns x ≤ℤ lsn_of lsns q
  below_known best highest p q ps max x (inr later) = max x (inr (inr later))
  below_known best highest p q ps max x (inl is) = elim (pick-In best highest p (lsn_of lsns p)) [
    | inl old ↦ max x (inl (is ∙ old))
    | inr new ↦ max x (inr (inl (is ∙ new)))
  ]

  elect_from-known :
      (best : AgReplicaSpec) (highest : ℤ) (ps : List AgReplicaSpec) (q : AgReplicaSpec)
      → highest ≡ lsn_of lsns best
      → q.server_name ≡ known
      → In q (best ∷ ps)
      → ((x : AgReplicaSpec) → In x (best ∷ ps) → lsn_of lsns x ≤ℤ lsn_of lsns q)
      → (elect_from known lsns best highest ps).server_name ≡ known
  unfolding elect_from
  elect_from-known best highest [] q e is (inl h) max = rw (← h) is
  elect_from-known best highest [] q e is (inr h) max = absurd h
  elect_from-known best highest (p ∷ ps) q e is h max =
      let best' = pick known best highest p (lsn_of lsns p) in
      let (same, above_best, above_p) = pick-best best highest p e in
      let now : (q ≡ best) ⊎ (q ≡ p)
          → (elect_from known lsns best' (raise highest (lsn_of lsns p)) ps).server_name ≡ known =
        λ which.
          elect_from-known best' (raise highest (lsn_of lsns p)) ps best' same
            (pick-known best highest p q e is which (max best (inl refl)) (max p (inr (inl refl))))
            (inl refl) (above_picked best highest p q ps which e max) in
      elim h [
        | inl first ↦ now (inl first)
        | inr (inl second) ↦ now (inr second)
        | inr (inr later) ↦
            elect_from-known best' (raise highest (lsn_of lsns p)) ps q same is (inr later)
              (below_known best highest p q ps max)
      ]

module _ (known : String) (lsns : List (String × ℤ)) (first : AgReplicaSpec)
    (others : List AgReplicaSpec) where
  -- The legitimate primary is one of the primaries, and none of them has a higher last hardened LSN.
  pub elect-maximal :
      In (elect known lsns first others) (first ∷ others)
      × ((q : AgReplicaSpec)
          → In q (first ∷ others)
          → lsn_of lsns q ≤ℤ lsn_of lsns (elect known lsns first others))
  unfolding elect
  elect-maximal = (
    elect_from-In known lsns first (lsn_of lsns first) others,
    elect_from-maximal known lsns first (lsn_of lsns first) others refl,
  )

  -- If the primary that the status names is among the primaries and no primary has a higher LSN, the
  -- election keeps it.
  pub elect-known :
      (q : AgReplicaSpec)
      → In q (first ∷ others)
      → q.server_name ≡ known
      → ((x : AgReplicaSpec) → In x (first ∷ others) → lsn_of lsns x ≤ℤ lsn_of lsns q)
      → (elect known lsns first others).server_name ≡ known
  unfolding elect
  elect-known q h is max =
      elect_from-known known lsns first (lsn_of lsns first) others q refl is h max
