-- ===== src/Lifecycle/Expiry.antt =====
-- What the controller expires and what it removes (src/lifecycle/controller.py).
use polypy.Prelude.{
  ℕ, String, ◌≡◌, refl, sym, ◌∙◌, Bool, true, false, ◌&&◌, none, List, [], ◌∷◌, length, arith, ltb,
  eqb, ◌==◌, eq_iff, if◌then◌else◌, if-elim, Option-elim, Option-cases, inl, inr,
}
use polypy.Prelude.Int.{ℤ, pos, ltb_ℤ}
use polypy.Prelude.Ids.{IdSet, member}
use polypy.Prelude.Dict.{get, get-remove}
use polypy.SortedDict.{SortedDict}
use polypy.Registry.{AssetRegistry}
use polypy.Registry.Entry.{AssetEntry, expired, subscribed, status_eq, holds}
use polypy.Registry.Queries.{get_by_status, get_expiring_before}
use polypy.Registry.Updates.{remove_asset}
use polypy.Registry.Coherence.{IsCoherent}
use polypy.Registry.Coherence.Moving.{mark_expired-IsCoherent}
use polypy.Registry.Coherence.Removing.{remove_asset-IsCoherent}
use polypy.Registry.Expiring.{member-get_expiring_before}
use polypy.Registry.Outcomes.Expiring.{expired_entry, mark_expired-entries}
use polypy.Lifecycle.{
  cleanup_delay, age_of, select, check_expirations, cleanup_one, cleanup_each, cleanup_expired,
}

member-select :
    (b : String) (s : IdSet) (l : List String) → member b (select s l) ≡ (member b s && member b l)
unfolding select member
member-select b s [] = ground arith
member-select b s (a ∷ l) = ground (arith, member-select b s l, eq_iff a b)

member_empty : (b : String) (l : List String) → eqb (length l) 0 ≡ true → member b l ≡ false
unfolding member
member_empty b [] e = refl
member_empty b (x ∷ l) e = ground (arith, e)

module _ (S : SortedDict) where
  -- The check makes EXPIRED exactly the SUBSCRIBED assets whose known expiration is past, and leaves
  -- every other entry: an asset that waits for its subscription is not expired. It keeps the registry
  -- coherent.
  pub check_expirations_expires :
      (current_time : ℤ) (r : AssetRegistry S)
      → IsCoherent S r
      → ((b : String)
          → get (check_expirations S current_time r).0.assets b ≡ (
              if holds
                (λ e.
                  status_eq e.status subscribed
                  && (ltb_ℤ (pos 0) e.expiration_ts && ltb_ℤ e.expiration_ts current_time))
                (get r.assets b)
              then expired_entry (get r.assets b)
              else get r.assets b))
        × IsCoherent S (check_expirations S current_time r).0
  unfolding check_expirations get_by_status
  check_expirations_expires t r h =
      let ids = select (r.by_status subscribed) (get_expiring_before S r t) in
      let due : (b : String)
          → member b ids
            ≡ holds
                (λ e.
                  status_eq e.status subscribed
                  && (ltb_ℤ (pos 0) e.expiration_ts && ltb_ℤ e.expiration_ts t))
                (get r.assets b) =
        λ b. ground (
          arith,
          member-select b (r.by_status subscribed) (get_expiring_before S r t),
          h.status_index b subscribed,
          member-get_expiring_before S r h b t,
        ) in
      if-elim
        (λ (x : AssetRegistry S × List String).
          ((b : String)
            → get x.0.assets b ≡ (
                if holds
                  (λ e.
                    status_eq e.status subscribed
                    && (ltb_ℤ (pos 0) e.expiration_ts && ltb_ℤ e.expiration_ts t))
                  (get r.assets b)
                then expired_entry (get r.assets b)
                else get r.assets b))
          × IsCoherent S x.0)
        (eqb (length ids) 0)
        (λ none_due. (λ b. rw (sym (due b)) (rw (member_empty b ids none_due) refl), h))
        (λ _. (
          λ b. (mark_expired-entries S ids r).0 b ∙ rw (due b) refl,
          mark_expired-IsCoherent S ids r h,
        ))

  -- an entry that the cleanup removes: older than the grace period
  abbrev pub stale : ℕ → AssetEntry → Bool
  stale now e = ltb cleanup_delay (age_of now e)

  get-cleanup_one :
      (now : ℕ) (a b : String) (r : AssetRegistry S)
      → get (cleanup_one S now a r).0.assets b
        ≡ (if a == b && holds (stale now) (get r.assets b) then none else get r.assets b)
  unfolding cleanup_one remove_asset
  get-cleanup_one now a b r = elim (Option-cases (get r.assets a)) [
    | inl e ↦ ground (arith, e, eq_iff a b)
    | inr (x, e) ↦ ground (arith, e, eq_iff a b, get-remove r.assets a b)
  ]

  get-cleanup_each :
      (now : ℕ) (l : List String) (b : String) (r : AssetRegistry S)
      → get (cleanup_each S now l r).0.assets b
        ≡ (if member b l && holds (stale now) (get r.assets b) then none else get r.assets b)
  unfolding cleanup_each member
  get-cleanup_each now [] b r = refl
  get-cleanup_each now (a ∷ l) b r = ground (
    arith,
    get-cleanup_each now l b (cleanup_one S now a r).0,
    get-cleanup_one now a b r,
    eq_iff a b,
  )

  cleanup_each-IsCoherent :
      (now : ℕ) (l : List String) (r : AssetRegistry S)
      → IsCoherent S r
      → IsCoherent S (cleanup_each S now l r).0
  unfolding cleanup_each cleanup_one
  cleanup_each-IsCoherent now [] r h = h
  cleanup_each-IsCoherent now (a ∷ l) r h =
      cleanup_each-IsCoherent now l (cleanup_one S now a r).0 (
        Option-elim (λ (x : AssetRegistry S × ℕ). IsCoherent S x.0) (get r.assets a) (λ _. h)
          (λ e _.
            if-elim (λ (x : AssetRegistry S × ℕ). IsCoherent S x.0)
              (ltb cleanup_delay (age_of now e)) (λ _. remove_asset-IsCoherent S a r h) (λ _. h)))

  pub cleanup_expired_removes :
      (now : ℕ) (r : AssetRegistry S)
      → IsCoherent S r
      → ((b : String)
          → get (cleanup_expired S now r).0.assets b ≡ (
              if holds (λ e. status_eq e.status expired && stale now e) (get r.assets b)
              then none
              else get r.assets b))
        × IsCoherent S (cleanup_expired S now r).0
  unfolding cleanup_expired get_by_status
  cleanup_expired_removes now r h = (
    λ b. ground (arith, get-cleanup_each now (r.by_status expired) b r, h.status_index b expired),
    cleanup_each-IsCoherent now (r.by_status expired) r h,
  )
