-- ===== src/Ingest/Limiter/Clients.antt =====
-- What the buckets of several clients have to do with each other.
use clickman.Base.{
  ℕ, ◌-◌, ◌≤◌, ◌≡◌, ◌≢◌, refl, ap, sym, ◌∙◌, Bool, true, false, Option, none, some, [], ◌∷◌, length,
  keep, Bool-cases, inl, inr, ltb, arith, if◌then◌else◌,
}
use clickman.Base.Floats.{F64, Floats, FloatsLaws, f0, f1, f_max}
use clickman.Base.Text.{Text, text_eq, text_eq_iff}
use clickman.Ingest.Limiter.{
  RateLimit, Bucket, Buckets, idle, prune_above, find, put, prune, or_insert, refill, spend, take,
  check,
}

find-put :
    (client other : Text) (bucket : Bucket) (buckets : Buckets)
    → find other (put client bucket buckets)
      ≡ (if text_eq client other then some bucket else find other buckets)
unfolding find put
find-put client other bucket [] = refl
find-put client other bucket ((c, b) ∷ buckets) = ground (
  arith,
  text_eq_iff c client,
  text_eq_iff c other,
  text_eq_iff client other,
  find-put client other bucket buckets,
)

abbrev kept : (Bucket → Bool) → Option Bucket → Option Bucket
kept fresh (some bucket) = if fresh bucket then some bucket else none
kept fresh none = none

module _ (a : Floats) (laws : FloatsLaws a) where
  abbrev Positive : F64 → Type 0
  Positive x = a.ge x f0 ≡ true

  -- One bucket per client, none below zero.
  unfoldable pub WellFormed : Buckets → Type 0
  unfolding find
  WellFormed [] = Unit {0}
  WellFormed ((c, b) ∷ buckets) = (find c buckets ≡ none) × Positive b.tokens × WellFormed buckets

  -- A limit with a finite rate and a burst above zero that is refilled within the idle time.
  pub record Refills (limit : RateLimit) : Type 0 where
    pub rate : a.ge limit.per_second f0 ≡ true
    pub finite : a.ge f_max limit.per_second ≡ true
    pub burst : a.ge limit.burst f0 ≡ true
    pub above : a.ge f0 limit.burst ≡ false
    pub within : a.ge (a.mul (a.as_secs idle) limit.per_second) limit.burst ≡ true

  AllPositive : Option Bucket → Type 0
  AllPositive none = Unit {0}
  AllPositive (some b) = Positive b.tokens

  find-Positive :
      (client : Text) (buckets : Buckets) → WellFormed buckets → AllPositive (find client buckets)
  unfolding find WellFormed AllPositive
  find-Positive client [] d = tt
  find-Positive client ((c, b) ∷ buckets) (fresh, pos, d) = elim (Bool-cases (text_eq c client)) [
    | inl e ↦ rw (e, find) pos
    | inr e ↦ rw (e, find) (find-Positive client buckets d)
  ]

  put-WellFormed :
      (client : Text) (bucket : Bucket) (buckets : Buckets)
      → Positive bucket.tokens
      → WellFormed buckets
      → WellFormed (put client bucket buckets)
  unfolding WellFormed put
  put-WellFormed client bucket [] p d = (refl, p, tt)
  put-WellFormed client bucket ((c, b) ∷ buckets) p (fresh, pos, d) =
      elim (Bool-cases (text_eq c client)) [
        | inl e ↦ rw e (ground (arith, text_eq_iff c client), p, d)
        | inr e ↦ rw e (
          ground
              (arith, text_eq_iff c client, text_eq_iff client c, find-put client c bucket buckets),
          pos,
          put-WellFormed client bucket buckets p d,
        )
      ]

  find-keep :
      (fresh : Bucket → Bool) (client : Text) (buckets : Buckets)
      → WellFormed buckets
      → find client (keep (λ entry. fresh entry.1) buckets) ≡ kept fresh (find client buckets)
  unfolding WellFormed find
  find-keep fresh client [] d = refl
  find-keep fresh client ((c, b) ∷ buckets) (gone, pos, d) =
      ground (arith, text_eq_iff c client, find-keep fresh client buckets d)

  keep-WellFormed :
      (fresh : Bucket → Bool) (buckets : Buckets)
      → WellFormed buckets
      → WellFormed (keep (λ entry. fresh entry.1) buckets)
  unfolding WellFormed
  keep-WellFormed fresh [] d = tt
  keep-WellFormed fresh ((c, b) ∷ buckets) (gone, pos, d) = elim (Bool-cases (fresh b)) [
    | inl e ↦
        rw e (ground (arith, find-keep fresh c buckets d), pos, keep-WellFormed fresh buckets d)
    | inr e ↦ rw e (keep-WellFormed fresh buckets d)
  ]

  module _ (limit : RateLimit) (refills : Refills limit) (now : ℕ) where
    refilled : Option Bucket → Bucket
    refilled found = refill a limit now (or_insert found limit now)

    full :
        (tokens : F64) (elapsed : ℕ)
        → Positive tokens
        → idle ≤ elapsed
        → a.least (a.add tokens (a.mul (a.as_secs elapsed) limit.per_second)) limit.burst
          ≡ limit.burst
    full tokens elapsed pos longer =
        let enough =
          laws.ge_trans _ _ _
            (laws.mul_mono idle elapsed limit.per_second longer refills.rate refills.finite)
            refills.within in
        laws.least_right _ _ (laws.add_ge_left tokens _ _ pos refills.burst enough) refills.above

    fresh :
        (elapsed : ℕ)
        → a.least (a.add limit.burst (a.mul (a.as_secs elapsed) limit.per_second)) limit.burst
          ≡ limit.burst
    fresh elapsed =
        laws.least_right _ _
          (laws.add_ge_right limit.burst _ _
            (laws.mul_positive elapsed limit.per_second refills.rate refills.finite) refills.burst
            (laws.ge_refl limit.burst refills.burst))
          refills.above

    -- A bucket that was left alone for the idle time is as full as a new one.
    kept-refill :
        (found : Option Bucket)
        → AllPositive found
        → refilled (kept (λ b. ltb (now - b.refreshed) idle) found) ≡ refilled found
    unfolding refilled refill AllPositive
    kept-refill none pos = refl
    kept-refill (some bucket) pos = elim (Bool-cases (ltb (now - bucket.refreshed) idle)) [
      | inl e ↦ rw e refl
      | inr e ↦ rw e (
          ap (λ n. record { tokens = n; refreshed = now })
            (fresh (now - now)
              ∙ sym (full bucket.tokens (now - bucket.refreshed) pos (ground arith))))
    ]

    prune-refill :
        (client : Text) (buckets : Buckets)
        → WellFormed buckets
        → refilled (find client (prune now buckets)) ≡ refilled (find client buckets)
    unfolding prune
    prune-refill client buckets d = elim (Bool-cases (ltb prune_above (length buckets))) [
      | inl e ↦ rw e (
          ap refilled (find-keep (λ b. ltb (now - b.refreshed) idle) client buckets d)
          ∙ kept-refill (find client buckets) (find-Positive client buckets d))
      | inr e ↦ rw e refl
    ]

    prune-WellFormed : (buckets : Buckets) → WellFormed buckets → WellFormed (prune now buckets)
    unfolding prune
    prune-WellFormed buckets d = elim (Bool-cases (ltb prune_above (length buckets))) [
      | inl e ↦ rw e (keep-WellFormed (λ b. ltb (now - b.refreshed) idle) buckets d)
      | inr e ↦ rw e d
    ]

    inserted-Positive :
        (found : Option Bucket) → AllPositive found → Positive (or_insert found limit now).tokens
    unfolding AllPositive
    inserted-Positive none pos = refills.burst
    inserted-Positive (some bucket) pos = pos

    take-Positive :
        (bucket : Bucket) → Positive bucket.tokens → Positive (take a limit now bucket).1.tokens
    unfolding take refill spend
    take-Positive bucket pos =
        let income =
          laws.mul_positive (now - bucket.refreshed) limit.per_second refills.rate refills.finite in
        let held = (refill a limit now bucket).tokens in
        elim (Bool-cases (a.ge held f1)) [
          | inl e ↦ rw e (laws.sub_positive held e)
          | inr e ↦ rw e (
              laws.least_positive _ _ (laws.add_ge_right bucket.tokens _ f0 income laws.zero pos)
                refills.burst)
        ]

    -- Where rounding is as IEEE 754 has it, the limit refills a whole burst within the idle time, no
    -- client has two buckets and none is below zero, the decision on a request is the one of the
    -- client's own bucket, whatever was pruned; the request leaves every other client's bucket as full
    -- as it was; and no client has two buckets after it, and none is below zero.
    pub check_exact :
        (client other : Text) (buckets : Buckets)
        → WellFormed buckets
        → client ≢ other
        → ((check a client limit now buckets).0
            ≡ (take a limit now (or_insert (find client buckets) limit now)).0)
          × (refill a limit now
                (or_insert (find other (check a client limit now buckets).1) limit now)
              ≡ refill a limit now (or_insert (find other buckets) limit now))
          × WellFormed (check a client limit now buckets).1
    unfolding check take refilled
    check_exact client other buckets d ne =
        let same = prune-refill client buckets d in
        let pruned = prune-WellFormed buckets d in
        let after = (take a limit now (or_insert (find client (prune now buckets)) limit now)).1 in
        let apart = Bool-cases (text_eq client other) in
        (
          ap (λ b. (spend a limit b).0) same,
          elim apart [
            | inl e ↦ absurd (ne ((text_eq_iff client other).0 e))
            | inr e ↦
                ap refilled (
                  find-put client other after (prune now buckets)
                  ∙ ap (λ b. if b then some after else find other (prune now buckets)) e)
                ∙ prune-refill other buckets d
          ],
          put-WellFormed client _ (prune now buckets)
              (take-Positive _
                (inserted-Positive _ (find-Positive client (prune now buckets) pruned)))
              pruned,
        )
