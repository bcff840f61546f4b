-- ===== src/Client/Launch/Laws.antt =====
-- Launches in a row (protocol/fixtures/lifecycle.json).
use clickman.Base.{◌≡◌, refl, ◌∙◌, ap, inl, inr, some, List, [], ◌∷◌, arith, if◌then◌else◌}
use clickman.Base.Text.{Text, text}
use clickman.Json.{Fields}
use clickman.Client.Error.{ok, Result-cases}
use clickman.Client.Platform.{Platform}
use clickman.Client.Store.{Database, Identity}
use clickman.Client.Event.{Recorder, record_event}
use clickman.Client.Event.Record.{record-identity}
use clickman.Client.Launch.{
  Release, release_eq, updated, opened, events, last_launch, record_all, record_launch,
}

module _ (p : Platform) (r : Recorder) where
  record_all-identity :
      (launched : List (Text × Fields)) (db db' : Database) (u : Unit {0})
      → record_all p r launched db ≡ ok (u, db')
      → db'.identity ≡ db.identity
  unfolding record_all
  record_all-identity [] db db' u h = ground arith
  record_all-identity ((event, properties) ∷ rest) db db' u h =
      elim (Result-cases (record_event p r event properties db)) [
        | inl ((id, db₁), e) ↦
            record_all-identity rest db₁ db' u (ground arith)
            ∙ (record-identity p r event properties db db₁ id e).0
        | inr (error, e) ↦ absurd (ground arith)
      ]

  -- A launch that is recorded is remembered, so that the next launch of the same version and build
  -- records `app_opened` alone, and one of another records first `app_updated` with the version and
  -- build of this one. Whom the events are about, and the traits, stay.
  pub launch_remembered :
      (release next : Release) (db db' : Database) (u : Unit {0})
      → record_launch p r release db ≡ ok (u, db')
      → (last_launch db' ≡ some release)
        × (events (last_launch db') next ≡ (
            if release_eq release next
            then opened ∷ []
            else (text "app_updated", updated release next) ∷ opened ∷ []))
        × (db'.identity.external_id ≡ db.identity.external_id)
        × (db'.identity.traits ≡ db.identity.traits)
  unfolding record_launch
  launch_remembered release next db db' u h =
      elim (Result-cases (record_all p r (events (last_launch db) release) db)) [
        | inl ((u', db₁), e) ↦
            let same = record_all-identity (events (last_launch db) release) db db₁ u' e in
            let done : db' ≡ record db₁ {
              identity = record db₁.identity {
                app_version = some release.version;
                app_build = some release.build;
              };
            } =
              ground arith in
            (
              rw done (unfold last_launch in refl),
              rw done (unfold last_launch events in refl),
              rw done (ap (λ (i : Identity). i.external_id) same),
              rw done (ap (λ (i : Identity). i.traits) same),
            )
        | inr (error, e) ↦ absurd (ground arith)
      ]
