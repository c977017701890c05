-- ===== src/OAuth/Sound/Reached.antt =====
-- Whatever the connectors and the users call, the tables stay sound.
use funes_vault.Common.{subst}
use funes_vault.OAuth.Store.{Db, Runtime}
use funes_vault.OAuth.Steps.{
  Step, registers, authorizes, approves, denies, redeems, refreshes, revokes, Steps, done, next,
  IsSound,
}
use funes_vault.OAuth.Sound.Decisions.{register_client-IsSound, approve-IsSound, deny-IsSound}
use funes_vault.OAuth.Sound.Exchanges.{
  authorize-IsSound, exchange_authorization_code-IsSound, exchange_refresh_token-IsSound,
  revoke_token-IsSound,
}

module _ (rt : Runtime) where
  Step-IsSound : {db db' : Db} → IsSound rt db → Step rt db db' → IsSound rt db'
  Step-IsSound {db} s (registers c now info h) = register_client-IsSound rt db c now s h
  Step-IsSound {db} s (authorizes id params now url h) = authorize-IsSound rt db id params now s h
  Step-IsSound {db} s (approves input now url h) = approve-IsSound rt db input now s h
  Step-IsSound {db} s (denies input now url h) = deny-IsSound rt db input now s h
  Step-IsSound {db} s (redeems id code redirect resource now h) =
      subst (IsSound rt) h
        (exchange_authorization_code-IsSound rt db id code redirect resource now s)
  Step-IsSound {db} s (refreshes id token scopes resource now h) =
      subst (IsSound rt) h (exchange_refresh_token-IsSound rt db id token scopes resource now s)
  Step-IsSound {db} s (revokes id token now h) =
      subst (IsSound rt) h (revoke_token-IsSound rt db id token now s)

  -- From sound tables, whatever registrations, requests for a grant, decisions, exchanges and
  -- revocations follow one another, the tables stay sound: no request, code or token has an
  -- unsupported scope, every redirect URI of a connector is allowed, and no more registrations are
  -- pending than the configured bound.
  pub Steps-IsSound : (db db' : Db) → IsSound rt db → Steps rt db db' → IsSound rt db'
  Steps-IsSound db db' s done = s
  Steps-IsSound db db' s (next {db' = before} steps step) =
      Step-IsSound (Steps-IsSound db before s steps) step
