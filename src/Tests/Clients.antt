-- ===== src/Tests/Clients.antt =====
-- An owner blocks and deletes a connector that holds a token.
use funes_vault.Common.{
  String, ◌≡◌, refl, true, false, none, some, List, [], ◌∷◌, In, Result, ok, err, map, Option,
}
use funes_vault.Vault.Enums.{ClientType, TrustLevel, Retention}
use funes_vault.Vault.Store.{Client}
use funes_vault.OAuth.Store.{
  Token, Db, Error, name_taken, client_not_found, token_revoked, client_updated,
  client_token_rotated, client_deleted, Detail, Event,
}
use funes_vault.OAuth.Tokens.{revoke_tokens_for_client}
use funes_vault.OAuth.Revoked.{is_revoked}
use funes_vault.Administration.Clients.{
  UpdateClientRequest, ClientResponse, create_client, update_client, delete_client,
}
use funes_vault.Administration.CutOff.{update_client_cuts_off}
use funes_vault.Tests.Sample.{client, policy}
use funes_vault.Tests.Credentials.{rt, start, row}

abbrev connected : Client
connected = record client { oauth_registration_id = some "g1" }

abbrev begin : Db
begin = record start { clients = connected ∷ []; policies = policy ∷ []; tokens = row ∷ [] }

abbrev unchanged : UpdateClientRequest
unchanged = record {
  name = none;
  kind = none;
  trust_level = none;
  declared_retention = none;
  rotate_token = none;
}

abbrev block : UpdateClientRequest
block = record unchanged { trust_level = some TrustLevel.blocked }

abbrev after {ℓ} : {A : Type ℓ} → Result Error (A × Db) → Db
after (ok (a, db)) = db
after (err e) = begin

abbrev blocking : Result Error ((ClientResponse × Option String) × Db)
blocking = update_client rt begin "credential" "u1" "c1" block 9

abbrev deleting : Result Error (ClientResponse × Db)
deleting = delete_client begin "u1" "c1" 9

abbrev blocked_response : ClientResponse
blocked_response = record {
  id = "c1";
  name = "app";
  kind = ClientType.web_app;
  trust_level = TrustLevel.blocked;
  declared_retention = Retention.session;
  has_token = false;
  has_policy = true;
  oauth_connector = true;
}

abbrev deleted_response : ClientResponse
deleted_response = record blocked_response { trust_level = TrustLevel.approved; has_policy = false }

abbrev details : Db → List Detail
details db = map (λ (e : Event). e.detail) db.events

blocking_ok : blocking ≡ ok ((blocked_response, none), after blocking)
unfolding update_client
blocking_ok = refl

blocking_events :
    details (after blocking)
    ≡ token_revoked "grant_blocked" 1 ∷ client_updated "c1" ("trustLevel" ∷ []) ∷ []
unfolding update_client revoke_tokens_for_client
blocking_events = refl

-- A rotation and no other field: the connector keeps its tokens.
rotation_events :
    details (
      after (
        update_client rt begin "credential" "u1" "c1"
          (record unchanged { rotate_token = some true })
          9))
    ≡ client_token_rotated "c1" [] ∷ []
unfolding update_client
rotation_events = refl

deleting_events :
    details (after deleting) ≡ token_revoked "grant_revoked" 1 ∷ client_deleted "c1" "app" ∷ []
unfolding delete_client revoke_tokens_for_client
deleting_events = refl

deleting_twice : delete_client (after deleting) "u1" "c1" 9 ≡ err client_not_found
unfolding delete_client revoke_tokens_for_client
deleting_twice = refl

same_name :
    create_client rt begin "credential" "u1" (record {
      name = "app";
      kind = ClientType.cli;
      trust_level = TrustLevel.unknown;
      declared_retention = Retention.unknown;
    })
    ≡ err name_taken
unfolding create_client
same_name = refl

update_client_cuts_off_example :
    ((t : Token) → In t (after blocking).tokens → t.client_id ≡ "c1" → is_revoked t ≡ true)
    × ((d : Client)
        → In d (after blocking).clients
        → d.id ≡ "c1"
        → d.trust_level ≡ TrustLevel.blocked)
update_client_cuts_off_example =
    update_client_cuts_off rt begin "credential" "u1" "c1" block 9 connected
      (blocked_response, none) (after blocking) refl refl refl refl blocking_ok
