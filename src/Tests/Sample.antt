-- ===== src/Tests/Sample.antt =====
-- A vault with one owner, one client, its policy, one memory and requests on it.
use funes_vault.Common.{
  true, false, none, some, List, [], ◌∷◌, Result, ok, err, ◌≡◌, In, here, there, sym, ◌∙◌,
}
use funes_vault.Vault.Enums.{
  ClientType, MemoryKind, SourceType, internal, MemoryStatus, ReviewState, TrustLevel, Retention,
  read, RequestStatus, confirmation_required,
}
use funes_vault.Vault.Store.{Memory, Policy, Client, blank, MemoryRequest, Db}
use funes_vault.MemoryRequests.Runtime.{Runtime}
use funes_vault.MemoryRequests.Preview.{Proposal}
use funes_vault.MemoryRequests.Disclosure.Current.{HasUniqueIds}

abbrev pub rt : Runtime
rt = record {
  cuid = λ n. "row";
  client_digest = λ id name trust retention token registration. "client-1";
  preview_digest = λ id s. "preview-1";
}

abbrev pub tea : Memory
tea = record {
  id = "m1";
  user_id = "u1";
  title = 84 ∷ [];
  body = 116 ∷ 101 ∷ 97 ∷ [];
  sensitivity = internal;
  status = MemoryStatus.active;
  review_state = ReviewState.approved;
  expires_at = none;
  updated_at = "2024-01-01";
  categories = "taste" ∷ [];
  kind = MemoryKind.preference;
  confidence = none;
  source_type = SourceType.manual;
  source_client_id = none;
  suggestion_id = none;
}

abbrev pub policy : Policy
policy = record {
  id = "p1";
  user_id = "u1";
  client_id = "c1";
  max_sensitivity = internal;
  operations = read ∷ [];
  requires_confirmation = true;
  expires_at = none;
  allowed_categories = [];
  denied_categories = [];
  updated_at = "2024-02-02";
}

abbrev pub open_policy : Policy
open_policy = record policy { requires_confirmation = false }

abbrev pub client : Client
client = record {
  id = "c1";
  user_id = "u1";
  name = "app";
  kind = ClientType.web_app;
  trust_level = TrustLevel.approved;
  declared_retention = Retention.session;
  token_hash = none;
  oauth_registration_id = none;
}

abbrev pub waiting : MemoryRequest
waiting = record {
  id = "r1";
  user_id = "u1";
  client_id = "c1";
  stated_purpose = none;
  policy_id = some "p1";
  policy_version = some "2024-02-02";
  decision_reason = some confirmation_required;
  task = "t";
  status = RequestStatus.needs_user_approval;
  token_budget = 100;
  requested_categories = [];
  retention = Retention.session;
  third_party_processors = [];
  review_snapshot = blank;
  approval_expires_at = none;
  approved_at = none;
  denied_at = none;
  fulfilled_at = none;
}

abbrev pub start : Db
start = record {
  clients = client ∷ [];
  policies = policy ∷ [];
  memories = tea ∷ [];
  requests = waiting ∷ [];
  items = [];
  events = [];
  rows = 1;
}

abbrev pub open_start : Db
open_start = record start { policies = open_policy ∷ []; requests = [] }

abbrev pub proposals : List Proposal
proposals = (record { id = "m1"; relevance_score = 900000 }) ∷ []

single-HasUniqueIds : (m k x : Memory) → In m (x ∷ []) → In k (x ∷ []) → m ≡ k
single-HasUniqueIds m k x (here e) (here q) = e ∙ sym q
single-HasUniqueIds m k x (here e) (there l) = elim l [ ]
single-HasUniqueIds m k x (there l) b = elim l [ ]

pub start-HasUniqueIds : HasUniqueIds start
start-HasUniqueIds m k a b e = single-HasUniqueIds m k tea a b

pub open_start-HasUniqueIds : HasUniqueIds open_start
open_start-HasUniqueIds m k a b e = single-HasUniqueIds m k tea a b

abbrev pub ok_or {ℓ κ} : {E : Type ℓ} {A : Type κ} → A → Result E A → A
ok_or a (ok b) = b
ok_or a (err e) = a
