-- ===== src/OAuth/Sound/Exchanges.antt =====
-- A request for a grant, an exchange and a revocation keep the tables sound.
use funes_vault.Common.{
  ℕ, String, ◌≡◌, refl, ap, ◌∙◌, subst, Bool, not, ◌&&◌, ◌==◌, Option, none, some, List, [], ◌∷◌,
  inl, inr, Bool-cases, Option-cases, Result-cases, In, here, there, In-append, In-cons,
  update_where_keeps, In-filter, all, has, has_iff, find_sound, length, update_where, nat_eq, ok,
  err, ok_cancel, is_some,
}
use funes_vault.Vault.Enums.{ActorType}
use funes_vault.OAuth.Scopes.{judged-valid}
use funes_vault.OAuth.Store.{
  AuthorizationRequest, Code, Token, Event, Db, Runtime, Error, is_refresh, registration_of,
}
use funes_vault.OAuth.Registrations.{find_registration}
use funes_vault.OAuth.Permissions.{supported_scopes, resolve_requested_scopes}
use funes_vault.OAuth.Tokens.{
  IssueInput, issue_token_pair, issued_tokens, revoke_ids, revoke_found, set_revoked, ids_of,
  Verified, valid, reused, invalid, revoke_token_by_id, revoke_tokens_for_client,
  revoke_tokens_for_source_code, verify_refresh_token, find_token,
}
use funes_vault.OAuth.Provider.{
  Exchanged, exchange_authorization_code, exchange_found, exchange_refresh_token, exchange_verified,
  revoke_token, revoke_row, check_code, consume_code, code_input, refresh_input, narrowed,
  requested_scopes, is_registered_as, find_code, is_served, agrees, returned,
}
use funes_vault.OAuth.Consent.Requests.{AuthorizationParams, authorize}
use funes_vault.OAuth.Sound.Decisions.{IsSupported-of_subset, resolve_requested_scopes-IsSupported}
use funes_vault.OAuth.Steps.{IsSound, IsSupported}

module _ (rt : Runtime) where
  pub authorize-IsSound :
      (db : Db) (client_id : String) (params : AuthorizationParams) (now : ℕ) {url : String}
      {db' : Db}
      → IsSound rt db
      → authorize rt db client_id params now ≡ ok (url, db')
      → IsSound rt db'
  unfolding authorize
  authorize-IsSound db client_id params now s h =
      elim (Result-cases (resolve_requested_scopes params.scopes)) [
        | inr (x, e) ↦ cc (rw e at h)
        | inl (scopes, e) ↦ elim (Bool-cases (is_served rt params.resource)) [
          | inr f ↦ cc (rw (e, f) at h)
          | inl t ↦ elim (Option-cases (find_registration db client_id)) [
            | inl n ↦ cc (rw (e, t, n) at h)
            | inr (g, f) ↦
                subst (λ (x : String × Db). IsSound rt x.1) (ok_cancel (rw (e, t, f) at h))
                  (record {
                    bounded = s.bounded;
                    redirects = s.redirects;
                    requests = λ r l. elim (In-append db.requests l) [
                      | inl k ↦ s.requests r k
                      | inr k ↦ elim (In-cons k) [
                        | inl q ↦
                            ap (λ (y : AuthorizationRequest). all (has supported_scopes) y.scopes) q
                            ∙ resolve_requested_scopes-IsSupported params.scopes e
                        | inr n ↦ elim n [ ]
                      ]
                    ];
                    codes = s.codes;
                    tokens = s.tokens;
                  })
          ]
        ]
      ]

  -- A write to the tokens that keeps their scopes.
  with_tokens :
      {db : Db} {ts : List Token} {es : List Event} {n : ℕ}
      → IsSound rt db
      → ((t : Token) → In t ts → IsSupported t.scopes)
      → IsSound rt (record db { tokens = ts; events = es; issued = n })
  with_tokens s h = record {
    bounded = s.bounded;
    redirects = s.redirects;
    requests = s.requests;
    codes = s.codes;
    tokens = h;
  }

  revoked_tokens :
      (ts : List Token) (q : Token → Bool) (now : ℕ)
      → ((t : Token) → In t ts → IsSupported t.scopes)
      → (t : Token) → In t (update_where q (set_revoked now) ts)
      → IsSupported t.scopes
  revoked_tokens ts q now =
      update_where_keeps (λ (t : Token). IsSupported t.scopes) q (set_revoked now) ts (λ t h. h)

  revoke_ids-IsSound :
      (ids : List String) (e : Event) (now : ℕ) (db : Db)
      → IsSound rt db
      → IsSound rt (revoke_ids ids e now db)
  revoke_ids-IsSound ids e now db s = with_tokens s (revoked_tokens db.tokens _ now s.tokens)

  revoke_found-IsSound :
      (ts : List Token) (e : Token → Event) (now : ℕ) (db : Db)
      → IsSound rt db
      → IsSound rt (revoke_found ts e now db)
  revoke_found-IsSound [] e now db s = s
  revoke_found-IsSound (t ∷ ts) e now db s = revoke_ids-IsSound (ids_of (t ∷ ts)) (e t) now db s

  issued_tokens-IsSupported :
      (n now : ℕ) (input : IssueInput)
      → IsSupported input.scopes
      → (t : Token) → In t (issued_tokens rt n now input)
      → IsSupported t.scopes
  issued_tokens-IsSupported n now input h t (here e) =
      ap (λ (y : Token). all (has supported_scopes) y.scopes) e ∙ h
  issued_tokens-IsSupported n now input h t (there (there l)) = elim l [ ]
  issued_tokens-IsSupported n now input h t (there (here e)) =
      ap (λ (y : Token). all (has supported_scopes) y.scopes) e ∙ h

  issue_token_pair-IsSound :
      (input : IssueInput) (now : ℕ) (db : Db)
      → IsSupported input.scopes
      → IsSound rt db
      → IsSound rt (issue_token_pair rt input now db).1
  issue_token_pair-IsSound input now db h s = with_tokens s (λ t l. elim (In-append db.tokens l) [
    | inl k ↦ s.tokens t k
    | inr k ↦ issued_tokens-IsSupported db.issued now input h t k
  ])

  consume_code-IsSound :
      (id : String) (now : ℕ) (db : Db) → IsSound rt db → IsSound rt (consume_code id now db)
  consume_code-IsSound id now db s = record {
    bounded = s.bounded;
    redirects = s.redirects;
    requests = s.requests;
    codes =
        update_where_keeps (λ (c : Code). IsSupported c.scopes)
          (λ (c : Code). c.id == id && not (is_some c.consumed_at))
          (λ c. record c { consumed_at = some now }) db.codes (λ c h. h) s.codes;
    tokens = s.tokens;
  }

  exchange_found-IsSound :
      (db : Db) (client_id : String) (redirect resource : Option String) (now : ℕ) (o : Option Code)
      → ((c : Code) → o ≡ some c → In c db.codes)
      → IsSound rt db
      → IsSound rt (exchange_found rt db client_id redirect resource now o).1
  unfolding revoke_tokens_for_source_code
  exchange_found-IsSound db client_id redirect resource now none listed s = s
  exchange_found-IsSound db client_id redirect resource now (some c) listed s =
      elim (Bool-cases (is_registered_as (registration_of db c.registration_id) client_id)) [
        | inr f ↦ rw f s
        | inl t ↦ elim (Bool-cases (is_some c.consumed_at)) [
          | inl u ↦ rw (t, u) (revoke_found-IsSound _ _ now db s)
          | inr u ↦ rw (t, u) (last (check_code rt db c redirect resource now))
        ]
      ]
    where
      last :
          (o : Option Error)
          → IsSound rt
              (elim o as (λ _. Exchanged) [
                | some e ↦ (err e, db)
                | none ↦
                    returned (issue_token_pair rt (code_input c) now (consume_code c.id now db))
              ]).1
      last (some e) = s
      last none =
          issue_token_pair-IsSound (code_input c) now (consume_code c.id now db)
            (s.codes c (listed c refl)) (consume_code-IsSound c.id now db s)

  pub exchange_authorization_code-IsSound :
      (db : Db) (client_id code : String) (redirect resource : Option String) (now : ℕ)
      → IsSound rt db
      → IsSound rt (exchange_authorization_code rt db client_id code redirect resource now).1
  unfolding exchange_authorization_code
  exchange_authorization_code-IsSound db client_id code redirect resource now s =
      exchange_found-IsSound db client_id redirect resource now (find_code rt db code)
        (λ c e. (find_sound _ db.codes c e).0) s

  revoke_tokens_for_client-IsSound :
      (client_id reason : String) (actor_type : ActorType) (actor_id : Option String) (now : ℕ)
      (db : Db)
      → IsSound rt db
      → IsSound rt (revoke_tokens_for_client client_id reason actor_type actor_id now db)
  unfolding revoke_tokens_for_client
  revoke_tokens_for_client-IsSound client_id reason actor_type actor_id now db s =
      revoke_found-IsSound _ _ now db s

  exchange_verified-IsSound :
      (db : Db) (client_id : String) (scopes : Option (List String)) (resource : Option String)
      (now : ℕ) (v : Verified)
      → ((t : Token) → v ≡ valid t → In t db.tokens)
      → IsSound rt db
      → IsSound rt (exchange_verified rt db client_id scopes resource now v).1
  exchange_verified-IsSound db client_id scopes resource now invalid listed s = s
  exchange_verified-IsSound db client_id scopes resource now (reused t) listed s =
      revoke_tokens_for_client-IsSound t.client_id "refresh_token_reuse" _ none now db s
  exchange_verified-IsSound db client_id scopes resource now (valid t) listed s =
      let kept = narrowed (requested_scopes scopes t.scopes) t.scopes in
      elim (Bool-cases (is_registered_as (registration_of db t.registration_id) client_id)) [
        | inr f ↦ rw f s
        | inl a ↦
            elim (Bool-cases (nat_eq (length kept) (length (requested_scopes scopes t.scopes)))) [
              | inr f ↦ rw (a, f) s
              | inl b ↦ elim (Bool-cases (is_served rt resource)) [
                | inr f ↦ rw (a, b, f) s
                | inl c ↦ elim (Bool-cases (agrees rt t.resource resource)) [
                  | inr f ↦ rw (a, b, c, f) s
                  | inl d ↦
                      rw (a, b, c, d)
                        (issue_token_pair-IsSound (refresh_input t kept) now
                          (revoke_token_by_id t.id now db)
                          (IsSupported-of_subset t.scopes kept
                            (λ x l.
                              (has_iff t.scopes x).0
                                (In-filter (λ y. has t.scopes y) (requested_scopes scopes t.scopes)
                                  l).1)
                            (s.tokens t (listed t refl)))
                          (with_tokens s (revoked_tokens db.tokens _ now s.tokens)))
                ]
              ]
            ]
      ]

  pub exchange_refresh_token-IsSound :
      (db : Db) (client_id token : String) (scopes : Option (List String))
      (resource : Option String) (now : ℕ)
      → IsSound rt db
      → IsSound rt (exchange_refresh_token rt db client_id token scopes resource now).1
  unfolding exchange_refresh_token verify_refresh_token
  exchange_refresh_token-IsSound db client_id token scopes resource now s =
      exchange_verified-IsSound db client_id scopes resource now
        (verify_refresh_token rt db token now)
        (λ t e.
          (find_sound _ db.tokens t
            (judged-valid db now (find_token rt db token is_refresh) t e).0).0)
        s

  revoke_row-IsSound :
      (o : Option Token) (now : ℕ) (db : Db) → IsSound rt db → IsSound rt (revoke_row o now db)
  revoke_row-IsSound none now db s = s
  revoke_row-IsSound (some t) now db s = elim (Bool-cases (is_some t.revoked_at)) [
    | inl u ↦ rw u s
    | inr u ↦ elim (Bool-cases (is_refresh t.kind)) [
      | inl v ↦ rw (u, v) (revoke_tokens_for_client-IsSound t.client_id _ _ _ now db s)
      | inr v ↦ rw (u, v) (revoke_ids-IsSound (t.id ∷ []) _ now db s)
    ]
  ]

  pub revoke_token-IsSound :
      (db : Db) (client_id token : String) (now : ℕ)
      → IsSound rt db
      → IsSound rt (revoke_token rt db client_id token now)
  unfolding revoke_token
  revoke_token-IsSound db client_id token now s = revoke_row-IsSound _ now db s
