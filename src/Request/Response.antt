-- ===== src/Request/Response.antt =====
-- handler/handler.go: every request is answered, a loop of CNAME records too.
use redins.Prelude.{
  ◌∙◌, List, [], ◌∷◌, ◌++◌, ◌==◌, Bool-cases, ℤ, Text, ℕ, ◌≡◌, refl, ◌⊎◌, inl, inr, ◌&&◌, Option,
  none, some,
}
use redins.Zone.{Zone}
use redins.Answers.{empty}
use redins.Backend.{
  Panics, Calm, Backend, rcode_success, rcode_server_failure, rcode_name_error, rcode_not_auth,
}
use redins.Request.Aliases.{IsCode}
use redins.Request.Chain.{SameRequest, Followed}
use redins.Request.Loop.{follow-Followed}
use redins.Reply.{Context, Signing}
use redins.Request.{
  follow, sign_all, secure, in_zone, handle_request, answer_request, with_signed, after_signing,
}
use redins.Dnssec.Fitting.{Fits, Is, sign-Is}
use redins.Dnssec.{nsec}
use redins.Message.{Rr}

module _ (b : Backend) (fqdn : Text → Text) (max_ttl : ℤ) (signing : Signing) where
  abbrev Result : Type 0
  Result = Option (b.State × Context × ℕ)

  -- A response to a request, with one of the five codes.
  abbrev pub Responds : Context → Result → Type 0
  Responds c o =
      (s : b.State) × (d : Context) × (rcode : ℕ) × (o ≡ some (s, d, rcode))
      × (IsCode rcode ⊎ (rcode ≡ rcode_not_auth))
      × SameRequest c d

  same-Responds : (c c' : Context) (o : Result) → SameRequest c c' → Responds c' o → Responds c o
  same-Responds c c' o (a, k, d, e, f) (s, x, rcode, q, code, (a', k', d', e', f')) =
      (s, x, rcode, q, code, (a ∙ a', k ∙ k', d ∙ d', e ∙ e', f ∙ f'))

  module _ (fitting : (zone : Zone) → Fits (signing.keys zone).zsk) where
    with_signed-Is :
        (c : Context) (x y z : Option (List Rr))
        → Is x
        → Is y
        → Is z
        → (d : Context) × (with_signed b fqdn max_ttl signing c x y z ≡ some d) × SameRequest c d
    with_signed-Is c none y z (a, e) k l = absurd (cc)
    with_signed-Is c (some x) none z h (a, e) l = absurd (cc)
    with_signed-Is c (some x) (some y) none h k (a, e) = absurd (cc)
    with_signed-Is c (some x) (some y) (some z) h k l = (_, refl, (refl, refl, refl, refl, refl))

    sign_all-Responds :
        (zone : Zone) (s : b.State) (c : Context) (rcode : ℕ)
        → IsCode rcode
        → Responds c
            (after_signing b fqdn max_ttl signing s rcode (sign_all b fqdn max_ttl signing zone c))
    unfolding sign_all
    sign_all-Responds zone s c rcode code =
        let signs =
          sign-Is signing.crypto c.raw_name (signing.keys zone) (fitting zone) signing.order in
        let (d, e, same) =
          with_signed-Is c _ _ _ (signs c.answer) (signs c.authority) (signs c.additional) in
        rw (sign_all, e) (s, d, rcode, refl, inl code, same)

    secure-Responds :
        (zone : Zone) (s : b.State) (c d : Context) (rcode : ℕ)
        → IsCode rcode
        → SameRequest c d
        → Responds c (secure b fqdn max_ttl signing zone (some (s, d, rcode)))
    unfolding secure
    secure-Responds zone s c d rcode code same =
        let denied : Context = record d { authority = d.authority ++ nsec d.raw_name zone ∷ [] } in
        elim (Bool-cases (d.do_bit && d.auth && zone.config.dns_sec)) [
          | inr plain ↦ rw plain (s, d, rcode, refl, inl code, same)
          | inl signed ↦ rw signed (elim (Bool-cases (rcode == rcode_success)) [
            | inl success ↦ rw success (elim (Bool-cases (empty d.answer)) [
              | inl e ↦
                  rw e (same-Responds c denied _ same (sign_all-Responds zone s denied rcode code))
              | inr e ↦ rw e (same-Responds c d _ same (sign_all-Responds zone s d rcode code))
            ])
            | inr failure ↦ rw failure (elim (Bool-cases (rcode == rcode_name_error)) [
              | inl name_error ↦ rw name_error (
                  same-Responds c denied _ same
                    (sign_all-Responds zone s denied rcode_success refl))
              | inr other ↦
                  rw other (same-Responds c d _ same (sign_all-Responds zone s d rcode code))
            ])
          ])
        ]

    module _ (calm : Calm b) where
      no_panic : Panics b ⊥
      no_panic = (
        λ s name source rrset h. let (ips, e) = calm.0 s name source rrset in absurd cc,
        λ s zone_name h. let (loaded, e) = calm.1 s zone_name in absurd cc,
      )

      in_zone-Responds :
          (zone_name : Text) (c : Context) (o : Option (b.State × Option Zone))
          → (o ≡ none → ⊥)
          → Responds c (in_zone b fqdn max_ttl signing zone_name c o)
      unfolding in_zone
      in_zone-Responds zone_name c none h = absurd (h refl)
      in_zone-Responds zone_name c (some (s, none)) h =
          (s, c, rcode_server_failure, refl, inl refl, (refl, refl, refl, refl, refl))
      in_zone-Responds zone_name c (some (s, some zone)) h =
          secured (follow b fqdn max_ttl signing zone_name zone 11 s c c.raw_name) (
            follow-Followed b ⊥ no_panic fqdn max_ttl signing zone_name zone Unit (λ h. tt) 11 s c
              c.raw_name (λ h. tt) (λ h. tt))
        where
          secured :
              (o : Result)
              → Followed b ⊥ no_panic fqdn max_ttl signing Unit c.raw_name c o
              → Responds c (secure b fqdn max_ttl signing zone o)
          secured none h = absurd h
          secured (some (s', d, rcode)) (code, same, grows) =
              secure-Responds zone s' c d rcode code same

      pub answer_request-Responds :
          (s : b.State) (c : Context) → Responds c (answer_request b fqdn max_ttl signing s c)
      unfolding answer_request
      answer_request-Responds s c = elim (Bool-cases (empty (b.find_zone c.raw_name))) [
        | inl nowhere ↦
            rw (nowhere, answer_request)
              (s, c, rcode_not_auth, refl, inr refl, (refl, refl, refl, refl, refl))
        | inr somewhere ↦
            rw (somewhere, answer_request)
              (in_zone-Responds (b.find_zone c.raw_name) c (b.load_zone s (b.find_zone c.raw_name))
                (no_panic.1 s (b.find_zone c.raw_name)))
      ]

      -- HandleRequest, its log aside, responds to every request, where no filter, no loading of a
      -- zone and no lookup of the source panics and the private keys of the zones are of the types
      -- of their algorithms, with one of the codes of no error, server failure, name error, not
      -- implemented and not authoritative, and leaves the request as it is.
      pub handle_request-Responds :
          (s : b.State) (c : Context) → Responds c (handle_request b fqdn max_ttl signing s c)
      unfolding handle_request
      handle_request-Responds s c =
          rw (calm.2 c.source_ip, handle_request) (answer_request-Responds s c)
