-- ===== src/Ui/Session/RoundTrip.antt =====
-- A login comes back as the session that it started: encryptSession, decryptSession, buildCompleteURL,
-- handleComplete and getSession of src/ui/auth.go.
use mogenius_renovate_operat.Prelude.{
  ℕ, ◌≤◌, true, false, List, some, [], ◌∷◌, ◌++◌, ◌≡◌, ◌≢◌, refl, sym, ap, ◌∙◌, if◌then◌else◌,
  arith, ltb, length, take, dropped, take-++, dropped-++, length-++-le,
}
use mathlib.Core.Path.{subst}
use mogenius_renovate_operat.Prelude.Text.{Text, text, ◌==◌}
use mogenius_renovate_operat.Prelude.Int.{ℤ, pos, ltb_ℤ, ◌+ℤ◌}
use mogenius_renovate_operat.Prelude.Assoc.{lookup}
use mogenius_renovate_operat.Kube.{other_error, Result, ok, err, pure}
use mogenius_renovate_operat.Kube.Laws.{continue-ok}
use mogenius_renovate_operat.Http.{value_of}
use mogenius_renovate_operat.Ui.Access.{SessionData}
use mogenius_renovate_operat.Ui.Session.{
  Crypto, Cookie, AuthRequest, AuthReply, completed_session, opened, session_of, sealed, unexpired,
  session_in, is_https, new_session, encrypt_session, decrypt_session, get_session,
  build_complete_url, handle_complete,
}

-- What the Go packages promise.
pub record CryptoLaws {W : Type 0} (x : Crypto W) : Type 0 where
  pub unmarshal_marshal :
      (session : SessionData) (plaintext : Text)
      → x.marshal session ≡ ok plaintext
      → x.unmarshal plaintext ≡ some session
  pub open_seal :
      (key nonce plaintext : Text)
      → length nonce ≡ x.nonce_size
      → x.open_sealed key nonce (x.seal key nonce plaintext) ≡ some plaintext
  pub decode_encode : (bytes : Text) → x.decode (x.encode bytes) ≡ some bytes
  pub encode_empty : (bytes : Text) → x.encode bytes ≡ [] → bytes ≡ []
  pub random_length :
      (n : ℕ) (w : W) (bytes : Text) → (x.random_bytes n w).0 ≡ ok bytes → length bytes ≡ n
  pub nonce_size_positive : 1 ≤ x.nonce_size

no_nonce : (nonce cipher : Text) (n : ℕ) → length nonce ≡ n → 1 ≤ n → nonce ++ cipher ≢ []
no_nonce [] cipher n h k e = ground (arith, h)
no_nonce (b ∷ nonce) cipher n h k e = cc

not_empty : (s : Text) → s ≢ [] → (s == []) ≡ false
unfolding ◌==◌
not_empty [] h = absurd (h refl)
not_empty (c ∷ s) h = refl

module _ {W : Type 0} (x : Crypto W) (laws : CryptoLaws x) (key : Text) where
  opened-sealed :
      (session : SessionData) (nonce plaintext : Text)
      → x.marshal session ≡ ok plaintext
      → length nonce ≡ x.nonce_size
      → decrypt_session x key (x.encode (nonce ++ x.seal key nonce plaintext)) ≡ ok session
  unfolding decrypt_session
  opened-sealed session nonce plaintext m n =
      let cipher = x.seal key nonce plaintext in
      let long : ltb (length (nonce ++ cipher)) x.nonce_size ≡ false =
        ground (arith, length-++-le nonce cipher, n) in
      let front : take x.nonce_size (nonce ++ cipher) ≡ nonce =
        ap (λ k. take k (nonce ++ cipher)) (sym n) ∙ take-++ nonce cipher in
      let back : dropped x.nonce_size (nonce ++ cipher) ≡ cipher =
        ap (λ k. dropped k (nonce ++ cipher)) (sym n) ∙ dropped-++ nonce cipher in
      rw
        (
          laws.decode_encode (nonce ++ cipher),
          opened,
          long,
          front,
          back,
          laws.open_seal key nonce plaintext n,
          session_of,
          laws.unmarshal_marshal session plaintext m,
        )
        refl

  sealed-opens :
      (session : SessionData) (r : Result Text) (w : W) {token : Text}
      → x.marshal session ≡ r
      → (sealed x key r w).0 ≡ ok token
      → (decrypt_session x key token ≡ ok session) × (token ≢ [])
  unfolding sealed
  sealed-opens session (err e) w m h = cc
  sealed-opens session (ok plaintext) w {token} m h =
      let got = x.random_bytes x.nonce_size w in
      let (nonce, g, k) =
        continue-ok got.0 (λ (nonce : Text). pure (x.encode (nonce ++ x.seal key nonce plaintext)))
          got.1 h in
      let made : x.encode (nonce ++ x.seal key nonce plaintext) ≡ token = cc in
      let n = laws.random_length x.nonce_size w nonce g in
      (
        subst (λ t. decrypt_session x key t ≡ ok session) made
            (opened-sealed session nonce plaintext m n),
        λ empty.
            no_nonce nonce (x.seal key nonce plaintext) x.nonce_size n laws.nonce_size_positive
              (laws.encode_empty _ (made ∙ empty)),
      )

  -- A session that encryptSession encrypts is what decryptSession gives back, under the same key.
  pub decrypt_session-encrypt_session :
      (session : SessionData) (w : W) (token : Text)
      → (encrypt_session x key session w).0 ≡ ok token
      → (decrypt_session x key token ≡ ok session) × (token ≢ [])
  unfolding encrypt_session
  decrypt_session-encrypt_session session w token h =
      sealed-opens session (x.marshal session) w refl h

  started_token :
      (email name : Text) (opt : SessionData → SessionData) (w : W) (url : Text)
      → (build_complete_url x key email name opt w).0 ≡ ok url
      → (token : Text) × (url ≡ text "/auth/complete?s=" ++ x.query_escape token)
        × (decrypt_session x key token ≡ ok (opt (new_session x key email name w)))
        × (token ≢ [])
  unfolding build_complete_url
  started_token email name opt w url h =
      let session = opt (new_session x key email name w) in
      let got = encrypt_session x key session w in
      let (token, g, k) =
        continue-ok got.0
          (λ (encrypted : Text). pure (text "/auth/complete?s=" ++ x.query_escape encrypted)) got.1
          h in
      let made : text "/auth/complete?s=" ++ x.query_escape token ≡ url = cc in
      let (opens, nonempty) = decrypt_session-encrypt_session session w token g in
      (token, sym made, opens, nonempty)

  pub build_complete_url-token :
      (email name : Text) (opt : SessionData → SessionData) (w : W) (url : Text)
      → (build_complete_url x key email name opt w).0 ≡ ok url
      → (token : Text) × (url ≡ text "/auth/complete?s=" ++ x.query_escape token)
        × (decrypt_session x key token ≡ ok (opt (new_session x key email name w)))
  build_complete_url-token email name opt w url h =
      let (token, place, opens, nonempty) = started_token email name opt w url h in
      (token, place, opens)

  completed-lem :
      (r : AuthRequest) (session : SessionData) (token : Text)
      → value_of (text "s") r.query ≡ token
      → token ≢ []
      → decrypt_session x key token ≡ ok session
      → handle_complete x key r ≡ completed_session (is_https r) token
  unfolding handle_complete
  completed-lem r session token v nonempty opens =
      rw (v, handle_complete, not_empty token nonempty, opens)
        (ap (completed_session (is_https r)) v)

  -- A login that is completed comes back as the session that it started. The URL that the callback
  -- redirects to carries a token; the request that follows it is answered 200 with the token as its
  -- session cookie; and a request with that cookie has exactly the session that was started, with what
  -- the options add, until 24 hours after the callback, and none later. No option changes the expiry.
  pub get_session-build_complete_url :
      (email name : Text) (opt : SessionData → SessionData) (w : W) (url : Text)
      → ((session : SessionData) → (opt session).expiry ≡ session.expiry)
      → (build_complete_url x key email name opt w).0 ≡ ok url
      → let started : SessionData = record {
        email = email;
        name = name;
        expiry = x.unix w +ℤ pos 86400;
        access_token = [];
        groups = [];
      } in
        (token : Text) × (url ≡ text "/auth/complete?s=" ++ x.query_escape token)
        × ((r : AuthRequest)
            → value_of (text "s") r.query ≡ token
            → ((handle_complete x key r).status ≡ 200)
              × (others : List Cookie) × ((handle_complete x key r).cookies
                  ≡ record {
                    name = text "renovate_session";
                    value = token;
                    max_age = pos 86400;
                    http_only = true;
                    secure = is_https r;
                    same_site_lax = true;
                  }
                    ∷ others))
        × ((now : ℤ) (r : AuthRequest)
            → lookup (text "renovate_session") r.cookies ≡ some token
            → get_session x key now r ≡ (
                if ltb_ℤ (x.unix w +ℤ pos 86400) now
                then err (other_error (text "session expired"))
                else ok (opt started)))
  unfolding get_session
  get_session-build_complete_url email name opt w url kept h =
      let (token, place, opens, nonempty) = started_token email name opt w url h in
      let expires = kept (new_session x key email name w) in
      (
        token,
        place,
        λ r v.
            let same = completed-lem r _ token v nonempty opens in
            (ap (λ (a : AuthReply). a.status) same, _, ap (λ (a : AuthReply). a.cookies) same),
        λ now r cookie. rw (cookie, session_in, opens, unexpired, expires) refl,
      )
