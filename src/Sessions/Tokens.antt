-- ===== src/Sessions/Tokens.antt =====
-- src/dubbing_pipeline/api/auth/refresh_tokens.py, and `create_refresh_token` and `decode_token` of
-- src/dubbing_pipeline/api/security.py. The clock is read once for a call, and the random `jti` of
-- a new token is an argument. A claim that a token lacks is the empty text or 0. An error comes
-- with the table that the call leaves.
use dubbing_pipeline.Base.{
  ℕ, ◌+◌, ◌*◌, ◌≡◌, ◌<◌, ◌≤◌, Bool, false, not, ◌&&◌, ◌||◌, Option, none, some, Text, codes,
  text_eq, is_empty, ltb, ◌==◌, ◌⊎◌, inl, inr, if◌then◌else◌,
}
use dubbing_pipeline.Sessions.Store.{
  Table, Row, Client, nonempty, put_refresh_token, get_refresh_token, mark_replaced,
  revoke_refresh_token, revoke_all_for_user,
}

pub record Claims : Type 0 where
  pub typ : Text
  pub sub : Text
  pub iat : ℕ
  pub exp : ℕ
  pub jti : Text

-- PyJWT under the server's secret, and SHA-256 in hexadecimal. `decode now` refuses a token that is
-- forged or whose `exp` has come; what `encode` made it reads back.
pub record Jwt : Type 0 where
  pub encode : Claims → Text
  pub decode : ℕ → Text → Option Claims
  pub sha256 : Text → Text
  pub decode-encode :
      (now : ℕ) (c : Claims) → c.iat ≤ now → now < c.exp → decode now (encode c) ≡ some c

pub data TokenError : Type 0 where
  -- the two 401 answers of `decode_token`
  invalid_token invalid_token_type : TokenError
  -- the texts of `RefreshTokenError`
  missing_jti invalid_claims unknown replay revoked mismatch expired : TokenError

pub record RotateResult : Type 0 where
  pub access_sub : Text
  pub old_jti : Text
  pub new_refresh_token : Text

unfoldable pub decoded : Text → Option Claims → TokenError ⊎ Claims
decoded expected_typ none = inl invalid_token
decoded expected_typ (some claims) =
    if text_eq claims.typ expected_typ then inr claims else inl invalid_token_type

-- `used_ip or created_ip`
abbrev pub first_ip : Option Text → Option Text → Option Text
first_ip none created_ip = created_ip
first_ip (some u) created_ip = if is_empty u then created_ip else some u

-- The metadata that a rotation hands to the new row.
abbrev pub kept_client : Option Text → Row → Client
kept_client used_ip rec = record {
  device_id = nonempty rec.device_id;
  device_name = nonempty rec.device_name;
  created_ip = first_ip used_ip (nonempty rec.created_ip);
  user_agent = nonempty rec.user_agent;
}

abbrev pub was_replaced : Row → Bool
was_replaced rec = elim rec.replaced_by [ none ↦ false | some j ↦ not (is_empty j) ]

module _ (jwt : Jwt) (now : ℕ) where
  unfoldable pub create_refresh_token : Text → ℕ → Text → Text
  create_refresh_token sub days jti =
      jwt.encode (record {
        typ = codes "refresh";
        sub = sub;
        iat = now;
        exp = now + days * 86400;
        jti = jti;
      })

  unfoldable pub decode_token : Text → Text → TokenError ⊎ Claims
  unfolding decoded
  decode_token token expected_typ = decoded expected_typ (jwt.decode now token)

  -- `int(data.get("exp") or 0)`, or the days when that is not positive
  unfoldable pub expiry : ℕ → Claims → ℕ
  expiry days claims = if claims.exp == 0 then now + days * 86400 else claims.exp

  unfoldable pub store_issued :
      Table → Text → ℕ → Client → Text → TokenError ⊎ Claims → Table × (TokenError ⊎ Text)
  unfolding expiry
  store_issued t user_id days client tok (inl e) = (t, inl e)
  store_issued t user_id days client tok (inr claims) =
      if is_empty claims.jti then (t, inl missing_jti) else (
        put_refresh_token t claims.jti user_id (jwt.sha256 tok) now (expiry days claims) client,
        inr tok,
      )

  unfoldable pub issue_and_store_refresh_token :
      Table → Text → ℕ → Client → Text → Table × (TokenError ⊎ Text)
  unfolding store_issued
  issue_and_store_refresh_token t user_id days client fresh =
      let tok = create_refresh_token user_id days fresh in
      store_issued t user_id days client tok (decode_token tok (codes "refresh"))

  unfoldable pub replace_old :
      Table → Text → Text → Text → TokenError ⊎ Claims → Table × (TokenError ⊎ RotateResult)
  replace_old t sub jti tok (inl e) = (t, inl e)
  replace_old t sub jti tok (inr new_claims) = (
    mark_replaced t now jti new_claims.jti,
    inr (record { access_sub = sub; old_jti = jti; new_refresh_token = tok }),
  )

  unfoldable pub after_issue :
      Text → Text → Table × (TokenError ⊎ Text) → Table × (TokenError ⊎ RotateResult)
  unfolding replace_old
  after_issue sub jti (t, inl e) = (t, inl e)
  after_issue sub jti (t, inr tok) = replace_old t sub jti tok (decode_token tok (codes "refresh"))

  unfoldable pub rotate_row :
      Table
      → Text
      → ℕ
      → Option Text
      → Text
      → Claims
      → Option Row
      → Table × (TokenError ⊎ RotateResult)
  unfolding after_issue
  rotate_row t token days used_ip fresh claims none = (t, inl unknown)
  rotate_row t token days used_ip fresh claims (some rec) =
      if rec.revoked
      then if was_replaced rec
        then (revoke_all_for_user t now claims.sub, inl replay)
        else (t, inl revoked)
      else if not (text_eq rec.token_hash (jwt.sha256 token))
      then (revoke_all_for_user t now claims.sub, inl mismatch)
      else if not (rec.expires_at == 0) && ltb rec.expires_at now
      then (revoke_refresh_token t now claims.jti, inl expired)
      else after_issue claims.sub claims.jti
          (issue_and_store_refresh_token t claims.sub days (kept_client used_ip rec) fresh)

  unfoldable pub rotate_claims :
      Table
      → Text
      → ℕ
      → Option Text
      → Text
      → TokenError ⊎ Claims
      → Table × (TokenError ⊎ RotateResult)
  unfolding rotate_row
  rotate_claims t token days used_ip fresh (inl e) = (t, inl e)
  rotate_claims t token days used_ip fresh (inr claims) =
      if is_empty claims.sub || is_empty claims.jti
      then (t, inl invalid_claims)
      else rotate_row t token days used_ip fresh claims (get_refresh_token t claims.jti)

  unfoldable pub rotate_refresh_token :
      Table → Text → ℕ → Option Text → Text → Table × (TokenError ⊎ RotateResult)
  unfolding rotate_claims
  rotate_refresh_token t token days used_ip fresh =
      rotate_claims t token days used_ip fresh (decode_token token (codes "refresh"))

  revoke_decoded : Table → TokenError ⊎ Claims → Table
  revoke_decoded t (inl e) = t
  revoke_decoded t (inr claims) =
      if is_empty claims.jti then t else revoke_refresh_token t now claims.jti

  unfoldable pub revoke_refresh_token_best_effort : Table → Text → Table
  unfolding revoke_decoded
  revoke_refresh_token_best_effort t token = revoke_decoded t (decode_token token (codes "refresh"))
