-- ===== src/Sessions/Live.antt =====
-- A refresh token that is good for a rotation, and what the rotation leaves in the table.
use Prim.Native.Nat.{◌<◌, ◌≤◌}
use dubbing_pipeline.Base.{
  ℕ, ◌+◌, ◌*◌, ◌≡◌, refl, ap, ◌∙◌, arith, Bool, true, false, not, ◌&&◌, [], ◌∷◌, Option, none, some,
  Text, text_eq, codes, text_eq_refl, text_eq_iff, Bool-cases, inl, inr, get, get-put, is_empty,
  ltb, ◌==◌,
}
use dubbing_pipeline.Sessions.Store.{
  Row, Table, put_refresh_token, get_refresh_token, update_where, replace_row, mark_replaced,
  revoke_all_for_user, active_sessions, get-update_where, updated, nonempty, clipped,
}
use dubbing_pipeline.Sessions.Tokens.{
  Claims, Jwt, replay, decoded, expiry, store_issued, replace_old, after_issue, rotate_row,
  rotate_claims, create_refresh_token, decode_token, issue_and_store_refresh_token,
  rotate_refresh_token, kept_client, first_ip, was_replaced,
}

-- After `revoke_all_for_user` the user has no active session.
pub no_active_session :
    (t : Table) (now later : ℕ) (u : Text)
    → active_sessions (revoke_all_for_user t now u) later u ≡ []
unfolding revoke_all_for_user update_where active_sessions
no_active_session [] now later u = refl
no_active_session ((k, r) ∷ t) now later u = elim (Bool-cases (text_eq r.user_id u)) [
  | inl b ↦ rw (b, b, no_active_session t now later u)
  | inr b ↦ rw (b, b, no_active_session t now later u)
]

text_eq_sym : (a b : Text) → text_eq a b ≡ false → text_eq b a ≡ false
text_eq_sym a b h = ground (arith, text_eq_iff a b, text_eq_iff b a)

-- A token whose row is revoked and has a successor is a replay.
pub rotate_replaced :
    (jwt : Jwt) (now : ℕ) (t : Table) (token : Text) (days : ℕ) (ip : Option Text) (fresh : Text)
    (claims : Claims) (r : Row)
    → jwt.decode now token ≡ some claims
    → text_eq claims.typ (codes "refresh") ≡ true
    → is_empty claims.sub ≡ false
    → is_empty claims.jti ≡ false
    → get t claims.jti ≡ some r
    → r.revoked ≡ true
    → was_replaced r ≡ true
    → rotate_refresh_token jwt now t token days ip fresh
      ≡ (revoke_all_for_user t now claims.sub, inl replay)
unfolding rotate_refresh_token rotate_claims rotate_row get_refresh_token decode_token decoded
rotate_replaced jwt now t token days ip fresh claims r d typ sub jti row revoked_ replaced =
    rw (d, typ, sub, jti, row, revoked_, replaced) refl

nonempty-nonempty : (o : Option Text) → nonempty (nonempty o) ≡ nonempty o
nonempty-nonempty none = refl
nonempty-nonempty (some []) = refl
nonempty-nonempty (some (c ∷ s)) = refl

clipped-nonempty : (o : Option Text) → clipped (nonempty o) ≡ clipped o
clipped-nonempty none = refl
clipped-nonempty (some []) = refl
clipped-nonempty (some (c ∷ s)) = refl

nonempty-first_ip :
    (u o : Option Text) → nonempty (first_ip u (nonempty o)) ≡ nonempty (first_ip u o)
nonempty-first_ip none o = nonempty-nonempty o
nonempty-first_ip (some []) o = nonempty-nonempty o
nonempty-first_ip (some (c ∷ s)) o = refl

module _ (jwt : Jwt) (now : ℕ) (t : Table) (token : Text) (days : ℕ) (used_ip : Option Text)
    (fresh : Text) where
  -- The token is genuine and the table's row for it still live; the new token's name is unused.
  pub record Live (claims : Claims) (rec : Row) : Type 0 where
    pub genuine : jwt.decode now token ≡ some claims
    pub refresh : text_eq claims.typ (codes "refresh") ≡ true
    pub has_sub : is_empty claims.sub ≡ false
    pub has_jti : is_empty claims.jti ≡ false
    pub row : get t claims.jti ≡ some rec
    pub unrevoked : rec.revoked ≡ false
    pub hashed : text_eq rec.token_hash (jwt.sha256 token) ≡ true
    pub in_time : now ≤ rec.expires_at
    pub some_days : 0 < days
    pub named : is_empty fresh ≡ false
    pub unused : text_eq claims.jti fresh ≡ false

  new_claims : Text → Claims
  new_claims sub = record {
    typ = codes "refresh";
    sub = sub;
    iat = now;
    exp = now + days * 86400;
    jti = fresh;
  }

  decode_token-create_refresh_token :
      (sub : Text)
      → 0 < days
      → decode_token jwt now (create_refresh_token jwt now sub days fresh) (codes "refresh")
        ≡ inr (new_claims sub)
  unfolding decode_token decoded create_refresh_token new_claims text_eq
  decode_token-create_refresh_token sub h =
      rw (jwt.decode-encode now (new_claims sub) (omega arith) (omega arith)) refl

  abbrev pub new_token : Text → Text
  new_token sub = create_refresh_token jwt now sub days fresh

  pub issued : Claims → Row → Table
  issued claims rec =
      put_refresh_token t fresh claims.sub (jwt.sha256 (new_token claims.sub)) now
        (now + days * 86400) (kept_client used_ip rec)

  issue-Live :
      (claims : Claims) (rec : Row)
      → Live claims rec
      → issue_and_store_refresh_token jwt now t claims.sub days (kept_client used_ip rec) fresh
        ≡ (issued claims rec, inr (new_token claims.sub))
  unfolding issued issue_and_store_refresh_token store_issued new_claims expiry
  issue-Live claims rec l =
      rw (decode_token-create_refresh_token claims.sub l.some_days, l.named, later) refl
    where
      later : (now + days * 86400 == 0) ≡ false
      later = ground (arith, l.some_days)

  replace-Live :
      (claims : Claims) (rec : Row)
      → Live claims rec
      → (t' : Table)
      → after_issue jwt now claims.sub claims.jti (t', inr (new_token claims.sub)) ≡ (
        mark_replaced t' now claims.jti fresh,
        inr (record {
          access_sub = claims.sub;
          old_jti = claims.jti;
          new_refresh_token = new_token claims.sub;
        }),
      )
  unfolding after_issue replace_old new_claims
  replace-Live claims rec l t' = rw (decode_token-create_refresh_token claims.sub l.some_days) refl

  decode_token-Live :
      (claims : Claims) (rec : Row)
      → Live claims rec
      → decode_token jwt now token (codes "refresh") ≡ inr claims
  unfolding decode_token decoded
  decode_token-Live claims rec l = rw (l.genuine, l.refresh) refl

  pub rotate-Live :
      (claims : Claims) (rec : Row)
      → Live claims rec
      → rotate_refresh_token jwt now t token days used_ip fresh ≡ (
        mark_replaced (issued claims rec) now claims.jti fresh,
        inr (record {
          access_sub = claims.sub;
          old_jti = claims.jti;
          new_refresh_token = new_token claims.sub;
        }),
      )
  unfolding rotate_refresh_token rotate_claims rotate_row get_refresh_token issued
  rotate-Live claims rec l =
      rw
        (
          decode_token-Live claims rec l,
          l.has_sub,
          l.has_jti,
          l.row,
          l.unrevoked,
          l.hashed,
          late,
          issue-Live claims rec l,
        )
        (replace-Live claims rec l (issued claims rec))
    where
      late : (not (rec.expires_at == 0) && ltb rec.expires_at now) ≡ false
      late = ground (arith, l.in_time)

  get-issued :
      (claims : Claims) (rec : Row) (k : Text)
      → text_eq fresh k ≡ false
      → get (issued claims rec) k ≡ get t k
  unfolding issued put_refresh_token
  get-issued claims rec k new = simp (get-put, new)

  pub old_row :
      (claims : Claims) (rec : Row)
      → Live claims rec
      → get (mark_replaced (issued claims rec) now claims.jti fresh) claims.jti
        ≡ some (replace_row now fresh rec)
  unfolding mark_replaced
  old_row claims rec l =
      get-update_where test (replace_row now fresh) (issued claims rec) claims.jti
      ∙ ap (updated test (replace_row now fresh) claims.jti)
          (get-issued claims rec claims.jti (text_eq_sym claims.jti fresh l.unused) ∙ l.row)
      ∙ simp (text_eq_refl)
    where
      test : Text → Row → Bool
      test k r = text_eq k claims.jti

  pub other_row :
      (claims : Claims) (rec : Row) (k : Text)
      → text_eq claims.jti k ≡ false
      → text_eq fresh k ≡ false
      → get (mark_replaced (issued claims rec) now claims.jti fresh) k ≡ get t k
  unfolding mark_replaced
  other_row claims rec k old new =
      get-update_where test (replace_row now fresh) (issued claims rec) k
      ∙ untouched (get (issued claims rec) k)
      ∙ get-issued claims rec k new
    where
      test : Text → Row → Bool
      test k r = text_eq k claims.jti

      untouched : (o : Option Row) → updated test (replace_row now fresh) k o ≡ o
      untouched none = refl
      untouched (some r) = simp (text_eq_sym claims.jti k old)

  abbrev pub new_row : Claims → Row → Row
  new_row claims rec = record {
    user_id = claims.sub;
    token_hash = jwt.sha256 (new_token claims.sub);
    created_at = now;
    expires_at = now + days * 86400;
    revoked = false;
    replaced_by = none;
    last_used_at = none;
    device_id = nonempty rec.device_id;
    device_name = nonempty rec.device_name;
    created_ip = nonempty (first_ip used_ip rec.created_ip);
    last_ip = nonempty (first_ip used_ip rec.created_ip);
    user_agent = clipped rec.user_agent;
  }

  pub new_row_lem :
      (claims : Claims) (rec : Row)
      → Live claims rec
      → get (mark_replaced (issued claims rec) now claims.jti fresh) fresh
        ≡ some (new_row claims rec)
  unfolding mark_replaced issued put_refresh_token
  new_row_lem claims rec l =
      get-update_where test (replace_row now fresh) (issued claims rec) fresh
      ∙ simp (
        get-put,
        text_eq_refl,
        text_eq_sym claims.jti fresh l.unused,
        nonempty-nonempty,
        clipped-nonempty,
        nonempty-first_ip,
      )
    where
      test : Text → Row → Bool
      test k r = text_eq k claims.jti
