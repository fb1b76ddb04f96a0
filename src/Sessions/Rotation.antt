-- ===== src/Sessions/Rotation.antt =====
-- A refresh token is good for one rotation: what a rotation leaves in the table, and what showing
-- the old token again does.
use dubbing_pipeline.Base.{
  ℕ, ◌≡◌, refl, ap, false, not, [], Option, some, Text, text_eq, inl, inr, get,
}
use dubbing_pipeline.Sessions.Store.{Row, Table, replace_row, mark_replaced, active_sessions}
use dubbing_pipeline.Sessions.Tokens.{
  Claims, Jwt, replay, create_refresh_token, rotate_refresh_token,
}
use dubbing_pipeline.Sessions.Live.{
  Live, no_active_session, rotate_replaced, rotate-Live, old_row, new_row_lem, other_row, new_row,
  issued,
}

module _ (jwt : Jwt) (now : ℕ) (t : Table) (token : Text) (days : ℕ) (used_ip : Option Text)
    (fresh : Text) where
  -- A live token rotates to a new name that was not its own, for a day or more: the caller gets a
  -- new token. The old row is revoked and names its successor, the new row is live under the same
  -- user with the device of the old one, and every other row is untouched.
  pub rotate_refresh_token_lem :
      (claims : Claims) (rec : Row)
      → Live jwt now t token days used_ip fresh claims rec
      → let t' = (rotate_refresh_token jwt now t token days used_ip fresh).0 in
        ((rotate_refresh_token jwt now t token days used_ip fresh).1
          ≡ inr (record {
            access_sub = claims.sub;
            old_jti = claims.jti;
            new_refresh_token = create_refresh_token jwt now claims.sub days fresh;
          }))
        × (get t' claims.jti ≡ some (replace_row now fresh rec))
        × (get t' fresh ≡ some (new_row jwt now t token days used_ip fresh claims rec))
        × ((k : Text) → text_eq claims.jti k ≡ false → text_eq fresh k ≡ false → get t' k ≡ get t k)
  rotate_refresh_token_lem claims rec l =
      rw (rotate-Live jwt now t token days used_ip fresh claims rec l) (
        refl,
        old_row jwt now t token days used_ip fresh claims rec l,
        new_row_lem jwt now t token days used_ip fresh claims rec l,
        other_row jwt now t token days used_ip fresh claims rec,
      )

  -- A refresh token serves once. When a live token has been rotated to a new name that was not its
  -- own, for a day or more, whoever shows it again while it still decodes gets the replay error,
  -- and its user has no active session left.
  pub refused_after_rotation :
      (claims : Claims) (rec : Row)
      → Live jwt now t token days used_ip fresh claims rec
      → (later days' : ℕ) (ip : Option Text) (fresh' : Text) → jwt.decode later token ≡ some claims
      → let t' = (rotate_refresh_token jwt now t token days used_ip fresh).0 in
        let again = rotate_refresh_token jwt later t' token days' ip fresh' in
        (again.1 ≡ inl replay) × (active_sessions again.0 later claims.sub ≡ [])
  refused_after_rotation claims rec l later days' ip fresh' d =
      rw
        (
          rotate-Live jwt now t token days used_ip fresh claims rec l,
          rotate_replaced jwt later
              (mark_replaced (issued jwt now t token days used_ip fresh claims rec) now claims.jti
                fresh)
              token days' ip fresh' claims (replace_row now fresh rec) d l.refresh l.has_sub
              l.has_jti (old_row jwt now t token days used_ip fresh claims rec l) refl
              (ap not l.named),
        )
        (
          refl,
          no_active_session
              (mark_replaced (issued jwt now t token days used_ip fresh claims rec) now claims.jti
                fresh)
              later later claims.sub,
        )
